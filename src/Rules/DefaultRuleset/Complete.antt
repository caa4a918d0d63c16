-- ===== src/Rules/DefaultRuleset/Complete.antt =====
-- internal/rules/defaultruleset.go: what `Lookup` finds in a table that has compiled.
use mathlib.Core.Path.{subst}
use mitmania.Prelude.{
  ℕ, ◌+◌, ◌-◌, ◌*◌, ◌^◌, ◌≤◌, ◌<◌, ◌≡◌, refl, Bool, true, false, some, List, if◌then◌else◌, Bytes,
  length, ◌⊎◌, inl, inr, In-map, sym, ap, ◌∙◌, arith,
}
use mitmania.Rules.MaskedKey.{MaskedKey, contains_bytes, clear_bits, is_v4}
use mitmania.Rules.MaskedKey.Prefix.{AreBytes, contiguous_prefix_len-HasLen}
use mitmania.Rules.MaskedKey.Range.{
  contains_bytes-range, length-clear_bits, big_endian-bound, power_pos,
}
use mitmania.Rules.MaskedKey.Parsed.{IsAddress, IsKey}
use mitmania.Rules.Coverage.{
  Prefix, Coverage, full, no_entries, gap, check_coverage, prefix_range, big_endian,
}
use mitmania.Rules.Coverage.Gaps.{check_coverage-IsIn}
use mitmania.Rules.Outcome.{Outcome, done, done_injective}
use mitmania.Rules.DefaultRuleset.Families.{HasKey, Family, Sound}
use mitmania.Rules.DefaultRuleset.Hits.{
  Hit, IsBest, In-sort, sort-In, sort-IsDescending, first_containing-Hit,
}
use mitmania.Rules.DefaultRuleset.{
  CompiledBucket, DefaultRuleset, Collected, sort_by_mask_descending, lookup_addr, if_covered,
  finish,
}

-- The bytes of an address of the family.
abbrev width : Bool → ℕ
width true = 4
width false = 16

xs_width :
    (xs : Bytes) (v4 : Bool)
    → (length xs ≡ 4) ⊎ (length xs ≡ 16)
    → is_v4 xs ≡ v4
    → length xs ≡ width v4
xs_width xs true (inl e) f = e
xs_width xs false (inl e) f = cc (rw e at f)
xs_width xs true (inr e) f = cc (rw e at f)
xs_width xs false (inr e) f = e

key_width :
    (k : MaskedKey) (v4 : Bool)
    → IsKey k
    → k.is4 ≡ v4
    → (length k.mask ≡ width v4) × (length k.addr ≡ width v4)
key_width k v4 (xs, e, (b, w), m, l, f) g =
    let size : length xs ≡ width v4 = xs_width xs v4 w (sym f ∙ g) in
    let cleared = length-clear_bits xs k.mask (sym l) in
    (l ∙ size, ap length e ∙ cleared ∙ l ∙ size)

prefix_holds :
    (k : MaskedKey) (p : Prefix) (ab : Bytes)
    → IsKey k
    → HasKey p k
    → AreBytes ab
    → length ab ≡ length k.mask
    → (prefix_range p).start ≤ big_endian ab
    → big_endian ab ≤ (prefix_range p).end
    → contains_bytes ab k.mask k.addr ≡ some true
unfolding prefix_range
prefix_holds k p ab (xs, e, (b, w), m, l, f) (n, a) y z lo hi =
    let start : big_endian p.addr ≡ big_endian (clear_bits xs k.mask) = ap big_endian (a ∙ e) in
    let len : length p.addr ≡ length k.mask =
      ap length (a ∙ e) ∙ length-clear_bits xs k.mask (sym l) in
    let size : 2 ^ (8 * length p.addr - p.len) ≡ 2 ^ (8 * length k.mask - p.len) =
      ap (λ l. 2 ^ (8 * l - p.len)) len in
    let some_room = power_pos (8 * length k.mask - p.len) in
    let lo : big_endian (clear_bits xs k.mask) ≤ big_endian ab = omega (arith, lo, start) in
    let hi : big_endian ab < big_endian (clear_bits xs k.mask) + 2 ^ (8 * length k.mask - p.len) =
      omega (arith, hi, start, size, some_room) in
    rw e (
      contains_bytes-range xs ab (contiguous_prefix_len-HasLen k.mask p.len m n) b y (sym l) z lo
        hi)

module _ {Net : Type 0} where
  Family-Hit :
      (v4 : Bool) (bs : List (CompiledBucket Net)) (ps : List Prefix) (ab : Bytes)
      → Family v4 bs ps
      → check_coverage ps (8 * width v4) ≡ full
      → AreBytes ab
      → length ab ≡ width v4
      → Hit (sort_by_mask_descending bs) ab
  Family-Hit v4 bs ps ab (keys, prefixes) c y z =
      let bits : 8 * length ab ≡ 8 * width v4 = ap (λ l. 8 * l) z in
      let small : big_endian ab < 2 ^ (8 * width v4) =
        subst (λ n. big_endian ab < 2 ^ n) bits (big_endian-bound ab y) in
      let (s, i, lo, hi) = check_coverage-IsIn ps (8 * width v4) (big_endian ab) c small in
      let (p, j, e) = In-map prefix_range s ps i in
      let (b, k, h) = prefixes p j in
      let (key, fam) = keys b k in
      let fits = key_width b.key v4 key fam in
      let held = prefix_holds b.key p ab key h y (z ∙ sym fits.0) (rw (sym e) lo) (rw (sym e) hi) in
      first_containing-Hit (sort_by_mask_descending bs) ab b (sort-IsDescending bs)
        (λ d l.
          let (key, fam) = keys d (In-sort d bs l) in
          let (m, a) = key_width d.key v4 key fam in (m ∙ sym z, a ∙ sym z))
        (sort-In b bs k) held

  covered_full :
      (v4 : Bool) (c : Coverage) (d : DefaultRuleset Net) {next : Outcome (DefaultRuleset Net)}
      → if_covered v4 c next ≡ done d
      → (c ≡ full) × (next ≡ done d)
  covered_full v4 full d h = (refl, h)
  covered_full v4 no_entries d h = cc h
  covered_full v4 (gap lo hi) d h = cc h

  abbrev tables : Collected Net → DefaultRuleset Net
  tables all = record { v4 = sort_by_mask_descending all.v4; v6 = sort_by_mask_descending all.v6 }

  -- The table answers the address with the rules of the best bucket of its family.
  abbrev pub Answers : DefaultRuleset Net → Bytes → Type 0
  Answers d ab =
      (b : CompiledBucket Net) × IsBest b (if is_v4 ab then d.v4 else d.v6) ab
      × (lookup_addr d ab ≡ some (some b.rules))

  pub finish-Hit :
      (all : Collected Net) (d : DefaultRuleset Net)
      → Sound all
      → finish all ≡ done d
      → (ab : Bytes) → IsAddress ab
      → Hit (if is_v4 ab then d.v4 else d.v6) ab
  unfolding finish
  finish-Hit all d (f4, f6) h ab (y, w) =
      let (c4, h4) = covered_full true (check_coverage all.v4_prefixes 32) d h in
      let (c6, h6) = covered_full false (check_coverage all.v6_prefixes 128) d h4 in
      let e = done_injective (tables all) d h6 in
      elim w [
        | inl l ↦ rw (l, sym e) (Family-Hit true all.v4 all.v4_prefixes ab f4 c4 y l)
        | inr l ↦ rw (l, sym e) (Family-Hit false all.v6 all.v6_prefixes ab f6 c6 y l)
      ]
