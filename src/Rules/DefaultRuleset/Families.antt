-- ===== src/Rules/DefaultRuleset/Families.antt =====
-- `compileParsedEntries` of internal/rules/defaultruleset.go: the buckets and prefixes of each family.
use mathlib.Core.Path.{subst}
use mitmania.Prelude.{
  ℕ, ◌≡◌, refl, Bool, true, false, Option, none, some, List, ◌∷◌, ◌⊎◌, inl, inr, In, sym, ap, ◌∙◌,
}
use mitmania.Rules.MaskedKey.{MaskedKey, contiguous_prefix_len}
use mitmania.Rules.MaskedKey.Parsed.{IsKey}
use mitmania.Rules.Coverage.{Prefix}
use mitmania.Rules.DefaultRuleset.{
  CompiledBucket, Collected, with_len, with_prefix, collect_as, collect,
}

-- Some prefix of the list has a key of the buckets behind it.
abbrev pub HasKey : Prefix → MaskedKey → Type 0
HasKey p k = (contiguous_prefix_len k.mask ≡ some p.len) × (p.addr ≡ k.addr)

with_len-HasKey :
    (o : Option ℕ) (k : MaskedKey) (ps : List Prefix) (p : Prefix)
    → contiguous_prefix_len k.mask ≡ o
    → In p (with_len o k ps)
    → HasKey p k ⊎ In p ps
with_len-HasKey none k ps p e i = inr i
with_len-HasKey (some n) k ps p e (inl here) =
    inl (e ∙ ap some (sym (ap Prefix.len here)), ap Prefix.addr here)
with_len-HasKey (some n) k ps p e (inr there) = inr there

module _ {Net : Type 0} where
  -- The keys are keys of the family, and each prefix is the key of a bucket.
  abbrev pub Family : Bool → List (CompiledBucket Net) → List Prefix → Type 0
  Family v4 bs ps =
      ((b : CompiledBucket Net) → In b bs → IsKey b.key × (b.key.is4 ≡ v4))
      × ((p : Prefix) → In p ps → (b : CompiledBucket Net) × In b bs × HasKey p b.key)

  abbrev pub Sound : Collected Net → Type 0
  Sound all = Family true all.v4 all.v4_prefixes × Family false all.v6 all.v6_prefixes

  Family-cons :
      (v4 : Bool) (b : CompiledBucket Net) (bs : List (CompiledBucket Net)) (ps : List Prefix)
      → IsKey b.key
      → b.key.is4 ≡ v4
      → Family v4 bs ps
      → Family v4 (b ∷ bs) (with_prefix b.key ps)
  Family-cons v4 b bs ps k f (keys, prefixes) = (
    λ c i. elim i [
      | inl e ↦ subst (λ c. IsKey c.key × (c.key.is4 ≡ v4)) (sym e) (k, f)
      | inr j ↦ keys c j
    ],
    λ p i. elim (with_len-HasKey (contiguous_prefix_len b.key.mask) b.key ps p refl i) [
      | inl h ↦ (b, inl refl, h)
      | inr j ↦ let (c, in_bs, h) = prefixes p j in (c, inr in_bs, h)
    ],
  )

  collect_as-Sound :
      (v4 : Bool) (b : CompiledBucket Net) (all : Collected Net)
      → b.key.is4 ≡ v4
      → IsKey b.key
      → Sound all
      → Sound (collect_as v4 b all)
  collect_as-Sound true b all e k (f4, f6) = (Family-cons true b all.v4 all.v4_prefixes k e f4, f6)
  collect_as-Sound false b all e k (f4, f6) =
      (f4, Family-cons false b all.v6 all.v6_prefixes k e f6)

  pub collect-Sound :
      (b : CompiledBucket Net) (all : Collected Net)
      → IsKey b.key
      → Sound all
      → Sound (collect b all)
  collect-Sound b all = collect_as-Sound b.key.is4 b all refl
