-- ===== src/Rules/Coverage.antt =====
-- `checkCoverage` and `prefixRange` of internal/rules/defaultruleset.go. A prefix is an address and its
-- length; a big.Int is a number, and the code's `covered` is one less than `next` here.
pub mod Gaps
use mitmania.Prelude.{
  ℕ, zero, suc, ◌+◌, ◌-◌, ◌*◌, ◌^◌, Bool, true, false, List, [], ◌∷◌, leb, ltb, if◌then◌else◌,
  Bytes, length, map,
}
use mitmania.Rules.Pattern.Glob.{is_empty}

-- `SetBytes`
unfoldable pub big_endian : Bytes → ℕ
big_endian [] = 0
big_endian (a ∷ rest) = a * 2 ^ (8 * length rest) + big_endian rest

pub record Prefix : Type 0 where
  pub addr : Bytes
  pub len : ℕ

pub record Span : Type 0 where
  pub start : ℕ
  pub end : ℕ

unfoldable pub prefix_range : Prefix → Span
unfolding big_endian
prefix_range p =
    let start = big_endian p.addr in
    record { start = start; end = start + 2 ^ (8 * length p.addr - p.len) - 1 }

-- `sort.Slice` by the starts
unfoldable pub insert_span : Span → List Span → List Span
insert_span s [] = s ∷ []
insert_span s (t ∷ spans) = if ltb t.start s.start then t ∷ insert_span s spans else s ∷ t ∷ spans

unfoldable pub sort_spans : List Span → List Span
unfolding insert_span
sort_spans [] = []
sort_spans (s ∷ spans) = insert_span s (sort_spans spans)

pub data Coverage : Type 0 where
  full : Coverage
  no_entries : Coverage
  gap : ℕ → ℕ → Coverage

abbrev pub larger : ℕ → ℕ → ℕ
larger a b = if ltb b a then a else b

-- The loop over the spans, and the test behind it.
unfoldable pub cover : ℕ → ℕ → List Span → Coverage
cover bits next [] = if ltb next (2 ^ bits) then gap next (2 ^ bits - 1) else full
cover bits next (s ∷ spans) =
    let rest = cover bits (larger (suc s.end) next) spans in
    if ltb next s.start then gap next (s.start - 1) else rest

unfoldable pub check_coverage : List Prefix → ℕ → Coverage
unfolding prefix_range sort_spans cover
check_coverage prefixes bits =
    if is_empty prefixes then no_entries else cover bits 0 (sort_spans (map prefix_range prefixes))
