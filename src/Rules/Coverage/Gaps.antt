-- ===== src/Rules/Coverage/Gaps.antt =====
-- `checkCoverage` of internal/rules/defaultruleset.go: which numbers lie in a span.
use mathlib.Core.Path.{subst}
use mitmania.Prelude.{
  ℕ, suc, ◌-◌, ◌^◌, ◌≤◌, ◌<◌, ◌≡◌, refl, List, [], ◌∷◌, leb, ltb, map, inl, inr, Bool-cases, In,
  All, sym, ap, ltb→lt, arith,
}
use mitmania.Rules.Pattern.Glob.{is_empty}
use mitmania.Rules.Coverage.{
  Prefix, Span, prefix_range, insert_span, sort_spans, full, gap, larger, cover, check_coverage,
}

-- The number lies in a span of the list.
abbrev pub IsIn : ℕ → List Span → Type 0
IsIn v spans = (s : Span) × In s spans × (s.start ≤ v) × (v ≤ s.end)

there : (v : ℕ) (s : Span) (spans : List Span) → IsIn v spans → IsIn v (s ∷ spans)
there v s spans (t, i, lo, hi) = (t, inr i, lo, hi)

In-insert_span : (t s : Span) (spans : List Span) → In t (insert_span s spans) → In t (s ∷ spans)
unfolding insert_span
In-insert_span t s [] h = h
In-insert_span t s (u ∷ spans) h = elim (Bool-cases (ltb u.start s.start)) [
  | inl e ↦ elim (rw (e, insert_span) at h) [
    | inl here ↦ inr (inl here)
    | inr i ↦ elim (In-insert_span t s spans i) [ inl new ↦ inl new | inr old ↦ inr (inr old) ]
  ]
  | inr e ↦ rw (e, insert_span) at h
]

In-sort_spans : (t : Span) (spans : List Span) → In t (sort_spans spans) → In t spans
unfolding sort_spans
In-sort_spans t [] h = h
In-sort_spans t (s ∷ spans) h = elim (In-insert_span t s (sort_spans spans) h) [
  | inl e ↦ inl e
  | inr i ↦ inr (In-sort_spans t spans i)
]

cover-IsIn :
    (bits next : ℕ) (spans : List Span)
    → cover bits next spans ≡ full
    → (v : ℕ) → next ≤ v
    → v < 2 ^ bits
    → IsIn v spans
unfolding cover
cover-IsIn bits next [] h v lo hi = elim (Bool-cases (ltb next (2 ^ bits))) [
  | inl e ↦ cc (rw e at h)
  | inr e ↦ absurd (ground (arith, lo, hi))
]
cover-IsIn bits next (s ∷ spans) h v lo hi = elim (Bool-cases (ltb next s.start)) [
  | inl e ↦ cc (rw (e, cover) at h)
  | inr e ↦ elim (Bool-cases (leb v s.end)) [
    | inl k ↦ (s, inl refl, ground arith, ground arith)
    | inr k ↦
        there v s spans
          (cover-IsIn bits (larger (suc s.end) next) spans (rw (e, cover) at h) v (ground arith) hi)
  ]
]

-- If the coverage check finds no gap, every number of the address space is in the range of a
-- prefix.
pub check_coverage-IsIn :
    (prefixes : List Prefix) (bits v : ℕ)
    → check_coverage prefixes bits ≡ full
    → v < 2 ^ bits
    → IsIn v (map prefix_range prefixes)
unfolding check_coverage
check_coverage-IsIn prefixes bits v h hi = elim (Bool-cases (is_empty prefixes)) [
  | inl e ↦ cc (rw e at h)
  | inr e ↦
      let (s, i, lo, up) =
        cover-IsIn bits 0 (sort_spans (map prefix_range prefixes)) (rw e at h) v (omega arith) hi in
      (s, In-sort_spans s (map prefix_range prefixes) i, lo, up)
]

-- The starts do not fall.
abbrev AreSorted : List Span → Type 0
AreSorted [] = Unit
AreSorted (s ∷ spans) = All (λ (t : Span). s.start ≤ t.start) spans × AreSorted spans

above :
    (k : ℕ) (s : Span) (spans : List Span)
    → k ≤ s.start
    → All (λ (t : Span). k ≤ t.start) spans
    → All (λ (t : Span). k ≤ t.start) (insert_span s spans)
unfolding insert_span
above k s [] h a = (h, tt)
above k s (t ∷ spans) h a = elim (Bool-cases (ltb t.start s.start)) [
  | inl e ↦ rw (e, insert_span) (a.0, above k s spans h a.1)
  | inr e ↦ rw (e, insert_span) (h, a)
]

raise :
    (k j : ℕ) (spans : List Span)
    → k ≤ j
    → All (λ (t : Span). j ≤ t.start) spans
    → All (λ (t : Span). k ≤ t.start) spans
raise k j [] h a = tt
raise k j (t ∷ spans) h a = (omega (arith, h, a.0), raise k j spans h a.1)

insert_span-AreSorted :
    (s : Span) (spans : List Span) → AreSorted spans → AreSorted (insert_span s spans)
unfolding insert_span
insert_span-AreSorted s [] a = (tt, tt)
insert_span-AreSorted s (t ∷ spans) a = elim (Bool-cases (ltb t.start s.start)) [
  | inl e ↦
      rw (e, insert_span)
        (above t.start s spans (ground arith) a.0, insert_span-AreSorted s spans a.1)
  | inr e ↦
      let h : s.start ≤ t.start = ground arith in
      rw (e, insert_span) ((h, raise s.start t.start spans h a.0), a)
]

sort_spans-AreSorted : (spans : List Span) → AreSorted (sort_spans spans)
unfolding sort_spans
sort_spans-AreSorted [] = tt
sort_spans-AreSorted (s ∷ spans) =
    insert_span-AreSorted s (sort_spans spans) (sort_spans-AreSorted spans)

insert_span-In : (t s : Span) (spans : List Span) → In t (s ∷ spans) → In t (insert_span s spans)
unfolding insert_span
insert_span-In t s [] h = h
insert_span-In t s (u ∷ spans) h = elim (Bool-cases (ltb u.start s.start)) [
  | inl e ↦
      rw (e, insert_span)
        (elim h [
          | inl here ↦ inr (insert_span-In t s spans (inl here))
          | inr (inl next) ↦ inl next
          | inr (inr i) ↦ inr (insert_span-In t s spans (inr i))
        ])
  | inr e ↦ rw (e, insert_span) h
]

sort_spans-In : (t : Span) (spans : List Span) → In t spans → In t (sort_spans spans)
unfolding sort_spans
sort_spans-In t [] h = h
sort_spans-In t (s ∷ spans) (inl e) = insert_span-In t s (sort_spans spans) (inl e)
sort_spans-In t (s ∷ spans) (inr i) =
    insert_span-In t s (sort_spans spans) (inr (sort_spans-In t spans i))

All-In : (P : Span → Type 0) (t : Span) (spans : List Span) → All P spans → In t spans → P t
All-In P t [] a i = absurd i
All-In P t (s ∷ spans) a (inl e) = subst P (sym e) a.0
All-In P t (s ∷ spans) a (inr i) = All-In P t spans a.1 i

cover-gap :
    (bits next : ℕ) (spans : List Span) (lo hi : ℕ)
    → AreSorted spans
    → cover bits next spans ≡ gap lo hi
    → (next ≤ lo) × ((v : ℕ) → lo ≤ v → v ≤ hi → ¬ IsIn v spans)
unfolding cover
cover-gap bits next [] lo hi a h = elim (Bool-cases (ltb next (2 ^ bits))) [
  | inl e ↦ let here : next ≡ lo = cc (rw e at h) in (omega (arith, here), λ v l u i. absurd i.1)
  | inr e ↦ cc (rw e at h)
]
cover-gap bits next (s ∷ spans) lo hi a h = elim (Bool-cases (ltb next s.start)) [
  | inl e ↦
      let g : gap next (s.start - 1) ≡ gap lo hi = rw (e, cover) at h in
      let from : next ≡ lo = cc g in
      let to : s.start - 1 ≡ hi = cc g in
      (
        omega (arith, from),
        λ v l u i.
            let first : s.start ≤ i.0.start =
              All-In (λ t. s.start ≤ t.start) i.0 (s ∷ spans) (omega arith, a.0) i.1 in
            omega (arith, i.2, first, u, to, ltb→lt next s.start e),
      )
  | inr e ↦
      let (k, none_in) =
        cover-gap bits (larger (suc s.end) next) spans lo hi a.1 (rw (e, cover) at h) in
      (
        ground (arith, k),
        λ v l u i. elim i.1 [
          | inl here ↦
              let top : suc s.end ≤ larger (suc s.end) next = ground arith in
              omega (arith, i.3, ap (λ (t : Span). t.end) here, top, k, l)
          | inr inside ↦ none_in v l u (i.0, inside, i.2, i.3)
        ],
      )
]

-- No number of a gap that the coverage check reports is in the range of a prefix.
pub check_coverage-gap :
    (prefixes : List Prefix) (bits lo hi v : ℕ)
    → check_coverage prefixes bits ≡ gap lo hi
    → lo ≤ v
    → v ≤ hi
    → ¬ IsIn v (map prefix_range prefixes)
unfolding check_coverage
check_coverage-gap prefixes bits lo hi v h l u i = elim (Bool-cases (is_empty prefixes)) [
  | inl e ↦ cc (rw e at h)
  | inr e ↦
      let spans = map prefix_range prefixes in
      (cover-gap bits 0 (sort_spans spans) lo hi (sort_spans-AreSorted spans) (rw e at h)).1 v l u
        (i.0, sort_spans-In i.0 spans i.1, i.2, i.3)
]
