-- ===== src/Rules/HostIndex/Order.antt =====
-- The end of `appendCandidates` in internal/rules/host_index.go: sorting, and dropping repeats.
use mitmania.Prelude.{
  ℕ, suc, ◌≤◌, ◌<◌, List, [], ◌∷◌, arith, inl, inr, Bool-cases, All, In, ltb, ◌==◌, ==_iff,
}
use mitmania.Rules.HostIndex.{insert_id, sort_ids, keep_new, drop_repeats}

-- The numbers rise, from `k` on.
abbrev pub Rises : ℕ → List ℕ → Type 0
Rises k [] = Unit
Rises k (x ∷ xs) = (k ≤ x) × Rises (suc x) xs

abbrev Climbs : ℕ → List ℕ → Type 0
Climbs k [] = Unit
Climbs k (x ∷ xs) = (k ≤ x) × Climbs x xs

insert_id-Climbs : (k x : ℕ) (xs : List ℕ) → k ≤ x → Climbs k xs → Climbs k (insert_id x xs)
unfolding insert_id
insert_id-Climbs k x [] h c = (h, tt)
insert_id-Climbs k x (y ∷ ys) h c = elim (Bool-cases (ltb y x)) [
  | inl e ↦ rw e (c.0, insert_id-Climbs y x ys (ground arith) c.1)
  | inr e ↦ rw e (h, (ground arith, c.1))
]

sort_ids-Climbs : (xs : List ℕ) → Climbs 0 (sort_ids xs)
unfolding sort_ids
sort_ids-Climbs [] = tt
sort_ids-Climbs (x ∷ xs) = insert_id-Climbs 0 x (sort_ids xs) (omega arith) (sort_ids-Climbs xs)

keep_new-Rises : (last : ℕ) (xs : List ℕ) → Climbs last xs → Rises (suc last) (keep_new last xs)
unfolding keep_new
keep_new-Rises last [] c = tt
keep_new-Rises last (x ∷ xs) c = elim (Bool-cases (x == last)) [
  | inl e ↦ rw e (keep_new-Rises last xs (rw ((==_iff x last).0 e) at c.1))
  | inr e ↦ rw e (ground (arith, c.0), keep_new-Rises x xs c.1)
]

-- The numbers left after sorting and dropping repeats rise strictly.
pub candidates-Rises : (xs : List ℕ) → Rises 0 (drop_repeats (sort_ids xs))
unfolding drop_repeats
candidates-Rises xs = go (sort_ids xs) (sort_ids-Climbs xs)
  where
    go : (ys : List ℕ) → Climbs 0 ys → Rises 0 (drop_repeats ys)
    go [] c = tt
    go (y ∷ ys) c = (omega arith, keep_new-Rises y ys c.1)

In-insert_id : (a x : ℕ) (xs : List ℕ) → In a (x ∷ xs) → In a (insert_id x xs)
unfolding insert_id
In-insert_id a x [] h = h
In-insert_id a x (y ∷ ys) (inl e) = elim (Bool-cases (ltb y x)) [
  | inl b ↦ rw b (inr (In-insert_id a x ys (inl e)))
  | inr b ↦ rw b (inl e)
]
In-insert_id a x (y ∷ ys) (inr (inl e)) = elim (Bool-cases (ltb y x)) [
  | inl b ↦ rw b (inl e)
  | inr b ↦ rw b (inr (inl e))
]
In-insert_id a x (y ∷ ys) (inr (inr h)) = elim (Bool-cases (ltb y x)) [
  | inl b ↦ rw b (inr (In-insert_id a x ys (inr h)))
  | inr b ↦ rw b (inr (inr h))
]

In-sort_ids : (a : ℕ) (xs : List ℕ) → In a xs → In a (sort_ids xs)
unfolding sort_ids
In-sort_ids a [] h = h
In-sort_ids a (x ∷ xs) (inl e) = In-insert_id a x (sort_ids xs) (inl e)
In-sort_ids a (x ∷ xs) (inr h) = In-insert_id a x (sort_ids xs) (inr (In-sort_ids a xs h))

In-keep_new : (a last : ℕ) (xs : List ℕ) → In a (last ∷ xs) → In a (last ∷ keep_new last xs)
unfolding keep_new
In-keep_new a last xs (inl e) = inl e
In-keep_new a last [] (inr h) = absurd h
In-keep_new a last (x ∷ xs) (inr h) = elim (Bool-cases (x == last)) [
  | inl b ↦ rw b (In-keep_new a last xs (rw ((==_iff x last).0 b) at h))
  | inr b ↦ rw b (inr (In-keep_new a x xs h))
]

pub In-candidates : (a : ℕ) (xs : List ℕ) → In a xs → In a (drop_repeats (sort_ids xs))
unfolding drop_repeats
In-candidates a xs h = go (sort_ids xs) (In-sort_ids a xs h)
  where
    go : (ys : List ℕ) → In a ys → In a (drop_repeats ys)
    go [] k = k
    go (y ∷ ys) k = In-keep_new a y ys k

module _ (b : ℕ) where
  insert_id-below :
      (x : ℕ) (xs : List ℕ) → x < b → All (λ r. r < b) xs → All (λ r. r < b) (insert_id x xs)
  unfolding insert_id
  insert_id-below x [] h a = (h, tt)
  insert_id-below x (y ∷ ys) h a = elim (Bool-cases (ltb y x)) [
    | inl e ↦ rw e (a.0, insert_id-below x ys h a.1)
    | inr e ↦ rw e (h, a)
  ]

  sort_ids-below : (xs : List ℕ) → All (λ r. r < b) xs → All (λ r. r < b) (sort_ids xs)
  unfolding sort_ids
  sort_ids-below [] a = tt
  sort_ids-below (x ∷ xs) a = insert_id-below x (sort_ids xs) a.0 (sort_ids-below xs a.1)

  keep_new-below :
      (last : ℕ) (xs : List ℕ) → All (λ r. r < b) xs → All (λ r. r < b) (keep_new last xs)
  unfolding keep_new
  keep_new-below last [] a = tt
  keep_new-below last (x ∷ xs) a = elim (Bool-cases (x == last)) [
    | inl e ↦ rw e (keep_new-below last xs a.1)
    | inr e ↦ rw e (a.0, keep_new-below x xs a.1)
  ]

  pub candidates-below :
      (xs : List ℕ) → All (λ r. r < b) xs → All (λ r. r < b) (drop_repeats (sort_ids xs))
  unfolding drop_repeats
  candidates-below xs a = go (sort_ids xs) (sort_ids-below xs a)
    where
      go : (ys : List ℕ) → All (λ r. r < b) ys → All (λ r. r < b) (drop_repeats ys)
      go [] k = k
      go (y ∷ ys) k = (k.0, keep_new-below y ys k.1)
