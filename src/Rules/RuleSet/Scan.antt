-- ===== src/Rules/RuleSet/Scan.antt =====
-- internal/rules/engine.go: the loop over candidates beside the loop over all rules.
use mitmania.Prelude.{
  ℕ, zero, suc, ◌+◌, ◌-◌, ◌≤◌, ◌<◌, ◌≡◌, refl, sym, ap, ◌∙◌, Bool, true, false, none, some, List,
  [], ◌∷◌, arith, inl, inr, Bool-cases, Option-cases, All, In, length, get_elem?, drop,
  if◌then◌else◌,
}
use mitmania.Rules.Compile.{CompiledRule}
use mitmania.Rules.HostIndex.Order.{Rises}
use mitmania.Rules.RuleSet.{scan, scan_ids}

drop_at :
    {A : Type 0} (xs : List A) (k : ℕ) (a : A)
    → get_elem? xs k ≡ some a
    → drop k xs ≡ a ∷ drop (suc k) xs
drop_at [] k a h = cc h
drop_at (x ∷ xs) zero a h = cc h
drop_at (x ∷ xs) (suc k) a h = drop_at xs k a h

none-length : {A : Type 0} (xs : List A) (k : ℕ) → get_elem? xs k ≡ none → length xs ≤ k
none-length [] k h = omega arith
none-length (x ∷ xs) zero h = cc h
none-length (x ∷ xs) (suc k) h = omega (arith, none-length xs k h)

drop-length : {A : Type 0} (xs : List A) (k : ℕ) → length xs ≤ k → drop k xs ≡ []
drop-length [] zero h = refl
drop-length [] (suc k) h = refl
drop-length (x ∷ xs) zero h = absurd (omega arith)
drop-length (x ∷ xs) (suc k) h = drop-length xs k (omega arith)

get_below : {A : Type 0} (xs : List A) (k : ℕ) → k < length xs → (a : A) × (get_elem? xs k ≡ some a)
get_below [] k h = absurd (omega arith)
get_below (x ∷ xs) zero h = (x, refl)
get_below (x ∷ xs) (suc k) h = get_below xs k (omega arith)

Rises-In : (k : ℕ) (ids : List ℕ) (i : ℕ) → Rises k ids → In i ids → k ≤ i
Rises-In k [] i r h = absurd h
Rises-In k (x ∷ ids) i r (inl e) = ground (arith, r.0)
Rises-In k (x ∷ ids) i r (inr h) = omega (arith, r.0, Rises-In (suc x) ids i r.1 h)

module _ (p : CompiledRule → Bool) (rules : List CompiledRule) where
  abbrev Fails : ℕ → Type 0
  Fails i = (r : CompiledRule) → get_elem? rules i ≡ some r → p r ≡ false

  scan_step :
      (r : CompiledRule) (rs : List CompiledRule)
      → scan p (r ∷ rs) ≡ (if p r then some r else scan p rs)
  unfolding scan
  scan_step r rs = refl

  scan-skip :
      (d k : ℕ)
      → ((i : ℕ) → k ≤ i → i < k + d → Fails i)
      → scan p (drop k rules) ≡ scan p (drop (k + d) rules)
  scan-skip zero k h = ap (λ n. scan p (drop n rules)) (omega arith)
  scan-skip (suc d) k h =
      let later : scan p (drop (suc k) rules) ≡ scan p (drop (k + suc d) rules) =
        scan-skip d (suc k) (λ i a b. h i (omega arith) (omega arith))
        ∙ ap (λ n. scan p (drop n rules)) (omega arith) in
      elim (Option-cases (get_elem? rules k)) [
        | inl e ↦
            ap (scan p) (drop-length rules k (none-length rules k e))
            ∙ sym
                (ap (scan p) (drop-length rules (k + suc d) (omega (arith, none-length rules k e))))
        | inr (r, e) ↦
            ap (scan p) (drop_at rules k r e)
            ∙ scan_step r (drop (suc k) rules)
            ∙ rw (h k (omega arith) (omega arith) r e) later
      ]

  scan_ids_step :
      (id : ℕ) (ids : List ℕ) (r : CompiledRule)
      → get_elem? rules id ≡ some r
      → scan_ids p rules (id ∷ ids) ≡ (if p r then some (some r) else scan_ids p rules ids)
  unfolding scan_ids
  scan_ids_step id ids r e = rw (e, scan_ids)

  either :
      (id : ℕ) (ids : List ℕ) (r : CompiledRule)
      → scan_ids p rules ids ≡ some (scan p (drop (suc id) rules))
      → (if p r then some (some r) else scan_ids p rules ids)
        ≡ some (scan p (r ∷ drop (suc id) rules))
  either id ids r h = elim (Bool-cases (p r)) [
    | inl t ↦ rw (scan_step r (drop (suc id) rules), t) refl
    | inr f ↦ rw (scan_step r (drop (suc id) rules), f) h
  ]

  scan_ids-from :
      (ids : List ℕ) (k : ℕ)
      → Rises k ids
      → All (λ i. i < length rules) ids
      → ((i : ℕ) (r : CompiledRule) → k ≤ i → get_elem? rules i ≡ some r → p r ≡ true → In i ids)
      → scan_ids p rules ids ≡ some (scan p (drop k rules))
  scan_ids-from [] k rises below complete =
      unfold scan_ids in
      ap some (
        sym (
          scan-skip (length rules) k (λ i a b r g. none_left i r a g)
          ∙ ap (scan p) (drop-length rules (k + length rules) (omega arith))
          ∙ unfold scan in refl))
    where
      none_left : (i : ℕ) (r : CompiledRule) → k ≤ i → get_elem? rules i ≡ some r → p r ≡ false
      none_left i r a g = elim (Bool-cases (p r)) [
        | inl t ↦ absurd (complete i r a g t)
        | inr f ↦ f
      ]
  scan_ids-from (id ∷ ids) k rises below complete =
      let (r, g) = get_below rules id below.0 in
      let later : scan_ids p rules ids ≡ some (scan p (drop (suc id) rules)) =
        scan_ids-from ids (suc id) rises.1 below.1
          (λ i s a e t. still i (complete i s (omega (arith, rises.0)) e t) a) in
      let skip : scan p (drop k rules) ≡ scan p (drop id rules) =
        scan-skip (id - k) k (λ i a b s e. passed i s a (omega (arith, rises.0)) e)
        ∙ ap (λ n. scan p (drop n rules)) (omega (arith, rises.0)) in
      scan_ids_step id ids r g
      ∙ either id ids r later
      ∙ ap some (sym (skip ∙ ap (scan p) (drop_at rules id r g)))
    where
      passed :
          (i : ℕ) (s : CompiledRule) → k ≤ i → i < id → get_elem? rules i ≡ some s → p s ≡ false
      passed i s a b e = elim (Bool-cases (p s)) [
        | inl t ↦
            absurd
              (omega (arith, Rises-In id (id ∷ ids) i (omega arith, rises.1) (complete i s a e t)))
        | inr f ↦ f
      ]

      still : (i : ℕ) → In i (id ∷ ids) → suc id ≤ i → In i ids
      still i (inl e) a = absurd (omega arith)
      still i (inr h) a = h

  -- Rising candidates that hold every rule that passes give what the whole list gives.
  pub scan_ids-scan :
      (ids : List ℕ)
      → Rises 0 ids
      → All (λ i. i < length rules) ids
      → ((i : ℕ) (r : CompiledRule) → get_elem? rules i ≡ some r → p r ≡ true → In i ids)
      → scan_ids p rules ids ≡ some (scan p rules)
  scan_ids-scan ids rises below complete = scan_ids-from ids 0 rises below (λ i r a. complete i r)
