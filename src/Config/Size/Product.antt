-- ===== src/Config/Size/Product.antt =====
-- `ParseSize` of internal/config/size.go: the number that it gives.
use mathlib.Core.Path.{subst}
use mathlib.Core.List.{reverse-append, reverse-cons, reverse-reverse}
use mitmania.Prelude.{
  ℕ, ◌*◌, ◌%◌, ◌^◌, ◌<◌, ◌≡◌, Option, none, some, ltb, Bytes, trim_space, reverse, ◌>>=◌, bind_some,
  some_injective, lt→ltb, Option-cases, Bool-cases, inl, inr, ltb→lt, sym, ap, ◌∙◌, refl, ◌⊎◌,
  arith, [], ◌∷◌, ◌++◌,
}
use mitmania.Config.Size.{unit_of, with_unit, unit_and_part, parse_size}

-- The letter stands for the unit.
abbrev pub IsUnit : ℕ → ℕ → Type 0
IsUnit c mul =
    (((c ≡ b'k') ⊎ (c ≡ b'K')) × (mul ≡ 1024))
    ⊎ ((((c ≡ b'm') ⊎ (c ≡ b'M')) × (mul ≡ 1048576))
        ⊎ (((c ≡ b'g') ⊎ (c ≡ b'G')) × (mul ≡ 1073741824)))

-- The text is a number's and a unit's letter, or it ends in another byte and the unit is 1.
abbrev pub IsSplit : Bytes → ℕ → Bytes → Type 0
IsSplit s mul part =
    (c : ℕ) × (front : Bytes) × (s ≡ front ++ c ∷ [])
    × ((IsUnit c mul × (part ≡ front)) ⊎ (((m : ℕ) → ¬ IsUnit c m) × (mul ≡ 1) × (part ≡ s)))

unit_of-IsUnit : (c mul : ℕ) → unit_of c ≡ some mul → IsUnit c mul
unit_of-IsUnit c mul h = ground arith

IsUnit-unit_of : (c mul : ℕ) → IsUnit c mul → unit_of c ≡ some mul
IsUnit-unit_of c mul h = ground arith

last_byte : (s : Bytes) (c : ℕ) (rest : Bytes) → reverse s ≡ c ∷ rest → s ≡ reverse rest ++ c ∷ []
last_byte s c rest h = sym (reverse-reverse s) ∙ ap reverse h ∙ reverse-cons c rest

unit_and_part-IsSplit :
    (s : Bytes) (mul : ℕ) (part : Bytes)
    → unit_and_part s (reverse s) ≡ some (mul, part)
    → IsSplit s mul part
unit_and_part-IsSplit s mul part h = go (reverse s) refl h
  where
    go : (r : Bytes) → reverse s ≡ r → unit_and_part s r ≡ some (mul, part) → IsSplit s mul part
    go [] e h = cc h
    go (c ∷ rest) e h = elim (Option-cases (unit_of c)) [
      | inl n ↦
          let same_pair = some_injective (1, s) (mul, part) (rw n at h) in
          (
            c,
            reverse rest,
            last_byte s c rest e,
            inr (
              (λ m u. cc (n, IsUnit-unit_of c m u)),
              sym (ap (λ x. x.0) same_pair),
              sym (ap (λ x. x.1) same_pair),
            ),
          )
      | inr (m, u) ↦
          let same_pair = some_injective (m, reverse rest) (mul, part) (rw u at h) in
          (
            c,
            reverse rest,
            last_byte s c rest e,
            inl (
              subst (IsUnit c) (ap (λ x. x.0) same_pair) (unit_of-IsUnit c m u),
              sym (ap (λ x. x.1) same_pair),
            ),
          )
    ]

other_letter : (c : ℕ) → ((m : ℕ) → ¬ IsUnit c m) → unit_of c ≡ none
other_letter c h = elim (Option-cases (unit_of c)) [
  | inl n ↦ n
  | inr (m, u) ↦ absurd (h m (unit_of-IsUnit c m u))
]

reversed : (front : Bytes) (c : ℕ) → reverse (front ++ c ∷ []) ≡ c ∷ reverse front
reversed front c = reverse-append front (c ∷ [])

IsSplit-unit_and_part :
    (s : Bytes) (mul : ℕ) (part : Bytes)
    → IsSplit s mul part
    → unit_and_part s (reverse s) ≡ some (mul, part)
IsSplit-unit_and_part s mul part (c, front, e, inl (u, p)) =
    ap (unit_and_part s) (ap reverse e ∙ reversed front c)
    ∙ ap (λ o. some (with_unit s (reverse front) o)) (IsUnit-unit_of c mul u)
    ∙ ap (λ r. some (mul, r)) (reverse-reverse front ∙ sym p)
IsSplit-unit_and_part s mul part (c, front, e, inr (n, m, p)) =
    ap (unit_and_part s) (ap reverse e ∙ reversed front c)
    ∙ ap (λ o. some (with_unit s (reverse front) o)) (other_letter c n)
    ∙ cc (m, p)

module _ (atoi : Bytes → Option ℕ) where
  -- The number in front of the unit is not negative, and the size is its product with the unit, of 64 bits.
  abbrev pub IsProduct : Bytes → ℕ → Type 0
  IsProduct s size =
      (mul : ℕ) × (part : Bytes) × (n : ℕ) × IsSplit s mul part
      × (atoi (trim_space part) ≡ some n)
      × (n < 2 ^ 63)
      × (size ≡ n * mul % 2 ^ 64)

  parse_size-IsProduct : (s : Bytes) (size : ℕ) → parse_size atoi s ≡ some size → IsProduct s size
  unfolding parse_size
  parse_size-IsProduct s size h =
      let ((mul, part), e, h1) = bind_some (unit_and_part s (reverse s)) _ size h in
      let (n, f, h2) = bind_some (atoi (trim_space part)) _ size h1 in
      elim (Bool-cases (ltb n (2 ^ 63))) [
        | inl l ↦ (
          mul,
          part,
          n,
          unit_and_part-IsSplit s mul part e,
          f,
          ltb→lt n (2 ^ 63) l,
          sym (some_injective (n * mul % 2 ^ 64) size (rw l at h2)),
        )
        | inr g ↦ cc (rw g at h2)
      ]

  IsProduct-parse_size : (s : Bytes) (size : ℕ) → IsProduct s size → parse_size atoi s ≡ some size
  unfolding parse_size
  IsProduct-parse_size s size (mul, part, n, e, f, l, r) =
      rw (IsSplit-unit_and_part s mul part e, ◌>>=◌, f, lt→ltb n (2 ^ 63) l) (ap some (sym r))

  -- A size is its product, and there is an error only where there is none.
  abbrev pub IsRead : Bytes → Option ℕ → Type 0
  IsRead s none = (size : ℕ) → ¬ IsProduct s size
  IsRead s (some size) = IsProduct s size

  -- A size is read exactly if the text is not empty and, without a last letter k, K, m, M, g or G,
  -- is a number that is not negative; it is then the product of the number and 2^10, 2^20 or 2^30,
  -- or 1 without a letter, wrapped to 64 bits.
  pub parse_size-IsRead : (s : Bytes) → IsRead s (parse_size atoi s)
  parse_size-IsRead s = elim (Option-cases (parse_size atoi s)) [
    | inl e ↦ rw e (λ size h. cc (e, IsProduct-parse_size s size h))
    | inr (size, e) ↦ rw e (parse_size-IsProduct s size e)
  ]
