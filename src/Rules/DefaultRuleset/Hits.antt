-- ===== src/Rules/DefaultRuleset/Hits.antt =====
-- internal/rules/defaultruleset.go: what sorting and the loop of `Lookup` find.
use Prim.Native.Nat.{bit_and}
use mathlib.Core.Path.{subst}
use mitmania.Prelude.{
  ◌≡◌, refl, Bool, true, false, some, List, [], ◌∷◌, ◌==◌, Bytes, less, less_irrefl, less_asym,
  less_negated, length, inl, inr, Bool-cases, In, sym, ap, ◌∙◌, some_injective, arith,
}
use mitmania.Rules.MaskedKey.{MaskedKey, contains_bytes}
use mitmania.Rules.DefaultRuleset.{
  CompiledBucket, insert_bucket, sort_by_mask_descending, first_containing,
}

-- The key is as long as the address.
abbrev Fits : Bytes → MaskedKey → Type 0
Fits ab k = (length k.mask ≡ length ab) × (length k.addr ≡ length ab)

-- No panic where the lengths agree.
contains_len :
    (ab mask addr : Bytes)
    → length mask ≡ length ab
    → length addr ≡ length ab
    → (t : Bool) × (contains_bytes ab mask addr ≡ some t)
unfolding contains_bytes
contains_len [] mask addr h k = (true, refl)
contains_len (a ∷ ab) [] addr h k = absurd (omega (arith, h))
contains_len (a ∷ ab) (m ∷ mask) [] h k = absurd (omega (arith, k))
contains_len (a ∷ ab) (m ∷ mask) (d ∷ addr) h k = elim (Bool-cases (bit_and a m == d)) [
  | inl e ↦
      let (t, f) = contains_len ab mask addr (omega (arith, h)) (omega (arith, k)) in
      (t, rw (e, contains_bytes) f)
  | inr e ↦ (false, rw (e, contains_bytes) refl)
]

module _ {Net : Type 0} where
  In-insert_bucket :
      (x b : CompiledBucket Net) (bs : List (CompiledBucket Net))
      → In x (insert_bucket b bs)
      → In x (b ∷ bs)
  unfolding insert_bucket
  In-insert_bucket x b [] h = h
  In-insert_bucket x b (c ∷ cs) h = elim (Bool-cases (less b.key.mask c.key.mask)) [
    | inr e ↦ rw (e, insert_bucket) at h
    | inl e ↦ elim (rw (e, insert_bucket) at h) [
      | inl here ↦ inr (inl here)
      | inr i ↦ elim (In-insert_bucket x b cs i) [ inl new ↦ inl new | inr old ↦ inr (inr old) ]
    ]
  ]

  insert_bucket-In :
      (x b : CompiledBucket Net) (bs : List (CompiledBucket Net))
      → In x (b ∷ bs)
      → In x (insert_bucket b bs)
  unfolding insert_bucket
  insert_bucket-In x b [] h = h
  insert_bucket-In x b (c ∷ cs) h = elim (Bool-cases (less b.key.mask c.key.mask)) [
    | inr e ↦ rw (e, insert_bucket) h
    | inl e ↦
        rw (e, insert_bucket)
          elim h [
            | inl new ↦ inr (insert_bucket-In x b cs (inl new))
            | inr old ↦ elim old [
              | inl here ↦ inl here
              | inr i ↦ inr (insert_bucket-In x b cs (inr i))
            ]
          ]
  ]

  pub In-sort :
      (x : CompiledBucket Net) (bs : List (CompiledBucket Net))
      → In x (sort_by_mask_descending bs)
      → In x bs
  unfolding sort_by_mask_descending
  In-sort x [] h = h
  In-sort x (b ∷ bs) h = elim (In-insert_bucket x b (sort_by_mask_descending bs) h) [
    | inl e ↦ inl e
    | inr i ↦ inr (In-sort x bs i)
  ]

  pub sort-In :
      (x : CompiledBucket Net) (bs : List (CompiledBucket Net))
      → In x bs
      → In x (sort_by_mask_descending bs)
  unfolding sort_by_mask_descending
  sort-In x [] h = h
  sort-In x (b ∷ bs) h =
      insert_bucket-In x b (sort_by_mask_descending bs)
        (elim h [ inl e ↦ inl e | inr i ↦ inr (sort-In x bs i) ])

  -- No later bucket has a greater mask.
  abbrev pub IsDescending : List (CompiledBucket Net) → Type 0
  IsDescending [] = Unit
  IsDescending (b ∷ bs) =
      ((c : CompiledBucket Net) → In c bs → less b.key.mask c.key.mask ≡ false) × IsDescending bs

  insert_bucket-IsDescending :
      (b : CompiledBucket Net) (bs : List (CompiledBucket Net))
      → IsDescending bs
      → IsDescending (insert_bucket b bs)
  unfolding insert_bucket
  insert_bucket-IsDescending b [] d = (λ c i. elim i [ ], tt)
  insert_bucket-IsDescending b (c ∷ cs) d = elim (Bool-cases (less b.key.mask c.key.mask)) [
    | inl e ↦
        rw (e, insert_bucket)
          (
            λ x i. elim (In-insert_bucket x b cs i) [
              | inl new ↦ rw new (less_asym b.key.mask c.key.mask e)
              | inr old ↦ d.0 x old
            ],
            insert_bucket-IsDescending b cs d.1,
          )
    | inr e ↦
        rw (e, insert_bucket)
          (
            λ x i. elim i [
              | inl here ↦ rw here e
              | inr there ↦ less_negated b.key.mask c.key.mask x.key.mask e (d.0 x there)
            ],
            d,
          )
  ]

  pub sort-IsDescending :
      (bs : List (CompiledBucket Net)) → IsDescending (sort_by_mask_descending bs)
  unfolding sort_by_mask_descending
  sort-IsDescending [] = tt
  sort-IsDescending (b ∷ bs) =
      insert_bucket-IsDescending b (sort_by_mask_descending bs) (sort-IsDescending bs)

  -- The bucket holds the address, and no bucket of the list that does has a greater mask.
  abbrev pub IsBest : CompiledBucket Net → List (CompiledBucket Net) → Bytes → Type 0
  IsBest b bs ab =
      In b bs
      × (contains_bytes ab b.key.mask b.key.addr ≡ some true)
      × ((c : CompiledBucket Net)
          → In c bs
          → contains_bytes ab c.key.mask c.key.addr ≡ some true
          → less b.key.mask c.key.mask ≡ false)

  -- The answer is the best bucket.
  abbrev pub Hit : List (CompiledBucket Net) → Bytes → Type 0
  Hit bs ab =
      (b : CompiledBucket Net) × IsBest b bs ab × (first_containing bs ab ≡ some (some b.rules))

  IsBest-here :
      (c : CompiledBucket Net) (cs : List (CompiledBucket Net)) (ab : Bytes)
      → IsDescending (c ∷ cs)
      → contains_bytes ab c.key.mask c.key.addr ≡ some true
      → IsBest c (c ∷ cs) ab
  IsBest-here c cs ab d h = (
    inl refl,
    h,
    λ x i held. elim i [ inl here ↦ rw here (less_irrefl c.key.mask) | inr there ↦ d.0 x there ],
  )

  IsBest-later :
      (c b : CompiledBucket Net) (cs : List (CompiledBucket Net)) (ab : Bytes)
      → contains_bytes ab c.key.mask c.key.addr ≡ some false
      → IsBest b cs ab
      → IsBest b (c ∷ cs) ab
  IsBest-later c b cs ab n (i, h, best) = (
    inr i,
    h,
    λ x j held. elim j [
      | inl here ↦
          let k = subst (λ b. contains_bytes ab b.key.mask b.key.addr ≡ some true) here held in
          cc (some_injective true false (sym k ∙ n))
      | inr there ↦ best x there held
    ],
  )

  pub first_containing-Hit :
      (bs : List (CompiledBucket Net)) (ab : Bytes) (b : CompiledBucket Net)
      → IsDescending bs
      → ((b : CompiledBucket Net) → In b bs → Fits ab b.key)
      → In b bs
      → contains_bytes ab b.key.mask b.key.addr ≡ some true
      → Hit bs ab
  unfolding first_containing
  first_containing-Hit [] ab b d fits i h = elim i [ ]
  first_containing-Hit (c ∷ cs) ab b d fits i h =
      let (t, e) =
        contains_len ab c.key.mask c.key.addr (fits c (inl refl)).0 (fits c (inl refl)).1 in
      elim (Bool-cases t) [
        | inl y ↦ (c, IsBest-here c cs ab d (e ∙ ap some y), rw (e, y, first_containing) refl)
        | inr n ↦ elim i [
          | inl here ↦
              let k = subst (λ b. contains_bytes ab b.key.mask b.key.addr ≡ some true) here h in
              cc (some_injective true false (sym k ∙ e ∙ ap some n))
          | inr there ↦
              let (x, best, l) = first_containing-Hit cs ab b d.1 (λ b i. fits b (inr i)) there h in
              (x, IsBest-later c x cs ab (e ∙ ap some n) best, rw (e, n, first_containing) l)
        ]
      ]
