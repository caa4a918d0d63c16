-- ===== src/Outcall/CacheControl/Cacheable.antt =====
-- `parseFreshness` of internal/outcall/cachecontrol.go: which replies are cached, and how long.
use mitmania.Prelude.{
  ℕ, ◌≡◌, refl, Bool, true, false, Option, none, some, List, [], ◌∷◌, ◌||◌, if◌then◌else◌, Bytes,
  codes, same, same→eq, Bool-cases, inl, inr, ap, ◌∙◌,
}
use mitmania.Rules.Pattern.Glob.{is_empty}
use mitmania.Rules.Labels.{split}
use mitmania.Outcall.CacheControl.{
  Freshness, CacheControl, nothing_said, seconds, directive, with_max_age,
  with_stale_while_revalidate, with_stale_if_error, apply_directive, apply_directives, if_positive,
  by_expires, by_age, parse_freshness,
}

abbrev is_no_store : Option (Bytes × Bytes) → Bool
is_no_store none = false
is_no_store (some (name, arg)) = same name (codes "no-store")

-- Some directive is no-store.
unfoldable pub forbids : List Bytes → Bool
forbids [] = false
forbids (text ∷ more) = is_no_store (directive text) || forbids more

or_false : (b : Bool) → b ≡ (b || false)
or_false true = refl
or_false false = refl

or_true : (b : Bool) → true ≡ (b || true)
or_true true = refl
or_true false = refl

or_assoc : (a b c : Bool) → ((a || b) || c) ≡ (a || (b || c))
or_assoc true b c = refl
or_assoc false b c = refl

module _ (atoi : Bytes → Option ℕ) (until : Bytes → Option ℕ) where
  abbrev age_of : Option (Bytes × Bytes) → Option ℕ
  age_of none = none
  age_of (some (name, arg)) = if same name (codes "max-age") then atoi arg else none

  -- The last max-age with a number.
  unfoldable pub last_age : List Bytes → Option ℕ
  last_age [] = none
  last_age (text ∷ more) = elim (last_age more) [ some n ↦ some n | none ↦ age_of (directive text) ]

  abbrev or_time : Option ℕ → Option ℕ
  or_time none = none
  or_time (some d) = some (if_positive atoi until d)

  -- How long the last max-age with a number says, or else Expires.
  abbrev pub said : Option ℕ → Bytes → Option ℕ
  said (some n) expires = some (seconds n)
  said none expires = if is_empty expires then none else or_time (until expires)

  -- The time for which a reply is fresh, if it is cached.
  abbrev pub lifetime : Freshness → Option ℕ
  lifetime f = if f.cacheable then some f.fresh_for else none

  -- What has been said of the age.
  abbrev age : CacheControl → Option ℕ
  age cc = if cc.has_max_age then some cc.max_age else none

  abbrev newer : Option ℕ → Option ℕ → Option ℕ
  newer (some n) old = some (seconds n)
  newer none old = old

  newer_twice :
      (later earlier old : Option ℕ)
      → newer later (newer earlier old)
        ≡ newer (elim later [ some n ↦ some n | none ↦ earlier ]) old
  newer_twice none earlier old = refl
  newer_twice (some n) earlier old = refl

  -- Storing may be forbidden, and the age is newer.
  abbrev Follows : Bool → Option ℕ → CacheControl → CacheControl → Type 0
  Follows no_store n old new =
      (new.no_store ≡ (old.no_store || no_store)) × (age new ≡ newer n (age old))

  max_age-Follows :
      (cc : CacheControl) (n : Option ℕ) → Follows false n cc (with_max_age atoi until cc n)
  max_age-Follows cc none = (or_false cc.no_store, refl)
  max_age-Follows cc (some n) = (or_false cc.no_store, refl)

  revalidate-Follows :
      (cc : CacheControl) (n : Option ℕ)
      → Follows false none cc (with_stale_while_revalidate atoi until cc n)
  revalidate-Follows cc none = (or_false cc.no_store, refl)
  revalidate-Follows cc (some n) = (or_false cc.no_store, refl)

  error-Follows :
      (cc : CacheControl) (n : Option ℕ)
      → Follows false none cc (with_stale_if_error atoi until cc n)
  error-Follows cc none = (or_false cc.no_store, refl)
  error-Follows cc (some n) = (or_false cc.no_store, refl)

  apply_directive-Follows :
      (cc : CacheControl) (d : Option (Bytes × Bytes))
      → Follows (is_no_store d) (age_of d) cc (apply_directive atoi until cc d)
  unfolding apply_directive same
  apply_directive-Follows cc none = (or_false cc.no_store, refl)
  apply_directive-Follows cc (some (name, arg)) = elim (Bool-cases (same name (codes "no-store"))) [
    | inl e ↦ rw (same→eq name (codes "no-store") e) (or_true cc.no_store, refl)
    | inr n1 ↦ rw n1 elim (Bool-cases (same name (codes "must-revalidate"))) [
      | inl e ↦ rw (same→eq name (codes "must-revalidate") e) (or_false cc.no_store, refl)
      | inr n2 ↦ rw n2 elim (Bool-cases (same name (codes "max-age"))) [
        | inl e ↦ rw e (max_age-Follows cc (atoi arg))
        | inr n3 ↦ rw n3 elim (Bool-cases (same name (codes "stale-while-revalidate"))) [
          | inl e ↦ rw e (revalidate-Follows cc (atoi arg))
          | inr n4 ↦ rw n4 elim (Bool-cases (same name (codes "stale-if-error"))) [
            | inl e ↦ rw e (error-Follows cc (atoi arg))
            | inr n5 ↦ rw n5 (or_false cc.no_store, refl)
          ]
        ]
      ]
    ]
  ]

  apply_directives-Follows :
      (ds : List Bytes) (cc : CacheControl)
      → Follows (forbids ds) (last_age ds) cc (apply_directives atoi until ds cc)
  unfolding apply_directives forbids last_age
  apply_directives-Follows [] cc = (or_false cc.no_store, refl)
  apply_directives-Follows (text ∷ more) cc =
      let d = directive text in
      let (f, g) = apply_directive-Follows cc d in
      let (h, k) = apply_directives-Follows more (apply_directive atoi until cc d) in
      (
        h ∙ ap (λ b. b || forbids more) f ∙ or_assoc cc.no_store (is_no_store d) (forbids more),
        k ∙ ap (newer (last_age more)) g ∙ newer_twice (last_age more) (age_of d) (age cc),
      )

  by_expires-lifetime :
      (cc : CacheControl) (o : Option ℕ) → lifetime (by_expires atoi until cc o) ≡ or_time o
  by_expires-lifetime cc none = refl
  by_expires-lifetime cc (some d) = refl

  by_age-lifetime :
      (said_so : CacheControl) (expires : Bytes) (n : Option ℕ)
      → age said_so ≡ newer n none
      → lifetime (by_age atoi until said_so expires) ≡ said n expires
  by_age-lifetime said_so expires (some n) h = elim (Bool-cases said_so.has_max_age) [
    | inl e ↦ rw e (rw e at h)
    | inr e ↦ cc (rw e at h)
  ]
  by_age-lifetime said_so expires none h = elim (Bool-cases said_so.has_max_age) [
    | inl e ↦ cc (rw e at h)
    | inr e ↦ rw e elim (Bool-cases (is_empty expires)) [
      | inl y ↦ rw y refl
      | inr y ↦ rw y (by_expires-lifetime said_so (until expires))
    ]
  ]

  -- A reply is not cached if a directive is no-store; else it is fresh for the seconds of the last
  -- max-age with a number, wrapped to 64 bits; without one it is fresh until Expires, or not at
  -- all if that is past; and it is not cached if it has neither.
  pub parse_freshness-lifetime :
      (cache_control expires : Bytes)
      → lifetime (parse_freshness atoi until cache_control expires) ≡ (
          if forbids (split b',' cache_control)
          then none
          else said (last_age (split b',' cache_control)) expires)
  unfolding parse_freshness
  parse_freshness-lifetime cache_control expires =
      let ds = split b',' cache_control in
      let cc = apply_directives atoi until ds nothing_said in
      let (f, k) = apply_directives-Follows ds nothing_said in
      elim (Bool-cases (forbids ds)) [
        | inl e ↦ rw (f ∙ e, e) refl
        | inr e ↦ rw (f ∙ e, e) (by_age-lifetime cc expires (last_age ds) k)
      ]
