-- ===== src/Proxy/Retry/First.antt =====
-- internal/proxy/retry.go: which attempt decides.
use mitmania.Prelude.{ℕ, zero, suc, ◌≡◌, refl, ap, ◌∙◌, ◌<◌, ◌⊎◌, inl, inr, arith}
use mitmania.Prelude.Int.{pos}
use mitmania.Proxy.Retry.{Result, value, error, rounds, with_retries}

module _ {World E A : Type 0} (misconfigured : E) (attempt : World → World × Result E A) where
  -- The world after so many attempts.
  abbrev pub after : ℕ → World → World
  after zero world = world
  after (suc n) world = after n (attempt world).0

  abbrev pub FailsAt : ℕ → World → Type 0
  FailsAt i world = (e : E) × ((attempt (after i world)).1 ≡ error e)

  -- Attempt `k` is the first to succeed.
  pub record IsFirst (tries k : ℕ) (world : World) (a : A) : Type 0 where
    pub within : k < tries
    pub earlier : (i : ℕ) → i < k → FailsAt i world
    pub here : attempt (after k world) ≡ (after (suc k) world, value a)

  pub record AllFail (last : ℕ) (world : World) (e : E) : Type 0 where
    pub earlier : (i : ℕ) → i < suc last → FailsAt i world
    pub here : (attempt (after last world)).1 ≡ error e

  outcome-cases :
      (o : World × Result E A) → ((a : A) × (o ≡ (o.0, value a))) ⊎ ((e : E) × (o ≡ (o.0, error e)))
  outcome-cases (world, value a) = inl (a, refl)
  outcome-cases (world, error e) = inr (e, refl)

  rounds_value :
      (n : ℕ) (world : World) (a : A)
      → rounds misconfigured attempt n (world, value a) ≡ (world, value a)
  unfolding rounds
  rounds_value zero world a = refl
  rounds_value (suc n) world a = refl

  fails_before :
      (world : World) (e : E) (k : ℕ)
      → (attempt world).1 ≡ error e
      → ((i : ℕ) → i < k → FailsAt i (attempt world).0)
      → (i : ℕ) → i < suc k
      → FailsAt i world
  fails_before world e k h more zero l = (e, h)
  fails_before world e k h more (suc i) l = more i (omega arith)

  abbrev pub Decided : ℕ → World → World × Result E A → Type 0
  Decided n world outcome =
      ((k : ℕ) × (a : A) × (outcome ≡ (after (suc k) world, value a)) × IsFirst (suc n) k world a)
      ⊎ ((e : E) × (outcome ≡ (after (suc n) world, error e)) × AllFail n world e)

  at_once :
      (n : ℕ) (world : World) (a : A)
      → attempt world ≡ ((attempt world).0, value a)
      → Decided n world (rounds misconfigured attempt n (attempt world))
  at_once n world a h = inl (
    0,
    a,
    ap (rounds misconfigured attempt n) h ∙ rounds_value n (attempt world).0 a,
    record { within = omega arith; earlier = λ i l. absurd (omega (arith, l)); here = h },
  )

  only_failed :
      (world : World) (e : E)
      → attempt world ≡ ((attempt world).0, error e)
      → Decided 0 world (rounds misconfigured attempt 0 (attempt world))
  unfolding rounds
  only_failed world e h =
      let wrong : (attempt world).1 ≡ error e = ap (λ o. o.1) h in
      inr (
        e,
        h,
        record {
          earlier = fails_before world e 0 wrong (λ i l. absurd (omega (arith, l)));
          here = wrong;
        },
      )

  later :
      (n : ℕ) (world : World) (e : E)
      → attempt world ≡ ((attempt world).0, error e)
      → Decided n (attempt world).0 (rounds misconfigured attempt n (attempt (attempt world).0))
      → Decided (suc n) world (rounds misconfigured attempt (suc n) (attempt world))
  unfolding rounds
  later n world e h (inl (k, a, g, f)) = inl (
    suc k,
    a,
    ap (rounds misconfigured attempt (suc n)) h ∙ g,
    record {
      within = omega (arith, f.within);
      earlier = fails_before world e k (ap (λ o. o.1) h) f.earlier;
      here = f.here;
    },
  )
  later n world e h (inr (last, g, f)) = inr (
    last,
    ap (rounds misconfigured attempt (suc n)) h ∙ g,
    record { earlier = fails_before world e (suc n) (ap (λ o. o.1) h) f.earlier; here = f.here },
  )

  rounds-Decided :
      (n : ℕ) (world : World) → Decided n world (rounds misconfigured attempt n (attempt world))
  rounds-Decided zero world = elim (outcome-cases (attempt world)) [
    | inl (a, h) ↦ at_once 0 world a h
    | inr (e, h) ↦ only_failed world e h
  ]
  rounds-Decided (suc n) world = elim (outcome-cases (attempt world)) [
    | inl (a, h) ↦ at_once (suc n) world a h
    | inr (e, h) ↦ later n world e h (rounds-Decided n (attempt world).0)
  ]

  -- With a positive number of tries, either an attempt in that number is the first to succeed and
  -- its value is returned with the world as it left it, or every attempt fails and the last error
  -- is returned behind exactly that number of attempts.
  pub with_retries-Decided :
      (n : ℕ) (world : World)
      → Decided n world (with_retries misconfigured attempt (pos (suc n)) world)
  unfolding with_retries
  with_retries-Decided n world = rounds-Decided n world
