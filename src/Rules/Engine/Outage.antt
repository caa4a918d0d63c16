-- ===== src/Rules/Engine/Outage.antt =====
-- `Lookup` of internal/rules/engine.go while the storage answers no Stat.
use mathlib.Core.Path.{subst}
use mitmania.Prelude.{
  ℕ, ◌-◌, ltb, ◌≡◌, refl, Bool, true, false, Option, none, some, if◌then◌else◌, inl, inr, Bytes,
  Bool-cases, ◌∙◌, sym, ◌&&◌,
}
use mitmania.Rules.RuleSet.{RuleSet}
use mitmania.Rules.DefaultRuleset.{DefaultRuleset}
use mitmania.Rules.Store.{broken, stat, stat_default}
use mitmania.Rules.Outcome.{Outcome, done, failed, storage_error, ◌>>=◌}
use mitmania.Rules.Caches.{
  CachedRuleSet, CachedDefault, Engine, Setup, Run, and_then, give, lift, on_world, ruleset_of,
  find_client, in_table, or_empty,
}
use mitmania.Rules.TableCache.{
  fresh, fresh_default, fresh_client, default_answer, lookup_default_table, stat_client, stat_table,
}
use mitmania.Rules.Engine.{resolve_client_cache, resolve_known, client_answer, lookup_client}

module _ {W Addr Net : Type 0} (c : Setup W Addr Net) where
  -- The default table that is served: the cached one, if there is a time to live.
  abbrev pub table_offline : Option (CachedDefault Net) → Outcome (Option (DefaultRuleset Net))
  table_offline none = failed storage_error
  table_offline (some d) = if ltb 0 c.cache_ttl then done d.table else failed storage_error

  abbrev pub answer_offline :
      Outcome (Option (DefaultRuleset Net)) → Bytes → Outcome (Option (RuleSet Net))
  answer_offline table client = do def ← table; found ← in_table def client; done (or_empty found)

  -- The rules that are served: those that are cached for the client, if there is a time to live.
  abbrev pub offline :
      Bytes
      → Option (CachedRuleSet Net)
      → Option (CachedDefault Net)
      → Outcome (Option (RuleSet Net))
  offline client none table = failed storage_error
  offline client (some e) table =
      if ltb 0 c.cache_ttl
      then (if e.exists then done e.rule_set else answer_offline (table_offline table) client)
      else failed storage_error

  -- The run has the result, and leaves the caches as they are.
  abbrev pub Stays : {A : Type 0} → Engine W Net → Outcome A → Outcome A × Engine W Net → Type 0
  Stays s o x = (x.0 ≡ o) × (x.1.cache ≡ s.cache) × (x.1.default_cache ≡ s.default_cache)

  Stays-then :
      {A B : Type 0} (s : Engine W Net) (a : A) (o : Outcome B) (x : Outcome A × Engine W Net)
      (f : A → Run (Engine W Net) B)
      → Stays s (done a) x
      → ((t : Engine W Net)
          → t.cache ≡ s.cache
          → t.default_cache ≡ s.default_cache
          → Stays s o (f a t))
      → Stays s o (and_then x f)
  Stays-then s a o (failed e, t) f (h, i, j) k = cc h
  Stays-then s a o (done b, t) f (h, i, j) k =
      let same_value : b ≡ a = cc h in rw same_value (k t i j)

  Stays-failed :
      {A B : Type 0} (s : Engine W Net) (e : _) (x : Outcome A × Engine W Net)
      (f : A → Run (Engine W Net) B)
      → Stays s (failed e) x
      → Stays s (failed e) (and_then x f)
  Stays-failed s e (failed g, t) f (h, i, j) = (cc h, i, j)
  Stays-failed s e (done b, t) f (h, i, j) = cc h

  fresh-Stays :
      (at : ℕ) (s : Engine W Net)
      → (b : Bool) × Stays s (done b) (fresh c at s) × (ltb 0 c.cache_ttl ≡ false → b ≡ false)
  unfolding fresh
  fresh-Stays at s = elim (Bool-cases (ltb 0 c.cache_ttl)) [
    | inl y ↦ rw y (ltb ((c.clock s.world).0 - at) c.cache_ttl, (refl, refl, refl), λ n. cc n)
    | inr n ↦ rw n (false, (refl, refl, refl), λ m. refl)
  ]

  module _ (down : (k : Bytes) (w : W) → (c.storage.stat k w).0 ≡ broken) where
    stat_client-down : (client : Bytes) (w : W) → (stat_client c client w).0 ≡ failed storage_error
    unfolding stat
    stat_client-down client w = rw (down _ w) refl

    stat_table-down : (w : W) → (stat_table c w).0 ≡ failed storage_error
    unfolding stat_default
    stat_table-down w = rw (down _ w) refl

    default_answer-offline :
        (s t : Engine W Net) (o : Option (CachedDefault Net)) (r : Outcome (Bytes × Bool))
        → r ≡ failed storage_error
        → t.cache ≡ s.cache
        → t.default_cache ≡ s.default_cache
        → Stays s (table_offline o) (default_answer c o r t)
    default_answer-offline s t none r e i j = elim (Bool-cases (ltb 0 c.cache_ttl)) [
      | inl y ↦ rw (e, default_answer, y) (refl, i, j)
      | inr n ↦ rw (e, default_answer, n) (refl, i, j)
    ]
    default_answer-offline s t (some d) r e i j = elim (Bool-cases (ltb 0 c.cache_ttl)) [
      | inl y ↦ rw (e, default_answer, y) (refl, i, j)
      | inr n ↦ rw (e, default_answer, n) (refl, i, j)
    ]

    lookup_default_table-offline :
        (s : Engine W Net) → Stays s (table_offline s.default_cache) (lookup_default_table c s)
    unfolding lookup_default_table
    lookup_default_table-offline s = go s.default_cache
      where
        go :
            (o : Option (CachedDefault Net))
            → Stays s (table_offline o) (
                and_then (fresh_default c o s) (λ b. if b then give (ruleset_of o) else λ u.
                and_then (on_world (stat_table c) u) (default_answer c o)))
        go none = default_answer-offline s _ none _ (stat_table-down s.world) refl refl
        go (some d) =
            let (b, stays, off) = fresh-Stays d.checked_at s in
            Stays-then s b (table_offline (some d)) (fresh c d.checked_at s) _ stays λ t i j.
              elim (Bool-cases b) [
                | inl y ↦ elim (Bool-cases (ltb 0 c.cache_ttl)) [
                  | inl on ↦ rw (y, on) (refl, i, j)
                  | inr n ↦ cc (y, off n)
                ]
                | inr n ↦ rw n (default_answer-offline s _ (some d) _ (stat_table-down t.world) i j)
              ]

    in_table-offline :
        (s t : Engine W Net) (d : Option (DefaultRuleset Net)) (client : Bytes)
        → t.cache ≡ s.cache
        → t.default_cache ≡ s.default_cache
        → Stays s
            (in_table d client >>= λ found. done (or_empty found))
            (and_then (in_table d client, t) λ found. give (or_empty found))
    in_table-offline s t d client i j = go (in_table d client)
      where
        go :
            (o : Outcome (Option (RuleSet Net)))
            → Stays s
                (o >>= λ found. done (or_empty found))
                (and_then (o, t) λ found. give (or_empty found))
        go (failed e) = (refl, i, j)
        go (done found) = (refl, i, j)

    table-offline :
        (s t : Engine W Net) (o : Outcome (Option (DefaultRuleset Net))) (client : Bytes)
        (x : Outcome (Option (DefaultRuleset Net)) × Engine W Net)
        → Stays s o x
        → Stays s
            (answer_offline o client)
            (and_then x λ def u. and_then (in_table def client, u) λ found. give (or_empty found))
    table-offline s t (failed e) client x h = Stays-failed s e x _ h
    table-offline s t (done d) client x h =
        Stays-then s d _ x _ h λ u i j. in_table-offline s u d client i j

    moved :
        {A : Type 0} (s t : Engine W Net) (o : Outcome A) (x : Outcome A × Engine W Net)
        → t.cache ≡ s.cache
        → t.default_cache ≡ s.default_cache
        → Stays t o x
        → Stays s o x
    moved s t o (r, u) i j (h, k, l) = (h, k ∙ i, l ∙ j)

    resolve_client_cache-offline :
        (s t : Engine W Net) (client : Bytes) (e : CachedRuleSet Net)
        → ltb 0 c.cache_ttl ≡ true
        → t.cache ≡ s.cache
        → t.default_cache ≡ s.default_cache
        → Stays s (offline client (some e) s.default_cache) (resolve_client_cache c client e t)
    unfolding resolve_client_cache
    resolve_client_cache-offline s t client e on i j = elim (Bool-cases e.exists) [
      | inl y ↦ rw (on, y) (refl, i, j)
      | inr n ↦
          rw (on, n)
            (table-offline s t (table_offline s.default_cache) client (lookup_default_table c t) (
              moved s t _ (lookup_default_table c t) i j (
                subst (λ q. Stays t (table_offline q) (lookup_default_table c t)) j
                  (lookup_default_table-offline t))))
    ]

    client_answer-offline :
        (s t : Engine W Net) (client : Bytes) (o : Option (CachedRuleSet Net))
        (r : Outcome (Bytes × Bool))
        → r ≡ failed storage_error
        → t.cache ≡ s.cache
        → t.default_cache ≡ s.default_cache
        → Stays s (offline client o s.default_cache) (client_answer c client o r t)
    client_answer-offline s t client none r e i j = elim (Bool-cases (ltb 0 c.cache_ttl)) [
      | inl y ↦ rw (e, client_answer, y) (refl, i, j)
      | inr n ↦ rw (e, client_answer, n) (refl, i, j)
    ]
    client_answer-offline s t client (some d) r e i j = elim (Bool-cases (ltb 0 c.cache_ttl)) [
      | inl y ↦
          subst
            (λ q.
              Stays s (offline client (some d) s.default_cache)
                (client_answer c client (some d) q t))
            (sym e)
            (subst
              (λ b. Stays s (offline client (some d) s.default_cache) (
                (if b && true then resolve_known c client (some d) else lift (failed storage_error))
                  t))
              (sym y) (resolve_client_cache-offline s t client d y i j))
      | inr n ↦ rw (e, client_answer, n) (refl, i, j)
    ]

    -- While every Stat of the storage fails, a lookup leaves the caches as they are, and its
    -- result does not depend on the clock: with no time to live, or for a client that is not
    -- cached, the error; for a client cached with a file, its cached rules; for one cached without
    -- a file, the answer of the cached default table, or the error if none is cached.
    pub lookup_client-offline :
        (client : Bytes) (s : Engine W Net)
        → Stays s
            (offline client (find_client client s.cache) s.default_cache)
            (lookup_client c client s)
    unfolding lookup_client
    lookup_client-offline client s = go (find_client client s.cache)
      where
        go :
            (o : Option (CachedRuleSet Net))
            → Stays s (offline client o s.default_cache) (
                and_then (fresh_client c o s) (λ b. if b then resolve_known c client o else λ u.
                and_then (on_world (stat_client c client) u) (client_answer c client o)))
        go none =
            client_answer-offline s _ client none _ (stat_client-down client s.world) refl refl
        go (some d) =
            let (b, stays, off) = fresh-Stays d.checked_at s in
            Stays-then s b (offline client (some d) s.default_cache) (fresh c d.checked_at s) _
              stays
              λ t i j. elim (Bool-cases b) [
                | inl y ↦ elim (Bool-cases (ltb 0 c.cache_ttl)) [
                  | inl on ↦ rw y (resolve_client_cache-offline s t client d on i j)
                  | inr n ↦ cc (y, off n)
                ]
                | inr n ↦ rw n (
                    client_answer-offline s _ client (some d) _ (stat_client-down client t.world) i
                      j)
              ]
