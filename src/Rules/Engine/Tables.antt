-- ===== src/Rules/Engine/Tables.antt =====
-- internal/rules/engine.go: `lookupDefaultTable` and `resolveEgress` keep the caches sound.
use mathlib.Core.Path.{subst}
use mitmania.Prelude.{
  ◌≡◌, refl, Bool, true, Option, none, some, List, inl, inr, Bytes, Bool-cases, sym, ap, ◌∙◌, false,
  ℕ, ltb, some_injective,
}
use mitmania.Rules.Schema.{EgressRule}
use mitmania.Rules.Egress.{compile_egress}
use mitmania.Rules.RuleSet.{RuleSet}
use mitmania.Rules.MaskedKey.Parsed.{IsAddress}
use mitmania.Rules.DefaultRuleset.{DefaultRuleset, lookup_addr}
use mitmania.Rules.Outcome.{
  Outcome, done, failed, or_fail, or_fail_done, done_injective, panicked, bad_egress,
}
use mitmania.Rules.Caches.{CachedDefault, Engine, Setup, lift, in_table, unchanged_default}
use mitmania.Rules.TableCache.{
  stat_table, fresh, fresh_default, default_answer, lookup_default_table,
}
use mitmania.Rules.Engine.{resolve_egress}
use mitmania.Rules.Engine.Sound.{
  IsAbsent, IsTableIfAny, IsDefault, IsFound, IsEgress, IsSound, Ends, Ends-then, Ends-lift,
}
use mitmania.Rules.Engine.Loaded.{store_default-Ends, load_default-Ends}

module _ {W Addr Net : Type 0} (c : Setup W Addr Net)
    (parsed : (s a : Bytes) → c.lib.parse_addr s ≡ some a → IsAddress a) where
  pub fresh-Ends :
      (at : ℕ) (s : Engine W Net) → IsSound c parsed s → Ends c parsed (λ b. Unit) (fresh c at s)
  unfolding fresh
  fresh-Ends at s i = elim (Bool-cases (ltb 0 c.cache_ttl)) [
    | inl e ↦ rw e (i, tt)
    | inr e ↦ rw e (i, tt)
  ]

  pub weaken :
      {A : Type 0} (Q R : A → Type 0) (x : Outcome A × Engine W Net)
      → Ends c parsed Q x
      → ((a : A) → Q a → R a)
      → Ends c parsed R x
  weaken Q R (failed e, s) h k = h
  weaken Q R (done a, s) h k = (h.0, k a h.1)

  default_answer-Ends :
      (cached : Option (CachedDefault Net)) (r : Outcome (Bytes × Bool)) (s : Engine W Net)
      → IsSound c parsed s
      → IsDefault c parsed cached
      → ((version : Bytes) → r ≡ done (version, false) → IsAbsent c parsed)
      → Ends c parsed (IsTableIfAny c parsed) (default_answer c cached r s)
  default_answer-Ends none (failed e) s i t k = elim (Bool-cases (ltb 0 c.cache_ttl)) [
    | inl y ↦ rw y i
    | inr n ↦ rw n i
  ]
  default_answer-Ends (some d) (failed e) s i t k = elim (Bool-cases (ltb 0 c.cache_ttl)) [
    | inl y ↦ rw y (i, t)
    | inr n ↦ rw n i
  ]
  default_answer-Ends none (done (version, exists)) s i t k = elim (Bool-cases exists) [
    | inl y ↦ rw y (load_default-Ends c parsed none version s i t)
    | inr n ↦ rw n (
        store_default-Ends c parsed version false none s i
          (k version (ap (λ x. done (version, x)) n)))
  ]
  default_answer-Ends (some d) (done (version, exists)) s i t k =
      elim (Bool-cases (unchanged_default (some d) version exists)) [
        | inl y ↦ rw y (store_default-Ends c parsed version exists d.table s i t)
        | inr n ↦ rw n elim (Bool-cases exists) [
          | inl y ↦ rw y (load_default-Ends c parsed (some d) version s i t)
          | inr n ↦ rw n (
              store_default-Ends c parsed version false none s i
                (k version (ap (λ x. done (version, x)) n)))
        ]
      ]

  fresh_default-Known :
      (o : Option (CachedDefault Net)) (s : Engine W Net)
      → IsSound c parsed s
      → Ends c parsed
          (λ b. (b ≡ true → (d : CachedDefault Net) × (o ≡ some d)))
          (fresh_default c o s)
  fresh_default-Known none s i = (i, λ y. cc y)
  fresh_default-Known (some d) s i =
      weaken (λ b. Unit) (λ b. (b ≡ true → (e : CachedDefault Net) × (some d ≡ some e)))
        (fresh c d.checked_at s) (fresh-Ends d.checked_at s i) λ b u y. (d, refl)

  pub lookup_default_table-Ends :
      (s : Engine W Net)
      → IsSound c parsed s
      → Ends c parsed (IsTableIfAny c parsed) (lookup_default_table c s)
  unfolding lookup_default_table
  lookup_default_table-Ends s i =
      Ends-then c parsed (λ b. (b ≡ true → (d : CachedDefault Net) × (s.default_cache ≡ some d)))
        (IsTableIfAny c parsed) (fresh_default c s.default_cache s) _
        (fresh_default-Known s.default_cache s i)
        λ b s2 i2 h. elim (Bool-cases b) [
          | inl y ↦ let (d, f) = h y in rw (y, f) (i2, subst (IsDefault c parsed) f i.1)
          | inr n ↦ rw n (
              default_answer-Ends s.default_cache (stat_table c s2.world).0 _ i2 i.1
                λ version e. (s2.world, version, e))
        ]

  lift-Ends :
      {A : Type 0} (Q : A → Type 0) (o : Outcome A) (s : Engine W Net)
      → IsSound c parsed s
      → ((a : A) → o ≡ done a → Q a)
      → Ends c parsed Q (lift o s)
  lift-Ends Q (failed e) s i k = i
  lift-Ends Q (done a) s i k = (i, k a refl)

  -- What the table gives for the client is an answer of it.
  pub in_table-IsFound :
      (client : Bytes) (t : Option (DefaultRuleset Net)) (found : Option (RuleSet Net))
      → IsAddress client
      → IsTableIfAny c parsed t
      → in_table t client ≡ done found
      → IsFound c parsed client found
  in_table-IsFound client none found a h e =
      subst (IsFound c parsed client) (done_injective none found e) h
  in_table-IsFound client (some d) found a (from, answers) e =
      let (b, best, hit) = answers client a in
      subst (IsFound c parsed client)
        (some_injective (some b.rules) found
          (sym hit ∙ or_fail_done (lookup_addr d client) panicked found e))
        (d, (from, answers), hit)

  pub resolve_egress-Ends :
      (client : Bytes) (o : Option (List EgressRule)) (s : Engine W Net)
      → IsAddress client
      → IsSound c parsed s
      → Ends c parsed (IsEgress c parsed client o) (resolve_egress c client o s)
  unfolding resolve_egress
  resolve_egress-Ends client (some rules) s a i =
      lift-Ends (IsEgress c parsed client (some rules))
        (or_fail
          (compile_egress c.lib.parse_prefix c.lib.prefix_contains c.lib.regexp_compile rules)
          bad_egress)
        s i λ egress e. or_fail_done _ bad_egress egress e
  resolve_egress-Ends client none s a i =
      Ends-then c parsed (IsTableIfAny c parsed) (IsEgress c parsed client none)
        (lookup_default_table c s) _ (lookup_default_table-Ends s i)
        λ d s i t.
          Ends-lift c parsed (IsEgress c parsed client none) s (in_table d client) _ i
            λ found f. (i, (found, in_table-IsFound client d found a t f, refl))
