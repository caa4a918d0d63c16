-- ===== src/Rules/Engine/Clients.antt =====
-- internal/rules/engine.go: the methods that `Lookup` calls keep the caches sound and serve what they should.
use mitmania.Prelude.{
  ◌≡◌, refl, Bool, true, Option, none, some, if◌then◌else◌, inl, inr, Bytes, Bool-cases, ap, false,
  ltb, not,
}
use mitmania.Rules.RuleSet.{RuleSet}
use mitmania.Rules.MaskedKey.Parsed.{IsAddress}
use mitmania.Rules.Outcome.{Outcome, done, failed}
use mitmania.Rules.Caches.{CachedRuleSet, Engine, Setup, in_table, or_empty, unchanged_client}
use mitmania.Rules.TableCache.{lookup_default_table}
use mitmania.Rules.Engine.{
  resolve_client_cache, lookup_ip, resolve_known, without_file, stored_without, client_answer,
}
use mitmania.Rules.Engine.Sound.{
  HasNoFile, IsTableIfAny, IsFound, IsRules, IsEntry, IsKnown, IsSound, IsServed, Ends, Ends-then,
  Ends-lift,
}
use mitmania.Rules.Engine.Tables.{lookup_default_table-Ends, in_table-IsFound}
use mitmania.Rules.Engine.Compiled.{lookup_ip-Ends}

module _ {W Addr Net : Type 0} (c : Setup W Addr Net)
    (parsed : (s a : Bytes) → c.lib.parse_addr s ≡ some a → IsAddress a) where
  from_table :
      (client : Bytes) (found : Option (RuleSet Net))
      → HasNoFile c parsed client
      → IsFound c parsed client found
      → IsServed c parsed client (or_empty found)
  from_table client none n h = inr (n, inr (h, refl))
  from_table client (some rs) n h = inr (n, inl h)

  own_rules :
      (client hash : Bytes) (o : Option (RuleSet Net))
      → IsRules c parsed client hash o
      → IsServed c parsed client o
  own_rules client hash none h = elim h [ ]
  own_rules client hash (some rs) h = inl (hash, h)

  resolve_client_cache-Ends :
      (client : Bytes) (e : CachedRuleSet Net) (s : Engine W Net)
      → IsAddress client
      → IsSound c parsed s
      → IsEntry c parsed client e
      → Ends c parsed (IsServed c parsed client) (resolve_client_cache c client e s)
  unfolding resolve_client_cache
  resolve_client_cache-Ends client e s a i h = elim (Bool-cases e.exists) [
    | inl y ↦ rw y (i, own_rules client e.content_hash e.rule_set (h.0 y))
    | inr n ↦ rw n (
        Ends-then c parsed (IsTableIfAny c parsed) (IsServed c parsed client)
          (lookup_default_table c s) _ (lookup_default_table-Ends c parsed s i)
          λ d s i t.
            Ends-lift c parsed (IsServed c parsed client) s (in_table d client) _ i λ found f.
              (i, from_table client found (h.1 n) (in_table-IsFound c parsed client d found a t f)))
  ]

  pub resolve_known-Ends :
      (client : Bytes) (e : CachedRuleSet Net) (s : Engine W Net)
      → IsAddress client
      → IsSound c parsed s
      → IsEntry c parsed client e
      → Ends c parsed (IsServed c parsed client) (resolve_known c client (some e) s)
  resolve_known-Ends client e s a i h = resolve_client_cache-Ends client e s a i h

  stored_without-Ends :
      (client version : Bytes) (s : Engine W Net)
      → IsAddress client
      → IsSound c parsed s
      → HasNoFile c parsed client
      → Ends c parsed (IsServed c parsed client) (stored_without c client version s)
  stored_without-Ends client version s a i n =
      resolve_client_cache-Ends client (without_file c (c.clock s.world).0 version) _ a
        ((((λ y. cc y), (λ y. n)), i.0), i.1) ((λ y. cc y), (λ y. n))

  -- Where nothing that is known can be reused unchanged.
  changed_answer-Ends :
      (client version : Bytes) (exists : Bool) (cached : Option (CachedRuleSet Net))
      (s : Engine W Net)
      → IsAddress client
      → IsSound c parsed s
      → IsKnown c parsed client cached
      → (exists ≡ false → HasNoFile c parsed client)
      → Ends c parsed (IsServed c parsed client) (
          (if not exists
              then stored_without c client version
              else lookup_ip c client version cached)
            s)
  changed_answer-Ends client version true cached s a i k n =
      lookup_ip-Ends c parsed client version cached s a i k
  changed_answer-Ends client version false cached s a i k n =
      stored_without-Ends client version s a i (n refl)

  pub client_answer-Ends :
      (client : Bytes) (cached : Option (CachedRuleSet Net)) (r : Outcome (Bytes × Bool))
      (s : Engine W Net)
      → IsAddress client
      → IsSound c parsed s
      → IsKnown c parsed client cached
      → ((version : Bytes) → r ≡ done (version, false) → HasNoFile c parsed client)
      → Ends c parsed (IsServed c parsed client) (client_answer c client cached r s)
  client_answer-Ends client none (failed e) s a i k n = elim (Bool-cases (ltb 0 c.cache_ttl)) [
    | inl y ↦ rw y i
    | inr n ↦ rw n i
  ]
  client_answer-Ends client (some d) (failed e) s a i k n = elim (Bool-cases (ltb 0 c.cache_ttl)) [
    | inl y ↦ rw y (resolve_known-Ends client d s a i k)
    | inr n ↦ rw n i
  ]
  client_answer-Ends client none (done (version, exists)) s a i k n =
      changed_answer-Ends client version exists none s a i k
        λ e. n version (ap (λ x. done (version, x)) e)
  client_answer-Ends client (some d) (done (version, exists)) s a i k n =
      elim (Bool-cases (unchanged_client (some d) version exists)) [
        | inl y ↦ rw y (resolve_known-Ends client d _ a ((k, i.0), i.1) k)
        | inr f ↦ rw f (
            changed_answer-Ends client version exists (some d) s a i k
              λ e. n version (ap (λ x. done (version, x)) e))
      ]
