-- ===== src/Rules/Engine/Served.antt =====
-- `Lookup` of internal/rules/engine.go: where the rules that it returns are from.
use mathlib.Core.Path.{subst}
use mitmania.Prelude.{◌≡◌, refl, true, Option, none, some, inl, inr, Bytes, Bool-cases}
use mitmania.Rules.MaskedKey.Parsed.{IsAddress}
use mitmania.Rules.Caches.{CachedRuleSet, Engine, Setup, find_client}
use mitmania.Rules.TableCache.{stat_client, fresh, fresh_client}
use mitmania.Rules.Engine.{lookup_client}
use mitmania.Rules.Engine.Sound.{IsKnown, IsSound, IsServed, Ends, Ends-then, find_client-IsKnown}
use mitmania.Rules.Engine.Tables.{fresh-Ends, weaken}
use mitmania.Rules.Engine.Clients.{resolve_known-Ends, client_answer-Ends}

module _ {W Addr Net : Type 0} (c : Setup W Addr Net)
    (parsed : (s a : Bytes) → c.lib.parse_addr s ≡ some a → IsAddress a) where
  fresh_client-Ends :
      (d : Option (CachedRuleSet Net)) (s : Engine W Net)
      → IsSound c parsed s
      → Ends c parsed
          (λ b. (b ≡ true → (e : CachedRuleSet Net) × (d ≡ some e)))
          (fresh_client c d s)
  fresh_client-Ends none s i = (i, λ y. cc y)
  fresh_client-Ends (some d) s i =
      weaken c parsed (λ b. Unit) (λ b. (b ≡ true → (e : CachedRuleSet Net) × (some d ≡ some e)))
        (fresh c d.checked_at s) (fresh-Ends c parsed d.checked_at s i) λ b u y. (d, refl)

  -- From sound caches, a lookup leaves sound caches behind, whether it fails or not. The rules
  -- that it returns are compiled from a file that Load gave for this client, with the file's own
  -- egress list or else that of the table's answer; or, if the storage held no file for the
  -- client, they are the table's answer, or empty if it held no table either. Caches are sound if
  -- each client's rules are so compiled and cached with the hash of their file, if a client cached
  -- without a file had none in the storage, and if the default table, where there is one, answers
  -- every address and has the buckets of the entries of a default rule set that the storage held.
  -- Files are as the storage held them, but for a uuid given to one without. netip's parser is
  -- taken to give addresses of 4 or 16 bytes, and the client's is one.
  pub lookup_client-Served :
      (client : Bytes) (s : Engine W Net)
      → IsAddress client
      → IsSound c parsed s
      → Ends c parsed (IsServed c parsed client) (lookup_client c client s)
  unfolding lookup_client
  lookup_client-Served client s a i =
      let R = IsServed c parsed client in
      let known = find_client-IsKnown c parsed client s.cache i.0 in
      Ends-then c parsed
        (λ b. (b ≡ true → (e : CachedRuleSet Net) × (find_client client s.cache ≡ some e))) R
        (fresh_client c (find_client client s.cache) s) _
        (fresh_client-Ends (find_client client s.cache) s i)
        λ b s2 i2 h. elim (Bool-cases b) [
          | inl y ↦
              let (e, f) = h y in
              rw (y, f)
                (resolve_known-Ends c parsed client e s2 a i2
                  (subst (IsKnown c parsed client) f known))
          | inr n ↦ rw n (
              client_answer-Ends c parsed client (find_client client s.cache)
                (stat_client c client s2.world).0 _ a i2 known λ version e. (s2.world, version, e))
        ]
