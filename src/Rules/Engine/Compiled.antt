-- ===== src/Rules/Engine/Compiled.antt =====
-- `lookupIP` of internal/rules/engine.go keeps the caches sound.
use mathlib.Core.Path.{subst}
use mitmania.Prelude.{
  ◌≡◌, refl, true, Option, none, some, inl, inr, Bytes, same, same→eq, Bool-cases, sym, false, ◌&&◌,
  and_parts,
}
use mitmania.Rules.Pattern.Glob.{is_empty}
use mitmania.Rules.Schema.{RuleFile}
use mitmania.Rules.Compile.{compile}
use mitmania.Rules.Auth.{compile_auth}
use mitmania.Rules.RuleSet.{RuleSet, new_rule_set}
use mitmania.Rules.MaskedKey.Parsed.{IsAddress}
use mitmania.Rules.DefaultRuleset.Policies.{HasHash}
use mitmania.Rules.Store.{load, save}
use mitmania.Rules.Outcome.{or_fail, or_fail_done, bad_json}
use mitmania.Rules.Caches.{CachedRuleSet, Engine, Setup, succeeded, same_content}
use mitmania.Rules.Engine.{
  resolve_egress, store_client, save_minted, minted, compile_client, reuse_or_compile, lookup_ip,
}
use mitmania.Rules.Engine.Sound.{
  IsMinted, IsEgress, IsStored, IsCompiled, IsRules, IsKnown, IsSound, IsServed, Ends, Ends-then,
  Ends-lift,
}
use mitmania.Rules.Engine.Tables.{resolve_egress-Ends}

module _ {W Addr Net : Type 0} (c : Setup W Addr Net)
    (parsed : (s a : Bytes) → c.lib.parse_addr s ≡ some a → IsAddress a) where
  store_client-Ends :
      (client version : Bytes) (rs : RuleSet Net) (hash : Bytes) (s : Engine W Net)
      → IsSound c parsed s
      → IsCompiled c parsed client hash rs
      → Ends c parsed (IsServed c parsed client) (store_client c client version rs hash s)
  store_client-Ends client version rs hash s i h =
      (((((λ y. h), (λ y. cc y)), i.0), i.1), inl (hash, h))

  compile_client-Ends :
      (client version : Bytes) (rf : RuleFile) (hash : Bytes) (s : Engine W Net)
      → IsAddress client
      → IsSound c parsed s
      → IsStored c parsed client rf
      → HasHash c.lib rf hash
      → Ends c parsed (IsServed c parsed client) (compile_client c client version rf hash s)
  unfolding compile_client
  compile_client-Ends client version rf hash s a i stored hashed =
      let R = IsServed c parsed client in
      Ends-lift c parsed R s (compile_auth c.lib.crypto rf.auth) _ i λ auth e.
        Ends-lift c parsed R s
          (compile c.lib.regexp_compile c.lib.canonical_key c.lib.params_hash rf) _ i
          λ rules f.
            Ends-then c parsed (IsEgress c parsed client rf.egress) R
              (resolve_egress c client rf.egress s) _
              (resolve_egress-Ends c parsed client rf.egress s a i)
              λ egress s i own.
                store_client-Ends client version (new_rule_set rules egress rf.uuid auth) hash s i
                  (rf, rules, egress, auth, stored, hashed, e, f, own, refl)

  reuse_or_compile-Ends :
      (client version : Bytes) (rf : RuleFile) (hash : Bytes) (o : Option (RuleSet Net))
      (s : Engine W Net)
      → IsAddress client
      → IsSound c parsed s
      → IsStored c parsed client rf
      → HasHash c.lib rf hash
      → ((rs : RuleSet Net) → o ≡ some rs → IsCompiled c parsed client hash rs)
      → Ends c parsed (IsServed c parsed client) (reuse_or_compile c client version rf hash o s)
  reuse_or_compile-Ends client version rf hash (some rs) s a i stored hashed h =
      store_client-Ends client version rs hash s i (h rs refl)
  reuse_or_compile-Ends client version rf hash none s a i stored hashed h =
      compile_client-Ends client version rf hash s a i stored hashed

  same_content-IsCompiled :
      (client : Bytes) (o : Option (CachedRuleSet Net)) (hash : Bytes)
      → IsKnown c parsed client o
      → (rs : RuleSet Net) → same_content o hash ≡ some rs
      → IsCompiled c parsed client hash rs
  same_content-IsCompiled client none hash k rs h = cc h
  same_content-IsCompiled client (some e) hash k rs h =
      elim (Bool-cases (e.exists && same hash e.content_hash)) [
        | inl y ↦
            let (there, equal) = and_parts e.exists (same hash e.content_hash) y in
            subst (λ g. IsCompiled c parsed client g rs) (sym (same→eq hash e.content_hash equal))
              (subst (IsRules c parsed client e.content_hash) (rw y at h) (k.0 there))
        | inr n ↦ cc (rw n at h)
      ]

  save_minted-Ends :
      (Q : RuleFile → Type 0) (client : Bytes) (rf : RuleFile) (version : Bytes) (o : Option Bytes)
      (s : Engine W Net)
      → IsSound c parsed s
      → Q rf
      → Ends c parsed (λ x. Q x.0) (save_minted c client rf version o s)
  save_minted-Ends Q client rf version none s i q = (i, q)
  save_minted-Ends Q client rf version (some text) s i q =
      elim (Bool-cases (
        succeeded
          (save c.storage c.lib.addr_text c.sha1_hex c.lib.unmarshal_rule client text s.world).0)) [
            | inl y ↦ rw y (i, q)
            | inr n ↦ rw n (i, q)
          ]

  minted-keeps :
      (Q : RuleFile → Type 0) (client : Bytes) (rf : RuleFile) (version : Bytes) (s : Engine W Net)
      → IsSound c parsed s
      → (is_empty rf.uuid ≡ false → Q rf)
      → (is_empty rf.uuid ≡ true → (id : Bytes) → Q (record rf { uuid = id }))
      → Ends c parsed (λ x. Q x.0) (minted c client rf version s)
  unfolding minted
  minted-keeps Q client rf version s i kept new = elim (Bool-cases (is_empty rf.uuid)) [
    | inr n ↦ rw n (i, kept n)
    | inl y ↦ rw y (
        save_minted-Ends Q client (record rf { uuid = (c.new_uuid s.world).0 }) version _ _ i
          (new y _))
  ]

  minted-Ends :
      (client : Bytes) (rf : RuleFile) (version : Bytes) (s : Engine W Net)
      → IsSound c parsed s
      → Ends c parsed (λ x. IsMinted c parsed rf x.0) (minted c client rf version s)
  minted-Ends client rf version s i =
      minted-keeps (IsMinted c parsed rf) client rf version s i (λ n. inl (n, refl))
        (λ y id. inr (y, (id, refl)))

  pub lookup_ip-Ends :
      (client version : Bytes) (prev : Option (CachedRuleSet Net)) (s : Engine W Net)
      → IsAddress client
      → IsSound c parsed s
      → IsKnown c parsed client prev
      → Ends c parsed (IsServed c parsed client) (lookup_ip c client version prev s)
  unfolding lookup_ip
  lookup_ip-Ends client version prev s a i k =
      let R = IsServed c parsed client in
      Ends-lift c parsed R _
        (load c.storage c.lib.addr_text c.sha1_hex c.lib.unmarshal_rule client s.world).0 _ i
        λ loaded e.
          Ends-then c parsed (λ x. IsMinted c parsed loaded x.0) R
            (minted c client loaded version _) _ (minted-Ends client loaded version _ i)
            λ v s2 i2 m.
              Ends-lift c parsed R s2 (or_fail (c.lib.marshal_rule v.0) bad_json) _ i2 λ json f.
                reuse_or_compile-Ends client v.1 v.0 (c.lib.crypto.sha256 json)
                  (same_content prev (c.lib.crypto.sha256 json)) s2 a i2 (s.world, loaded, e, m)
                  (json, or_fail_done (c.lib.marshal_rule v.0) bad_json json f, refl)
                  (same_content-IsCompiled client prev (c.lib.crypto.sha256 json) k)
