-- ===== src/Rules/DefaultRuleset/Policies.antt =====
-- `compileParsedEntries` of internal/rules/defaultruleset.go: what the buckets of a table are made from,
-- with the rules of the previous table and the compiled http lists that entries share.
use mathlib.Core.Path.{subst}
use mitmania.Prelude.{
  ◌≡◌, refl, Option, none, some, List, [], ◌∷◌, ◌⊎◌, inl, inr, Bytes, same, same→eq, Bool-cases,
  Option-cases, In, sym, ap, ◌∙◌,
}
use mitmania.Rules.Schema.{RuleFile, EgressRule}
use mitmania.Rules.Compile.{CompiledRule, compile}
use mitmania.Rules.Auth.{CompiledAuth, compile_auth}
use mitmania.Rules.Egress.{CompiledEgress, compile_egress}
use mitmania.Rules.HostIndex.{build_host_candidate_index}
use mitmania.Rules.RuleSet.{RuleSet, hosts_of, new_rule_set, new_rule_set_with_host_index}
use mitmania.Rules.Outcome.{
  done, done_injective, bind_done, or_fail_done, or_fail, bad_json, bad_egress,
}
use mitmania.Rules.DefaultRuleset.{
  CompiledBucket, DefaultRuleset, CachedHttpPolicy, ParsedEntry, Libraries, find_policy,
}
use mitmania.Rules.DefaultLoad.{key_label, http_policy, given_egress, fresh_rules}

module _ {Addr Net : Type 0} (lib : Libraries Addr Net) where
  -- The hash is that of the rule file's JSON.
  abbrev pub HasHash : RuleFile → Bytes → Type 0
  HasHash rf hash =
      (json : Bytes) × (lib.marshal_rule rf ≡ some json) × (hash ≡ lib.crypto.sha256 json)

  -- The egress list of a file, which is empty where it has none.
  abbrev pub IsGiven : Option (List EgressRule) → List (CompiledEgress Net) → Type 0
  IsGiven none egress = egress ≡ []
  IsGiven (some rs) egress =
      compile_egress lib.parse_prefix lib.prefix_contains lib.regexp_compile rs ≡ some egress

  -- The rules are compiled from an http list with the JSON of the file's.
  abbrev pub IsHttp : RuleFile → List CompiledRule → Type 0
  IsHttp rf rules =
      (other : RuleFile) × (json : Bytes) × (lib.marshal_http rf.http ≡ some json)
      × (lib.marshal_http other.http ≡ some json)
      × (compile lib.regexp_compile lib.canonical_key lib.params_hash other ≡ done rules)

  -- The rule set is made from the rule file.
  abbrev pub IsMadeFrom : RuleFile → RuleSet Net → Type 0
  IsMadeFrom rf rs =
      (rules : List CompiledRule) × (egress : List (CompiledEgress Net)) × (auth : Option
        CompiledAuth)
      × (compile_auth lib.crypto rf.auth ≡ done auth)
      × IsHttp rf rules
      × IsGiven rf.egress egress
      × (rs ≡ new_rule_set rules egress rf.uuid auth)

  -- The bucket's rules are made from a rule file with the bucket's hash.
  abbrev pub IsMade : CompiledBucket Net → Type 0
  IsMade b = (rf : RuleFile) × HasHash rf b.content_hash × IsMadeFrom rf b.rules

  abbrev pub InTable : CompiledBucket Net → DefaultRuleset Net → Type 0
  InTable b d = In b d.v4 ⊎ In b d.v6

  abbrev pub AreMade : Option (DefaultRuleset Net) → Type 0
  AreMade none = Unit
  AreMade (some d) = (b : CompiledBucket Net) → InTable b d → IsMade b

  -- The bucket is the entry's.
  abbrev pub IsOf : ParsedEntry → CompiledBucket Net → Type 0
  IsOf e b =
      (b.key ≡ e.key) × (b.label ≡ key_label lib e.key) × HasHash e.rule b.content_hash × IsMade b

  -- Each policy is what its rules compile to.
  abbrev IsPolicy : CachedHttpPolicy → Type 0
  IsPolicy p =
      (rf : RuleFile) × (lib.marshal_http rf.http ≡ some p.json)
      × (compile lib.regexp_compile lib.canonical_key lib.params_hash rf ≡ done p.rules)
      × (p.host_index ≡ build_host_candidate_index (hosts_of p.rules))

  abbrev pub IsCache : List CachedHttpPolicy → Type 0
  IsCache ps = (p : CachedHttpPolicy) → In p ps → IsPolicy p

  find_policy-In :
      (json : Bytes) (ps : List CachedHttpPolicy) (p : CachedHttpPolicy)
      → find_policy json ps ≡ some p
      → In p ps × (p.json ≡ json)
  find_policy-In json [] p h = cc h
  find_policy-In json (q ∷ ps) p h = elim (Bool-cases (same q.json json)) [
    | inl e ↦
        let k : q ≡ p = cc (rw e at h) in
        (inl (sym k), ap CachedHttpPolicy.json (sym k) ∙ same→eq q.json json e)
    | inr e ↦ let (i, k) = find_policy-In json ps p (rw e at h) in (inr i, k)
  ]

  -- The policy is one for the file's http list.
  abbrev IsFor : RuleFile → CachedHttpPolicy → Type 0
  IsFor rf p = IsHttp rf p.rules × (p.host_index ≡ build_host_candidate_index (hosts_of p.rules))

  abbrev new_policy : Bytes → List CompiledRule → CachedHttpPolicy
  new_policy json rules = record {
    json = json;
    rules = rules;
    host_index = build_host_candidate_index (hosts_of rules);
  }

  http_policy-IsFor :
      (ps : List CachedHttpPolicy) (rf : RuleFile) (out : CachedHttpPolicy × List CachedHttpPolicy)
      → IsCache ps
      → http_policy lib ps rf ≡ done out
      → IsFor rf out.0 × IsCache out.1
  unfolding http_policy
  http_policy-IsFor ps rf out cache h =
      let (json, e, h1) = bind_done (or_fail (lib.marshal_http rf.http) bad_json) _ out h in
      let m = or_fail_done (lib.marshal_http rf.http) bad_json json e in
      elim (Option-cases (find_policy json ps)) [
        | inr (p, f) ↦
            let (i, k) = find_policy-In json ps p f in
            let (other, n, c, index) = cache p i in
            subst (λ o. IsFor rf o.0 × IsCache o.1) (done_injective (p, ps) out (rw f at h1))
              (((other, json, m, n ∙ ap some k, c), index), cache)
        | inl f ↦
            let (rules, g, h2) =
              bind_done (compile lib.regexp_compile lib.canonical_key lib.params_hash rf) _ out
                (rw f at h1) in
            subst (λ o. IsFor rf o.0 × IsCache o.1)
              (done_injective (new_policy json rules, new_policy json rules ∷ ps) out h2)
              (
                ((rf, json, m, m, g), refl),
                λ q i. elim i [ inl here ↦ rw here (rf, m, g, refl) | inr old ↦ cache q old ],
              )
      ]

  given_egress-IsGiven :
      (o : Option (List EgressRule)) (egress : List (CompiledEgress Net))
      → given_egress lib o ≡ done egress
      → IsGiven o egress
  unfolding given_egress
  given_egress-IsGiven none egress h = sym (done_injective [] egress h)
  given_egress-IsGiven (some rs) egress h = or_fail_done _ bad_egress egress h

  pub fresh_rules-IsMadeFrom :
      (ps : List CachedHttpPolicy) (rf : RuleFile) (out : RuleSet Net × List CachedHttpPolicy)
      → IsCache ps
      → fresh_rules lib ps rf ≡ done out
      → IsMadeFrom rf out.0 × IsCache out.1
  unfolding fresh_rules
  fresh_rules-IsMadeFrom ps rf out cache h =
      let (auth, a, h1) = bind_done (compile_auth lib.crypto rf.auth) _ out h in
      let ((policy, ps2), b, h2) = bind_done (http_policy lib ps rf) _ out h1 in
      let (egress, g, h3) = bind_done (given_egress lib rf.egress) _ out h2 in
      let ((http, index), cache2) = http_policy-IsFor ps rf (policy, ps2) cache b in
      subst (λ o. IsMadeFrom rf o.0 × IsCache o.1) (done_injective _ out h3)
        (
          (
            policy.rules,
            egress,
            auth,
            a,
            http,
            given_egress-IsGiven rf.egress egress g,
            ap (λ i. new_rule_set_with_host_index policy.rules (some i) egress rf.uuid auth) index,
          ),
          cache2,
        )
