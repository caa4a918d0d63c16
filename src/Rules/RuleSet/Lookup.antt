-- ===== src/Rules/RuleSet/Lookup.antt =====
-- internal/rules/engine.go: the lookups by the index beside a scan of all rules.
use mitmania.Prelude.{
  ℕ, zero, suc, ◌<◌, ◌≡◌, refl, ap, Bool, true, Option, some, List, [], ◌∷◌, inl, inr, Bool-cases,
  Bytes, All, length, get_elem?, ◌&&◌, and_parts, ◌>>=◌,
}
use mathlib.Core.Path.{subst}
use mitmania.Rules.Schema.{Params, RuleFile}
use mitmania.Rules.Outcome.{done}
use mitmania.Rules.Pattern.{matches}
use mitmania.Rules.Pattern.Compiled.{IsCompiled}
use mitmania.Rules.Compile.{CompiledRule, compile}
use mitmania.Rules.Compile.Valid.{IsSound, compile-IsSound}
use mitmania.Rules.Egress.{CompiledEgress}
use mitmania.Rules.Auth.{CompiledAuth}
use mitmania.Rules.HostIndex.Selects.{Fits, append_candidates-IsSelection}
use mitmania.Rules.RuleSet.{
  ConnInput, MsgInput, hosts_of, new_rule_set, scan, lookup, conn_passes, conn_verdict, lookup_conn,
  request_passes, lookup_request,
}
use mitmania.Rules.RuleSet.Scan.{scan_ids-scan}

pub hosts_of-IsCompiled :
    (rules : List CompiledRule) → All IsSound rules → All IsCompiled (hosts_of rules)
hosts_of-IsCompiled [] h = tt
hosts_of-IsCompiled (r ∷ rules) h = (h.0.host, hosts_of-IsCompiled rules h.1)

length-hosts_of : (rules : List CompiledRule) → length (hosts_of rules) ≡ length rules
length-hosts_of [] = refl
length-hosts_of (r ∷ rules) = ap suc (length-hosts_of rules)

get_elem?-hosts_of :
    (rules : List CompiledRule) (i : ℕ) (r : CompiledRule)
    → get_elem? rules i ≡ some r
    → get_elem? (hosts_of rules) i ≡ some r.conn_host
get_elem?-hosts_of [] i r h = cc h
get_elem?-hosts_of (s ∷ rules) zero r h =
    let e : s ≡ r = cc h in ap (λ (t : CompiledRule). some t.conn_host) e
get_elem?-hosts_of (s ∷ rules) (suc i) r h = get_elem?-hosts_of rules i r h

lookup-scan :
    {Prefix : Type 0} (p : CompiledRule → Bool) (rules : List CompiledRule)
    (egress : List (CompiledEgress Prefix)) (uuid : Bytes) (auth : Option CompiledAuth)
    (host : Bytes)
    → Fits (hosts_of rules)
    → All IsCompiled (hosts_of rules)
    → ((r : CompiledRule) → p r ≡ true → matches r.conn_host host ≡ true)
    → lookup p (new_rule_set rules egress uuid auth) host ≡ some (scan p rules)
unfolding lookup
lookup-scan p rules egress uuid auth host f c h =
    let (ids, given, selection) = append_candidates-IsSelection (hosts_of rules) host f c in
    rw (given, ◌>>=◌)
      (scan_ids-scan p rules ids selection.rising
        (subst (λ n. All (λ i. i < n) ids) (length-hosts_of rules) selection.in_range)
        (λ i r g t. selection.complete i r.conn_host (get_elem?-hosts_of rules i r g) (h r t)))

conn_passes-host :
    (i : ConnInput) (r : CompiledRule) → conn_passes i r ≡ true → matches r.conn_host i.host ≡ true
unfolding conn_passes
conn_passes-host i r h =
    let (before, _) =
      and_parts (matches r.conn_host i.host && matches r.conn_port i.port)
        (matches r.conn_proto i.proto) h in
    (and_parts (matches r.conn_host i.host) (matches r.conn_port i.port) before).0

module _ (regexp_compile : Bytes → Option (Bytes → Bool)) (canonical_key : Bytes → Bytes)
    (hash : Params → Bytes) where
  -- For every rule file that compiles, if the index's nodes, edges and rule numbers can be
  -- numbered in 32 bits, the connection lookup by the host index does not panic and answers as the
  -- first rule of the whole list that matches the connection.
  pub lookup_conn-scan :
      {Prefix : Type 0} (rf : RuleFile) (rules : List CompiledRule)
      (egress : List (CompiledEgress Prefix)) (uuid : Bytes) (auth : Option CompiledAuth)
      (i : ConnInput)
      → compile regexp_compile canonical_key hash rf ≡ done rules
      → Fits (hosts_of rules)
      → lookup_conn (new_rule_set rules egress uuid auth) i
        ≡ some (conn_verdict (scan (conn_passes i) rules))
  unfolding lookup_conn
  lookup_conn-scan rf rules egress uuid auth i h f =
      rw
        (
          lookup-scan (conn_passes i) rules egress uuid auth i.host f
              (hosts_of-IsCompiled rules
                (compile-IsSound regexp_compile canonical_key hash rf rules h))
              (conn_passes-host i),
          ◌>>=◌,
        )
        refl

  request_passes-host :
      (i : MsgInput) (r : CompiledRule)
      → request_passes canonical_key i r ≡ true
      → matches r.conn_host i.conn.host ≡ true
  unfolding request_passes
  request_passes-host i r h = elim (Bool-cases r.deny) [
    | inl d ↦ cc (rw d at h)
    | inr d ↦ elim (Bool-cases (conn_passes i.conn r)) [
      | inl c ↦ conn_passes-host i.conn r c
      | inr c ↦ cc (rw (d, c) at h)
    ]
  ]

  -- For every rule file that compiles, if the index can be numbered in 32 bits, the request lookup
  -- by the host index does not panic and answers the first rule of the whole list that matches the
  -- request, or none.
  pub lookup_request-scan :
      {Prefix : Type 0} (rf : RuleFile) (rules : List CompiledRule)
      (egress : List (CompiledEgress Prefix)) (uuid : Bytes) (auth : Option CompiledAuth)
      (i : MsgInput)
      → compile regexp_compile canonical_key hash rf ≡ done rules
      → Fits (hosts_of rules)
      → lookup_request canonical_key (new_rule_set rules egress uuid auth) i
        ≡ some (scan (request_passes canonical_key i) rules)
  unfolding lookup_request
  lookup_request-scan rf rules egress uuid auth i h f =
      lookup-scan (request_passes canonical_key i) rules egress uuid auth i.conn.host f
        (hosts_of-IsCompiled rules (compile-IsSound regexp_compile canonical_key hash rf rules h))
        (request_passes-host i)
