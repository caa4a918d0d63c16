-- ===== src/Rules/DefaultLoad.antt =====
-- internal/rules/defaultruleset.go: from the text of a default rule set to its buckets.
use mitmania.Prelude.{
  Option, none, some, List, [], ◌∷◌, if◌then◌else◌, Bytes, codes, same, map, not, ◌&&◌,
}
use mitmania.Rules.Pattern.Glob.{is_empty}
use mitmania.Rules.Schema.{RuleFile, EgressRule, AuthBroker, HttpProxyAuth, AuthConfig}
use mitmania.Rules.Compile.{compile}
use mitmania.Rules.Egress.{CompiledEgress, compile_egress}
use mitmania.Rules.Auth.{compile_auth}
use mitmania.Rules.HostIndex.{build_host_candidate_index}
use mitmania.Rules.RuleSet.{RuleSet, hosts_of, new_rule_set_with_host_index}
use mitmania.Rules.MaskedKey.{MaskedKey, parse_masked_key, canonical}
use mitmania.Rules.Outcome.{bad_json, bad_key, bad_egress, Outcome, done, ◌>>=◌, or_fail, labelled}
use mitmania.Rules.DefaultRuleset.{
  CachedHttpPolicy, Collected, CompiledBucket, DefaultRuleset, Libraries, ParsedEntry,
  bucket_by_label, collect, find_policy, finish,
}

abbrev pub map_option : {A : Type 0} → (A → A) → Option A → Option A
map_option f none = none
map_option f (some a) = some (f a)

-- What `CompileAuth` writes into an entry that it accepts: the path of a broker with a socket and none.
abbrev pub settled_broker : AuthBroker → AuthBroker
settled_broker b =
    if not (is_empty b.socket) && is_empty b.path then record b { path = codes "/" } else b

abbrev pub settled_proxy : HttpProxyAuth → HttpProxyAuth
settled_proxy hp = record hp { broker = map_option settled_broker hp.broker }

abbrev pub settled_auth : AuthConfig → AuthConfig
settled_auth a = record a { http_proxy = map_option settled_proxy a.http_proxy }

abbrev pub settled : ParsedEntry → ParsedEntry
settled e = record e { rule = record e.rule { auth = map_option settled_auth e.rule.auth } }

module _ {Addr Net : Type 0} (lib : Libraries Addr Net) where
  abbrev pub key_label : MaskedKey → Bytes
  key_label = canonical lib.parse_addr lib.addr_text lib.number_text

  -- The entry takes the place of the one with its label, or the last place.
  unfoldable pub put_entry : ParsedEntry → List ParsedEntry → List ParsedEntry
  unfolding canonical
  put_entry e [] = e ∷ []
  put_entry e (f ∷ fs) =
      if same (key_label f.key) (key_label e.key) then e ∷ fs else f ∷ put_entry e fs

  abbrev pub parsed_entry : Bytes × Bytes → Outcome ParsedEntry
  parsed_entry (text, raw) = do
    key ←
        or_fail (parse_masked_key lib.parse_addr lib.addr_text lib.number_text text) (bad_key text)
    rule ← labelled text (or_fail (lib.decode_rule raw) bad_json)
    done (record { key = key; rule = rule })

  -- The loop of `parseDefaultRuleset`, behind the entries so far.
  unfoldable pub parse_entries :
      List ParsedEntry → List (Bytes × Bytes) → Outcome (List ParsedEntry)
  unfolding put_entry parse_masked_key
  parse_entries entries [] = done entries
  parse_entries entries (m ∷ more) = do e ← parsed_entry m; parse_entries (put_entry e entries) more

  unfoldable pub parse_default_ruleset : Bytes → Outcome (List ParsedEntry)
  unfolding parse_entries
  parse_default_ruleset data' = do raw ← or_fail (lib.members data') bad_json; parse_entries [] raw

  abbrev out_entry : ParsedEntry → Bytes × RuleFile
  out_entry e = (key_label e.key, e.rule)

  -- `marshalCanonical`
  unfoldable pub marshal_canonical : List ParsedEntry → Option Bytes
  unfolding canonical
  marshal_canonical entries = lib.marshal_table (map out_entry entries)

  -- `httpPolicies[string(httpJSON)]`, compiled where it is missing
  unfoldable pub http_policy :
      List CachedHttpPolicy → RuleFile → Outcome (CachedHttpPolicy × List CachedHttpPolicy)
  unfolding compile build_host_candidate_index
  http_policy policies rf = do
    json ← or_fail (lib.marshal_http rf.http) bad_json
    elim (find_policy json policies) [
      | some p ↦ done (p, policies)
      | none ↦ do
        rules ← compile lib.regexp_compile lib.canonical_key lib.params_hash rf
        (let p : CachedHttpPolicy = record {
          json = json;
          rules = rules;
          host_index = build_host_candidate_index (hosts_of rules);
        } in
            done (p, p ∷ policies))
    ]

  -- `CompileEgress` where the key is present
  unfoldable pub given_egress : Option (List EgressRule) → Outcome (List (CompiledEgress Net))
  unfolding compile_egress
  given_egress none = done []
  given_egress (some rs) =
      or_fail (compile_egress lib.parse_prefix lib.prefix_contains lib.regexp_compile rs) bad_egress

  -- A bucket without a previous one to reuse.
  unfoldable pub fresh_rules :
      List CachedHttpPolicy → RuleFile → Outcome (RuleSet Net × List CachedHttpPolicy)
  unfolding compile_auth http_policy given_egress
  fresh_rules policies rf = do
    auth ← compile_auth lib.crypto rf.auth
    (policy, policies) ← http_policy policies rf
    egress ← given_egress rf.egress
    done (
      new_rule_set_with_host_index policy.rules (some policy.host_index) egress rf.uuid auth,
      policies,
    )

  abbrev pub reusable : Option (CompiledBucket Net) → Bytes → Option (RuleSet Net)
  reusable none hash = none
  reusable (some b) hash = if same b.content_hash hash then some b.rules else none

  -- The rules of the bucket to reuse, or fresh ones.
  unfoldable pub rules_for :
      Option (RuleSet Net)
      → List CachedHttpPolicy
      → RuleFile
      → Outcome (RuleSet Net × List CachedHttpPolicy)
  unfolding fresh_rules
  rules_for (some rules) policies rf = done (rules, policies)
  rules_for none policies rf = fresh_rules policies rf

  -- The body of the loop of `compileParsedEntries`, up to the bucket.
  unfoldable pub compile_bucket :
      Option (DefaultRuleset Net)
      → List CachedHttpPolicy
      → ParsedEntry
      → Outcome (CompiledBucket Net × List CachedHttpPolicy)
  unfolding bucket_by_label rules_for canonical
  compile_bucket prev policies e =
      let label = key_label e.key in
      labelled label do
        json ← or_fail (lib.marshal_rule e.rule) bad_json
        (let hash = lib.crypto.sha256 json in
            do
              (rules, policies) ←
                  rules_for (reusable (bucket_by_label prev label) hash) policies e.rule
              done (
                record { key = e.key; label = label; rules = rules; content_hash = hash },
                policies,
              ))

  unfoldable pub collect_entries :
      Option (DefaultRuleset Net)
      → List CachedHttpPolicy
      → List ParsedEntry
      → Outcome (Collected Net)
  unfolding compile_bucket
  collect_entries prev policies [] =
      done (record { v4 = []; v6 = []; v4_prefixes = []; v6_prefixes = [] })
  collect_entries prev policies (e ∷ es) = do
    (b, policies) ← compile_bucket prev policies e
    all ← collect_entries prev policies es
    done (collect b all)

  -- `compileParsedEntries`
  unfoldable pub compile_parsed_entries :
      Option (DefaultRuleset Net) → List ParsedEntry → Outcome (DefaultRuleset Net)
  unfolding collect_entries finish
  compile_parsed_entries prev entries = do all ← collect_entries prev [] entries; finish all

  -- `CompileDefaultRuleset`, which marshals the entries behind their compilation
  unfoldable pub compile_default_ruleset : Bytes → Outcome (DefaultRuleset Net × Bytes)
  unfolding parse_default_ruleset compile_parsed_entries marshal_canonical
  compile_default_ruleset data' = do
    entries ← parse_default_ruleset data'
    d ← compile_parsed_entries none entries
    canonical ← or_fail (marshal_canonical (map settled entries)) bad_json
    done (d, canonical)

abbrev pub egress_rule : Bytes → Bytes → EgressRule
egress_rule cidr action = record { cidr = cidr; port = []; proto = []; action = action }

-- `denyFirstEgress`
unfoldable pub deny_first_egress : List EgressRule
deny_first_egress =
    egress_rule (codes "127.0.0.0/8") (codes "deny")
    ∷ egress_rule (codes "::1/128") (codes "deny")
    ∷ egress_rule (codes "10.0.0.0/8") (codes "deny")
    ∷ egress_rule (codes "172.16.0.0/12") (codes "deny")
    ∷ egress_rule (codes "192.168.0.0/16") (codes "deny")
    ∷ egress_rule (codes "fc00::/7") (codes "deny")
    ∷ egress_rule (codes "169.254.0.0/16") (codes "deny")
    ∷ egress_rule (codes "fe80::/10") (codes "deny")
    ∷ egress_rule (codes "0.0.0.0/0") (codes "allow")
    ∷ egress_rule (codes "::/0") (codes "allow")
    ∷ []

abbrev builtin_rule : RuleFile
builtin_rule = record { uuid = []; auth = none; http = []; egress = some deny_first_egress }

-- `mustMarshalBuiltinDefault`, before it is marshalled
unfoldable pub builtin_default : List (Bytes × RuleFile)
unfolding deny_first_egress
builtin_default = (codes "0.0.0.0/0", builtin_rule) ∷ (codes "::/0", builtin_rule) ∷ []
