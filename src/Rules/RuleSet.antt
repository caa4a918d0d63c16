-- ===== src/Rules/RuleSet.antt =====
-- internal/rules/engine.go: `RuleSet` and its two first-match lookups. `none` on the outside is a
-- panic. Parameter: `textproto.CanonicalMIMEHeaderKey`.
pub mod Scan
pub mod Lookup
use mathlib.Core.List
use mitmania.Prelude.{
  ℕ, Bool, true, false, not, Option, none, some, List, [], ◌∷◌, ◌&&◌, ◌||◌, if◌then◌else◌, Bytes,
  get_elem?, same, map, ◌>>=◌,
}
use mitmania.Rules.Pattern.{Matcher, matches}
use mitmania.Rules.Compile.{CompiledRule}
use mitmania.Rules.Egress.{CompiledEgress}
use mitmania.Rules.Auth.{CompiledAuth}
use mitmania.Rules.HostIndex.{HostIndex, build_host_candidate_index, append_candidates}

pub record ConnInput : Type 0 where
  pub host : Bytes
  pub port : Bytes
  pub proto : Bytes

abbrev pub Header : Type 0
Header = List (Bytes × List Bytes)

pub record MsgInput : Type 0 where
  pub conn : ConnInput
  pub path : Bytes
  pub method : Bytes
  pub header : Header

pub record RuleSet (Prefix : Type 0) : Type 0 where
  pub rules : List CompiledRule
  pub host_index : Option HostIndex
  pub egress : List (CompiledEgress Prefix)
  pub uuid : Bytes
  pub auth : Option CompiledAuth

abbrev pub hosts_of : List CompiledRule → List Matcher
hosts_of [] = []
hosts_of (r ∷ rs) = r.conn_host ∷ hosts_of rs

-- `newRuleSetWithHostIndex`
abbrev pub new_rule_set_with_host_index :
    {Prefix : Type 0}
    → List CompiledRule
    → Option HostIndex
    → List (CompiledEgress Prefix)
    → Bytes
    → Option CompiledAuth
    → RuleSet Prefix
new_rule_set_with_host_index rules index egress uuid auth = record {
  rules = rules;
  host_index = index;
  egress = egress;
  uuid = uuid;
  auth = auth;
}

-- `newRuleSet`
abbrev pub new_rule_set :
    {Prefix : Type 0}
    → List CompiledRule
    → List (CompiledEgress Prefix)
    → Bytes
    → Option CompiledAuth
    → RuleSet Prefix
new_rule_set rules egress uuid auth =
    new_rule_set_with_host_index rules (some (build_host_candidate_index (hosts_of rules))) egress
      uuid auth

-- The loop over the rules.
unfoldable pub scan : (CompiledRule → Bool) → List CompiledRule → Option CompiledRule
scan p [] = none
scan p (r ∷ rs) = let rest = scan p rs in if p r then some r else rest

-- The loop over the numbers of the candidates.
unfoldable pub scan_ids :
    (CompiledRule → Bool) → List CompiledRule → List ℕ → Option (Option CompiledRule)
scan_ids p rules [] = some none
scan_ids p rules (id ∷ ids) =
    let rest = scan_ids p rules ids in
    elim (get_elem? rules id) [ none ↦ none | some r ↦ if p r then some (some r) else rest ]

-- The first rule that passes the test, by the index where there is one.
unfoldable pub lookup :
    {Prefix : Type 0}
    → (CompiledRule → Bool)
    → RuleSet Prefix
    → Bytes
    → Option (Option CompiledRule)
unfolding scan scan_ids append_candidates
lookup p rs host = elim rs.host_index [
  | none ↦ some (scan p rs.rules)
  | some index ↦ do ids ← append_candidates index host []; scan_ids p rs.rules ids
]

unfoldable pub conn_passes : ConnInput → CompiledRule → Bool
unfolding matches
conn_passes i r =
    matches r.conn_host i.host && matches r.conn_port i.port && matches r.conn_proto i.proto

pub record ConnVerdict : Type 0 where
  pub mitm : Bool
  pub deny : Bool
  pub matched : Bool

abbrev pub conn_verdict : Option CompiledRule → ConnVerdict
conn_verdict none = record { mitm = false; deny = false; matched = false }
conn_verdict (some r) = record { mitm = r.mitm; deny = r.deny; matched = true }

unfoldable pub lookup_conn : {Prefix : Type 0} → RuleSet Prefix → ConnInput → Option ConnVerdict
unfolding lookup conn_passes
lookup_conn rs i = do found ← lookup (conn_passes i) rs i.host; some (conn_verdict found)

module _ (canonical_key : Bytes → Bytes) where
  abbrev first_or_empty : List Bytes → Bytes
  first_or_empty [] = []
  first_or_empty (v ∷ vs) = v

  abbrev values_at : Bytes → Header → List Bytes
  values_at key [] = []
  values_at key ((k, vs) ∷ more) = if same k key then vs else values_at key more

  -- `http.Header.Get`
  abbrev header_get : Header → Bytes → Bytes
  header_get h name = first_or_empty (values_at (canonical_key name) h)

  unfoldable pub match_headers : List (Bytes × Matcher) → Header → Bool
  unfolding matches
  match_headers [] got = true
  match_headers ((name, m) ∷ want) got =
      let more = match_headers want got in
      if not (matches m (header_get got name)) then false else more

  unfoldable pub request_passes : MsgInput → CompiledRule → Bool
  unfolding conn_passes match_headers
  request_passes i r =
      if r.deny
      then false
      else if not (conn_passes i.conn r)
      then false
      else if not (matches r.msg_path i.path) || not (matches r.msg_method i.method)
      then false
      else if not (match_headers r.msg_header i.header)
      then false
      else true

  unfoldable pub lookup_request :
      {Prefix : Type 0} → RuleSet Prefix → MsgInput → Option (Option CompiledRule)
  unfolding lookup request_passes
  lookup_request rs i = lookup (request_passes i) rs i.conn.host
