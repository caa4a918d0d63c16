-- ===== src/Rules/Compile.antt =====
-- internal/rules/compile.go and internal/rules/outcall_action.go: from the rule document to compiled
-- rules. Parameters: Go's `regexp.Compile`, `textproto.CanonicalMIMEHeaderKey`, and the hash of an
-- action's parameters (JSON, SHA-256, hexadecimal), in key order.
pub mod Valid
use mathlib.Core.List
use mitmania.Prelude.{
  ℕ, suc, Bool, true, false, not, Option, none, some, List, [], ◌∷◌, ◌++◌, ◌&&◌, ◌||◌,
  if◌then◌else◌, Bytes, codes, same, less, map,
}
use mitmania.Rules.Schema.{
  Value, Params, param, string_param, bool_param, string_slice_param, Match, Action, Connection,
  Rule, intercepts, has_message_fields, RuleFile,
}
use mitmania.Rules.Pattern.Glob.{is_empty}
use mitmania.Rules.Pattern.{Matcher, compile_matcher}
use mitmania.Rules.Outcome.{
  Reason, bad_pattern, message_without_mitm, accept_missing, denied_with_mitm, denied_with_message,
  denied_with_actions, unknown_action, one_target, path_without_socket, bad_send, bad_fail_open,
  at_index, Outcome, done, failed, ◌>>=◌, or_fail, within,
}

pub record CompiledOutcall : Type 0 where
  pub socket : Bytes
  pub path : Bytes
  pub url : Bytes
  pub send : List Bytes
  pub fail_open : Bool
  pub cache_key : Bytes

pub record CompiledAction : Type 0 where
  pub name : Bytes
  pub params : Params
  pub outcall : Option CompiledOutcall

pub record CompiledRule : Type 0 where
  pub conn_host : Matcher
  pub conn_port : Matcher
  pub conn_proto : Matcher
  pub msg_path : Matcher
  pub msg_method : Matcher
  pub msg_header : List (Bytes × Matcher)
  pub mitm : Bool
  pub deny : Bool
  pub has_msg : Bool
  pub request : List CompiledAction
  pub response : List CompiledAction

abbrev pub among : List Bytes → Bytes → Bool
among [] name = false
among (n ∷ names) name = same n name || among names name

abbrev pub valid_request_actions : List Bytes
valid_request_actions =
    codes "header.add"
    ∷ codes "header.set"
    ∷ codes "raise"
    ∷ codes "block"
    ∷ codes "webhook"
    ∷ codes "header.fetch"
    ∷ []

abbrev pub valid_response_actions : List Bytes
valid_response_actions =
    codes "header.add" ∷ codes "header.set" ∷ codes "body.replace" ∷ codes "status.set" ∷ []

-- `m[key] = v`
abbrev put {ℓ} : {A : Type ℓ} → Bytes → A → List (Bytes × A) → List (Bytes × A)
put key v [] = (key, v) ∷ []
put key v ((k, w) ∷ more) = if same k key then (k, v) ∷ more else (k, w) ∷ put key v more

abbrev pub given {ℓ} : {A : Type ℓ} → Option A → Bool
given none = false
given (some a) = true

abbrev text_or_empty : Option Bytes → Bytes
text_or_empty none = []
text_or_empty (some s) = s

abbrev pub needs_outcall : Bytes → Bool
needs_outcall name = same name (codes "webhook") || same name (codes "header.fetch")

insert_pair : Bytes × Value → Params → Params
insert_pair (k, v) [] = (k, v) ∷ []
insert_pair (k, v) ((l, w) ∷ more) =
    if less l k then (l, w) ∷ insert_pair (k, v) more else (k, v) ∷ (l, w) ∷ more

-- `sortedParams`
pub sorted_params : Params → Params
unfolding insert_pair
sorted_params [] = []
sorted_params (p ∷ ps) = insert_pair p (sorted_params ps)

module _ (regexp_compile : Bytes → Option (Bytes → Bool)) (canonical_key : Bytes → Bytes)
    (hash : Params → Bytes) where
  -- `outcallCacheKey`
  abbrev outcall_cache_key : CompiledOutcall → Params → Bytes
  outcall_cache_key co params =
      let target = if is_empty co.socket then co.url else co.socket ++ co.path in
      target ++ codes "#" ++ hash (sorted_params params)

  abbrev path_or_slash : Option Bytes → Bytes
  path_or_slash none = codes "/"
  path_or_slash (some p) = if is_empty p then codes "/" else p

  outcall_path : Action → Outcome Bytes
  outcall_path a =
      if given (string_param a.params (codes "socket"))
      then done (path_or_slash (string_param a.params (codes "path")))
      else if given (param a.params (codes "path"))
      then failed path_without_socket
      else done []

  outcall_send : Action → Outcome (List Bytes)
  outcall_send a = elim (string_slice_param a.params (codes "send")) [
    | some names ↦ done (map canonical_key names)
    | none ↦ if given (param a.params (codes "send")) then failed bad_send else done []
  ]

  outcall_fail_open : Action → Outcome Bool
  outcall_fail_open a = elim (bool_param a.params (codes "failOpen")) [
    | some b ↦ done b
    | none ↦ if given (param a.params (codes "failOpen")) then failed bad_fail_open else done false
  ]

  abbrev same_bool : Bool → Bool → Bool
  same_bool true b = b
  same_bool false b = not b

  unfoldable pub compile_outcall_action : Action → Outcome CompiledOutcall
  unfolding outcall_path outcall_send outcall_fail_open sorted_params
  compile_outcall_action a =
      let socket = string_param a.params (codes "socket") in
      let url = string_param a.params (codes "url") in
      if same_bool (given socket) (given url) then failed one_target else do
        path ← outcall_path a
        send ← outcall_send a
        fail_open ← outcall_fail_open a
        let co : CompiledOutcall = record {
          socket = text_or_empty socket;
          path = path;
          url = text_or_empty url;
          send = send;
          fail_open = fail_open;
          cache_key = [];
        }
        done (record co { cache_key = outcall_cache_key co a.params })

  abbrev pub compiled_action : Action → Outcome CompiledAction
  compiled_action a = elim (needs_outcall a.action) [
    | true ↦ do
      outcall ← compile_outcall_action a
      done (record { name = a.action; params = a.params; outcall = some outcall })
    | false ↦ done (record { name = a.action; params = a.params; outcall = none })
  ]

  compile_action : List Bytes → Action → Outcome CompiledAction
  unfolding compile_outcall_action
  compile_action valid a =
      if among valid a.action then compiled_action a else failed (unknown_action a.action)

  compile_actions_from : ℕ → List Bytes → List Action → Outcome (List CompiledAction)
  unfolding compile_action
  compile_actions_from i valid [] = done []
  compile_actions_from i valid (a ∷ as') = do
    ca ← within i (compile_action valid a)
    more ← compile_actions_from (suc i) valid as'
    done (ca ∷ more)

  unfoldable pub compile_actions : List Action → List Bytes → Outcome (List CompiledAction)
  unfolding compile_actions_from
  compile_actions actions valid = compile_actions_from 0 valid actions

  abbrev pub field_matcher : Bytes → Bytes → Outcome Matcher
  field_matcher field pattern' =
      or_fail (compile_matcher regexp_compile pattern') (bad_pattern field)

  -- The loop over `Match.Header`, from the matchers made so far.
  compile_headers : List (Bytes × Bytes) → List (Bytes × Matcher) → Outcome (List (Bytes × Matcher))
  compile_headers [] made = done made
  compile_headers ((name, pattern') ∷ more) made = do
    m ← field_matcher name pattern'
    compile_headers more (put (canonical_key name) m made)

  -- `deny`, with the checks on a rule that rejects the connection.
  abbrev pub denial : Rule → Outcome Bool
  denial r = elim r.connection [
    | none ↦ done false
    | some c ↦ elim c.accept [
      | none ↦ failed accept_missing
      | some true ↦ done false
      | some false ↦
          if given r.mitm
          then failed denied_with_mitm
          else if has_message_fields r.match
          then failed denied_with_message
          else if not (is_empty r.request) || not (is_empty r.response)
          then failed denied_with_actions
          else done true
    ]
  ]

  abbrev pub mitm_allowed : Rule → Outcome Bool
  mitm_allowed r =
      if not (intercepts r) && has_message_fields r.match
      then failed message_without_mitm
      else done (intercepts r)

  unfoldable pub compile_rule : Rule → Outcome CompiledRule
  unfolding compile_headers compile_actions
  compile_rule r = do
    host ← field_matcher (codes "match.host") r.match.host
    port ← field_matcher (codes "match.port") r.match.port
    proto ← field_matcher (codes "match.proto") r.match.proto
    path ← field_matcher (codes "match.path") r.match.path
    method ← field_matcher (codes "match.method") r.match.method
    header ← compile_headers r.match.header []
    mitm ← mitm_allowed r
    deny ← denial r
    request ← compile_actions r.request valid_request_actions
    response ← compile_actions r.response valid_response_actions
    done (record {
      conn_host = host;
      conn_port = port;
      conn_proto = proto;
      msg_path = path;
      msg_method = method;
      msg_header = header;
      mitm = mitm && not deny;
      deny = deny;
      has_msg = has_message_fields r.match;
      request = request;
      response = response;
    })

  compile_from : ℕ → List Rule → Outcome (List CompiledRule)
  unfolding compile_rule
  compile_from i [] = done []
  compile_from i (r ∷ rs) = do
    cr ← within i (compile_rule r)
    more ← compile_from (suc i) rs
    done (cr ∷ more)

  -- `Compile`
  unfoldable pub compile : RuleFile → Outcome (List CompiledRule)
  unfolding compile_from
  compile rf = compile_from 0 rf.http
