-- ===== src/Rules/Actions.antt =====
-- internal/rules/actions_http.go: what the actions do to headers, bodies and statuses, and the response
-- registry of internal/proxy/actions.go. Parameters: `textproto.CanonicalMIMEHeaderKey`, `fmt.Sprint`.
pub mod Written
use mitmania.Prelude.{
  zero, suc, Bool, true, false, Option, none, some, List, [], ◌∷◌, if◌then◌else◌, Bytes, codes,
  same,
}
use mitmania.Prelude.Int.{ℤ, pos, negsuc}
use mitmania.Rules.Schema.{Value, null, text, Params, string_param, int_param}
use mitmania.Rules.Compile.{CompiledAction}
use mitmania.Headers.{Header, add_header, put_header, delete_header}

pub record ResponseInterceptor : Type 0 where
  pub header : Header
  pub body_override : Option Bytes
  pub status_override : ℤ

module _ (canonical_key : Bytes → Bytes) (sprint : Value → Bytes) where
  abbrev pub to_string : Value → Bytes
  to_string null = []
  to_string (text s) = s
  to_string v = sprint v

  -- `HeaderAdd`, of requests and of responses
  unfoldable pub header_add : Params → Header → Header
  header_add [] h = h
  header_add ((name, v) ∷ p) h = header_add p (add_header (canonical_key name) (to_string v) h)

  -- One round of `HeaderSet`.
  abbrev pub set_one : Bytes → Value → Header → Header
  set_one key null h = delete_header key h
  set_one key v h = put_header key (to_string v) h

  -- `HeaderSet`, of requests and of responses
  unfoldable pub header_set : Params → Header → Header
  header_set [] h = h
  header_set ((name, v) ∷ p) h = header_set p (set_one (canonical_key name) v h)

  abbrev text_or_empty : Option Bytes → Bytes
  text_or_empty none = []
  text_or_empty (some s) = s

  -- The verdict's ShortCircuit, beside the interceptor behind the action.
  abbrev pub Step : Type 0
  Step = Bool × ResponseInterceptor

  abbrev body_replace : Params → ResponseInterceptor → Step
  body_replace p r =
      (false, record r { body_override = some (text_or_empty (string_param p (codes "body"))) })

  abbrev new_status : Option ℤ → ℤ → ℤ
  new_status none before = before
  new_status (some (pos zero)) before = before
  new_status (some status) before = status

  abbrev status_set : Params → ResponseInterceptor → Step
  status_set p r = (
    false,
    record r { status_override = new_status (int_param p (codes "status")) r.status_override },
  )

  unfoldable pub response_action : CompiledAction → ResponseInterceptor → Step
  unfolding header_add header_set
  response_action a r =
      if same a.name (codes "header.add")
      then (false, record r { header = header_add a.params r.header })
      else if same a.name (codes "header.set")
      then (false, record r { header = header_set a.params r.header })
      else if same a.name (codes "body.replace")
      then body_replace a.params r
      else if same a.name (codes "status.set")
      then status_set a.params r
      else (false, r)

  -- The loop of `applyResponseActions`.
  unfoldable pub apply_response_actions : List CompiledAction → ResponseInterceptor → Step
  unfolding response_action
  apply_response_actions [] r = (false, r)
  apply_response_actions (a ∷ as') r =
      let (stop, s) = response_action a r in
      elim stop [ true ↦ (true, s) | false ↦ apply_response_actions as' s ]
