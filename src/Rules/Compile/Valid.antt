-- ===== src/Rules/Compile/Valid.antt =====
-- internal/rules/compile.go: the form of compiled rules.
use mathlib.Core.Path.{subst}
use mitmania.Prelude.{
  ℕ, suc, ◌≡◌, refl, sym, ap, ◌∙◌, Bool, true, false, not, Option, none, some, List, [], ◌∷◌, ◌&&◌,
  ◌||◌, if◌then◌else◌, Bytes, codes, All, Bool-cases, Option-cases, inl, inr,
}
use mitmania.Rules.Schema.{Params, Action, Rule, intercepts, has_message_fields, RuleFile}
use mitmania.Rules.Pattern.Glob.{is_empty}
use mitmania.Rules.Pattern.{Matcher, compile_matcher}
use mitmania.Rules.Pattern.Compiled.{IsCompiled, compile_matcher-IsCompiled}
use mitmania.Rules.Outcome.{
  done, failed, within, bind_done, or_fail_done, within_done, done_injective, denied_with_mitm,
  denied_with_message, denied_with_actions,
}
use mitmania.Rules.Compile.{
  CompiledAction, CompiledRule, among, needs_outcall, valid_request_actions, valid_response_actions,
  compile_outcall_action, compiled_action, compile_action, compile_actions_from, compile_actions,
  field_matcher, compile_headers, denial, mitm_allowed, compile_rule, compile_from, compile, given,
}

-- The action is one of its phase, and carries an outcall exactly where its name asks for one.
abbrev pub IsValid : List Bytes → CompiledAction → Type 0
IsValid valid a = (among valid a.name ≡ true) × (given a.outcall ≡ needs_outcall a.name)

-- A rule that rejects the connection decides nothing else, and one that looks at messages intercepts.
pub record IsSound (r : CompiledRule) : Type 0 where
  pub host : IsCompiled r.conn_host
  pub denied :
      r.deny ≡ true → (r.mitm ≡ false) × (r.has_msg ≡ false) × (r.request ≡ []) × (r.response ≡ [])
  pub messages : r.has_msg ≡ true → r.mitm ≡ true
  pub request : All (IsValid valid_request_actions) r.request
  pub response : All (IsValid valid_response_actions) r.response

denied_parts :
    (g m q s : Bool)
    → (if g
        then failed denied_with_mitm
        else if m
        then failed denied_with_message
        else if not q || not s
        then failed denied_with_actions
        else done true)
      ≡ done true
    → (m ≡ false) × (q ≡ true) × (s ≡ true)
denied_parts true m q s h = cc h
denied_parts false true q s h = cc h
denied_parts false false false s h = cc h
denied_parts false false true false h = cc h
denied_parts false false true true h = (refl, refl, refl)

is_empty_lem {ℓ} : {A : Type ℓ} (xs : List A) → is_empty xs ≡ true → xs ≡ []
is_empty_lem [] h = refl
is_empty_lem (x ∷ xs) h = cc h

module _ (regexp_compile : Bytes → Option (Bytes → Bool)) (canonical_key : Bytes → Bytes)
    (hash : Params → Bytes) where
  compiled_action-valid :
      (a : Action) (ca : CompiledAction)
      → compiled_action regexp_compile canonical_key hash a ≡ done ca
      → (ca.name ≡ a.action) × (given ca.outcall ≡ needs_outcall a.action)
  compiled_action-valid a ca h = elim (Bool-cases (needs_outcall a.action)) [
    | inl e ↦
        let (outcall, made, whole) =
          bind_done (compile_outcall_action regexp_compile canonical_key hash a) _ ca
            (rw (e, compiled_action) at h) in
        let this : record { name = a.action; params = a.params; outcall = some outcall } ≡ ca =
          cc whole in
        (
          sym (ap (λ (c : CompiledAction). c.name) this),
          sym (ap (λ (c : CompiledAction). given c.outcall) this) ∙ sym e,
        )
    | inr e ↦
        let this : record { name = a.action; params = a.params; outcall = none } ≡ ca =
          cc (rw (e, compiled_action) at h) in
        (
          sym (ap (λ (c : CompiledAction). c.name) this),
          sym (ap (λ (c : CompiledAction). given c.outcall) this) ∙ sym e,
        )
  ]

  compile_action-IsValid :
      (valid : List Bytes) (a : Action) (ca : CompiledAction)
      → compile_action regexp_compile canonical_key hash valid a ≡ done ca
      → IsValid valid ca
  unfolding compile_action
  compile_action-IsValid valid a ca h = elim (Bool-cases (among valid a.action)) [
    | inl e ↦
        let (name, outcall) = compiled_action-valid a ca (rw e at h) in
        (ap (among valid) name ∙ e, outcall ∙ ap needs_outcall (sym name))
    | inr e ↦ cc (rw e at h)
  ]

  compile_actions_from-IsValid :
      (i : ℕ) (valid : List Bytes) (actions : List Action) (cas : List CompiledAction)
      → compile_actions_from regexp_compile canonical_key hash i valid actions ≡ done cas
      → All (IsValid valid) cas
  unfolding compile_actions_from
  compile_actions_from-IsValid i valid [] cas h =
      let this : [] ≡ cas = cc h in subst (All (IsValid valid)) this tt
  compile_actions_from-IsValid i valid (a ∷ actions) cas h =
      let (ca, first, rest) =
        bind_done (within i (compile_action regexp_compile canonical_key hash valid a)) _ cas h in
      let (more, others, whole) =
        bind_done (compile_actions_from regexp_compile canonical_key hash (suc i) valid actions) _
          cas rest in
      let this : ca ∷ more ≡ cas = cc whole in
      subst (All (IsValid valid)) this (
        compile_action-IsValid valid a ca
            (within_done i (compile_action regexp_compile canonical_key hash valid a) ca first),
        compile_actions_from-IsValid (suc i) valid actions more others,
      )

  field_matcher-IsCompiled :
      (field pattern' : Bytes) (m : Matcher)
      → field_matcher regexp_compile canonical_key hash field pattern' ≡ done m
      → IsCompiled m
  field_matcher-IsCompiled field pattern' m h =
      compile_matcher-IsCompiled regexp_compile pattern' m
        (or_fail_done (compile_matcher regexp_compile pattern') _ m h)

  mitm_allowed-messages :
      (r : Rule) (mitm : Bool)
      → mitm_allowed regexp_compile canonical_key hash r ≡ done mitm
      → has_message_fields r.match ≡ true
      → mitm ≡ true
  mitm_allowed-messages r mitm h e = elim (Bool-cases (intercepts r)) [
    | inl t ↦ cc (rw t at h)
    | inr f ↦ cc (rw (f, e) at h)
  ]

  denial-checks :
      (r : Rule)
      → denial regexp_compile canonical_key hash r ≡ done true
      → (has_message_fields r.match ≡ false) × (r.request ≡ []) × (r.response ≡ [])
  denial-checks r h = elim (Option-cases r.connection) [
    | inl e ↦ cc (rw e at h)
    | inr (c, e) ↦ elim (Option-cases c.accept) [
      | inl a ↦ cc (rw (e, a) at h)
      | inr (true, a) ↦ cc (rw (e, a) at h)
      | inr (false, a) ↦
          let (message, request, response) =
            denied_parts (given r.mitm) (has_message_fields r.match) (is_empty r.request)
              (is_empty r.response) (rw (e, a) at h) in
          (message, is_empty_lem r.request request, is_empty_lem r.response response)
    ]
  ]

  no_actions :
      (valid : List Bytes) (actions : List Action) (cas : List CompiledAction)
      → compile_actions regexp_compile canonical_key hash actions valid ≡ done cas
      → actions ≡ []
      → cas ≡ []
  unfolding compile_actions compile_actions_from
  no_actions valid [] cas h e = cc h
  no_actions valid (a ∷ actions) cas h e = cc e

  compile_actions-IsValid :
      (valid : List Bytes) (actions : List Action) (cas : List CompiledAction)
      → compile_actions regexp_compile canonical_key hash actions valid ≡ done cas
      → All (IsValid valid) cas
  unfolding compile_actions
  compile_actions-IsValid valid actions cas h = compile_actions_from-IsValid 0 valid actions cas h

  denied_rule :
      (r : Rule) (mitm deny : Bool) (request response : List CompiledAction)
      → denial regexp_compile canonical_key hash r ≡ done deny
      → compile_actions regexp_compile canonical_key hash r.request valid_request_actions
        ≡ done request
      → compile_actions regexp_compile canonical_key hash r.response valid_response_actions
        ≡ done response
      → deny ≡ true
      → ((mitm && not deny) ≡ false)
        × (has_message_fields r.match ≡ false)
        × (request ≡ [])
        × (response ≡ [])
  denied_rule r mitm deny request response h k l e =
      let (message, no_request, no_response) = denial-checks r (h ∙ ap done e) in
      (
        rw e (and_false mitm),
        message,
        no_actions valid_request_actions r.request request k no_request,
        no_actions valid_response_actions r.response response l no_response,
      )
    where
      and_false : (b : Bool) → (b && false) ≡ false
      and_false true = refl
      and_false false = refl

  message_rule :
      (r : Rule) (mitm deny : Bool)
      → mitm_allowed regexp_compile canonical_key hash r ≡ done mitm
      → denial regexp_compile canonical_key hash r ≡ done deny
      → has_message_fields r.match ≡ true
      → (mitm && not deny) ≡ true
  message_rule r mitm true h k e = absurd (cc (e, (denial-checks r k).0))
  message_rule r mitm false h k e = rw (mitm_allowed-messages r mitm h e) refl

  -- A rule that compiles is sound.
  pub compile_rule-IsSound :
      (r : Rule) (cr : CompiledRule)
      → compile_rule regexp_compile canonical_key hash r ≡ done cr
      → IsSound cr
  unfolding compile_rule
  compile_rule-IsSound r cr h =
      let (host, e_host, h1) =
        bind_done
          (field_matcher regexp_compile canonical_key hash (codes "match.host") r.match.host) _ cr
          h in
      let (port, e_port, h2) =
        bind_done
          (field_matcher regexp_compile canonical_key hash (codes "match.port") r.match.port) _ cr
          h1 in
      let (proto, e_proto, h3) =
        bind_done
          (field_matcher regexp_compile canonical_key hash (codes "match.proto") r.match.proto) _ cr
          h2 in
      let (path, e_path, h4) =
        bind_done
          (field_matcher regexp_compile canonical_key hash (codes "match.path") r.match.path) _ cr
          h3 in
      let (method, e_method, h5) =
        bind_done
          (field_matcher regexp_compile canonical_key hash (codes "match.method") r.match.method) _
          cr h4 in
      let (header, e_header, h6) =
        bind_done (compile_headers regexp_compile canonical_key hash r.match.header []) _ cr h5 in
      let (mitm, e_mitm, h7) =
        bind_done (mitm_allowed regexp_compile canonical_key hash r) _ cr h6 in
      let (deny, e_deny, h8) = bind_done (denial regexp_compile canonical_key hash r) _ cr h7 in
      let (request, e_request, h9) =
        bind_done
          (compile_actions regexp_compile canonical_key hash r.request valid_request_actions) _ cr
          h8 in
      let (response, e_response, whole) =
        bind_done
          (compile_actions regexp_compile canonical_key hash r.response valid_response_actions) _ cr
          h9 in
      let made : record {
        conn_host = host;
        conn_port = port;
        conn_proto = proto;
        msg_path = path;
        msg_method = method;
        msg_header = header;
        mitm = mitm && not deny;
        deny = deny;
        has_msg = has_message_fields r.match;
        request = request;
        response = response;
      }
          ≡ cr =
        done_injective _ cr whole in
      subst IsSound made (record {
        host = field_matcher-IsCompiled (codes "match.host") r.match.host host e_host;
        denied = λ d. denied_rule r mitm deny request response e_deny e_request e_response d;
        messages = λ e. message_rule r mitm deny e_mitm e_deny e;
        request = compile_actions-IsValid valid_request_actions r.request request e_request;
        response = compile_actions-IsValid valid_response_actions r.response response e_response;
      })

  compile_from-IsSound :
      (i : ℕ) (rs : List Rule) (rules : List CompiledRule)
      → compile_from regexp_compile canonical_key hash i rs ≡ done rules
      → All IsSound rules
  unfolding compile_from
  compile_from-IsSound i [] rules h = let this : [] ≡ rules = cc h in subst (All IsSound) this tt
  compile_from-IsSound i (r ∷ rs) rules h =
      let (cr, first, rest) =
        bind_done (within i (compile_rule regexp_compile canonical_key hash r)) _ rules h in
      let (more, others, whole) =
        bind_done (compile_from regexp_compile canonical_key hash (suc i) rs) _ rules rest in
      let this : cr ∷ more ≡ rules = cc whole in
      subst (All IsSound) this (
        compile_rule-IsSound r cr
            (within_done i (compile_rule regexp_compile canonical_key hash r) cr first),
        compile_from-IsSound (suc i) rs more others,
      )

  -- Every rule of a file that compiles has a host matcher whose suffixes are hosts, decides
  -- nothing else if it rejects the connection, intercepts if it looks at messages, and has only
  -- actions of their phase, with an outcall exactly where the name asks for one.
  pub compile-IsSound :
      (rf : RuleFile) (rules : List CompiledRule)
      → compile regexp_compile canonical_key hash rf ≡ done rules
      → All IsSound rules
  unfolding compile
  compile-IsSound rf rules h = compile_from-IsSound 0 rf.http rules h
