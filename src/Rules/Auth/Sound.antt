-- ===== src/Rules/Auth/Sound.antt =====
-- internal/rules/auth.go: the form of compiled credentials.
use mathlib.Core.Path.{subst}
use mitmania.Prelude.{
  ◌≡◌, refl, sym, ap, true, false, not, Option, none, some, List, [], ◌∷◌, ◌&&◌, if◌then◌else◌,
  Bytes, codes, Bool-cases, ◌⊎◌, inl, inr,
}
use mitmania.Rules.Pattern.Glob.{is_empty}
use mitmania.Rules.Schema.{BasicCredential, BearerCredential, AuthBroker, HttpProxyAuth, AuthConfig}
use mitmania.Rules.Compile.{given, among}
use mitmania.Rules.Outcome.{done, failed, bind_done, done_injective, no_scheme}
use mitmania.Rules.Auth.{
  CompiledAuth, Crypto, parse_argon2id_hash, parse_sha256_hash, compile_broker, check_basic,
  check_bearer, compile_http_proxy, compile_auth, compile_some, lacks_scheme,
}

module _ (c : Crypto) where
  -- Each name stands there once and is not empty, and each hash parses.
  abbrev pub AreUsers : List Bytes → List BasicCredential → Type 0
  AreUsers seen [] = Unit
  AreUsers seen (b ∷ basic) =
      ((is_empty b.user ≡ false)
        × (among seen b.user ≡ false)
        × (given (parse_argon2id_hash c b.hash) ≡ true))
      × AreUsers (b.user ∷ seen) basic

  abbrev pub AreTokens : List Bytes → List BearerCredential → Type 0
  AreTokens seen [] = Unit
  AreTokens seen (b ∷ bearer) =
      ((is_empty b.id ≡ false)
        × (among seen b.id ≡ false)
        × (given (parse_sha256_hash b.hash) ≡ true))
      × AreTokens (b.id ∷ seen) bearer

  -- A socket with a path, or a URL alone.
  abbrev pub HasTarget : AuthBroker → Type 0
  HasTarget b =
      ((is_empty b.socket ≡ false) × (is_empty b.url ≡ true) × (is_empty b.path ≡ false))
      ⊎ ((is_empty b.socket ≡ true) × (is_empty b.url ≡ false) × (is_empty b.path ≡ true))

  pub record IsSound (ca : CompiledAuth) : Type 0 where
    pub users : AreUsers [] ca.basic
    pub tokens : AreTokens [] ca.bearer
    pub target : (b : AuthBroker) → ca.broker ≡ some b → HasTarget b
    pub scheme :
        ca.required ≡ true
        → (is_empty ca.basic && is_empty ca.bearer && not (given ca.broker)) ≡ false

  check_basic-AreUsers :
      (seen : List Bytes) (basic : List BasicCredential) (all : List Bytes)
      → check_basic c seen basic ≡ done all
      → AreUsers seen basic
  unfolding check_basic
  check_basic-AreUsers seen [] all h = tt
  check_basic-AreUsers seen (b ∷ basic) all h = elim (Bool-cases (is_empty b.user)) [
    | inl e ↦ cc (rw (e, check_basic) at h)
    | inr e ↦ elim (Bool-cases (among seen b.user)) [
      | inl f ↦ cc (rw (e, check_basic, f) at h)
      | inr f ↦ elim (Bool-cases (given (parse_argon2id_hash c b.hash))) [
        | inl g ↦ (
          (e, f, g),
          check_basic-AreUsers (b.user ∷ seen) basic all (rw (e, check_basic, f, g) at h),
        )
        | inr g ↦ cc (rw (e, check_basic, f, g) at h)
      ]
    ]
  ]

  check_bearer-AreTokens :
      (seen : List Bytes) (bearer : List BearerCredential) (all : List Bytes)
      → check_bearer c seen bearer ≡ done all
      → AreTokens seen bearer
  unfolding check_bearer
  check_bearer-AreTokens seen [] all h = tt
  check_bearer-AreTokens seen (b ∷ bearer) all h = elim (Bool-cases (is_empty b.id)) [
    | inl e ↦ cc (rw (e, check_bearer) at h)
    | inr e ↦ elim (Bool-cases (among seen b.id)) [
      | inl f ↦ cc (rw (e, check_bearer, f) at h)
      | inr f ↦ elim (Bool-cases (given (parse_sha256_hash b.hash))) [
        | inl g ↦ (
          (e, f, g),
          check_bearer-AreTokens (b.id ∷ seen) bearer all (rw (e, check_bearer, f, g) at h),
        )
        | inr g ↦ cc (rw (e, check_bearer, f, g) at h)
      ]
    ]
  ]

  with_target :
      (d : AuthBroker) (broker : Option AuthBroker)
      → some d ≡ broker
      → HasTarget d
      → ((b : AuthBroker) → broker ≡ some b → HasTarget b) × (given broker ≡ true)
  with_target d broker this h = (
    λ b e. let same_broker : d ≡ b = cc (this, e) in subst HasTarget same_broker h,
    ap given (sym this),
  )

  compile_broker-HasTarget :
      (given_broker : Option AuthBroker) (broker : Option AuthBroker)
      → compile_broker c given_broker ≡ done broker
      → ((b : AuthBroker) → broker ≡ some b → HasTarget b) × (given broker ≡ given given_broker)
  compile_broker-HasTarget none broker h =
      let this : none ≡ broker = done_injective none broker h in
      (λ b e. cc (this, e), ap given (sym this))
  compile_broker-HasTarget (some b) broker h = elim (Bool-cases (is_empty b.socket)) [
    | inl s ↦ elim (Bool-cases (is_empty b.url)) [
      | inl u ↦ cc (rw (s, compile_broker, u) at h)
      | inr u ↦ elim (Bool-cases (is_empty b.path)) [
        | inl p ↦
            with_target b broker
              (done_injective (some b) broker (rw (s, compile_broker, u, p) at h)) (inr (s, u, p))
        | inr p ↦ cc (rw (s, compile_broker, u, p) at h)
      ]
    ]
    | inr s ↦ elim (Bool-cases (is_empty b.url)) [
      | inr u ↦ cc (rw (s, compile_broker, u) at h)
      | inl u ↦ elim (Bool-cases (is_empty b.path)) [
        | inl p ↦
            with_target (record b { path = codes "/" }) broker
              (done_injective (some (record b { path = codes "/" })) broker
                (rw (s, compile_broker, u, p) at h))
              (inl (s, u, refl))
        | inr p ↦
            with_target b broker
              (done_injective (some b) broker (rw (s, compile_broker, u, p) at h)) (inl (s, u, p))
      ]
    ]
  ]

  has_scheme :
      (hp : HttpProxyAuth) (broker : Option AuthBroker) (users : List Bytes)
      → (if lacks_scheme c hp then failed no_scheme else check_basic c [] hp.basic) ≡ done users
      → given broker ≡ given hp.broker
      → (hp.required ≡ true
          → (is_empty hp.basic && is_empty hp.bearer && not (given broker)) ≡ false)
        × (check_basic c [] hp.basic ≡ done users)
  has_scheme hp broker users h g = elim (Bool-cases (lacks_scheme c hp)) [
    | inl e ↦ cc (rw e at h)
    | inr e ↦ (λ r. rw g (rw r at e), rw e at h)
  ]

  compile_http_proxy-IsSound :
      (hp : HttpProxyAuth) (ca : CompiledAuth) → compile_http_proxy c hp ≡ done ca → IsSound ca
  unfolding compile_http_proxy
  compile_http_proxy-IsSound hp ca h =
      let (broker, e_broker, h1) = bind_done (compile_broker c hp.broker) _ ca h in
      let (users, e_users, h2) =
        bind_done (if lacks_scheme c hp then failed no_scheme else check_basic c [] hp.basic) _ ca
          h1 in
      let (ids, e_ids, whole) = bind_done (check_bearer c [] hp.bearer) _ ca h2 in
      let (target, same_given) = compile_broker-HasTarget hp.broker broker e_broker in
      let (scheme, checked) = has_scheme hp broker users e_users same_given in
      subst IsSound (done_injective _ ca whole) (record {
        users = check_basic-AreUsers [] hp.basic users checked;
        tokens = check_bearer-AreTokens [] hp.bearer ids e_ids;
        target = target;
        scheme = scheme;
      })

  -- Credentials that compile have users and token ids that are not empty and not repeated, each
  -- with a hash that parses, a broker with a socket and a path or with a URL alone, and a scheme
  -- if they are required.
  pub compile_auth-IsSound :
      (a : Option AuthConfig) (ca : CompiledAuth) → compile_auth c a ≡ done (some ca) → IsSound ca
  unfolding compile_auth
  compile_auth-IsSound none ca h = absurd (no_auth (done_injective none (some ca) h))
    where
      no_auth : none ≡ some ca → ⊥
      no_auth e = cc e
  compile_auth-IsSound (some a) ca h = from_some a.http_proxy h
    where
      from_some : (o : Option HttpProxyAuth) → compile_some c o ≡ done (some ca) → IsSound ca
      from_some none h = cc (done_injective none (some ca) h)
      from_some (some hp) h =
          let (made, e, whole) = bind_done (compile_http_proxy c hp) _ (some ca) h in
          let this : some made ≡ some ca = done_injective (some made) (some ca) whole in
          let same_auth : made ≡ ca = cc this in
          subst IsSound same_auth (compile_http_proxy-IsSound hp made e)
