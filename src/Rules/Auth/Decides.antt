-- ===== src/Rules/Auth/Decides.antt =====
-- internal/rules/auth.go: which headers `Authenticate` accepts.
use mathlib.Core.Path.{subst}
use mitmania.Prelude.{
  ◌≡◌, refl, sym, ap, ◌∙◌, true, false, Option, none, some, List, [], ◌∷◌, Bytes, codes, same,
  same→eq, same_iff, Bool-cases, Option-cases, In, ◌⊎◌, inl, inr,
}
use mitmania.Rules.Schema.{BasicCredential, BearerCredential}
use mitmania.Rules.Egress.{cut}
use mitmania.Rules.Auth.{
  CompiledAuth, Crypto, verify_argon2id, verify_bearer_token, find_basic, find_bearer, authenticate,
  by_scheme,
}

module _ (c : Crypto) where
  -- A basic credential of the user, with a hash that the password has.
  abbrev pub HasPassword : List BasicCredential → Bytes → Bytes → Type 0
  HasPassword basic user pass =
      (b : BasicCredential) × In b basic × (b.user ≡ user) × (verify_argon2id c b.hash pass ≡ true)

  abbrev pub HasToken : List BearerCredential → Bytes → Bytes → Type 0
  HasToken bearer id token =
      (b : BearerCredential) × In b bearer
      × (b.id ≡ id)
      × (verify_bearer_token c b.hash token ≡ true)

  -- The loop finds the user exactly if there is such a credential.
  abbrev FindsBasic : List BasicCredential → Bytes → Bytes → Option Bytes → Type 0
  FindsBasic basic user pass none = ¬ HasPassword basic user pass
  FindsBasic basic user pass (some p) = (p ≡ user) × HasPassword basic user pass

  later_basic :
      (b : BasicCredential) (basic : List BasicCredential) (user pass : Bytes)
      (found : Option Bytes)
      → (b.user ≡ user → verify_argon2id c b.hash pass ≡ true → ⊥)
      → FindsBasic basic user pass found
      → FindsBasic (b ∷ basic) user pass found
  later_basic b basic user pass none n h = λ k. elim k.1 [
    | inl e ↦
        n (ap (λ (x : BasicCredential). x.user) (sym e) ∙ k.2)
          (ap (λ (x : BasicCredential). verify_argon2id c x.hash pass) (sym e) ∙ k.3)
    | inr i ↦ h (k.0, i, k.2, k.3)
  ]
  later_basic b basic user pass (some p) n h = (h.0, (h.1.0, inr h.1.1, h.1.2, h.1.3))

  basic_other :
      (b : BasicCredential) (basic : List BasicCredential) (user pass : Bytes)
      → same b.user user ≡ false
      → find_basic c (b ∷ basic) user pass ≡ find_basic c basic user pass
  unfolding find_basic
  basic_other b basic user pass e = rw (e, find_basic) refl

  basic_wrong :
      (b : BasicCredential) (basic : List BasicCredential) (user pass : Bytes)
      → same b.user user ≡ true
      → verify_argon2id c b.hash pass ≡ false
      → find_basic c (b ∷ basic) user pass ≡ find_basic c basic user pass
  unfolding find_basic
  basic_wrong b basic user pass e v = rw (e, find_basic, v) refl

  basic_right :
      (b : BasicCredential) (basic : List BasicCredential) (user pass : Bytes)
      → same b.user user ≡ true
      → verify_argon2id c b.hash pass ≡ true
      → find_basic c (b ∷ basic) user pass ≡ some b.user
  unfolding find_basic
  basic_right b basic user pass e v = rw (e, find_basic, v) refl

  -- The loop over the basic credentials
  pub find_basic-FindsBasic :
      (basic : List BasicCredential) (user pass : Bytes)
      → FindsBasic basic user pass (find_basic c basic user pass)
  find_basic-FindsBasic [] user pass = unfold find_basic in λ h. h.1
  find_basic-FindsBasic (b ∷ basic) user pass = elim (Bool-cases (same b.user user)) [
    | inr e ↦ subst (FindsBasic (b ∷ basic) user pass) (sym (basic_other b basic user pass e)) (
        later_basic b basic user pass (find_basic c basic user pass)
          (λ u v. cc (e, (same_iff b.user user).1 u)) (find_basic-FindsBasic basic user pass))
    | inl e ↦ elim (Bool-cases (verify_argon2id c b.hash pass)) [
      | inl v ↦
          subst (FindsBasic (b ∷ basic) user pass) (sym (basic_right b basic user pass e v))
            (same→eq b.user user e, (b, inl refl, same→eq b.user user e, v))
      | inr v ↦ subst (FindsBasic (b ∷ basic) user pass) (sym (basic_wrong b basic user pass e v)) (
          later_basic b basic user pass (find_basic c basic user pass) (λ u w. cc (v, w))
            (find_basic-FindsBasic basic user pass))
    ]
  ]

  abbrev pub FindsBearer : List BearerCredential → Bytes → Option Bytes → Type 0
  FindsBearer bearer token none = (id : Bytes) → ¬ HasToken bearer id token
  FindsBearer bearer token (some id) = HasToken bearer id token

  later_bearer :
      (b : BearerCredential) (bearer : List BearerCredential) (token : Bytes) (found : Option Bytes)
      → verify_bearer_token c b.hash token ≡ false
      → FindsBearer bearer token found
      → FindsBearer (b ∷ bearer) token found
  later_bearer b bearer token none n h = λ id k. elim k.1 [
    | inl e ↦ cc (n, ap (λ (x : BearerCredential). verify_bearer_token c x.hash token) e, k.3)
    | inr i ↦ h id (k.0, i, k.2, k.3)
  ]
  later_bearer b bearer token (some id) n h = (h.0, inr h.1, h.2, h.3)

  bearer_wrong :
      (b : BearerCredential) (bearer : List BearerCredential) (token : Bytes)
      → verify_bearer_token c b.hash token ≡ false
      → find_bearer c (b ∷ bearer) token ≡ find_bearer c bearer token
  unfolding find_bearer
  bearer_wrong b bearer token v = rw (v, find_bearer) refl

  bearer_right :
      (b : BearerCredential) (bearer : List BearerCredential) (token : Bytes)
      → verify_bearer_token c b.hash token ≡ true
      → find_bearer c (b ∷ bearer) token ≡ some b.id
  unfolding find_bearer
  bearer_right b bearer token v = rw (v, find_bearer) refl

  find_bearer-FindsBearer :
      (bearer : List BearerCredential) (token : Bytes)
      → FindsBearer bearer token (find_bearer c bearer token)
  find_bearer-FindsBearer [] token = unfold find_bearer in λ id h. h.1
  find_bearer-FindsBearer (b ∷ bearer) token =
      elim (Bool-cases (verify_bearer_token c b.hash token)) [
        | inl v ↦
            subst (FindsBearer (b ∷ bearer) token) (sym (bearer_right b bearer token v))
              (b, inl refl, refl, v)
        | inr v ↦ subst (FindsBearer (b ∷ bearer) token) (sym (bearer_wrong b bearer token v)) (
            later_bearer b bearer token (find_bearer c bearer token) v
              (find_bearer-FindsBearer bearer token))
      ]

  -- The header carries such a credential of the name.
  abbrev pub Carries : CompiledAuth → Bytes → Bytes → Type 0
  Carries ca header name =
      ((value raw pass : Bytes) × (cut b' ' header ≡ some (codes "Basic", value))
        × (c.decode_std value ≡ some raw)
        × (cut b':' raw ≡ some (name, pass))
        × HasPassword ca.basic name pass)
      ⊎ ((value : Bytes) × (cut b' ' header ≡ some (codes "Bearer", value))
          × HasToken ca.bearer name value)

  -- A header that is accepted for a name carries a configured user and a password of the hash, or
  -- a token of a configured hash, of that name.
  pub authenticate-Carries :
      (ca : CompiledAuth) (header name : Bytes)
      → authenticate c ca header ≡ some name
      → Carries ca header name
  unfolding authenticate
  authenticate-Carries ca header name h = elim (Option-cases (cut b' ' header)) [
    | inl e ↦ cc (rw e at h)
    | inr ((scheme, value), e) ↦ elim (Bool-cases (same scheme (codes "Basic"))) [
      | inl s ↦ elim (Option-cases (c.decode_std value)) [
        | inl d ↦ cc (rw (e, by_scheme, s, d) at h)
        | inr (raw, d) ↦ elim (Option-cases (cut b':' raw)) [
          | inl u ↦ cc (rw (e, by_scheme, s, d, u) at h)
          | inr ((user, pass), u) ↦
              let found : find_basic c ca.basic user pass ≡ some name =
                rw (e, by_scheme, s, d, u) at h in
              let (this, has) =
                subst (FindsBasic ca.basic user pass) found
                  (find_basic-FindsBasic ca.basic user pass) in
              inl (
                value,
                raw,
                pass,
                e ∙ ap (λ x. some (x, value)) (same→eq scheme (codes "Basic") s),
                d,
                u ∙ ap (λ x. some (x, pass)) (sym this),
                subst (λ x. HasPassword ca.basic x pass) (sym this) has,
              )
        ]
      ]
      | inr s ↦ elim (Bool-cases (same scheme (codes "Bearer"))) [
        | inl t ↦
            let found : find_bearer c ca.bearer value ≡ some name = rw (e, by_scheme, s, t) at h in
            inr (
              value,
              e ∙ ap (λ x. some (x, value)) (same→eq scheme (codes "Bearer") t),
              subst (FindsBearer ca.bearer value) found (find_bearer-FindsBearer ca.bearer value),
            )
        | inr t ↦ cc (rw (e, by_scheme, s, t) at h)
      ]
    ]
  ]

  -- A header that carries a configured user with a password of the hash, or a token of a
  -- configured hash, is accepted for some name.
  pub Carries-authenticate :
      (ca : CompiledAuth) (header name : Bytes)
      → Carries ca header name
      → (accepted : Bytes) × (authenticate c ca header ≡ some accepted)
  unfolding authenticate same
  Carries-authenticate ca header name (inl (value, raw, pass, e, d, u, has)) =
      elim (Option-cases (find_basic c ca.basic name pass)) [
        | inl n ↦
            absurd (
              subst (FindsBasic ca.basic name pass) n (find_basic-FindsBasic ca.basic name pass)
                has)
        | inr (found, f) ↦ (found, rw (e, by_scheme, d, u) f)
      ]
  Carries-authenticate ca header name (inr (value, e, has)) =
      elim (Option-cases (find_bearer c ca.bearer value)) [
        | inl n ↦ absurd (
            subst (FindsBearer ca.bearer value) n (find_bearer-FindsBearer ca.bearer value) name
              has)
        | inr (found, f) ↦ (found, rw (e, by_scheme) f)
      ]
