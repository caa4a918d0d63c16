-- ===== src/Proxy/Gate/Admits.antt =====
-- `checkAuth` of internal/proxy/auth.go: whom it lets pass.
use mitmania.Prelude.{
  ◌≡◌, refl, true, false, Option, none, some, Bytes, codes, ◌⊎◌, inl, inr, Bool-cases, Option-cases,
  ap, sym, ◌∙◌,
}
use mitmania.Rules.Pattern.Glob.{is_empty}
use mitmania.Rules.Schema.{AuthBroker}
use mitmania.Rules.Egress.{cut}
use mitmania.Rules.Auth.{CompiledAuth, Crypto, authenticate}
use mitmania.Proxy.Gate.{
  Transport, explicit, tproxy, redirect, forwarding_denied, Gate, passed, refused, BrokerCall,
  Reply, allowed, denied, broken, principal_of, replied, broker_call, ask, authenticate_broker,
  decided, or_broker, check_auth,
}

module _ {W : Type 0} (c : Crypto) (hex : Bytes → Bytes)
    (service : Option (BrokerCall → W → Reply × W)) where
  -- The broker was asked about the header's credential and named the principal.
  abbrev pub IsNamed : CompiledAuth → Bytes → Bytes → Bytes → W → Bytes → W → Type 0
  IsNamed ca uuid client header w p w2 =
      (b : AuthBroker) × (do_call : BrokerCall → W → Reply × W) × (scheme value : Bytes)
      × (ca.broker ≡ some b)
      × (service ≡ some do_call)
      × (cut b' ' header ≡ some (scheme, value))
      × (do_call (broker_call c hex service b uuid client scheme value) w ≡ (allowed p, w2))
      × (is_empty p ≡ false)

  -- One of the credentials is the header's, or the broker named the principal.
  abbrev pub IsAdmitted : CompiledAuth → Transport → Bytes → Bytes → Bytes → W → Bytes → W → Type 0
  IsAdmitted ca transport uuid client header w p w2 =
      (transport ≡ explicit)
      × (((authenticate c ca header ≡ some p) × (w2 ≡ w))
          ⊎ ((authenticate c ca header ≡ none) × IsNamed ca uuid client header w p w2))

  principal_of-allowed :
      (r : Reply) (p : Bytes) → principal_of r ≡ some p → (r ≡ allowed p) × (is_empty p ≡ false)
  principal_of-allowed (allowed q) p h = elim (Bool-cases (is_empty q)) [
    | inl e ↦ cc (rw e at h)
    | inr e ↦ let k : q ≡ p = cc (rw e at h) in (ap allowed k, rw (sym k) e)
  ]
  principal_of-allowed denied p h = cc h
  principal_of-allowed broken p h = cc h

  ask-some :
      (o : Option (BrokerCall → W → Reply × W)) (found : Option (Bytes × Bytes)) (b : AuthBroker)
      (uuid client : Bytes) (w : W) (p : Bytes) (w2 : W)
      → ask c hex service o found b uuid client w ≡ (some p, w2)
      → (do_call : BrokerCall → W → Reply × W) × (o ≡ some do_call)
        × (ask c hex service (some do_call) found b uuid client w ≡ (some p, w2))
  ask-some none found b uuid client w p w2 h = cc (ap (λ x. x.0) h)
  ask-some (some do_call) found b uuid client w p w2 h = (do_call, refl, h)

  ask-found :
      (do_call : BrokerCall → W → Reply × W) (found : Option (Bytes × Bytes)) (b : AuthBroker)
      (uuid client : Bytes) (w : W) (p : Bytes) (w2 : W)
      → ask c hex service (some do_call) found b uuid client w ≡ (some p, w2)
      → (sv : Bytes × Bytes) × (found ≡ some sv)
        × (replied (do_call (broker_call c hex service b uuid client sv.0 sv.1) w) ≡ (some p, w2))
  ask-found do_call none b uuid client w p w2 h = cc (ap (λ x. x.0) h)
  ask-found do_call (some (scheme, value)) b uuid client w p w2 h = ((scheme, value), refl, h)

  replied-both : (x : Reply × W) {r : Reply} {w2 : W} → (x.0 ≡ r) × (x.1 ≡ w2) → x ≡ (r, w2)
  replied-both x (e, f) = rw (sym e, sym f) refl

  ask-IsNamed :
      (ca : CompiledAuth) (b : AuthBroker) (uuid client header p : Bytes) (w w2 : W)
      → ca.broker ≡ some b
      → authenticate_broker c hex service b uuid client header w ≡ (some p, w2)
      → IsNamed ca uuid client header w p w2
  unfolding authenticate_broker
  ask-IsNamed ca b uuid client header p w w2 e h =
      let (do_call, s, h1) = ask-some service (cut b' ' header) b uuid client w p w2 h in
      let ((scheme, value), k, h2) = ask-found do_call (cut b' ' header) b uuid client w p w2 h1 in
      let reply = do_call (broker_call c hex service b uuid client scheme value) w in
      let (r, ok) = principal_of-allowed reply.0 p (ap (λ x. x.0) h2) in
      (b, do_call, scheme, value, e, s, k, replied-both reply (r, ap (λ x. x.1) h2), ok)

  not_denied :
      {A : Type 0} (w w2 : W) (p : Bytes)
      → ◌≡◌ {A = Gate × W} (refused forwarding_denied (codes "forwarding-denied"), w) (passed p, w2)
      → A
  not_denied w w2 p h = cc (ap (λ g. g.0) h)

  decided-passed :
      (ca : CompiledAuth) (header p : Bytes) (x : Option Bytes × W) (w2 : W)
      → decided c hex service ca header x ≡ (passed p, w2)
      → x ≡ (some p, w2)
  decided-passed ca header p (some q, w) w2 h =
      let k : q ≡ p = cc (ap (λ g. g.0) h) in rw (k, ap (λ g. g.1) h) refl
  decided-passed ca header p (none, w) w2 h = cc (ap (λ g. g.0) h)

  -- If credentials are required, who passes the gate with a principal came through the explicit
  -- listener, and either the header is accepted locally for that principal and nobody is asked, or
  -- it is not, and the broker, asked about the header's credential, allowed it with that
  -- principal, which is not empty.
  pub check_auth-IsAdmitted :
      (ca : CompiledAuth) (transport : Transport) (uuid client header p : Bytes) (w w2 : W)
      → ca.required ≡ true
      → check_auth c hex service (some ca) transport uuid client header w ≡ (passed p, w2)
      → IsAdmitted ca transport uuid client header w p w2
  unfolding check_auth
  check_auth-IsAdmitted ca tproxy uuid client header p w w2 r h = not_denied w w2 p (rw r at h)
  check_auth-IsAdmitted ca redirect uuid client header p w w2 r h = not_denied w w2 p (rw r at h)
  check_auth-IsAdmitted ca explicit uuid client header p w w2 r h =
      let k =
        decided-passed ca header p
          (or_broker c hex service ca ca.broker uuid client header w (authenticate c ca header)) w2
          (rw r at h) in
      elim (Option-cases (authenticate c ca header)) [
        | inr (q, e) ↦
            let l : (some q, w) ≡ (some p, w2) = rw e at k in
            (refl, inl (e ∙ ap (λ x. x.0) l, sym (ap (λ x. x.1) l)))
        | inl e ↦ elim (Option-cases ca.broker) [
          | inl f ↦
              let nobody : Option Bytes = none in
              let l : (nobody, w) ≡ (some p, w2) = rw (e, f) at k in cc (ap (λ x. x.0) l)
          | inr (b, f) ↦
              (refl, inr (e, ask-IsNamed ca b uuid client header p w w2 f (rw (e, f) at k)))
        ]
      ]
