-- ===== src/Proxy/Gate.antt =====
-- internal/proxy/auth.go: the gate in front of the rules, and the broker that it can ask. A call of the
-- broker's service has its reply and the world behind it; `none` for the service is `nil`. Parameters:
-- the service, hex, and those of the credentials. Logging is the outcome's name.
pub mod Admits
use mitmania.Prelude.{
  Bool, true, false, not, Option, none, some, List, [], ◌∷◌, ◌++◌, if◌then◌else◌, Bytes, codes,
  take,
}
use mitmania.Rules.Pattern.Glob.{is_empty}
use mitmania.Rules.Schema.{AuthBroker}
use mitmania.Rules.Egress.{cut}
use mitmania.Rules.Auth.{CompiledAuth, Crypto, authenticate, challenge_schemes}

pub data Transport : Type 0 where
  explicit : Transport
  tproxy : Transport
  redirect : Transport

abbrev pub is_explicit : Transport → Bool
is_explicit explicit = true
is_explicit tproxy = false
is_explicit redirect = false

-- The reply that is written on a refusal.
pub data Refusal : Type 0 where
  forwarding_denied : Refusal
  proxy_auth_required : Bytes → List Bytes → Refusal

-- The principal, or the reply and the outcome in the access log.
pub data Gate : Type 0 where
  passed : Bytes → Gate
  refused : Refusal → Bytes → Gate

-- `outcall.Request` with its target and cache key
pub record BrokerCall : Type 0 where
  pub cache_key : Bytes
  pub socket : Bytes
  pub path : Bytes
  pub url : Bytes
  pub uuid : Bytes
  pub client : Bytes
  pub scheme : Bytes
  pub value : Bytes

-- What `Do` gives: a principal, `DeniedError` or another error.
pub data Reply : Type 0 where
  allowed : Bytes → Reply
  denied : Reply
  broken : Reply

abbrev pub target_key : AuthBroker → Bytes
target_key b = if not (is_empty b.socket) then b.socket ++ b.path else b.url

abbrev pub principal_of : Reply → Option Bytes
principal_of (allowed p) = if is_empty p then none else some p
principal_of denied = none
principal_of broken = none

abbrev pub replied : {W : Type 0} → Reply × W → Option Bytes × W
replied (r, w) = (principal_of r, w)

module _ {W : Type 0} (c : Crypto) (hex : Bytes → Bytes)
    (service : Option (BrokerCall → W → Reply × W)) where
  abbrev pub broker_call : AuthBroker → Bytes → Bytes → Bytes → Bytes → BrokerCall
  broker_call b uuid client scheme value = record {
    cache_key =
        codes "auth:"
        ++ uuid
        ++ codes ":"
        ++ target_key b
        ++ codes ":"
        ++ hex (take 8 (c.sha256 (scheme ++ codes ":" ++ value)));
    socket = b.socket;
    path = b.path;
    url = b.url;
    uuid = uuid;
    client = client;
    scheme = scheme;
    value = value;
  }

  abbrev pub ask :
      Option (BrokerCall → W → Reply × W)
      → Option (Bytes × Bytes)
      → AuthBroker
      → Bytes
      → Bytes
      → W
      → Option Bytes × W
  ask none credential b uuid client w = (none, w)
  ask (some do_call) none b uuid client w = (none, w)
  ask (some do_call) (some (scheme, value)) b uuid client w =
      replied (do_call (broker_call b uuid client scheme value) w)

  -- `authenticateBroker`: the principal where `ok` is true.
  unfoldable pub authenticate_broker : AuthBroker → Bytes → Bytes → Bytes → W → Option Bytes × W
  unfolding cut
  authenticate_broker b uuid client header w = ask service (cut b' ' header) b uuid client w

  abbrev pub failed_outcome : Bytes → Bytes
  failed_outcome header = if is_empty header then codes "auth-required" else codes "auth-failed"

  abbrev pub decided : CompiledAuth → Bytes → Option Bytes × W → Gate × W
  decided ca header (some p, w) = (passed p, w)
  decided ca header (none, w) =
      (refused (proxy_auth_required ca.realm (challenge_schemes ca)) (failed_outcome header), w)

  abbrev pub or_broker :
      CompiledAuth → Option AuthBroker → Bytes → Bytes → Bytes → W → Option Bytes → Option Bytes × W
  or_broker ca broker uuid client header w (some p) = (some p, w)
  or_broker ca none uuid client header w none = (none, w)
  or_broker ca (some b) uuid client header w none = authenticate_broker b uuid client header w

  -- `checkAuth`
  unfoldable pub check_auth : Option CompiledAuth → Transport → Bytes → Bytes → Bytes → W → Gate × W
  unfolding authenticate authenticate_broker challenge_schemes
  check_auth none transport uuid client header w = (passed [], w)
  check_auth (some ca) transport uuid client header w =
      if not ca.required
      then (passed [], w)
      else if not (is_explicit transport)
      then (refused forwarding_denied (codes "forwarding-denied"), w)
      else decided ca header
          (or_broker ca ca.broker uuid client header w (authenticate c ca header))
