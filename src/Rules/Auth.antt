-- ===== src/Rules/Auth.antt =====
-- internal/rules/auth.go: the credentials of a rule file, compiled and checked. Parameters: Go's base64
-- decoders, `fmt.Sscanf` with the two formats, argon2's IDKey and SHA-256.
pub mod Sound
pub mod Decides
use mitmania.Prelude.{
  ℕ, zero, suc, ◌+◌, ◌-◌, ◌*◌, Bool, true, false, not, Option, none, some, List, [], ◌∷◌, ◌==◌,
  ◌&&◌, ◌||◌, leb, if◌then◌else◌, Bytes, codes, same, length, ◌++◌,
}
use mitmania.Rules.Pattern.{cut_prefix}
use mitmania.Rules.Pattern.Glob.{is_empty}
use mitmania.Rules.Schema.{BasicCredential, BearerCredential, AuthBroker, HttpProxyAuth, AuthConfig}
use mitmania.Rules.Labels.{split}
use mitmania.Rules.Egress.{cut}
use mitmania.Rules.Compile.{given, among}
use mitmania.Rules.Outcome.{
  Reason, broker_target, broker_path, no_scheme, empty_name, duplicate_name, bad_hash, Outcome,
  done, failed, ◌>>=◌,
}

pub record CompiledAuth : Type 0 where
  pub required : Bool
  pub realm : Bytes
  pub basic : List BasicCredential
  pub bearer : List BearerCredential
  pub broker : Option AuthBroker

pub record Argon2idParams : Type 0 where
  pub memory : ℕ
  pub time : ℕ
  pub threads : ℕ
  pub salt : Bytes
  pub sum : Bytes

-- What the parsing and checking of hashes takes from the libraries.
pub record Crypto : Type 0 where
  pub decode_raw : Bytes → Option Bytes
  pub decode_std : Bytes → Option Bytes
  pub scan_version : Bytes → Option ℕ
  pub scan_costs : Bytes → Option (ℕ × ℕ × ℕ)
  pub id_key : Bytes → Bytes → ℕ → ℕ → ℕ → ℕ → Bytes
  pub sha256 : Bytes → Bytes

abbrev default_realm : Bytes
default_realm = codes "mitmania"

-- `hex.DecodeString`
abbrev hex_digit : ℕ → Option ℕ
hex_digit c =
    if leb b'0' c && leb c b'9'
    then some (c - b'0')
    else if leb b'a' c && leb c b'f'
    then some (c - b'a' + 10)
    else if leb b'A' c && leb c b'F'
    then some (c - b'A' + 10)
    else none

abbrev hex_byte : Option ℕ → Option ℕ → Option Bytes → Option Bytes
hex_byte (some h) (some l) (some rest) = some ((h * 16 + l) ∷ rest)
hex_byte h l rest = none

unfoldable pub hex_decode : Bytes → Option Bytes
hex_decode [] = some []
hex_decode (h ∷ []) = none
hex_decode (h ∷ l ∷ s) = hex_byte (hex_digit h) (hex_digit l) (hex_decode s)

abbrev of_32 : Option Bytes → Option Bytes
of_32 none = none
of_32 (some sum) = if length sum == 32 then some sum else none

abbrev hex_of : Option Bytes → Option Bytes
hex_of none = none
hex_of (some hex) = of_32 (hex_decode hex)

-- `parseSHA256Hash`
unfoldable pub parse_sha256_hash : Bytes → Option Bytes
unfolding cut_prefix hex_decode
parse_sha256_hash hash = hex_of (cut_prefix (codes "sha256:") hash)

module _ (c : Crypto) where
  abbrev argon_params :
      Option ℕ → Option (ℕ × ℕ × ℕ) → Option Bytes → Option Bytes → Option Argon2idParams
  argon_params (some version) (some (memory, time, threads)) (some salt) (some sum) =
      some (record { memory = memory; time = time; threads = threads; salt = salt; sum = sum })
  argon_params version costs salt sum = none

  abbrev argon_parts : List Bytes → Option Argon2idParams
  argon_parts (a ∷ b ∷ v ∷ m ∷ salt ∷ sum ∷ []) =
      if not (is_empty a) || not (same b (codes "argon2id"))
      then none
      else argon_params (c.scan_version v) (c.scan_costs m) (c.decode_raw salt) (c.decode_raw sum)
  argon_parts parts = none

  -- `parseArgon2idHash`
  unfoldable pub parse_argon2id_hash : Bytes → Option Argon2idParams
  unfolding split
  parse_argon2id_hash hash = argon_parts (split b'$' hash)

  -- `verifyArgon2id` without an error
  unfoldable pub verify_argon2id : Bytes → Bytes → Bool
  unfolding parse_argon2id_hash
  verify_argon2id hash password = elim (parse_argon2id_hash hash) [
    | none ↦ false
    | some p ↦ same (c.id_key password p.salt p.time p.memory p.threads (length p.sum)) p.sum
  ]

  -- `verifyBearerToken` without an error
  unfoldable pub verify_bearer_token : Bytes → Bytes → Bool
  unfolding parse_sha256_hash
  verify_bearer_token hash token = elim (parse_sha256_hash hash) [
    | none ↦ false
    | some want ↦ same (c.sha256 token) want
  ]

  abbrev with_slash : AuthBroker → AuthBroker
  with_slash b = if is_empty b.path then record b { path = codes "/" } else b

  -- The checks on the broker, which give it a path where it has a socket and none.
  abbrev pub compile_broker : Option AuthBroker → Outcome (Option AuthBroker)
  compile_broker none = done none
  compile_broker (some b) = elim (is_empty b.socket) [
    | true ↦
        if is_empty b.url
        then failed broker_target
        else if is_empty b.path
        then done (some b)
        else failed broker_path
    | false ↦ if is_empty b.url then done (some (with_slash b)) else failed broker_target
  ]

  -- The loop over the basic credentials, behind those of `seen`.
  unfoldable pub check_basic : List Bytes → List BasicCredential → Outcome (List Bytes)
  check_basic seen [] = done seen
  check_basic seen (b ∷ basic) =
      let rest = check_basic (b.user ∷ seen) basic in
      if is_empty b.user
      then failed empty_name
      else if among seen b.user
      then failed (duplicate_name b.user)
      else if given (parse_argon2id_hash b.hash)
      then rest
      else failed (bad_hash b.user)

  unfoldable pub check_bearer : List Bytes → List BearerCredential → Outcome (List Bytes)
  check_bearer seen [] = done seen
  check_bearer seen (b ∷ bearer) =
      let rest = check_bearer (b.id ∷ seen) bearer in
      if is_empty b.id
      then failed empty_name
      else if among seen b.id
      then failed (duplicate_name b.id)
      else if given (parse_sha256_hash b.hash)
      then rest
      else failed (bad_hash b.id)

  abbrev realm_of : Bytes → Bytes
  realm_of realm = if is_empty realm then default_realm else realm

  abbrev lacks_scheme : HttpProxyAuth → Bool
  lacks_scheme hp = hp.required && is_empty hp.basic && is_empty hp.bearer && not (given hp.broker)

  unfoldable pub compile_http_proxy : HttpProxyAuth → Outcome CompiledAuth
  unfolding check_basic check_bearer
  compile_http_proxy hp = do
    broker ← compile_broker hp.broker
    users ← if lacks_scheme hp then failed no_scheme else check_basic [] hp.basic
    ids ← check_bearer [] hp.bearer
    done (record {
      required = hp.required;
      realm = realm_of hp.realm;
      basic = hp.basic;
      bearer = hp.bearer;
      broker = broker;
    })

  abbrev compile_some : Option HttpProxyAuth → Outcome (Option CompiledAuth)
  compile_some none = done none
  compile_some (some hp) = do auth ← compile_http_proxy hp; done (some auth)

  unfoldable pub compile_auth : Option AuthConfig → Outcome (Option CompiledAuth)
  unfolding compile_http_proxy
  compile_auth none = done none
  compile_auth (some a) = compile_some a.http_proxy

  -- The loop of `authenticateBasic`.
  unfoldable pub find_basic : List BasicCredential → Bytes → Bytes → Option Bytes
  unfolding verify_argon2id
  find_basic [] user pass = none
  find_basic (b ∷ basic) user pass =
      let rest = find_basic basic user pass in
      if not (same b.user user)
      then rest
      else if verify_argon2id b.hash pass
      then some b.user
      else rest

  -- The loop of `authenticateBearer`.
  unfoldable pub find_bearer : List BearerCredential → Bytes → Option Bytes
  unfolding verify_bearer_token
  find_bearer [] token = none
  find_bearer (b ∷ bearer) token =
      let rest = find_bearer bearer token in
      if verify_bearer_token b.hash token then some b.id else rest

  abbrev user_and_pass : CompiledAuth → Option (Bytes × Bytes) → Option Bytes
  user_and_pass ca none = none
  user_and_pass ca (some (user, pass)) = find_basic ca.basic user pass

  abbrev decoded : CompiledAuth → Option Bytes → Option Bytes
  decoded ca none = none
  decoded ca (some raw) = user_and_pass ca (cut b':' raw)

  abbrev pub by_scheme : CompiledAuth → Option (Bytes × Bytes) → Option Bytes
  by_scheme ca none = none
  by_scheme ca (some (scheme, value)) =
      if same scheme (codes "Basic")
      then decoded ca (c.decode_std value)
      else if same scheme (codes "Bearer")
      then find_bearer ca.bearer value
      else none

  -- The principal where `ok` is true.
  unfoldable pub authenticate : CompiledAuth → Bytes → Option Bytes
  unfolding cut find_basic find_bearer
  authenticate ca header = by_scheme ca (cut b' ' header)

unfoldable pub challenge_schemes : CompiledAuth → List Bytes
challenge_schemes ca =
    (if not (is_empty ca.basic) || given ca.broker then codes "Basic" ∷ [] else [])
    ++ (if not (is_empty ca.bearer) || given ca.broker then codes "Bearer" ∷ [] else [])
