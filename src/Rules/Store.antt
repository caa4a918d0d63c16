-- ===== src/Rules/Store.antt =====
-- internal/rules/store.go: `RuleStore`, over a storage whose state is passed along. Parameters: the
-- storage, JSON, the text of an address, SHA-1 and hex.
use mitmania.Prelude.{Bool, true, false, Option, none, some, [], ◌++◌, Bytes, codes}
use mitmania.Rules.Schema.{RuleFile}
use mitmania.Rules.Outcome.{storage_error, bad_json, Outcome, done, failed, or_fail}

-- What reading a key gives: a value, `ErrNotExist` or another error.
pub data Fetched : Type 0 where
  found : Bytes → Fetched
  missing : Fetched
  broken : Fetched

-- `storage.Storage`, for its state: an answer and the state behind the call. A version is the
-- storage's; a call that writes answers whether it succeeded.
pub record Storage (W : Type 0) : Type 0 where
  pub get : Bytes → W → Fetched × W
  pub put : Bytes → Bytes → W → Bool × W
  pub delete : Bytes → W → Bool × W
  pub stat : Bytes → W → Fetched × W

abbrev pub empty_rule_file : RuleFile
empty_rule_file = record { uuid = []; auth = none; http = []; egress = none }

abbrev pub default_key : Bytes
default_key = codes "rules/default"

abbrev pub wrote : Bool → Outcome Bool
wrote true = done true
wrote false = failed storage_error

module _ {W : Type 0} (storage : Storage W) (addr_text : Bytes → Bytes) (sha1_hex : Bytes → Bytes)
    (unmarshal_rule : Bytes → Option RuleFile) where
  -- `keyFor`
  unfoldable pub key_for : Bytes → Bytes
  key_for client = codes "rules/ip/" ++ sha1_hex (addr_text client) ++ codes ".json"

  abbrev pub loaded : Fetched → Outcome RuleFile
  loaded missing = done empty_rule_file
  loaded broken = failed storage_error
  loaded (found text) = or_fail (unmarshal_rule text) bad_json

  abbrev pub raw : Fetched → Outcome (Option Bytes)
  raw missing = done none
  raw broken = failed storage_error
  raw (found text) = done (some text)

  abbrev pub version_of : Fetched → Outcome (Bytes × Bool)
  version_of missing = done ([], false)
  version_of broken = failed storage_error
  version_of (found version) = done (version, true)

  abbrev pub answer : {A B : Type 0} → (A → B) → A × W → B × W
  answer f (a, w) = (f a, w)

  -- `Load`
  unfoldable pub load : Bytes → W → Outcome RuleFile × W
  unfolding key_for
  load client w = answer loaded (storage.get (key_for client) w)

  -- `Save`
  unfoldable pub save : Bytes → Bytes → W → Outcome Bool × W
  unfolding key_for
  save client text w = answer wrote (storage.put (key_for client) text w)

  -- `Delete`
  unfoldable pub remove : Bytes → W → Outcome Bool × W
  unfolding key_for
  remove client w = answer wrote (storage.delete (key_for client) w)

  -- `LoadRaw`
  unfoldable pub load_raw : Bytes → W → Outcome (Option Bytes) × W
  unfolding key_for
  load_raw client w = answer raw (storage.get (key_for client) w)

  -- `Stat`
  unfoldable pub stat : Bytes → W → Outcome (Bytes × Bool) × W
  unfolding key_for
  stat client w = answer version_of (storage.stat (key_for client) w)

  -- `LoadRawDefault`
  unfoldable pub load_raw_default : W → Outcome (Option Bytes) × W
  load_raw_default w = answer raw (storage.get default_key w)

  -- `SaveDefault`
  unfoldable pub save_default : Bytes → W → Outcome Bool × W
  save_default text w = answer wrote (storage.put default_key text w)

  -- `StatDefault`
  unfoldable pub stat_default : W → Outcome (Bytes × Bool) × W
  stat_default w = answer version_of (storage.stat default_key w)

  abbrev pub seed : Bytes → Outcome (Bytes × Bool) × W → Outcome Bool × W
  seed builtin (failed e, w) = (failed e, w)
  seed builtin (done (version, true), w) = (done true, w)
  seed builtin (done (version, false), w) = answer wrote (storage.put default_key builtin w)

  -- `EnsureDefault`, with the text of the built-in table
  unfoldable pub ensure_default : Bytes → W → Outcome Bool × W
  unfolding stat_default
  ensure_default builtin w = seed builtin (stat_default w)
