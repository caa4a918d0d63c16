-- ===== src/Rules/PolicySamples.antt =====
-- A default rule set, its libraries and a store in memory, for the tests.
use mitmania.Prelude.{
  ℕ, ◌≡◌, refl, true, false, Option, none, some, List, [], ◌∷◌, ◌++◌, if◌then◌else◌, Bytes, codes,
  same, inl, inr, Bool-cases, some_injective, arith, ◌<◌,
}
use mathlib.Core.Path.{subst}
use mitmania.Rules.Schema.{RuleFile, Rule}
use mitmania.Rules.Auth.{Crypto}
use mitmania.Rules.RuleSet.{RuleSet, new_rule_set}
use mitmania.Rules.MaskedKey.{MaskedKey}
use mitmania.Rules.MaskedKey.Parsed.{IsAddress}
use mitmania.Rules.MaskedKey.Prefix.{AreBytes}
use mitmania.Rules.DefaultRuleset.{Libraries, ParsedEntry, CompiledBucket, DefaultRuleset}
use mitmania.Rules.Store.{Fetched, found, missing, broken, Storage, empty_rule_file}
use mitmania.Rules.Caches.{Setup, Engine, CachedRuleSet}
use mitmania.Rules.Samples.{no_regex, same_key, no_hash}

abbrev pub zeros_16 : Bytes
zeros_16 = 0 ∷ 0 ∷ 0 ∷ 0 ∷ 0 ∷ 0 ∷ 0 ∷ 0 ∷ 0 ∷ 0 ∷ 0 ∷ 0 ∷ 0 ∷ 0 ∷ 0 ∷ 0 ∷ []

abbrev pub sample_addr : Bytes → Option Bytes
sample_addr s =
    if same s (codes "0.0.0.0")
    then some (0 ∷ 0 ∷ 0 ∷ 0 ∷ [])
    else if same s (codes "10.0.0.0")
    then some (10 ∷ 0 ∷ 0 ∷ 0 ∷ [])
    else if same s (codes "255.0.0.0")
    then some (255 ∷ 0 ∷ 0 ∷ 0 ∷ [])
    else if same s (codes "::")
    then some zeros_16
    else none

small : 0 < 256
small = omega arith

pub four-IsAddress : (n : ℕ) → n < 256 → IsAddress (n ∷ 0 ∷ 0 ∷ 0 ∷ [])
four-IsAddress n h = ((h, (small, (small, (small, tt)))), inl refl)

from_some : (a b : Bytes) → IsAddress a → some a ≡ some b → IsAddress b
from_some a b h e = subst IsAddress (some_injective a b e) h

bytes_16 : AreBytes zeros_16
bytes_16 = (
  small,
  (
    small,
    (
      small,
      (
        small,
        (
          small,
          (
            small,
            (
              small,
              (small, (small, (small, (small, (small, (small, (small, (small, (small, tt))))))))),
            ),
          ),
        ),
      ),
    ),
  ),
)

pub sample_addr-IsAddress : (s a : Bytes) → sample_addr s ≡ some a → IsAddress a
sample_addr-IsAddress s a h = elim (Bool-cases (same s (codes "0.0.0.0"))) [
  | inl e ↦ from_some (0 ∷ 0 ∷ 0 ∷ 0 ∷ []) a (four-IsAddress 0 (omega arith)) (rw e at h)
  | inr n ↦ elim (Bool-cases (same s (codes "10.0.0.0"))) [
    | inl e ↦ from_some (10 ∷ 0 ∷ 0 ∷ 0 ∷ []) a (four-IsAddress 10 (omega arith)) (rw (n, e) at h)
    | inr m ↦ elim (Bool-cases (same s (codes "255.0.0.0"))) [
      | inl e ↦
          from_some (255 ∷ 0 ∷ 0 ∷ 0 ∷ []) a (four-IsAddress 255 (omega arith)) (rw (n, m, e) at h)
      | inr k ↦ elim (Bool-cases (same s (codes "::"))) [
        | inl e ↦ from_some zeros_16 a (bytes_16, inr refl) (rw (n, m, k, e) at h)
        | inr l ↦ cc (rw (n, m, k, l) at h)
      ]
    ]
  ]
]

-- Hashes are the texts themselves.
abbrev pub sample_crypto : Crypto
sample_crypto = record {
  decode_raw = λ s. some s;
  decode_std = λ s. some s;
  scan_version = λ s. some 19;
  scan_costs = λ s. some (1, 1, 1);
  id_key = λ password salt time memory threads n. password;
  sha256 = λ s. s;
}

abbrev pub sample_members : List (Bytes × Bytes)
sample_members =
    (codes "0.0.0.0/0", codes "a")
    ∷ (codes "10.0.0.0/8", codes "x")
    ∷ (codes "::/0", codes "c")
    ∷ (codes "10.0.0.0/255.0.0.0", codes "b")
    ∷ []

abbrev pub file_of : Bytes → RuleFile
file_of uuid = record empty_rule_file { uuid = uuid }

abbrev no_rules : List Rule → Option Bytes
no_rules [] = some []
no_rules (r ∷ rs) = none

abbrev pub sample_lib : Libraries ℕ ℕ
sample_lib = record {
  parse_addr = sample_addr;
  addr_text = λ a. a;
  number_text = λ n. n ∷ [];
  parse_prefix = λ s. none;
  prefix_contains = λ p a. false;
  regexp_compile = no_regex;
  canonical_key = same_key;
  params_hash = no_hash;
  crypto = sample_crypto;
  members = λ s. some sample_members;
  decode_rule = λ s. some (file_of s);
  unmarshal_rule = λ s. some (record (file_of s) { egress = some [] });
  marshal_rule = λ rf. some rf.uuid;
  marshal_http = no_rules;
  marshal_table = λ t. some (codes "table");
}

abbrev pub key_v4 : ℕ → ℕ → MaskedKey
key_v4 a m = record { is4 = true; addr = a ∷ 0 ∷ 0 ∷ 0 ∷ []; mask = m ∷ 0 ∷ 0 ∷ 0 ∷ [] }

abbrev pub key_v6 : MaskedKey
key_v6 = record { is4 = false; addr = zeros_16; mask = zeros_16 }

abbrev pub entry_of : MaskedKey → Bytes → ParsedEntry
entry_of key uuid = record { key = key; rule = file_of uuid }

abbrev pub sample_entries : List ParsedEntry
sample_entries =
    entry_of (key_v4 0 0) (codes "a")
    ∷ entry_of (key_v4 10 255) (codes "b")
    ∷ entry_of key_v6 (codes "c")
    ∷ []

abbrev pub rules_of : Bytes → RuleSet ℕ
rules_of uuid = new_rule_set [] [] uuid none

abbrev pub bucket_of : MaskedKey → ℕ → Bytes → CompiledBucket ℕ
bucket_of key n uuid = record {
  key = key;
  label = key.addr ++ codes "/" ++ n ∷ [];
  rules = rules_of uuid;
  content_hash = uuid;
}

abbrev pub sample_table : DefaultRuleset ℕ
sample_table = record {
  v4 = bucket_of (key_v4 10 255) 8 (codes "b") ∷ bucket_of (key_v4 0 0) 0 (codes "a") ∷ [];
  v6 = bucket_of key_v6 0 (codes "c") ∷ [];
}

-- A store in memory, with a clock and a counter behind the ids, that can be out of reach.
abbrev pub Memory : Type 0
Memory = List (Bytes × Bytes)

abbrev pub read_key : Memory → Bytes → Fetched
read_key [] k = missing
read_key ((l, text) ∷ more) k = if same l k then found text else read_key more k

abbrev pub memory : Storage Memory
memory = record {
  get = λ k w. (read_key w k, w);
  put = λ k text w. (true, (k, text) ∷ w);
  delete = λ k w. (true, w);
  stat = λ k w. (read_key w k, w);
}

abbrev pub unreachable : Storage Memory
unreachable = record memory { stat = λ k w. (broken, w) }

abbrev pub setup_of : Storage Memory → ℕ → Setup Memory ℕ ℕ
setup_of storage ttl = record {
  lib = sample_lib;
  storage = storage;
  sha1_hex = λ s. s;
  clock = λ w. (100, w);
  new_uuid = λ w. (codes "id", w);
  cache_ttl = ttl;
}

abbrev pub sample_client : Bytes
sample_client = 10 ∷ 0 ∷ 0 ∷ 7 ∷ []

abbrev pub known_client : ℕ → CachedRuleSet ℕ
known_client at' = record {
  checked_at = at';
  version = codes "v1";
  exists = true;
  rule_set = some (rules_of (codes "own"));
  content_hash = codes "own";
}

abbrev pub engine_of : Memory → List (Bytes × CachedRuleSet ℕ) → Engine Memory ℕ
engine_of w cache = record { world = w; cache = cache; default_cache = none }
