-- ===== src/Rules/DefaultRuleset.antt =====
-- internal/rules/defaultruleset.go: the table that serves the clients without a file of their own.
-- Parameters: JSON, netip's addresses and prefixes, regular expressions, header names and hashes.
pub mod Labelled
pub mod Families
pub mod Hits
pub mod Complete
pub mod Policies
pub mod Reused
pub mod Made
pub mod Answers
use mitmania.Prelude.{
  ℕ, Bool, true, false, Option, none, some, List, [], ◌∷◌, ◌++◌, if◌then◌else◌, Bytes, codes, same,
  less, length, map, not, ◌&&◌,
}
use mitmania.Rules.Pattern.Glob.{is_empty}
use mitmania.Rules.Schema.{
  RuleFile, Rule, Params, EgressRule, AuthBroker, HttpProxyAuth, AuthConfig,
}
use mitmania.Rules.Compile.{CompiledRule, compile}
use mitmania.Rules.Egress.{CompiledEgress, compile_egress}
use mitmania.Rules.Auth.{CompiledAuth, Crypto, compile_auth}
use mitmania.Rules.HostIndex.{HostIndex, build_host_candidate_index}
use mitmania.Rules.RuleSet.{RuleSet, hosts_of, new_rule_set_with_host_index}
use mitmania.Rules.MaskedKey.{
  MaskedKey, contiguous_prefix_len, contains_bytes, parse_masked_key, canonical, is_v4,
}
use mitmania.Rules.Coverage.{Prefix, Coverage, full, no_entries, gap, check_coverage}
use mitmania.Rules.Outcome.{
  Reason, bad_json, bad_key, bad_egress, no_coverage, coverage_gap, Outcome, done, failed, ◌>>=◌,
  or_fail, labelled,
}

-- What loading takes from the libraries: `members` are those of a JSON object in their order, the
-- values still as text, `decode_rule` refuses unknown fields and `unmarshal_rule` does not.
pub record Libraries (Addr Net : Type 0) : Type 0 where
  pub parse_addr : Bytes → Option Bytes
  pub addr_text : Bytes → Bytes
  pub number_text : ℕ → Bytes
  pub parse_prefix : Bytes → Option Net
  pub prefix_contains : Net → Addr → Bool
  pub regexp_compile : Bytes → Option (Bytes → Bool)
  pub canonical_key : Bytes → Bytes
  pub params_hash : Params → Bytes
  pub crypto : Crypto
  pub members : Bytes → Option (List (Bytes × Bytes))
  pub decode_rule : Bytes → Option RuleFile
  pub unmarshal_rule : Bytes → Option RuleFile
  pub marshal_rule : RuleFile → Option Bytes
  pub marshal_http : List Rule → Option Bytes
  pub marshal_table : List (Bytes × RuleFile) → Option Bytes

pub record ParsedEntry : Type 0 where
  pub key : MaskedKey
  pub rule : RuleFile

pub record CompiledBucket (Net : Type 0) : Type 0 where
  pub key : MaskedKey
  pub label : Bytes
  pub rules : RuleSet Net
  pub content_hash : Bytes

pub record DefaultRuleset (Net : Type 0) : Type 0 where
  pub v4 : List (CompiledBucket Net)
  pub v6 : List (CompiledBucket Net)

-- `cachedHTTPPolicy` under the JSON of its rules
pub record CachedHttpPolicy : Type 0 where
  pub json : Bytes
  pub rules : List CompiledRule
  pub host_index : HostIndex

-- What the loop over the entries collects.
pub record Collected (Net : Type 0) : Type 0 where
  pub v4 : List (CompiledBucket Net)
  pub v6 : List (CompiledBucket Net)
  pub v4_prefixes : List Prefix
  pub v6_prefixes : List Prefix

abbrev pub find_policy : Bytes → List CachedHttpPolicy → Option CachedHttpPolicy
find_policy json [] = none
find_policy json (p ∷ ps) = if same p.json json then some p else find_policy json ps

abbrev pub with_len : Option ℕ → MaskedKey → List Prefix → List Prefix
with_len none k prefixes = prefixes
with_len (some n) k prefixes = (record { addr = k.addr; len = n }) ∷ prefixes

-- `prefixes = append(prefixes, netip.PrefixFrom(addr, n))` where the mask is a prefix's
abbrev pub with_prefix : MaskedKey → List Prefix → List Prefix
with_prefix k prefixes = with_len (contiguous_prefix_len k.mask) k prefixes

abbrev pub if_covered {ℓ} : {A : Type ℓ} → Bool → Coverage → Outcome A → Outcome A
if_covered v4 full next = next
if_covered v4 no_entries next = failed (no_coverage v4)
if_covered v4 (gap lo hi) next = failed (coverage_gap v4 lo hi)

module _ {Net : Type 0} where
  -- The bucket that the map holds under the label: the last one stored there.
  unfoldable pub last_labelled : Bytes → List (CompiledBucket Net) → Option (CompiledBucket Net)
  last_labelled label [] = none
  last_labelled label (b ∷ bs) = elim (last_labelled label bs) [
    | some c ↦ some c
    | none ↦ if same b.label label then some b else none
  ]

  -- `bucketByLabel`, with `nil` as `none`
  unfoldable pub bucket_by_label : Option (DefaultRuleset Net) → Bytes → Option (CompiledBucket Net)
  unfolding last_labelled
  bucket_by_label none label = none
  bucket_by_label (some d) label = last_labelled label (d.v4 ++ d.v6)

  -- `sort.Slice` by the masks, the greatest first
  unfoldable pub insert_bucket :
      CompiledBucket Net → List (CompiledBucket Net) → List (CompiledBucket Net)
  unfolding less
  insert_bucket b [] = b ∷ []
  insert_bucket b (c ∷ cs) =
      if less b.key.mask c.key.mask then c ∷ insert_bucket b cs else b ∷ c ∷ cs

  unfoldable pub sort_by_mask_descending : List (CompiledBucket Net) → List (CompiledBucket Net)
  unfolding insert_bucket
  sort_by_mask_descending [] = []
  sort_by_mask_descending (b ∷ bs) = insert_bucket b (sort_by_mask_descending bs)

  -- The loop of `Lookup`; `none` on the outside is a panic.
  unfoldable pub first_containing :
      List (CompiledBucket Net) → Bytes → Option (Option (RuleSet Net))
  unfolding contains_bytes
  first_containing [] ab = some none
  first_containing (b ∷ bs) ab =
      let rest = first_containing bs ab in
      elim (contains_bytes ab b.key.mask b.key.addr) [
        | none ↦ none
        | some true ↦ some (some b.rules)
        | some false ↦ rest
      ]

  -- `Lookup`
  unfoldable pub lookup_addr : DefaultRuleset Net → Bytes → Option (Option (RuleSet Net))
  unfolding first_containing
  lookup_addr d ab = first_containing (if is_v4 ab then d.v4 else d.v6) ab

  abbrev default_bucket : CompiledBucket Net → Bytes × RuleSet Net
  default_bucket b = (b.label, b.rules)

  -- `Buckets`
  unfoldable pub buckets : DefaultRuleset Net → List (Bytes × RuleSet Net)
  buckets d = map default_bucket d.v4 ++ map default_bucket d.v6

  abbrev pub collect_as : Bool → CompiledBucket Net → Collected Net → Collected Net
  collect_as true b all = record all {
    v4 = b ∷ all.v4;
    v4_prefixes = with_prefix b.key all.v4_prefixes;
  }
  collect_as false b all = record all {
    v6 = b ∷ all.v6;
    v6_prefixes = with_prefix b.key all.v6_prefixes;
  }

  abbrev pub collect : CompiledBucket Net → Collected Net → Collected Net
  collect b all = collect_as b.key.is4 b all

  -- The end of `compileParsedEntries`, behind its loop.
  unfoldable pub finish : Collected Net → Outcome (DefaultRuleset Net)
  unfolding check_coverage sort_by_mask_descending
  finish all = if_covered true (check_coverage all.v4_prefixes 32) (
      if_covered false (check_coverage all.v6_prefixes 128) (
        done (record { v4 = sort_by_mask_descending all.v4; v6 = sort_by_mask_descending all.v6 })))
