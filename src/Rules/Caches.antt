-- ===== src/Rules/Caches.antt =====
-- internal/rules/engine.go: the state of `RuleEngine`, passed along, and the results of its methods. Logging,
-- metrics and tracing are left out, and times are numbers. Parameters: the storage, a clock and
-- uuid.NewString, with those of the default rule set.
use mitmania.Prelude.{
  ℕ, Bool, true, false, not, Option, none, some, List, [], ◌∷◌, ◌&&◌, if◌then◌else◌, Bytes, same,
}
use mitmania.Rules.Egress.{CompiledEgress}
use mitmania.Rules.RuleSet.{RuleSet}
use mitmania.Rules.DefaultRuleset.{DefaultRuleset, Libraries, lookup_addr}
use mitmania.Rules.Store.{Storage}
use mitmania.Rules.Outcome.{panicked, Outcome, done, failed, or_fail}

-- `nil` is `none`.
pub record CachedRuleSet (Net : Type 0) : Type 0 where
  pub checked_at : ℕ
  pub version : Bytes
  pub exists : Bool
  pub rule_set : Option (RuleSet Net)
  pub content_hash : Bytes

pub record CachedDefault (Net : Type 0) : Type 0 where
  pub checked_at : ℕ
  pub version : Bytes
  pub exists : Bool
  pub table : Option (DefaultRuleset Net)

-- The engine's own state, and the world's.
pub record Engine (W Net : Type 0) : Type 0 where
  pub world : W
  pub cache : List (Bytes × CachedRuleSet Net)
  pub default_cache : Option (CachedDefault Net)

-- What the engine is made with; a `cache_ttl` of 0 turns the caching by time off.
pub record Setup (W Addr Net : Type 0) : Type 0 where
  pub lib : Libraries Addr Net
  pub storage : Storage W
  pub sha1_hex : Bytes → Bytes
  pub clock : W → ℕ × W
  pub new_uuid : W → Bytes × W
  pub cache_ttl : ℕ

abbrev pub empty_rule_set : {Net : Type 0} → RuleSet Net
empty_rule_set = record { rules = []; host_index = none; egress = []; uuid = []; auth = none }

-- A method of the engine: it fails, or gives a value, and leaves a state behind.
abbrev pub Run : Type 0 → Type 0 → Type 0
Run S A = S → Outcome A × S

abbrev pub and_then : {S A B : Type 0} → Outcome A × S → (A → Run S B) → Outcome B × S
and_then (failed e, s) f = (failed e, s)
and_then (done a, s) f = f a s

infixl 1 ◌>>=◌
abbrev pub ◌>>=◌ : {S A B : Type 0} → Run S A → (A → Run S B) → Run S B
(m >>= f) s = and_then (m s) f

abbrev pub give : {S A : Type 0} → A → Run S A
give a s = (done a, s)

abbrev pub lift : {S A : Type 0} → Outcome A → Run S A
lift o s = (o, s)

abbrev pub at_world : {W Net A : Type 0} → Engine W Net → A × W → Outcome A × Engine W Net
at_world s (a, w) = (done a, record s { world = w })

-- A call that cannot fail, or whose error is looked at.
abbrev pub on_world : {W Net A : Type 0} → (W → A × W) → Run (Engine W Net) A
on_world f s = at_world s (f s.world)

abbrev pub at_store : {W Net A : Type 0} → Engine W Net → Outcome A × W → Outcome A × Engine W Net
at_store s (o, w) = (o, record s { world = w })

-- A call whose error ends the operation.
abbrev pub on_store : {W Net A : Type 0} → (W → Outcome A × W) → Run (Engine W Net) A
on_store f s = at_store s (f s.world)

abbrev pub restat : Outcome (Bytes × Bool) → Bytes × Bool → Bytes × Bool
restat (failed e) old = old
restat (done new) old = new

abbrev pub succeeded : Outcome Bool → Bool
succeeded (failed e) = false
succeeded (done b) = true

abbrev pub text_or_nil : Option Bytes → Bytes
text_or_nil none = []
text_or_nil (some text) = text

abbrev pub same_exists : Bool → Bool → Bool
same_exists true b = b
same_exists false b = not b

module _ {Net : Type 0} where
  unfoldable pub find_client : Bytes → List (Bytes × CachedRuleSet Net) → Option (CachedRuleSet Net)
  find_client client [] = none
  find_client client ((k, c) ∷ more) =
      let rest = find_client client more in if same k client then some c else rest

  abbrev pub ruleset_of : Option (CachedDefault Net) → Option (DefaultRuleset Net)
  ruleset_of none = none
  ruleset_of (some c) = c.table

  -- `cached != nil && cached.version == version && cached.exists == exists`
  abbrev pub unchanged_default : Option (CachedDefault Net) → Bytes → Bool → Bool
  unchanged_default none version exists = false
  unchanged_default (some c) version exists = same c.version version && same_exists c.exists exists

  abbrev pub unchanged_client : Option (CachedRuleSet Net) → Bytes → Bool → Bool
  unchanged_client none version exists = false
  unchanged_client (some c) version exists = same c.version version && same_exists c.exists exists

  -- The rules of the table for the address, `none` where it has none.
  abbrev pub in_table : Option (DefaultRuleset Net) → Bytes → Outcome (Option (RuleSet Net))
  in_table none client = done none
  in_table (some d) client = or_fail (lookup_addr d client) panicked

  abbrev pub or_empty : Option (RuleSet Net) → Option (RuleSet Net)
  or_empty none = some empty_rule_set
  or_empty (some rs) = some rs

  abbrev pub egress_or_nil : Option (RuleSet Net) → List (CompiledEgress Net)
  egress_or_nil none = []
  egress_or_nil (some rs) = rs.egress

  -- The rules to reuse: those of the entry with this content.
  abbrev pub same_content : Option (CachedRuleSet Net) → Bytes → Option (RuleSet Net)
  same_content none hash = none
  same_content (some c) hash = if c.exists && same hash c.content_hash then c.rule_set else none

module _ {W Net : Type 0} where
  -- `e.cache[client]`
  abbrev pub cached_client : Bytes → Run (Engine W Net) (Option (CachedRuleSet Net))
  cached_client client s = (done (find_client client s.cache), s)

  -- `e.cache[client] = c`
  abbrev pub put_client : Bytes → CachedRuleSet Net → Run (Engine W Net) Bool
  put_client client c s = (done true, record s { cache = (client, c) ∷ s.cache })

  abbrev pub cached_default : Run (Engine W Net) (Option (CachedDefault Net))
  cached_default s = (done s.default_cache, s)

  abbrev pub put_default : CachedDefault Net → Run (Engine W Net) Bool
  put_default c s = (done true, record s { default_cache = some c })
