-- ===== src/Rules/Engine.antt =====
-- internal/rules/engine.go: `Lookup` of `RuleEngine`, and the methods that it calls.
pub mod Sound
pub mod Loaded
pub mod Tables
pub mod Compiled
pub mod Clients
pub mod Served
pub mod Outage
pub mod Failing
use mitmania.Prelude.{
  ℕ, ◌-◌, ltb, Bool, true, false, not, Option, none, some, List, [], ◌∷◌, ◌&&◌, if◌then◌else◌,
  Bytes, same,
}
use mitmania.Rules.Pattern.Glob.{is_empty}
use mitmania.Rules.Schema.{RuleFile, EgressRule}
use mitmania.Rules.Compile.{given, compile}
use mitmania.Rules.Egress.{CompiledEgress, compile_egress}
use mitmania.Rules.Auth.{compile_auth}
use mitmania.Rules.RuleSet.{RuleSet, new_rule_set}
use mitmania.Rules.DefaultRuleset.{DefaultRuleset, ParsedEntry, Libraries, lookup_addr}
use mitmania.Rules.DefaultLoad.{parse_default_ruleset, marshal_canonical, compile_parsed_entries}
use mitmania.Rules.Store.{Storage, load, save, stat, load_raw_default, save_default, stat_default}
use mitmania.Rules.Outcome.{Reason, bad_json, bad_egress, panicked, Outcome, done, failed, or_fail}
use mitmania.Rules.Caches.{
  CachedRuleSet, Engine, Run, Setup, cached_client, egress_or_nil, give, in_table, lift, on_store,
  on_world, or_empty, put_client, restat, same_content, succeeded, unchanged_client, ◌>>=◌,
}
use mitmania.Rules.TableCache.{fresh, fresh_client, lookup_default_table, stat_client}

module _ {W Addr Net : Type 0} (c : Setup W Addr Net) where
  -- `resolveEgress`
  unfoldable pub resolve_egress :
      Bytes → Option (List EgressRule) → Run (Engine W Net) (List (CompiledEgress Net))
  unfolding lookup_default_table
  resolve_egress client (some rules) = lift (
      or_fail (compile_egress c.lib.parse_prefix c.lib.prefix_contains c.lib.regexp_compile rules)
        bad_egress)
  resolve_egress client none = do
    def ← lookup_default_table c
    found ← lift (in_table def client)
    give (egress_or_nil found)

  -- `resolveClientCache`
  unfoldable pub resolve_client_cache :
      Bytes → CachedRuleSet Net → Run (Engine W Net) (Option (RuleSet Net))
  unfolding lookup_default_table
  resolve_client_cache client cached = if cached.exists then give cached.rule_set else (do
    def ← lookup_default_table c
    found ← lift (in_table def client)
    give (or_empty found))

  abbrev pub store_client :
      Bytes → Bytes → RuleSet Net → Bytes → Run (Engine W Net) (Option (RuleSet Net))
  store_client client version rules hash = do
    now ← on_world c.clock
    stored ← put_client client (record {
      checked_at = now;
      version = version;
      exists = true;
      rule_set = some rules;
      content_hash = hash;
    })
    give (some rules)

  abbrev pub save_minted :
      Bytes → RuleFile → Bytes → Option Bytes → Run (Engine W Net) (RuleFile × Bytes)
  save_minted client rf version none = give (rf, version)
  save_minted client rf version (some text) = do
    saved ← on_world (save c.storage c.lib.addr_text c.sha1_hex c.lib.unmarshal_rule client text)
    if succeeded saved
        then (do r ← on_world (stat_client c client); give (rf, (restat r (version, true)).0))
        else give (rf, version)

  -- The uuid that a file without one is given.
  unfoldable pub minted : Bytes → RuleFile → Bytes → Run (Engine W Net) (RuleFile × Bytes)
  minted client rf version =
      if is_empty rf.uuid
      then (do
        id ← on_world c.new_uuid
        save_minted client (record rf { uuid = id }) version
            (c.lib.marshal_rule (record rf { uuid = id })))
      else give (rf, version)

  -- From the compilation on.
  unfoldable pub compile_client :
      Bytes → Bytes → RuleFile → Bytes → Run (Engine W Net) (Option (RuleSet Net))
  unfolding compile_auth compile resolve_egress
  compile_client client version rf hash = do
    auth ← lift (compile_auth c.lib.crypto rf.auth)
    rules ← lift (compile c.lib.regexp_compile c.lib.canonical_key c.lib.params_hash rf)
    egress ← resolve_egress client rf.egress
    store_client client version (new_rule_set rules egress rf.uuid auth) hash

  abbrev pub reuse_or_compile :
      Bytes
      → Bytes
      → RuleFile
      → Bytes
      → Option (RuleSet Net)
      → Run (Engine W Net) (Option (RuleSet Net))
  reuse_or_compile client version rf hash (some rules) = store_client client version rules hash
  reuse_or_compile client version rf hash none = compile_client client version rf hash

  unfoldable pub lookup_ip :
      Bytes → Bytes → Option (CachedRuleSet Net) → Run (Engine W Net) (Option (RuleSet Net))
  unfolding minted compile_client
  lookup_ip client version prev = do
    loaded ← on_store (load c.storage c.lib.addr_text c.sha1_hex c.lib.unmarshal_rule client)
    (rf, version) ← minted client loaded version
    json ← lift (or_fail (c.lib.marshal_rule rf) bad_json)
    (let hash = c.lib.crypto.sha256 json in
        reuse_or_compile client version rf hash (same_content prev hash))

  abbrev pub resolve_known :
      Bytes → Option (CachedRuleSet Net) → Run (Engine W Net) (Option (RuleSet Net))
  resolve_known client none = give none
  resolve_known client (some d) = resolve_client_cache client d

  -- `touchClientCache`
  abbrev pub touch_client_cache : Bytes → Option (CachedRuleSet Net) → Run (Engine W Net) Bool
  touch_client_cache client none = give false
  touch_client_cache client (some d) = do
    now ← on_world c.clock
    put_client client (record d { checked_at = now })

  abbrev pub without_file : ℕ → Bytes → CachedRuleSet Net
  without_file now version = record {
    checked_at = now;
    version = version;
    exists = false;
    rule_set = none;
    content_hash = [];
  }

  abbrev pub stored_without : Bytes → Bytes → Run (Engine W Net) (Option (RuleSet Net))
  stored_without client version = do
    now ← on_world c.clock
    stored ← put_client client (without_file now version)
    resolve_client_cache client (without_file now version)

  abbrev pub client_answer :
      Bytes
      → Option (CachedRuleSet Net)
      → Outcome (Bytes × Bool)
      → Run (Engine W Net) (Option (RuleSet Net))
  client_answer client cached (failed e) =
      if ltb 0 c.cache_ttl && given cached then resolve_known client cached else lift (failed e)
  client_answer client cached (done (version, exists)) =
      if unchanged_client cached version exists
      then (do touched ← touch_client_cache client cached; resolve_known client cached)
      else if not exists
      then stored_without client version
      else lookup_ip client version cached

  -- `Lookup`
  unfoldable pub lookup_client : Bytes → Run (Engine W Net) (Option (RuleSet Net))
  unfolding fresh resolve_client_cache lookup_ip
  lookup_client client = do
    cached ← cached_client client
    is_fresh ← fresh_client c cached
    if is_fresh
        then resolve_known client cached
        else (do r ← on_world (stat_client c client); client_answer client cached r)
