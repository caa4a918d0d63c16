-- ===== src/Rules/TableCache.antt =====
-- internal/rules/engine.go: `lookupDefaultTable`, which keeps the default rule set.
use mitmania.Prelude.{
  ℕ, ◌-◌, ltb, Bool, true, false, not, Option, none, some, List, [], ◌∷◌, ◌&&◌, if◌then◌else◌,
  Bytes,
}
use mitmania.Rules.Pattern.Glob.{is_empty}
use mitmania.Rules.Compile.{given}
use mitmania.Rules.DefaultRuleset.{DefaultRuleset, ParsedEntry}
use mitmania.Rules.DefaultLoad.{parse_default_ruleset, marshal_canonical, compile_parsed_entries}
use mitmania.Rules.Store.{stat, load_raw_default, save_default, stat_default}
use mitmania.Rules.Outcome.{Outcome, done, failed}
use mitmania.Rules.Caches.{
  CachedDefault, CachedRuleSet, Engine, Run, Setup, cached_default, give, lift, on_store, on_world,
  put_default, restat, ruleset_of, succeeded, text_or_nil, unchanged_default, ◌>>=◌,
}

abbrev pub lacks_uuid : List ParsedEntry → Bool
lacks_uuid [] = false
lacks_uuid (e ∷ es) = if is_empty e.rule.uuid then true else lacks_uuid es

module _ {W Addr Net : Type 0} (c : Setup W Addr Net) where
  abbrev pub stat_client : Bytes → W → Outcome (Bytes × Bool) × W
  stat_client = stat c.storage c.lib.addr_text c.sha1_hex c.lib.unmarshal_rule

  abbrev pub stat_table : W → Outcome (Bytes × Bool) × W
  stat_table = stat_default c.storage c.lib.addr_text c.sha1_hex c.lib.unmarshal_rule

  -- `fresh`
  unfoldable pub fresh : ℕ → Run (Engine W Net) Bool
  fresh checked_at =
      if ltb 0 c.cache_ttl
      then (do now ← on_world c.clock; give (ltb (now - checked_at) c.cache_ttl))
      else give false

  abbrev pub fresh_default : Option (CachedDefault Net) → Run (Engine W Net) Bool
  fresh_default none = give false
  fresh_default (some d) = fresh d.checked_at

  abbrev pub fresh_client : Option (CachedRuleSet Net) → Run (Engine W Net) Bool
  fresh_client none = give false
  fresh_client (some d) = fresh d.checked_at

  abbrev pub store_default :
      Bytes → Bool → Option (DefaultRuleset Net) → Run (Engine W Net) (Option (DefaultRuleset Net))
  store_default version exists table = do
    now ← on_world c.clock
    stored ←
        put_default (record { checked_at = now; version = version; exists = exists; table = table })
    give table

  -- The loop that mints the missing uuids.
  unfoldable pub mint_all : List ParsedEntry → Run (Engine W Net) (List ParsedEntry)
  mint_all [] = give []
  mint_all (e ∷ es) =
      let rest = mint_all es in
      if is_empty e.rule.uuid
      then (do
        id ← on_world c.new_uuid
        es ← rest
        give (record e { rule = record e.rule { uuid = id } } ∷ es))
      else (do es ← rest; give (e ∷ es))

  abbrev pub save_table :
      List ParsedEntry → Bytes × Bool → Option Bytes → Run (Engine W Net) (Bytes × Bool)
  save_table entries old none = give old
  save_table entries old (some text) = do
    saved ← on_world (save_default c.storage c.lib.addr_text c.sha1_hex c.lib.unmarshal_rule text)
    if succeeded saved then (do r ← on_world stat_table; give (restat r old)) else give old

  -- From the load of the blob on.
  unfoldable pub load_default :
      Option (CachedDefault Net) → Bytes → Run (Engine W Net) (Option (DefaultRuleset Net))
  unfolding mint_all
  load_default cached version = do
    raw ← on_store (load_raw_default c.storage c.lib.addr_text c.sha1_hex c.lib.unmarshal_rule)
    parsed ← lift (parse_default_ruleset c.lib (text_or_nil raw))
    entries ← mint_all parsed
    (version, exists) ←
        if lacks_uuid parsed
        then save_table entries (version, true) (marshal_canonical c.lib entries)
        else give (version, true)
    d ← lift (compile_parsed_entries c.lib (ruleset_of cached) entries)
    store_default version exists (some d)

  abbrev pub default_answer :
      Option (CachedDefault Net)
      → Outcome (Bytes × Bool)
      → Run (Engine W Net) (Option (DefaultRuleset Net))
  default_answer cached (failed e) =
      if ltb 0 c.cache_ttl && given cached then give (ruleset_of cached) else lift (failed e)
  default_answer cached (done (version, exists)) =
      if unchanged_default cached version exists
      then store_default version exists (ruleset_of cached)
      else if not exists
      then store_default version false none
      else load_default cached version

  unfoldable pub lookup_default_table : Run (Engine W Net) (Option (DefaultRuleset Net))
  unfolding fresh load_default
  lookup_default_table = do
    cached ← cached_default
    is_fresh ← fresh_default cached
    if is_fresh
        then give (ruleset_of cached)
        else (do r ← on_world stat_table; default_answer cached r)
