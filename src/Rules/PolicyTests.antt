-- ===== src/Rules/PolicyTests.antt =====
-- Runs of the default rule set and of the engine at concrete inputs.
use mitmania.Prelude.{◌≡◌, refl, none, some, [], ◌∷◌, Bytes, codes, inl, arith, same}
use mitmania.Rules.MaskedKey.Parsed.{IsAddress}
use mitmania.Rules.DefaultRuleset.{lookup_addr}
use mitmania.Rules.DefaultLoad.{parse_default_ruleset, compile_parsed_entries}
use mitmania.Rules.DefaultRuleset.Complete.{Answers}
use mitmania.Rules.DefaultRuleset.Answers.{lookup_addr-Answered}
use mitmania.Rules.Outcome.{done}
use mitmania.Rules.Store.{stat, stat_default, load_raw_default}
use mitmania.Rules.DefaultRuleset.Labelled.{
  IsDistinct, find_entry, last_member, parse_default_ruleset-last,
}
use mitmania.Rules.Caches.{find_client}
use mitmania.Rules.Engine.{lookup_client}
use mitmania.Rules.TableCache.{lookup_default_table}
use mitmania.Rules.Engine.Sound.{Ends, IsServed}
use mitmania.Rules.Engine.Served.{lookup_client-Served}
use mitmania.Rules.Engine.Outage.{Stays, offline, lookup_client-offline}
use mitmania.Rules.DefaultRuleset.Made.{IsFrom, compile_parsed_entries-IsFrom}
use mitmania.Rules.Engine.Failing.{KeepsOnFailure, lookup_default_table-keeps}
use mitmania.Rules.PolicySamples.{
  rules_of, Memory, memory, unreachable, setup_of, known_client, engine_of, sample_addr-IsAddress,
  sample_lib, sample_entries, sample_table, sample_client, sample_members,
}

sample-parses : parse_default_ruleset sample_lib [] ≡ done sample_entries
unfolding parse_default_ruleset same
sample-parses = refl

sample-compiles_table : compile_parsed_entries sample_lib none sample_entries ≡ done sample_table
unfolding compile_parsed_entries same
sample-compiles_table = refl

client-IsAddress : IsAddress sample_client
client-IsAddress = ((omega arith, (omega arith, (omega arith, (omega arith, tt)))), inl refl)

lookup_addr-Answered_example : Answers sample_table sample_client
lookup_addr-Answered_example =
    lookup_addr-Answered sample_lib sample_addr-IsAddress [] none sample_entries sample_table
      sample_client sample-parses sample-compiles_table client-IsAddress

abbrev stored_table : Memory
stored_table = (codes "rules/default", codes "t") ∷ []

lookup_client-Served_example :
    Ends
      (setup_of memory 60)
      sample_addr-IsAddress
      (IsServed (setup_of memory 60) sample_addr-IsAddress sample_client)
      (lookup_client (setup_of memory 60) sample_client (engine_of stored_table []))
lookup_client-Served_example =
    lookup_client-Served (setup_of memory 60) sample_addr-IsAddress sample_client
      (engine_of stored_table []) client-IsAddress (tt, tt)

serves_bucket :
    (lookup_client (setup_of memory 60) sample_client (engine_of stored_table [])).0
    ≡ done (some (rules_of (codes "b")))
unfolding lookup_client same find_client stat stat_default load_raw_default parse_default_ruleset
    compile_parsed_entries lookup_addr
serves_bucket = refl

lookup_default_table-keeps_example :
    KeepsOnFailure
      (setup_of unreachable 60)
      (engine_of [] [])
      (lookup_default_table (setup_of unreachable 60) (engine_of [] []))
lookup_default_table-keeps_example =
    lookup_default_table-keeps (setup_of unreachable 60) (engine_of [] [])

parse_default_ruleset-last_example :
    IsDistinct sample_lib sample_entries
    × ((label : Bytes)
        → find_entry sample_lib label sample_entries ≡ last_member sample_lib label sample_members)
parse_default_ruleset-last_example =
    parse_default_ruleset-last sample_lib [] sample_members sample_entries refl sample-parses

compile_parsed_entries-IsFrom_example : IsFrom sample_lib sample_entries sample_table
compile_parsed_entries-IsFrom_example =
    compile_parsed_entries-IsFrom sample_lib none sample_entries sample_table tt
      sample-compiles_table

lookup_client-offline_example :
    Stays
      (setup_of unreachable 60)
      (engine_of [] ((sample_client, known_client 0) ∷ []))
      (offline
        (setup_of unreachable 60)
        sample_client
        (find_client sample_client ((sample_client, known_client 0) ∷ []))
        none)
      (lookup_client
        (setup_of unreachable 60)
        sample_client
        (engine_of [] ((sample_client, known_client 0) ∷ [])))
lookup_client-offline_example =
    lookup_client-offline (setup_of unreachable 60) (λ k w. refl) sample_client
      (engine_of [] ((sample_client, known_client 0) ∷ []))

serves_cached :
    offline
      (setup_of unreachable 60)
      sample_client
      (find_client sample_client ((sample_client, known_client 0) ∷ []))
      none
    ≡ done (some (rules_of (codes "own")))
unfolding find_client same
serves_cached = refl
