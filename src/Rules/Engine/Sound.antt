-- ===== src/Rules/Engine/Sound.antt =====
-- internal/rules/engine.go: what the caches hold, and what a lookup serves.
use mathlib.Core.Path.{subst}
use mitmania.Prelude.{
  ◌≡◌, refl, true, Option, none, some, List, [], ◌∷◌, ◌⊎◌, inl, inr, Bytes, same, same→eq,
  Bool-cases, false,
}
use mitmania.Rules.Pattern.Glob.{is_empty}
use mitmania.Rules.Schema.{RuleFile, EgressRule}
use mitmania.Rules.Compile.{CompiledRule, compile}
use mitmania.Rules.Egress.{CompiledEgress, compile_egress}
use mitmania.Rules.Auth.{CompiledAuth, compile_auth}
use mitmania.Rules.RuleSet.{RuleSet, new_rule_set}
use mitmania.Rules.MaskedKey.Parsed.{IsAddress}
use mitmania.Rules.DefaultRuleset.{DefaultRuleset, ParsedEntry, lookup_addr}
use mitmania.Rules.DefaultLoad.{parse_default_ruleset}
use mitmania.Rules.DefaultRuleset.Complete.{Answers}
use mitmania.Rules.DefaultRuleset.Policies.{HasHash}
use mitmania.Rules.DefaultRuleset.Made.{IsFrom}
use mitmania.Rules.Store.{load, load_raw_default}
use mitmania.Rules.Outcome.{Outcome, done, failed}
use mitmania.Rules.Caches.{
  CachedRuleSet, CachedDefault, Engine, Setup, empty_rule_set, egress_or_nil, Run, and_then,
  text_or_nil, find_client,
}
use mitmania.Rules.TableCache.{stat_client, stat_table}

module _ {W Addr Net : Type 0} (c : Setup W Addr Net)
    (parsed : (s a : Bytes) → c.lib.parse_addr s ≡ some a → IsAddress a) where
  -- The rule file is the one before it, given a uuid if it has none.
  abbrev pub IsMinted : RuleFile → RuleFile → Type 0
  IsMinted old rf =
      ((is_empty old.uuid ≡ false) × (rf ≡ old))
      ⊎ ((is_empty old.uuid ≡ true) × ((id : Bytes) × (rf ≡ record old { uuid = id })))

  abbrev pub AreMinted : List ParsedEntry → List ParsedEntry → Type 0
  AreMinted [] [] = Unit
  AreMinted (e ∷ es) (f ∷ fs) = (f.key ≡ e.key) × IsMinted e.rule f.rule × AreMinted es fs
  AreMinted es fs = ⊥

  -- The entries are parsed from what the storage held as the default rule set.
  abbrev pub AreStored : List ParsedEntry → Type 0
  AreStored es =
      (w : W) × (raw : Option Bytes) × (old : List ParsedEntry) × ((load_raw_default c.storage
          c.lib.addr_text c.sha1_hex c.lib.unmarshal_rule w).0
        ≡ done raw)
      × (parse_default_ruleset c.lib (text_or_nil raw) ≡ done old)
      × AreMinted old es

  -- The table's buckets are those of a stored default rule set, and it answers every address.
  abbrev pub IsTable : DefaultRuleset Net → Type 0
  IsTable d =
      ((es : List ParsedEntry) × AreStored es × IsFrom c.lib es d)
      × ((a : Bytes) → IsAddress a → Answers d a)

  -- The storage held no default rule set.
  abbrev pub IsAbsent : Type 0
  IsAbsent = (w : W) × (version : Bytes) × ((stat_table c w).0 ≡ done (version, false))

  -- The storage held no file for the client.
  abbrev pub HasNoFile : Bytes → Type 0
  HasNoFile client =
      (w : W) × (version : Bytes) × ((stat_client c client w).0 ≡ done (version, false))

  abbrev pub IsTableIfAny : Option (DefaultRuleset Net) → Type 0
  IsTableIfAny none = IsAbsent
  IsTableIfAny (some d) = IsTable d

  abbrev pub IsDefault : Option (CachedDefault Net) → Type 0
  IsDefault none = Unit
  IsDefault (some d) = IsTableIfAny d.table

  -- What the table answers the client with, or nothing where there is no table.
  abbrev pub IsFound : Bytes → Option (RuleSet Net) → Type 0
  IsFound client none = IsAbsent
  IsFound client (some rs) =
      (d : DefaultRuleset Net) × IsTable d × (lookup_addr d client ≡ some (some rs))

  -- The egress list of the client's file, or else that of the table's answer.
  abbrev pub IsEgress : Bytes → Option (List EgressRule) → List (CompiledEgress Net) → Type 0
  IsEgress client none egress =
      (found : Option (RuleSet Net)) × IsFound client found × (egress ≡ egress_or_nil found)
  IsEgress client (some own) egress =
      compile_egress c.lib.parse_prefix c.lib.prefix_contains c.lib.regexp_compile own ≡ some egress

  -- The file is what `Load` gave for the client, which is an empty one where the storage held none.
  abbrev pub IsStored : Bytes → RuleFile → Type 0
  IsStored client rf =
      (w : W) × (old : RuleFile) × ((load c.storage c.lib.addr_text c.sha1_hex c.lib.unmarshal_rule
          client w).0
        ≡ done old)
      × IsMinted old rf

  -- The rules are compiled from the client's file with this hash.
  abbrev pub IsCompiled : Bytes → Bytes → RuleSet Net → Type 0
  IsCompiled client hash rs =
      (rf : RuleFile) × (rules : List CompiledRule) × (egress : List (CompiledEgress Net))
      × (auth : Option CompiledAuth) × IsStored client rf
      × HasHash c.lib rf hash
      × (compile_auth c.lib.crypto rf.auth ≡ done auth)
      × (compile c.lib.regexp_compile c.lib.canonical_key c.lib.params_hash rf ≡ done rules)
      × IsEgress client rf.egress egress
      × (rs ≡ new_rule_set rules egress rf.uuid auth)

  abbrev pub IsRules : Bytes → Bytes → Option (RuleSet Net) → Type 0
  IsRules client hash none = ⊥
  IsRules client hash (some rs) = IsCompiled client hash rs

  abbrev pub IsEntry : Bytes → CachedRuleSet Net → Type 0
  IsEntry client e =
      (e.exists ≡ true → IsRules client e.content_hash e.rule_set)
      × (e.exists ≡ false → HasNoFile client)

  abbrev pub IsKnown : Bytes → Option (CachedRuleSet Net) → Type 0
  IsKnown client none = Unit
  IsKnown client (some e) = IsEntry client e

  abbrev pub AreEntries : List (Bytes × CachedRuleSet Net) → Type 0
  AreEntries [] = Unit
  AreEntries ((k, e) ∷ more) = IsEntry k e × AreEntries more

  -- The caches hold nothing but what has compiled, each client's rules from its own file.
  abbrev pub IsSound : Engine W Net → Type 0
  IsSound s = AreEntries s.cache × IsDefault s.default_cache

  -- The rules of the client's file; or, without such a file, the table's answer, or no rules without a
  -- table either.
  abbrev pub IsServed : Bytes → Option (RuleSet Net) → Type 0
  IsServed client none = ⊥
  IsServed client (some rs) =
      ((hash : Bytes) × IsCompiled client hash rs)
      ⊎ (HasNoFile client × (IsFound client (some rs) ⊎ (IsAbsent × (rs ≡ empty_rule_set))))

  -- The state is sound whatever the result is, and a value has the property.
  abbrev pub Ends : {A : Type 0} → (A → Type 0) → Outcome A × Engine W Net → Type 0
  Ends Q (failed e, s) = IsSound s
  Ends Q (done a, s) = IsSound s × Q a

  pub Ends-then :
      {A B : Type 0} (Q : A → Type 0) (R : B → Type 0) (x : Outcome A × Engine W Net)
      (f : A → Run (Engine W Net) B)
      → Ends Q x
      → ((a : A) (s : Engine W Net) → IsSound s → Q a → Ends R (f a s))
      → Ends R (and_then x f)
  Ends-then Q R (failed e, s) f h k = h
  Ends-then Q R (done a, s) f h k = k a s h.0 h.1

  pub Ends-lift :
      {A B : Type 0} (R : B → Type 0) (s : Engine W Net) (o : Outcome A)
      (f : A → Run (Engine W Net) B)
      → IsSound s
      → ((a : A) → o ≡ done a → Ends R (f a s))
      → Ends R (and_then (o, s) f)
  Ends-lift R s (failed e) f h k = h
  Ends-lift R s (done a) f h k = k a refl

  pub find_client-IsKnown :
      (client : Bytes) (cache : List (Bytes × CachedRuleSet Net))
      → AreEntries cache
      → IsKnown client (find_client client cache)
  unfolding find_client
  find_client-IsKnown client [] h = tt
  find_client-IsKnown client ((k, e) ∷ more) h = elim (Bool-cases (same k client)) [
    | inl y ↦ rw (y, find_client) (subst (λ k. IsEntry k e) (same→eq k client y) h.0)
    | inr n ↦ rw (n, find_client) (find_client-IsKnown client more h.1)
  ]
