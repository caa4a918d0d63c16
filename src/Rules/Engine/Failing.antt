-- ===== src/Rules/Engine/Failing.antt =====
-- internal/rules/engine.go: what a load that fails leaves in the caches.
use mitmania.Prelude.{
  ℕ, ltb, ◌≡◌, refl, Bool, true, not, Option, none, some, List, [], ◌∷◌, ◌&&◌, if◌then◌else◌, inl,
  inr, Bytes, Bool-cases,
}
use mitmania.Rules.Pattern.Glob.{is_empty}
use mitmania.Rules.Compile.{given}
use mitmania.Rules.DefaultRuleset.{ParsedEntry}
use mitmania.Rules.DefaultLoad.{parse_default_ruleset, marshal_canonical, compile_parsed_entries}
use mitmania.Rules.Store.{load_raw_default, save_default}
use mitmania.Rules.Outcome.{Outcome, done, failed}
use mitmania.Rules.Caches.{
  CachedDefault, Engine, Setup, Run, and_then, give, succeeded, text_or_nil, ruleset_of,
  unchanged_default,
}
use mitmania.Rules.TableCache.{
  fresh, fresh_default, mint_all, save_table, load_default, default_answer, lookup_default_table,
  lacks_uuid, stat_table,
}

module _ {W Addr Net : Type 0} (c : Setup W Addr Net) where
  -- The caches are those of the state before.
  abbrev pub IsSame : Engine W Net → Engine W Net → Type 0
  IsSame old s = (s.cache ≡ old.cache) × (s.default_cache ≡ old.default_cache)

  -- A failure leaves the caches as they were.
  abbrev pub KeepsOnFailure : {A : Type 0} → Engine W Net → Outcome A × Engine W Net → Type 0
  KeepsOnFailure old (failed e, s) = IsSame old s
  KeepsOnFailure old (done a, s) = Unit

  KeepsOnFailure-then :
      {A B : Type 0} (old : Engine W Net) (x : Outcome A × Engine W Net)
      (f : A → Run (Engine W Net) B)
      → IsSame old x.1
      → ((a : A) (s : Engine W Net) → IsSame old s → KeepsOnFailure old (f a s))
      → KeepsOnFailure old (and_then x f)
  KeepsOnFailure-then old (failed e, s) f h k = h
  KeepsOnFailure-then old (done a, s) f h k = k a s h

  KeepsOnFailure-lift :
      {A B : Type 0} (old s : Engine W Net) (o : Outcome A) (f : A → Run (Engine W Net) B)
      → IsSame old s
      → ((a : A) → KeepsOnFailure old (f a s))
      → KeepsOnFailure old (and_then (o, s) f)
  KeepsOnFailure-lift old s (failed e) f h k = h
  KeepsOnFailure-lift old s (done a) f h k = k a

  fresh-IsSame :
      (old : Engine W Net) (at' : ℕ) (s : Engine W Net)
      → IsSame old s
      → IsSame old (fresh c at' s).1
  unfolding fresh
  fresh-IsSame old at' s h = elim (Bool-cases (ltb 0 c.cache_ttl)) [
    | inl e ↦ rw e h
    | inr e ↦ rw e h
  ]

  fresh_default-IsSame :
      (old : Engine W Net) (d : Option (CachedDefault Net)) (s : Engine W Net)
      → IsSame old s
      → IsSame old (fresh_default c d s).1
  fresh_default-IsSame old none s h = h
  fresh_default-IsSame old (some d) s h = fresh-IsSame old d.checked_at s h

  IsSame-then :
      {A B : Type 0} (old : Engine W Net) (x : Outcome A × Engine W Net)
      (f : A → Run (Engine W Net) B)
      → IsSame old x.1
      → ((a : A) (s : Engine W Net) → IsSame old s → IsSame old (f a s).1)
      → IsSame old (and_then x f).1
  IsSame-then old (failed e, s) f h k = h
  IsSame-then old (done a, s) f h k = k a s h

  mint_all-IsSame :
      (es : List ParsedEntry) (old s : Engine W Net) → IsSame old s → IsSame old (mint_all c es s).1
  unfolding mint_all
  mint_all-IsSame [] old s h = h
  mint_all-IsSame (e ∷ es) old s h = elim (Bool-cases (is_empty e.rule.uuid)) [
    | inl y ↦
        rw (y, mint_all)
          (IsSame-then old (mint_all c es _) _ (mint_all-IsSame es old _ h) λ rest s k. k)
    | inr n ↦
        rw (n, mint_all)
          (IsSame-then old (mint_all c es s) _ (mint_all-IsSame es old s h) λ rest s k. k)
  ]

  save_table-IsSame :
      (es : List ParsedEntry) (v : Bytes × Bool) (o : Option Bytes) (old s : Engine W Net)
      → IsSame old s
      → IsSame old (save_table c es v o s).1
  save_table-IsSame es v none old s h = h
  save_table-IsSame es v (some text) old s h =
      let saved =
        save_default c.storage c.lib.addr_text c.sha1_hex c.lib.unmarshal_rule text s.world in
      elim (Bool-cases (succeeded saved.0)) [ inl e ↦ rw e h | inr e ↦ rw e h ]

  save_if-IsSame :
      (es entries : List ParsedEntry) (version : Bytes) (old s : Engine W Net)
      → IsSame old s
      → IsSame old
          ((if lacks_uuid es
              then save_table c entries (version, true) (marshal_canonical c.lib entries)
              else give (version, true))
            s).1
  save_if-IsSame es entries version old s h = elim (Bool-cases (lacks_uuid es)) [
    | inl e ↦
        rw e (save_table-IsSame entries (version, true) (marshal_canonical c.lib entries) old s h)
    | inr e ↦ rw e h
  ]

  load_default-keeps :
      (cached : Option (CachedDefault Net)) (version : Bytes) (old s : Engine W Net)
      → IsSame old s
      → KeepsOnFailure old (load_default c cached version s)
  unfolding load_default
  load_default-keeps cached version old s h =
      KeepsOnFailure-lift old _
        (load_raw_default c.storage c.lib.addr_text c.sha1_hex c.lib.unmarshal_rule s.world).0 _ h
        λ raw. KeepsOnFailure-lift old _ (parse_default_ruleset c.lib (text_or_nil raw)) _ h λ es.
          KeepsOnFailure-then old (mint_all c es _) _ (mint_all-IsSame es old _ h) λ entries s h.
            KeepsOnFailure-then old
              ((if lacks_uuid es
                  then save_table c entries (version, true) (marshal_canonical c.lib entries)
                  else give (version, true))
                s)
              _ (save_if-IsSame es entries version old s h)
              λ v s h.
                KeepsOnFailure-lift old s (compile_parsed_entries c.lib (ruleset_of cached) entries)
                  _ h λ d. tt

  default_answer-keeps :
      (cached : Option (CachedDefault Net)) (r : Outcome (Bytes × Bool)) (old s : Engine W Net)
      → IsSame old s
      → KeepsOnFailure old (default_answer c cached r s)
  default_answer-keeps cached (failed e) old s h =
      elim (Bool-cases (ltb 0 c.cache_ttl && given cached)) [ inl y ↦ rw y tt | inr n ↦ rw n h ]
  default_answer-keeps cached (done (version, exists)) old s h =
      elim (Bool-cases (unchanged_default cached version exists)) [
        | inl y ↦ rw y tt
        | inr n ↦ rw n elim (Bool-cases (not exists)) [
          | inl y ↦ rw y tt
          | inr n ↦ rw n (load_default-keeps cached version old s h)
        ]
      ]

  -- If the default table cannot be looked up, parsed or compiled, both caches stay as they were.
  pub lookup_default_table-keeps : (s : Engine W Net) → KeepsOnFailure s (lookup_default_table c s)
  unfolding lookup_default_table
  lookup_default_table-keeps s =
      KeepsOnFailure-then s (fresh_default c s.default_cache s) _
        (fresh_default-IsSame s s.default_cache s (refl, refl))
        λ b s2 h. elim (Bool-cases b) [
          | inl y ↦ rw y tt
          | inr n ↦ rw n (default_answer-keeps s.default_cache (stat_table c s2.world).0 s _ h)
        ]
