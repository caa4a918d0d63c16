-- ===== src/Rules/Engine/Loaded.antt =====
-- internal/rules/engine.go: the load of the default table keeps the caches sound.
use mathlib.Core.Path.{subst}
use mitmania.Prelude.{
  ◌≡◌, refl, Bool, true, Option, none, some, List, [], ◌∷◌, if◌then◌else◌, inl, inr, Bytes,
  Bool-cases, sym, ap, ◌∙◌,
}
use mitmania.Rules.Pattern.Glob.{is_empty}
use mitmania.Rules.MaskedKey.Parsed.{IsAddress, IsKey}
use mitmania.Rules.DefaultRuleset.{DefaultRuleset, ParsedEntry}
use mitmania.Rules.DefaultLoad.{parse_default_ruleset, marshal_canonical, compile_parsed_entries}
use mitmania.Rules.DefaultRuleset.Answers.{
  Keys, parse_default_ruleset-IsKey, compile_parsed_entries-Answers,
}
use mitmania.Rules.DefaultRuleset.Policies.{AreMade}
use mitmania.Rules.DefaultRuleset.Made.{compile_parsed_entries-IsFrom, IsFrom-AreMade}
use mitmania.Rules.Store.{load_raw_default, save_default}
use mitmania.Rules.Outcome.{done}
use mitmania.Rules.Caches.{CachedDefault, Engine, Setup, give, succeeded, text_or_nil, ruleset_of}
use mitmania.Rules.TableCache.{store_default, mint_all, save_table, load_default, lacks_uuid}
use mitmania.Rules.Engine.Sound.{
  AreMinted, AreStored, IsTable, IsTableIfAny, IsDefault, IsSound, Ends, Ends-then, Ends-lift,
}

module _ {W Addr Net : Type 0} (c : Setup W Addr Net)
    (parsed : (s a : Bytes) → c.lib.parse_addr s ≡ some a → IsAddress a) where
  pub store_default-Ends :
      (version : Bytes) (exists : Bool) (t : Option (DefaultRuleset Net)) (s : Engine W Net)
      → IsSound c parsed s
      → IsTableIfAny c parsed t
      → Ends c parsed (IsTableIfAny c parsed) (store_default c version exists t s)
  store_default-Ends version exists t s i h = ((i.0, h), h)

  minted-Keys :
      (es fs : List ParsedEntry)
      → AreMinted c parsed es fs
      → Keys c.lib parsed es
      → Keys c.lib parsed fs
  minted-Keys [] [] m keys f i = elim i [ ]
  minted-Keys [] (f ∷ fs) m keys g i = elim m [ ]
  minted-Keys (e ∷ es) [] m keys g i = elim m [ ]
  minted-Keys (e ∷ es) (f ∷ fs) (k, r, m) keys g i = elim i [
    | inl here ↦ subst IsKey (sym (ap ParsedEntry.key here ∙ k)) (keys e (inl refl))
    | inr there ↦ minted-Keys es fs m (λ h j. keys h (inr j)) g there
  ]

  mint_all-Ends :
      (es : List ParsedEntry) (s : Engine W Net)
      → IsSound c parsed s
      → Ends c parsed (AreMinted c parsed es) (mint_all c es s)
  unfolding mint_all
  mint_all-Ends [] s i = (i, tt)
  mint_all-Ends (e ∷ es) s i = elim (Bool-cases (is_empty e.rule.uuid)) [
    | inl y ↦
        rw (y, mint_all)
          (Ends-then c parsed (AreMinted c parsed es) (AreMinted c parsed (e ∷ es))
            (mint_all c es _) _ (mint_all-Ends es _ i)
            λ rest s i m. (i, (refl, inr (y, (_, refl)), m)))
    | inr n ↦
        rw (n, mint_all)
          (Ends-then c parsed (AreMinted c parsed es) (AreMinted c parsed (e ∷ es))
            (mint_all c es s) _ (mint_all-Ends es s i) λ rest s i m. (i, (refl, inl (n, refl), m)))
  ]

  save_table-Ends :
      (es : List ParsedEntry) (old : Bytes × Bool) (o : Option Bytes) (s : Engine W Net)
      → IsSound c parsed s
      → Ends c parsed (λ v. Unit) (save_table c es old o s)
  save_table-Ends es old none s i = (i, tt)
  save_table-Ends es old (some text) s i =
      let saved =
        save_default c.storage c.lib.addr_text c.sha1_hex c.lib.unmarshal_rule text s.world in
      elim (Bool-cases (succeeded saved.0)) [ inl e ↦ rw e (i, tt) | inr e ↦ rw e (i, tt) ]

  save_if :
      (es entries : List ParsedEntry) (version : Bytes) (s : Engine W Net)
      → IsSound c parsed s
      → Ends c parsed
          (λ v. Unit)
          ((if lacks_uuid es
              then save_table c entries (version, true) (marshal_canonical c.lib entries)
              else give (version, true))
            s)
  save_if es entries version s i = elim (Bool-cases (lacks_uuid es)) [
    | inl e ↦ rw e (save_table-Ends entries (version, true) (marshal_canonical c.lib entries) s i)
    | inr e ↦ rw e (i, tt)
  ]

  table_before : (o : Option (DefaultRuleset Net)) → IsTableIfAny c parsed o → AreMade c.lib o
  table_before none h = tt
  table_before (some d) ((es, stored, from), answers) = IsFrom-AreMade c.lib es d from

  made_before :
      (o : Option (CachedDefault Net)) → IsDefault c parsed o → AreMade c.lib (ruleset_of o)
  made_before none h = tt
  made_before (some d) h = table_before d.table h

  compiled-IsTable :
      (prev : Option (DefaultRuleset Net)) (es : List ParsedEntry) (d : DefaultRuleset Net)
      → AreMade c.lib prev
      → AreStored c parsed es
      → Keys c.lib parsed es
      → compile_parsed_entries c.lib prev es ≡ done d
      → IsTable c parsed d
  compiled-IsTable prev es d t stored keys g = (
    (es, stored, compile_parsed_entries-IsFrom c.lib prev es d t g),
    compile_parsed_entries-Answers c.lib parsed prev es d keys g,
  )

  pub load_default-Ends :
      (cached : Option (CachedDefault Net)) (version : Bytes) (s : Engine W Net)
      → IsSound c parsed s
      → IsDefault c parsed cached
      → Ends c parsed (IsTableIfAny c parsed) (load_default c cached version s)
  unfolding load_default
  load_default-Ends cached version s i t =
      Ends-lift c parsed (IsTableIfAny c parsed) _
        (load_raw_default c.storage c.lib.addr_text c.sha1_hex c.lib.unmarshal_rule s.world).0 _ i
        λ raw e.
          Ends-lift c parsed (IsTableIfAny c parsed) _
            (parse_default_ruleset c.lib (text_or_nil raw)) _ i
            λ es f.
              Ends-then c parsed (AreMinted c parsed es) (IsTableIfAny c parsed) (mint_all c es _) _
                (mint_all-Ends es _ i)
                λ minted s2 i2 m.
                  Ends-then c parsed (λ v. Unit) (IsTableIfAny c parsed) _ _
                    (save_if es minted version s2 i2)
                    λ v s3 i3 u.
                      Ends-lift c parsed (IsTableIfAny c parsed) s3
                        (compile_parsed_entries c.lib (ruleset_of cached) minted) _ i3
                        λ d g. store_default-Ends v.0 v.1 (some d) s3 i3 (
                          compiled-IsTable (ruleset_of cached) minted d (made_before cached t)
                            (s.world, raw, es, e, f, m)
                            (minted-Keys es minted m
                              (parse_default_ruleset-IsKey c.lib parsed (text_or_nil raw) es f))
                            g)
