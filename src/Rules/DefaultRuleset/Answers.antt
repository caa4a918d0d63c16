-- ===== src/Rules/DefaultRuleset/Answers.antt =====
-- internal/rules/defaultruleset.go: the keys of a table, from its text to its buckets, and the answer
-- to a client's address.
use mathlib.Core.Path.{subst}
use mitmania.Prelude.{
  ◌≡◌, refl, Option, some, List, [], ◌∷◌, Bytes, same, inl, inr, Bool-cases, In, sym, ap,
}
use mitmania.Rules.MaskedKey.{parse_masked_key}
use mitmania.Rules.MaskedKey.Parsed.{IsAddress, IsKey, parse_masked_key-IsKey}
use mitmania.Rules.Outcome.{
  done, done_injective, bind_done, or_fail_done, labelled_done, or_fail, labelled, bad_json,
  bad_key,
}
use mitmania.Rules.DefaultRuleset.Complete.{Answers, finish-Hit}
use mitmania.Rules.DefaultRuleset.Families.{Sound, collect-Sound}
use mitmania.Rules.DefaultRuleset.{
  CompiledBucket, DefaultRuleset, Collected, lookup_addr, collect, bucket_by_label, ParsedEntry,
  Libraries, CachedHttpPolicy,
}
use mitmania.Rules.DefaultLoad.{
  rules_for, reusable, key_label, put_entry, parsed_entry, parse_entries, parse_default_ruleset,
  compile_bucket, collect_entries, compile_parsed_entries,
}

module _ {Addr Net : Type 0} (lib : Libraries Addr Net)
    (parsed : (s a : Bytes) → lib.parse_addr s ≡ some a → IsAddress a) where
  -- Every key is one that the text of a table can have.
  abbrev pub Keys : List ParsedEntry → Type 0
  Keys es = (e : ParsedEntry) → In e es → IsKey e.key

  put_entry-Keys :
      (e : ParsedEntry) (es : List ParsedEntry) → IsKey e.key → Keys es → Keys (put_entry lib e es)
  unfolding put_entry
  put_entry-Keys e [] k keys f i = elim i [ inl y ↦ rw y k | inr n ↦ elim n [ ] ]
  put_entry-Keys e (g ∷ es) k keys f i =
      elim (Bool-cases (same (key_label lib g.key) (key_label lib e.key))) [
        | inl y ↦ elim (rw (y, put_entry) at i) [
          | inl here ↦ rw here k
          | inr there ↦ keys f (inr there)
        ]
        | inr n ↦ elim (rw (n, put_entry) at i) [
          | inl here ↦ keys f (inl here)
          | inr there ↦ put_entry-Keys e es k (λ f i. keys f (inr i)) f there
        ]
      ]

  parsed_entry-IsKey :
      (m : Bytes × Bytes) (e : ParsedEntry) → parsed_entry lib m ≡ done e → IsKey e.key
  parsed_entry-IsKey (text, raw) e h =
      let (k, f, h1) =
        bind_done
          (or_fail (parse_masked_key lib.parse_addr lib.addr_text lib.number_text text)
            (bad_key text))
          _ e h in
      let (r, g, h2) = bind_done (labelled text (or_fail (lib.decode_rule raw) bad_json)) _ e h1 in
      let y = done_injective (record { key = k; rule = r }) e h2 in
      subst (λ e. IsKey e.key) y
        (parse_masked_key-IsKey lib.parse_addr lib.addr_text lib.number_text parsed text k
          (or_fail_done _ (bad_key text) k f))

  parse_entries-Keys :
      (raw : List (Bytes × Bytes)) (es out : List ParsedEntry)
      → Keys es
      → parse_entries lib es raw ≡ done out
      → Keys out
  unfolding parse_entries
  parse_entries-Keys [] es out keys h = subst Keys (done_injective es out h) keys
  parse_entries-Keys (m ∷ raw) es out keys h =
      let (e, f, h1) = bind_done (parsed_entry lib m) _ out h in
      parse_entries-Keys raw (put_entry lib e es) out
        (put_entry-Keys e es (parsed_entry-IsKey m e f) keys) h1

  pub parse_default_ruleset-IsKey :
      (text : Bytes) (out : List ParsedEntry) → parse_default_ruleset lib text ≡ done out → Keys out
  unfolding parse_default_ruleset
  parse_default_ruleset-IsKey text out h =
      let (raw, f, h1) = bind_done (or_fail (lib.members text) bad_json) _ out h in
      parse_entries-Keys raw [] out (λ e i. elim i [ ]) h1

  -- A bucket has the key of its entry.
  compile_bucket-key :
      (prev : Option (DefaultRuleset Net)) (ps : List CachedHttpPolicy) (e : ParsedEntry)
      (out : CompiledBucket Net × List CachedHttpPolicy)
      → compile_bucket lib prev ps e ≡ done out
      → out.0.key ≡ e.key
  unfolding compile_bucket
  compile_bucket-key prev ps e out h =
      let (json, f, h1) =
        bind_done (or_fail (lib.marshal_rule e.rule) bad_json) _ out
          (labelled_done (key_label lib e.key) _ out h) in
      let ((rules, ps2), g, h2) =
        bind_done
          (rules_for lib
            (reusable lib (bucket_by_label prev (key_label lib e.key)) (lib.crypto.sha256 json)) ps
            e.rule)
          _ out h1 in
      sym (ap (λ o. o.0.key) (done_injective _ out h2))

  collect_entries-Sound :
      (prev : Option (DefaultRuleset Net)) (es : List ParsedEntry) (ps : List CachedHttpPolicy)
      (all : Collected Net)
      → Keys es
      → collect_entries lib prev ps es ≡ done all
      → Sound all
  unfolding collect_entries
  collect_entries-Sound prev [] ps all keys h =
      subst Sound (done_injective _ all h)
        ((λ b i. elim i [ ], λ p i. elim i [ ]), (λ b i. elim i [ ], λ p i. elim i [ ]))
  collect_entries-Sound prev (e ∷ es) ps all keys h =
      let ((b, ps2), f, h1) = bind_done (compile_bucket lib prev ps e) _ all h in
      let (rest, g, h2) = bind_done (collect_entries lib prev ps2 es) _ all h1 in
      let k = compile_bucket-key prev ps e (b, ps2) f in
      subst Sound (done_injective (collect b rest) all h2) (
        collect-Sound b rest (subst IsKey (sym k) (keys e (inl refl)))
          (collect_entries-Sound prev es ps2 rest (λ e i. keys e (inr i)) g))

  pub compile_parsed_entries-Answers :
      (prev : Option (DefaultRuleset Net)) (es : List ParsedEntry) (d : DefaultRuleset Net)
      → Keys es
      → compile_parsed_entries lib prev es ≡ done d
      → (ab : Bytes) → IsAddress ab
      → Answers d ab
  unfolding compile_parsed_entries lookup_addr
  compile_parsed_entries-Answers prev es d keys h ab a =
      let (all, f, h1) = bind_done (collect_entries lib prev [] es) _ d h in
      finish-Hit all d (collect_entries-Sound prev es [] all keys f) h1 ab a

  -- If netip's parser gives addresses of 4 or 16 bytes, a default rule set that parses and
  -- compiles answers every address without a panic, with the rules of a bucket of the address's
  -- family that holds it and that no bucket which holds it exceeds in its mask.
  pub lookup_addr-Answered :
      (text : Bytes) (prev : Option (DefaultRuleset Net)) (es : List ParsedEntry)
      (d : DefaultRuleset Net) (ab : Bytes)
      → parse_default_ruleset lib text ≡ done es
      → compile_parsed_entries lib prev es ≡ done d
      → IsAddress ab
      → Answers d ab
  lookup_addr-Answered text prev es d ab h k a =
      compile_parsed_entries-Answers prev es d (parse_default_ruleset-IsKey text es h) k ab a
