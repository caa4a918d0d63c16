-- ===== src/Rules/DefaultRuleset/Reused.antt =====
-- `compileParsedEntries` of internal/rules/defaultruleset.go: what a bucket is made from, reused or not.
use mathlib.Core.Path.{subst}
use mitmania.Prelude.{
  ◌≡◌, refl, Option, none, some, List, [], ◌∷◌, ◌++◌, inl, inr, Bytes, same, same→eq, Bool-cases,
  Option-cases, In, In-append, sym, ◌∙◌, some_injective,
}
use mitmania.Rules.Schema.{RuleFile}
use mitmania.Rules.RuleSet.{RuleSet}
use mitmania.Rules.Outcome.{
  done, done_injective, bind_done, or_fail_done, labelled_done, or_fail, bad_json,
}
use mitmania.Rules.DefaultRuleset.{
  CompiledBucket, DefaultRuleset, CachedHttpPolicy, ParsedEntry, Libraries, bucket_by_label,
  last_labelled,
}
use mitmania.Rules.DefaultRuleset.Policies.{
  HasHash, IsMadeFrom, IsMade, AreMade, IsOf, IsCache, fresh_rules-IsMadeFrom,
}
use mitmania.Rules.DefaultLoad.{key_label, reusable, rules_for, compile_bucket}

module _ {Addr Net : Type 0} (lib : Libraries Addr Net) where
  last_labelled-In :
      (label : Bytes) (bs : List (CompiledBucket Net)) (b : CompiledBucket Net)
      → last_labelled label bs ≡ some b
      → In b bs
  unfolding last_labelled
  last_labelled-In label [] b h = cc h
  last_labelled-In label (c ∷ bs) b h = elim (Option-cases (last_labelled label bs)) [
    | inr (d, e) ↦ inr (last_labelled-In label bs b (e ∙ rw (e, last_labelled) at h))
    | inl e ↦ elim (Bool-cases (same c.label label)) [
      | inl y ↦ inl (sym (some_injective c b (rw (e, y, last_labelled) at h)))
      | inr n ↦ cc (rw (e, n, last_labelled) at h)
    ]
  ]

  reusable-IsMade :
      (o : Option (CompiledBucket Net)) (hash : Bytes) (rs : RuleSet Net)
      → ((b : CompiledBucket Net) → o ≡ some b → IsMade lib b)
      → reusable lib o hash ≡ some rs
      → (rf : RuleFile) × HasHash lib rf hash × IsMadeFrom lib rf rs
  reusable-IsMade none hash rs k h = cc h
  reusable-IsMade (some b) hash rs k h = elim (Bool-cases (same b.content_hash hash)) [
    | inl y ↦
        let (rf, known, made) = k b refl in
        (
          rf,
          subst (HasHash lib rf) (same→eq b.content_hash hash y) known,
          subst (IsMadeFrom lib rf) (some_injective b.rules rs (rw y at h)) made,
        )
    | inr n ↦ cc (rw n at h)
  ]

  bucket_by_label-IsMade :
      (prev : Option (DefaultRuleset Net)) (label : Bytes) (b : CompiledBucket Net)
      → AreMade lib prev
      → bucket_by_label prev label ≡ some b
      → IsMade lib b
  unfolding bucket_by_label
  bucket_by_label-IsMade none label b k h = cc h
  bucket_by_label-IsMade (some d) label b k h =
      k b (In-append b d.v4 d.v6 (last_labelled-In label (d.v4 ++ d.v6) b h))

  rules_for-IsMade :
      (o : Option (RuleSet Net)) (ps : List CachedHttpPolicy) (rf : RuleFile) (hash : Bytes)
      (out : RuleSet Net × List CachedHttpPolicy)
      → IsCache lib ps
      → HasHash lib rf hash
      → ((rs : RuleSet Net)
          → o ≡ some rs
          → (old : RuleFile) × HasHash lib old hash × IsMadeFrom lib old rs)
      → rules_for lib o ps rf ≡ done out
      → ((made : RuleFile) × HasHash lib made hash × IsMadeFrom lib made out.0) × IsCache lib out.1
  unfolding rules_for
  rules_for-IsMade (some rs) ps rf hash out cache known k h =
      subst
        (λ x.
          ((made : RuleFile) × HasHash lib made hash × IsMadeFrom lib made x.0) × IsCache lib x.1)
        (done_injective (rs, ps) out h) (k rs refl, cache)
  rules_for-IsMade none ps rf hash out cache known k h =
      let (made, cache2) = fresh_rules-IsMadeFrom lib ps rf out cache h in
      ((rf, known, made), cache2)

  -- A bucket that compiles is its entry's, and leaves a cache of policies behind.
  pub compile_bucket-IsOf :
      (prev : Option (DefaultRuleset Net)) (ps : List CachedHttpPolicy) (e : ParsedEntry)
      (out : CompiledBucket Net × List CachedHttpPolicy)
      → AreMade lib prev
      → IsCache lib ps
      → compile_bucket lib prev ps e ≡ done out
      → IsOf lib e out.0 × IsCache lib out.1
  unfolding compile_bucket
  compile_bucket-IsOf prev ps e out k cache h =
      let label = key_label lib e.key in
      let (json, f, h1) =
        bind_done (or_fail (lib.marshal_rule e.rule) bad_json) _ out
          (labelled_done (key_label lib e.key) _ out h) in
      let known : HasHash lib e.rule (lib.crypto.sha256 json) =
        (json, or_fail_done (lib.marshal_rule e.rule) bad_json json f, refl) in
      let old = reusable lib (bucket_by_label prev label) (lib.crypto.sha256 json) in
      let ((rules, ps2), g, h2) = bind_done (rules_for lib old ps e.rule) _ out h1 in
      let (made, cache2) =
        rules_for-IsMade old ps e.rule (lib.crypto.sha256 json) (rules, ps2) cache known
          (λ rs r.
            reusable-IsMade (bucket_by_label prev label) (lib.crypto.sha256 json) rs
              (λ b i. bucket_by_label-IsMade prev label b k i) r)
          g in
      subst (λ o. IsOf lib e o.0 × IsCache lib o.1) (done_injective _ out h2)
        ((refl, refl, known, made), cache2)
