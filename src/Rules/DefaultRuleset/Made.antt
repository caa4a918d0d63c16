-- ===== src/Rules/DefaultRuleset/Made.antt =====
-- `compileParsedEntries` of internal/rules/defaultruleset.go: the buckets of a table, from its entries.
use mathlib.Core.Path.{subst}
use mitmania.Prelude.{
  ◌≡◌, refl, Bool, true, false, Option, some, List, [], ◌∷◌, ◌⊎◌, inl, inr, In, sym, ap,
}
use mitmania.Rules.Outcome.{Outcome, done, done_injective, bind_done}
use mitmania.Rules.Coverage.{Coverage, full, no_entries, gap, check_coverage}
use mitmania.Rules.DefaultRuleset.{
  CompiledBucket, DefaultRuleset, Collected, CachedHttpPolicy, ParsedEntry, Libraries,
  sort_by_mask_descending, collect_as, collect, if_covered, finish,
}
use mitmania.Rules.DefaultRuleset.Hits.{In-sort, sort-In}
use mitmania.Rules.DefaultRuleset.Policies.{InTable, AreMade, IsOf, IsCache}
use mitmania.Rules.DefaultRuleset.Reused.{compile_bucket-IsOf}
use mitmania.Rules.DefaultLoad.{compile_bucket, collect_entries, compile_parsed_entries}

module _ {Addr Net : Type 0} (lib : Libraries Addr Net) where
  -- The buckets that are collected are the entries', and each entry has one.
  abbrev Matches : List ParsedEntry → List (CompiledBucket Net) → List (CompiledBucket Net) → Type 0
  Matches es v4 v6 =
      ((b : CompiledBucket Net) → In b v4 ⊎ In b v6 → (e : ParsedEntry) × In e es × IsOf lib e b)
      × ((e : ParsedEntry)
          → In e es
          → (b : CompiledBucket Net) × (In b v4 ⊎ In b v6) × IsOf lib e b)

  later :
      (e : ParsedEntry) (es : List ParsedEntry) (b : CompiledBucket Net)
      → (f : ParsedEntry) × In f es × IsOf lib f b
      → (f : ParsedEntry) × In f (e ∷ es) × IsOf lib f b
  later e es b (f, i, o) = (f, inr i, o)

  collect_as-Matches :
      (v4 : Bool) (e : ParsedEntry) (es : List ParsedEntry) (b : CompiledBucket Net)
      (all : Collected Net)
      → IsOf lib e b
      → Matches es all.v4 all.v6
      → Matches (e ∷ es) (collect_as v4 b all).v4 (collect_as v4 b all).v6
  collect_as-Matches true e es b all o (back, forth) = (
    λ c i. elim i [
      | inl j ↦ elim j [
        | inl here ↦ (e, inl refl, subst (IsOf lib e) (sym here) o)
        | inr k ↦ later e es c (back c (inl k))
      ]
      | inr j ↦ later e es c (back c (inr j))
    ],
    λ f i. elim i [
      | inl here ↦ (b, inl (inl refl), subst (λ g. IsOf lib g b) (sym here) o)
      | inr k ↦ let (c, j, m) = forth f k in (c, elim j [ inl x ↦ inl (inr x) | inr y ↦ inr y ], m)
    ],
  )
  collect_as-Matches false e es b all o (back, forth) = (
    λ c i. elim i [
      | inr j ↦ elim j [
        | inl here ↦ (e, inl refl, subst (IsOf lib e) (sym here) o)
        | inr k ↦ later e es c (back c (inr k))
      ]
      | inl j ↦ later e es c (back c (inl j))
    ],
    λ f i. elim i [
      | inl here ↦ (b, inr (inl refl), subst (λ g. IsOf lib g b) (sym here) o)
      | inr k ↦ let (c, j, m) = forth f k in (c, elim j [ inl x ↦ inl x | inr y ↦ inr (inr y) ], m)
    ],
  )

  collect_entries-Matches :
      (prev : Option (DefaultRuleset Net)) (es : List ParsedEntry) (ps : List CachedHttpPolicy)
      (all : Collected Net)
      → AreMade lib prev
      → IsCache lib ps
      → collect_entries lib prev ps es ≡ done all
      → Matches es all.v4 all.v6
  unfolding collect_entries
  collect_entries-Matches prev [] ps all k cache h =
      subst (λ a. Matches [] a.v4 a.v6) (done_injective _ all h)
        (λ b i. elim i [ inl j ↦ elim j [ ] | inr j ↦ elim j [ ] ], λ e i. elim i [ ])
  collect_entries-Matches prev (e ∷ es) ps all k cache h =
      let ((b, ps2), f, h1) = bind_done (compile_bucket lib prev ps e) _ all h in
      let (rest, g, h2) = bind_done (collect_entries lib prev ps2 es) _ all h1 in
      let (o, cache2) = compile_bucket-IsOf lib prev ps e (b, ps2) k cache f in
      subst (λ a. Matches (e ∷ es) a.v4 a.v6) (done_injective (collect b rest) all h2)
        (collect_as-Matches b.key.is4 e es b rest o
          (collect_entries-Matches prev es ps2 rest k cache2 g))

  covered_next :
      (v4 : Bool) (c : Coverage) (d : DefaultRuleset Net) {next : Outcome (DefaultRuleset Net)}
      → if_covered v4 c next ≡ done d
      → next ≡ done d
  covered_next v4 full d h = h
  covered_next v4 no_entries d h = cc h
  covered_next v4 (gap lo hi) d h = cc h

  finish-sorted :
      (all : Collected Net) (d : DefaultRuleset Net)
      → finish all ≡ done d
      → (d.v4 ≡ sort_by_mask_descending all.v4) × (d.v6 ≡ sort_by_mask_descending all.v6)
  unfolding finish
  finish-sorted all d h =
      let h4 = covered_next true (check_coverage all.v4_prefixes 32) d h in
      let h6 = covered_next false (check_coverage all.v6_prefixes 128) d h4 in
      let e = sym (done_injective _ d h6) in (ap DefaultRuleset.v4 e, ap DefaultRuleset.v6 e)

  -- The table's buckets are the entries', and each entry has one.
  abbrev pub IsFrom : List ParsedEntry → DefaultRuleset Net → Type 0
  IsFrom es d =
      ((b : CompiledBucket Net) → InTable lib b d → (e : ParsedEntry) × In e es × IsOf lib e b)
      × ((e : ParsedEntry) → In e es → (b : CompiledBucket Net) × InTable lib b d × IsOf lib e b)

  -- If each bucket of the previous table, where there is one, is made from a rule file with the
  -- bucket's content hash, then a table that compiles has for each entry a bucket with the entry's
  -- key and label and the hash of the entry's rule file, and has no other buckets; and each of its
  -- buckets too is made from a rule file with the bucket's content hash. Made means that the
  -- authentication, the egress list and the uuid are the file's own, and the rules are those of an
  -- http list with the same JSON as the file's.
  pub compile_parsed_entries-IsFrom :
      (prev : Option (DefaultRuleset Net)) (es : List ParsedEntry) (d : DefaultRuleset Net)
      → AreMade lib prev
      → compile_parsed_entries lib prev es ≡ done d
      → IsFrom es d
  unfolding compile_parsed_entries
  compile_parsed_entries-IsFrom prev es d k h =
      let (all, f, h1) = bind_done (collect_entries lib prev [] es) _ d h in
      let (back, forth) = collect_entries-Matches prev es [] all k (λ p i. elim i [ ]) f in
      let (e4, e6) = finish-sorted all d h1 in
      (
        λ b i. back b (elim i [
          | inl j ↦ inl (In-sort b all.v4 (subst (In b) e4 j))
          | inr j ↦ inr (In-sort b all.v6 (subst (In b) e6 j))
        ]),
        λ e i.
            let (b, j, o) = forth e i in
            (
              b,
              elim j [
                | inl x ↦ inl (subst (In b) (sym e4) (sort-In b all.v4 x))
                | inr y ↦ inr (subst (In b) (sym e6) (sort-In b all.v6 y))
              ],
              o,
            ),
      )

  pub IsFrom-AreMade :
      (es : List ParsedEntry) (d : DefaultRuleset Net) → IsFrom es d → AreMade lib (some d)
  IsFrom-AreMade es d (back, forth) b i = let (e, j, (key, label, hash, made)) = back b i in made
