-- ===== src/Rules/DefaultRuleset/Labelled.antt =====
-- `parseDefaultRuleset` of internal/rules/defaultruleset.go: one entry under each label.
use mathlib.Core.Path.{subst}
use mitmania.Prelude.{
  ◌≡◌, refl, false, Option, none, some, List, [], ◌∷◌, if◌then◌else◌, Bytes, same, same→eq,
  same_refl, same_swapped, inl, inr, Bool-cases, Option-cases, ◌∙◌,
}
use mitmania.Rules.Outcome.{Outcome, done, failed, done_injective, bind_done, ◌>>=◌}
use mitmania.Rules.DefaultRuleset.{ParsedEntry, Libraries}
use mitmania.Rules.DefaultLoad.{
  key_label, put_entry, parsed_entry, parse_entries, parse_default_ruleset,
}

module _ {Addr Net : Type 0} (lib : Libraries Addr Net) where
  abbrev if_labelled : Bytes → ParsedEntry → Option ParsedEntry → Option ParsedEntry
  if_labelled label e rest = if same (key_label lib e.key) label then some e else rest

  -- The entry under the label.
  unfoldable pub find_entry : Bytes → List ParsedEntry → Option ParsedEntry
  find_entry label [] = none
  find_entry label (e ∷ es) = if_labelled label e (find_entry label es)

  abbrev if_parsed : Bytes → Outcome ParsedEntry → Option ParsedEntry
  if_parsed label (failed r) = none
  if_parsed label (done e) = if_labelled label e none

  -- The last member of the object with the label, for any member with that address and mask.
  unfoldable pub last_member : Bytes → List (Bytes × Bytes) → Option ParsedEntry
  last_member label [] = none
  last_member label (m ∷ more) = elim (last_member label more) [
    | some e ↦ some e
    | none ↦ if_parsed label (parsed_entry lib m)
  ]

  -- No two entries have one label.
  abbrev pub IsDistinct : List ParsedEntry → Type 0
  IsDistinct [] = Unit
  IsDistinct (e ∷ es) = (find_entry (key_label lib e.key) es ≡ none) × IsDistinct es

  find_entry-put_entry :
      (label : Bytes) (e : ParsedEntry) (es : List ParsedEntry)
      → find_entry label (put_entry lib e es) ≡ if_labelled label e (find_entry label es)
  unfolding find_entry put_entry
  find_entry-put_entry label e [] = refl
  find_entry-put_entry label e (f ∷ fs) =
      elim (Bool-cases (same (key_label lib f.key) (key_label lib e.key))) [
        | inl y ↦
            let k = same→eq (key_label lib f.key) (key_label lib e.key) y in
            rw (y, put_entry, find_entry, k)
              elim (Bool-cases (same (key_label lib e.key) label)) [
                | inl h ↦ rw h refl
                | inr h ↦ rw h refl
              ]
        | inr n ↦
            rw (n, put_entry, find_entry, find_entry-put_entry label e fs)
              elim (Bool-cases (same (key_label lib f.key) label)) [
                | inr h ↦ rw h refl
                | inl h ↦ elim (Bool-cases (same (key_label lib e.key) label)) [
                  | inr k ↦ rw (h, k) refl
                  | inl k ↦
                      let one = same→eq (key_label lib f.key) label h in
                      let two = same→eq (key_label lib e.key) label k in
                      cc (
                        same_refl label,
                        subst (λ a. same a label ≡ false) one
                            (subst (λ b. same (key_label lib f.key) b ≡ false) two n),
                      )
                ]
              ]
      ]

  put_entry-IsDistinct :
      (e : ParsedEntry) (es : List ParsedEntry) → IsDistinct es → IsDistinct (put_entry lib e es)
  unfolding put_entry find_entry
  put_entry-IsDistinct e [] d = (refl, tt)
  put_entry-IsDistinct e (f ∷ fs) d =
      elim (Bool-cases (same (key_label lib f.key) (key_label lib e.key))) [
        | inl y ↦
            let k = same→eq (key_label lib f.key) (key_label lib e.key) y in
            rw (y, put_entry) (subst (λ label. find_entry label fs ≡ none) k d.0, d.1)
        | inr n ↦
            rw (n, put_entry)
              (
                find_entry-put_entry (key_label lib f.key) e fs
                    ∙ (rw (same_swapped (key_label lib f.key) (key_label lib e.key) n) d.0),
                put_entry-IsDistinct e fs d.1,
              )
      ]

  abbrev or_else : Option ParsedEntry → Option ParsedEntry → Option ParsedEntry
  or_else (some e) o = some e
  or_else none o = o

  or_none : (o : Option ParsedEntry) → or_else o none ≡ o
  or_none none = refl
  or_none (some e) = refl

  earlier :
      (label : Bytes) (m : Bytes × Bytes) (e : ParsedEntry) (raw : List (Bytes × Bytes))
      (es : List ParsedEntry)
      → parsed_entry lib m ≡ done e
      → or_else (last_member label raw) (if_labelled label e (find_entry label es))
        ≡ or_else (last_member label (m ∷ raw)) (find_entry label es)
  unfolding last_member
  earlier label m e raw es f = elim (Option-cases (last_member label raw)) [
    | inr (x, k) ↦ rw (k, last_member) refl
    | inl k ↦
        rw (k, f, last_member)
          elim (Bool-cases (same (key_label lib e.key) label)) [
            | inl y ↦ rw y refl
            | inr n ↦ rw n refl
          ]
  ]

  parse_entries-last :
      (raw : List (Bytes × Bytes)) (es out : List ParsedEntry)
      → IsDistinct es
      → parse_entries lib es raw ≡ done out
      → IsDistinct out
        × ((label : Bytes)
            → find_entry label out ≡ or_else (last_member label raw) (find_entry label es))
  unfolding parse_entries last_member
  parse_entries-last [] es out d h =
      subst (λ out. IsDistinct out × ((label : Bytes) → find_entry label out ≡ find_entry label es))
        (done_injective es out h) (d, λ label. refl)
  parse_entries-last (m ∷ raw) es out d h =
      let (e, f, h1) = bind_done (parsed_entry lib m) _ out h in
      let (dist, found) =
        parse_entries-last raw (put_entry lib e es) out (put_entry-IsDistinct e es d) h1 in
      (
        dist,
        λ label. found label ∙ (rw (find_entry-put_entry label e es) (earlier label m e raw es f)),
      )

  -- Of the members of a default rule set that parses, one entry is kept under each canonical
  -- label, and it is the last member with that label.
  pub parse_default_ruleset-last :
      (text : Bytes) (raw : List (Bytes × Bytes)) (out : List ParsedEntry)
      → lib.members text ≡ some raw
      → parse_default_ruleset lib text ≡ done out
      → IsDistinct out × ((label : Bytes) → find_entry label out ≡ last_member label raw)
  unfolding parse_default_ruleset find_entry last_member
  parse_default_ruleset-last text raw out m h =
      let (dist, found) = parse_entries-last raw [] out tt (rw (m, ◌>>=◌) at h) in
      (dist, λ label. found label ∙ or_none (last_member label raw))
