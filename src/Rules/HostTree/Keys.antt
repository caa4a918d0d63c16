-- ===== src/Rules/HostTree/Keys.antt =====
-- internal/rules/host_index.go: the texts that a rule is held under, beside what its matcher matches.
use mathlib.Core.Path.{subst}
use mitmania.Prelude.{
  ◌≡◌, refl, true, false, none, some, List, [], ◌∷◌, inl, inr, ◌||◌, Bytes, Bool-cases,
  Option-cases, In, to_lower,
}
use mitmania.Rules.Pattern.Glob.{is_empty, path_match}
use mitmania.Rules.Pattern.Glob.Literal.{path_match-plain, path_match-suffix}
use mitmania.Rules.Labels.{dot, IsHost, Covers, literal_suffix}
use mitmania.Rules.Labels.Suffix.{literal_suffix-Covers}
use mitmania.Rules.Labels.Hosts.{to_lower-Covers}
use mitmania.Rules.Pattern.{Matcher, matches}
use mitmania.Rules.Pattern.Compiled.{IsCompiled, any_suffix-Covers}
use mitmania.Rules.HostTree.{index_keys, is_some}

-- A glob with a literal suffix matches only texts that are the suffix or end in it at a dot.
pub glob-Covers :
    (glob s : Bytes)
    → is_empty (literal_suffix glob) ≡ false
    → path_match glob s ≡ true
    → IsHost (literal_suffix glob) × Covers (literal_suffix glob) s
glob-Covers glob s h m =
    let ((host, names), covers) = literal_suffix-Covers glob h in
    (
      host,
      elim covers [
        | inl e ↦ inl (
            path_match-plain (literal_suffix glob) s host.plain
              (subst (λ g. path_match g s ≡ true) e m))
        | inr (y, e) ↦ inr (
            path_match-suffix y dot (literal_suffix glob) s (refl, host.plain)
              (subst (λ g. path_match g s ≡ true) e m))
      ],
    )

abbrev Key : List Bytes → Bytes → Type 0
Key keys s = (q : Bytes) × In q keys × IsHost q × Covers q (to_lower s)

glob_matches :
    (m : Matcher) (s : Bytes)
    → m.suffixes ≡ none
    → (m.always || is_some m.re || is_some m.suffixes || is_empty m.glob) ≡ false
    → matches m s ≡ true
    → path_match m.glob s ≡ true
unfolding matches
glob_matches m s e f t = elim (Bool-cases m.always) [
  | inl a ↦ cc (rw a at f)
  | inr a ↦ elim (Option-cases m.re) [
    | inl r ↦ rw (a, e, r) at t
    | inr (regex, r) ↦ cc (rw (a, r) at f)
  ]
]

glob-Key :
    (m : Matcher) (keys : List Bytes) (s : Bytes)
    → m.suffixes ≡ none
    → index_keys m ≡ some keys
    → matches m s ≡ true
    → Key keys s
unfolding index_keys
glob-Key m keys s e k t =
    elim (Bool-cases (m.always || is_some m.re || is_some m.suffixes || is_empty m.glob)) [
      | inl f ↦ cc (rw (e, (rw e at f)) at k)
      | inr f ↦ elim (Bool-cases (is_empty (literal_suffix m.glob))) [
        | inl n ↦ cc (rw (e, (rw e at f), n) at k)
        | inr n ↦
            let held : literal_suffix m.glob ∷ [] ≡ keys = cc (rw (e, (rw e at f), n) at k) in
            let (host, covers) = glob-Covers m.glob s n (glob_matches m s e f t) in
            subst (λ ks. Key ks s) held
              (
                literal_suffix m.glob,
                inl refl,
                host,
                to_lower-Covers (literal_suffix m.glob) s host covers,
              )
      ]
    ]

-- Of a compiled matcher that is held under texts and matches a host, one of those texts is the
-- lower-case host or ends it at a dot.
pub matches-Covers :
    (m : Matcher) (keys : List Bytes) (s : Bytes)
    → IsCompiled m
    → index_keys m ≡ some keys
    → matches m s ≡ true
    → Key keys s
unfolding index_keys matches
matches-Covers m keys s c k t = elim (Option-cases m.suffixes) [
  | inl e ↦ glob-Key m keys s e k t
  | inr (hosts, e) ↦
      let (never, all) = c.hosts hosts e in
      let held : hosts ≡ keys = cc (rw e at k) in
      subst (λ ks. Key ks s) held (any_suffix-Covers hosts s all (rw (never, e) at t))
]
