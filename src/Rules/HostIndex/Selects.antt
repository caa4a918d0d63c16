-- ===== src/Rules/HostIndex/Selects.antt =====
-- internal/rules/host_index.go: the candidates that the index of a rule list gives for a host.
use mathlib.Core.Path.{subst}
use mitmania.Prelude.{
  ℕ, zero, suc, ◌<◌, ◌≡◌, refl, ap, ◌∙◌, true, false, some, List, [], ◌∷◌, ◌++◌, arith, inl, inr,
  Bytes, Bool-cases, Option-cases, All, In, In-append_left, In-append_right, length, get_elem?,
  to_lower, lower, ◌==◌, ◌>>=◌,
}
use mitmania.Rules.Labels.{dot}
use mitmania.Rules.Pattern.{Matcher, matches}
use mitmania.Rules.Pattern.Compiled.{IsCompiled}
use mitmania.Rules.Pattern.Glob.{is_empty}
use mitmania.Rules.HostTree.{Node, node, leaf, host_labels, index_keys, build_from}
use mitmania.Rules.HostIndex.{
  trim_dot, u32_mod, size, spread, lay_out, compact_host_index, build_host_candidate_index,
  append_candidates, sort_ids, drop_repeats,
}
use mitmania.Rules.HostTree.Trie.{Held, Held-collect, collect, collect-below, All-append}
use mitmania.Rules.HostTree.Build.{Placed, build_from-Placed, build_from-IsBelow, leaf-IsBelow}
use mitmania.Rules.HostIndex.Laid.{edge_total, rule_total}
use mitmania.Rules.HostIndex.Flat.{visit-compact_host_index}
use mitmania.Rules.HostIndex.Order.{Rises, candidates-Rises, In-candidates, candidates-below}
use mitmania.Rules.HostIndex.Candidates.{Covers-host_labels, Covers-trim_dot, host_labels-cons}
use mitmania.Rules.HostTree.Keys.{matches-Covers}

-- The tree of a rule list, and its fallback list.
abbrev pub tree_of : List Matcher → Node
tree_of ms = (build_from 0 ms leaf []).0

abbrev pub fallback_of : List Matcher → List ℕ
fallback_of ms = (build_from 0 ms leaf []).1

-- The nodes, edges and rule numbers of the index can be numbered in 32 bits.
pub record Fits (ms : List Matcher) : Type 0 where
  pub edges : edge_total (spread (size (tree_of ms)) (tree_of ms ∷ []) 1) < u32_mod
  pub rules : rule_total (spread (size (tree_of ms)) (tree_of ms ∷ []) 1) < u32_mod
  pub nodes : size (tree_of ms) < u32_mod

-- The numbers rise, each is that of a rule, and every rule that matches the host is among them.
pub record IsSelection (ms : List Matcher) (host : Bytes) (ids : List ℕ) : Type 0 where
  pub rising : Rises 0 ids
  pub in_range : All (λ i. i < length ms) ids
  pub complete : (i : ℕ) (m : Matcher) → get_elem? ms i ≡ some m → matches m host ≡ true → In i ids

lower-dot : (c : ℕ) → (lower c == dot) ≡ (c == dot)
unfolding lower
lower-dot c = ground arith

trim_dot-to_lower : (s : Bytes) → to_lower (trim_dot s) ≡ trim_dot (to_lower s)
unfolding trim_dot to_lower
trim_dot-to_lower [] = refl
trim_dot-to_lower (c ∷ []) = elim (Bool-cases (c == dot)) [
  | inl e ↦ rw (lower-dot c, e) refl
  | inr e ↦ rw (lower-dot c, e) refl
]
trim_dot-to_lower (c ∷ d ∷ s) = ap (λ r. lower c ∷ r) (trim_dot-to_lower (d ∷ s))

nodes_nonempty :
    (root : Node) (fallback : List ℕ) → is_empty (compact_host_index root fallback).nodes ≡ false
unfolding compact_host_index spread lay_out size
nodes_nonempty (node children rules) fallback = refl

-- The numbers gathered before they are sorted.
abbrev gathered : List Matcher → Bytes → List ℕ
gathered ms host = fallback_of ms ++ collect (tree_of ms) (host_labels (to_lower (trim_dot host)))

append_candidates-gathered :
    (ms : List Matcher) (host : Bytes)
    → Fits ms
    → append_candidates (build_host_candidate_index ms) host []
      ≡ some (drop_repeats (sort_ids (gathered ms host)))
unfolding append_candidates build_host_candidate_index
append_candidates-gathered ms host f =
    rw
      (
        nodes_nonempty (tree_of ms) (fallback_of ms),
        visit-compact_host_index (tree_of ms) (fallback_of ms) f.edges f.rules f.nodes
            (host_labels (to_lower (trim_dot host))) (fallback_of ms),
        ◌>>=◌,
      )
      refl

In-gathered :
    (ms : List Matcher) (host : Bytes) (i : ℕ) (m : Matcher)
    → IsCompiled m
    → get_elem? ms i ≡ some m
    → matches m host ≡ true
    → In i (gathered ms host)
In-gathered ms host i m c g t =
    let place : Placed (index_keys m) i (tree_of ms) (fallback_of ms) =
      subst (λ j. Placed (index_keys m) j (tree_of ms) (fallback_of ms)) (omega arith)
        (build_from-Placed ms i 0 leaf [] m g) in
    elim (Option-cases (index_keys m)) [
      | inl e ↦
          In-append_left i (fallback_of ms)
            (collect (tree_of ms) (host_labels (to_lower (trim_dot host)))) (rw e at place)
      | inr (keys, e) ↦
          let (q, key, known, covers) = matches-Covers m keys host c e t in
          let held : Held (tree_of ms) (host_labels q) i =
            subst (λ k. Placed k i (tree_of ms) (fallback_of ms)) e place q key in
          let (more, labels) = Covers-host_labels q (to_lower host) known covers in
          let same_labels : host_labels (to_lower (trim_dot host)) ≡ host_labels q ++ more =
            ap host_labels (trim_dot-to_lower host ∙ Covers-trim_dot q (to_lower host) known covers)
            ∙ labels in
          In-append_right i (fallback_of ms)
            (collect (tree_of ms) (host_labels (to_lower (trim_dot host))))
            (let (l, ls, first) = host_labels-cons q known in
              rw (same_labels, first) (Held-collect ls l more i (tree_of ms) (rw first at held)))
    ]

gathered-below : (ms : List Matcher) (host : Bytes) → All (λ i. i < length ms) (gathered ms host)
gathered-below ms host =
    let (tree, fell) =
      build_from-IsBelow (length ms) ms 0 leaf [] (omega arith) (leaf-IsBelow (length ms)) tt in
    All-append (λ i. i < length ms) (fallback_of ms)
      (collect (tree_of ms) (host_labels (to_lower (trim_dot host)))) fell
      (collect-below (length ms) (host_labels (to_lower (trim_dot host))) (tree_of ms) tree)

-- The candidates of a host do not panic, rise strictly, are numbers of rules, and hold every rule
-- whose host pattern matches, if the patterns are compiled and the index can be numbered in 32
-- bits.
pub append_candidates-IsSelection :
    (ms : List Matcher) (host : Bytes)
    → Fits ms
    → All IsCompiled ms
    → (ids : List ℕ) × (append_candidates (build_host_candidate_index ms) host [] ≡ some ids)
      × IsSelection ms host ids
append_candidates-IsSelection ms host f c = (
  drop_repeats (sort_ids (gathered ms host)),
  append_candidates-gathered ms host f,
  record {
    rising = candidates-Rises (gathered ms host);
    in_range = candidates-below (length ms) (gathered ms host) (gathered-below ms host);
    complete = λ i m g t.
        In-candidates i (gathered ms host) (In-gathered ms host i m (All-get ms i m c g) g t);
  },
)
  where
    All-get :
        (ms : List Matcher) (i : ℕ) (m : Matcher)
        → All IsCompiled ms
        → get_elem? ms i ≡ some m
        → IsCompiled m
    All-get [] i m a g = cc g
    All-get (n ∷ ms) zero m a g = let e : n ≡ m = cc g in subst IsCompiled e a.0
    All-get (n ∷ ms) (suc i) m a g = All-get ms i m a.1 g
