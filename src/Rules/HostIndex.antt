-- ===== src/Rules/HostIndex.antt =====
-- internal/rules/host_index.go: the compact index that narrows the rules to try for a host.
-- `none` is a panic, which is an index out of range, or the end of a fuel.
pub mod Spread
pub mod Bisect
pub mod Laid
pub mod Flat
pub mod Order
pub mod Candidates
pub mod Selects
use mathlib.Core.List
use mitmania.Prelude.{
  ℕ, zero, suc, ◌+◌, ◌-◌, ◌/◌, ◌%◌, ◌^◌, Bool, true, false, not, Option, none, some, List, [], ◌∷◌,
  ◌++◌, ◌==◌, ◌&&◌, ◌||◌, leb, ltb, if◌then◌else◌, Bytes, length, take, drop, get_elem?, to_lower,
  same, less, ◌>>=◌,
}
use mitmania.Rules.Labels.{dot, literal_suffix}
use mitmania.Rules.Pattern.{Matcher}
use mitmania.Rules.HostTree.{
  Node, Children, node, nil, child, rules_of, children_of, leaf, walk, host_labels, last_is,
  add_rule, update_child, insert_path, insert_host_suffix, insert_all, is_some, literal_glob_suffix,
  imported_suffix_regex, index_keys, build_from,
}
use mitmania.Rules.Pattern.Glob.{is_empty}

pub record IndexNode : Type 0 where
  pub edge_start : ℕ
  pub edge_count : ℕ
  pub rule_start : ℕ
  pub rule_count : ℕ

pub record Edge : Type 0 where
  pub label : Bytes
  pub target : ℕ

pub record HostIndex : Type 0 where
  pub nodes : List IndexNode
  pub edges : List Edge
  pub rule_ids : List ℕ
  pub fallback : List ℕ

abbrev pub u32_mod : ℕ
u32_mod = 2 ^ 32

abbrev pub u32 : ℕ → ℕ
u32 n = n % u32_mod

-- `a - b` on uint32
abbrev pub u32_sub : ℕ → ℕ → ℕ
u32_sub a b = (a + u32_mod - b) % u32_mod

-- `sort.Strings` on the labels, each with its child
abbrev pub Kids : Type 0
Kids = List (Bytes × Node)

unfoldable pub insert_kid : Bytes → Node → Kids → Kids
insert_kid l n [] = (l, n) ∷ []
insert_kid l n ((k, m) ∷ kids) =
    if less k l then (k, m) ∷ insert_kid l n kids else (l, n) ∷ (k, m) ∷ kids

unfoldable pub sort_children : Children → Kids
sort_children nil = []
sort_children (child l n more) = insert_kid l n (sort_children more)

unfoldable pub node_of : Bytes × Node → Node
node_of (l, n) = n

-- The edges to children that join the builders at position `next` and on.
unfoldable pub number_edges : ℕ → Kids → List Edge
number_edges next [] = []
number_edges next ((l, n) ∷ kids) =
    record { label = l; target = u32 next } ∷ number_edges (suc next) kids

-- The first loop of `compactHostIndex`: `pending` is what stands in `builders` from `pos` on, and
-- `count` is the length of `builders`. Each builder comes with its numbered edges.
unfoldable pub spread : ℕ → List Node → ℕ → List (Node × List Edge)
spread zero pending count = []
spread (suc fuel) [] count = []
spread (suc fuel) (n ∷ pending) count =
    let kids = sort_children (children_of n) in
    (n, number_edges count kids)
    ∷ spread fuel (pending ++ List.map node_of kids) (count + length kids)

unfoldable mutual
  pub size : Node → ℕ
  size (node children rules) = suc (size_children children)

  pub size_children : Children → ℕ
  size_children nil = 0
  size_children (child l n more) = size n + size_children more

pub record Layout : Type 0 where
  pub nodes : List IndexNode
  pub edges : List Edge
  pub rule_ids : List ℕ

-- The second loop of `compactHostIndex`, from the edges and rule numbers laid out so far.
pub lay_out : List (Node × List Edge) → List Edge → List ℕ → Layout
lay_out [] edges ids = record { nodes = []; edges = edges; rule_ids = ids }
lay_out ((n, es) ∷ more) edges ids =
    let edge_start = u32 (length edges) in
    let rule_start = u32 (length ids) in
    let edges' = edges ++ es in
    let ids' = ids ++ rules_of n in
    let rest = lay_out more edges' ids' in
    record rest {
      nodes =
          record {
            edge_start = edge_start;
            edge_count = u32_sub (u32 (length edges')) edge_start;
            rule_start = rule_start;
            rule_count = u32_sub (u32 (length ids')) rule_start;
          }
          ∷ rest.nodes;
    }

pub compact_host_index : Node → List ℕ → HostIndex
compact_host_index root fallback =
    let l = lay_out (spread (size root) (root ∷ []) 1) [] [] in
    record { nodes = l.nodes; edges = l.edges; rule_ids = l.rule_ids; fallback = fallback }

unfoldable pub build_host_candidate_index : List Matcher → HostIndex
unfolding build_from insert_all insert_host_suffix host_labels insert_path add_rule update_child
    last_is index_keys compact_host_index spread sort_children insert_kid number_edges node_of size
    lay_out
build_host_candidate_index ms =
    let (root, fallback) = build_from 0 ms leaf [] in compact_host_index root fallback

-- The binary search of `findChild`.
pub bisect : List Edge → Bytes → ℕ → ℕ → ℕ → Option ℕ
bisect edges label zero lo hi = none
bisect edges label (suc fuel) lo hi =
    let mid = (lo + hi) / 2 in
    elim (ltb lo hi) [
      | false ↦ some lo
      | true ↦ do
        edge ← get_elem? edges mid
        elim (less edge.label label) [
          | true ↦ bisect edges label fuel (mid + 1) hi
          | false ↦ bisect edges label fuel lo mid
        ]
    ]

abbrev pub edge_at : List Edge → Bytes → ℕ → ℕ → Option (Option ℕ)
edge_at edges label lo end = if lo == end then some none else do
  edge ← get_elem? edges lo
  some (if same edge.label label then some edge.target else none)

pub find_child : HostIndex → ℕ → Bytes → Option (Option ℕ)
find_child i id label = do
  n ← get_elem? i.nodes id
  lo ← bisect i.edges label (suc n.edge_count) n.edge_start (n.edge_start + n.edge_count)
  edge_at i.edges label lo (u32 (n.edge_start + n.edge_count))

-- `xs[lo:hi]`
abbrev pub slice {ℓ} : {A : Type ℓ} → List A → ℕ → ℕ → Option (List A)
slice xs lo hi =
    if leb lo hi && leb hi (length xs) then some (take (hi - lo) (drop lo xs)) else none

-- The loop of `appendCandidates`, over the labels of the host from the right.
pub visit : HostIndex → List Bytes → ℕ → List ℕ → Option (List ℕ)
visit i [] id result = some result
visit i (label ∷ labels) id result = do
  found ← find_child i id label
  elim found [
    | none ↦ some result
    | some next ↦ do
      n ← get_elem? i.nodes next
      ids ← slice i.rule_ids n.rule_start (u32 (n.rule_start + n.rule_count))
      visit i labels next (result ++ ids)
  ]

-- `sort.Ints`
pub insert_id : ℕ → List ℕ → List ℕ
insert_id x [] = x ∷ []
insert_id x (y ∷ ys) = if ltb y x then y ∷ insert_id x ys else x ∷ y ∷ ys

pub sort_ids : List ℕ → List ℕ
sort_ids [] = []
sort_ids (x ∷ xs) = insert_id x (sort_ids xs)

-- The loop that drops repeats, from the last number kept.
pub keep_new : ℕ → List ℕ → List ℕ
keep_new last [] = []
keep_new last (x ∷ xs) =
    let skipped = keep_new last xs in
    let kept = keep_new x xs in if x == last then skipped else x ∷ kept

pub drop_repeats : List ℕ → List ℕ
drop_repeats [] = []
drop_repeats (x ∷ xs) = x ∷ keep_new x xs

-- `strings.TrimSuffix(host, ".")`
unfoldable pub trim_dot : Bytes → Bytes
trim_dot [] = []
trim_dot (c ∷ s) = if is_empty s && c == dot then [] else c ∷ trim_dot s

unfoldable pub append_candidates : HostIndex → Bytes → List ℕ → Option (List ℕ)
unfolding visit find_child bisect sort_ids insert_id drop_repeats keep_new trim_dot host_labels
append_candidates i host result =
    let gathered = result ++ i.fallback in
    if is_empty i.nodes then some gathered else do
      all ← visit i (host_labels (to_lower (trim_dot host))) 0 gathered
      some (drop_repeats (sort_ids all))
