-- ===== src/Rules/HostIndex/Flat.antt =====
-- `compactHostIndex` and the loop of `appendCandidates` in internal/rules/host_index.go: lookups in the
-- compact index beside those in the tree.
use mathlib.Core.List.{append_assoc, append-nil}
use mitmania.Prelude.{
  less_irrefl, ℕ, suc, ◌+◌, ◌<◌, ◌≡◌, refl, sym, ap, ◌∙◌, Option, none, some, List, [], ◌∷◌, ◌++◌,
  arith, inl, inr, Bytes, Bool-cases, length, get_elem?, ◌⊎◌, less, same, same_iff, if◌then◌else◌,
  ◌>>=◌,
}
use mitmania.Rules.HostTree.{Node, Children, nil, child, rules_of, children_of}
use mitmania.Rules.HostIndex.{
  Kids, insert_kid, sort_children, Edge, number_edges, IndexNode, HostIndex, u32, u32_mod,
  find_child, visit, slice, compact_host_index, spread, size,
}
use mitmania.Rules.HostIndex.Bisect.{seek_edge, IsAscending, edge_labels, bisect-seek_edge}
use mitmania.Rules.HostIndex.Bisect.Sorting.{number_edges-IsAscending}
use mitmania.Rules.HostIndex.Spread.{
  IsLinked, kids_of, builders, spread-IsLinked, length-spread, total-root, spread-root,
  builders-get, get_elem?-below,
}
use mitmania.Rules.HostTree.Trie.{child_of, collect}
use mitmania.Rules.HostIndex.Laid.{
  edge_total, rule_total, IsLaid, lay_out-IsLaid, Spans-fits, Spans-slice, Spans-Holds,
  length-edges, u32_small,
}

-- The first child with the label, in a list of children.
kid_of : Bytes → Kids → Option Node
kid_of label [] = none
kid_of label ((k, n) ∷ kids) = if same k label then some n else kid_of label kids

kid_of-insert_kid :
    (label l : Bytes) (n : Node) (kids : Kids)
    → kid_of label (insert_kid l n kids) ≡ (if same l label then some n else kid_of label kids)
unfolding kid_of insert_kid
kid_of-insert_kid label l n [] = refl
kid_of-insert_kid label l n ((k, m) ∷ kids) = elim (Bool-cases (less k l)) [
  | inr e ↦ rw e
  | inl e ↦ elim (Bool-cases (same k label)) [
    | inr ne ↦ rw (e, ne) (kid_of-insert_kid label l n kids)
    | inl eq ↦ elim (Bool-cases (same l label)) [
      | inr ne ↦ rw (e, eq, ne)
      | inl eq' ↦ cc (e, less_irrefl l, (same_iff k label).0 eq, (same_iff l label).0 eq')
    ]
  ]
]

kid_of-sort_children :
    (label : Bytes) (cs : Children) → kid_of label (sort_children cs) ≡ child_of label cs
unfolding sort_children child_of
kid_of-sort_children label nil = unfold kid_of in refl
kid_of-sort_children label (child k n more) =
    kid_of-insert_kid label k n (sort_children more)
    ∙ ap (λ r. if same k label then some n else r) (kid_of-sort_children label more)

-- What a search among numbered edges says of the children.
record Reached (k : ℕ) (kids : Kids) (label : Bytes) (id : ℕ) : Type 0 where
  place : ℕ
  name : Bytes
  to : Node
  kid : get_elem? kids place ≡ some (name, to)
  is_kid : kid_of label kids ≡ some to
  target : id ≡ u32 (k + place)

seek-number_edges :
    (label : Bytes) (k : ℕ) (kids : Kids)
    → ((seek_edge label (number_edges k kids) ≡ none) × (kid_of label kids ≡ none))
      ⊎ ((id : ℕ) × (seek_edge label (number_edges k kids) ≡ some id) × Reached k kids label id)
unfolding seek_edge number_edges kid_of
seek-number_edges label k [] = inl (refl, refl)
seek-number_edges label k ((l, n) ∷ kids) = elim (Bool-cases (same l label)) [
  | inl e ↦ inr (
    u32 k,
    rw e,
    record {
      place = 0;
      name = l;
      to = n;
      kid = refl;
      is_kid = unfold kid_of in rw e;
      target = ap u32 (omega arith);
    },
  )
  | inr e ↦ elim (seek-number_edges label (suc k) kids) [
    | inl (a, b) ↦ inl (rw e a, rw e b)
    | inr (id, a, r) ↦ inr (
      id,
      rw e a,
      record {
        place = suc r.place;
        name = r.name;
        to = r.to;
        kid = r.kid;
        is_kid = unfold kid_of in rw e r.is_kid;
        target = r.target ∙ ap u32 (omega arith);
      },
    )
  ]
]

visit_step :
    (ix : HostIndex) (label : Bytes) (labels : List Bytes) (i next : ℕ) (result ids : List ℕ)
    (x : IndexNode)
    → find_child ix i label ≡ some (some next)
    → get_elem? ix.nodes next ≡ some x
    → slice ix.rule_ids x.rule_start (u32 (x.rule_start + x.rule_count)) ≡ some ids
    → visit ix (label ∷ labels) i result ≡ visit ix labels next (result ++ ids)
unfolding visit
visit_step ix label labels i next result ids x f n s = rw (f, visit, ◌>>=◌, n, s)

-- The index of a tree, and the way from a builder to its node.
module _ (root : Node) (fallback : List ℕ)
    (he : edge_total (spread (size root) (root ∷ []) 1) < u32_mod)
    (hr : rule_total (spread (size root) (root ∷ []) 1) < u32_mod) (hn : size root < u32_mod) where
  abbrev rows : List (Node × List Edge)
  rows = spread (size root) (root ∷ []) 1

  abbrev index : HostIndex
  index = compact_host_index root fallback

  row-IsLinked :
      (i : ℕ) (n : Node) (es : List Edge)
      → get_elem? rows i ≡ some (n, es)
      → IsLinked 0 (builders rows) n es
  row-IsLinked i n es g =
      spread-IsLinked (size root) (root ∷ []) 0 1 i n es (omega (arith, total-root root))
        (omega arith) g

  row-IsLaid :
      (i : ℕ) (n : Node) (es : List Edge)
      → get_elem? rows i ≡ some (n, es)
      → (x : IndexNode) × (get_elem? index.nodes i ≡ some x)
        × IsLaid index.edges index.rule_ids n es x
  unfolding compact_host_index
  row-IsLaid i n es g = lay_out-IsLaid rows [] [] i n es (omega arith) (omega arith) g

  -- `findChild` at a laid out node is a search from the left among its edges.
  find_child-seek_edge :
      (i : ℕ) (n : Node) (es : List Edge) (label : Bytes)
      → get_elem? rows i ≡ some (n, es)
      → find_child index i label ≡ some (seek_edge label es)
  unfolding find_child compact_host_index
  find_child-seek_edge i n es label g =
      let (x, at, laid) = row-IsLaid i n es g in
      let linked = row-IsLinked i n es g in
      let ascending : IsAscending (edge_labels es) =
        rw linked.numbered (number_edges-IsAscending (0 + linked.first) (children_of n)) in
      let short : x.edge_start + length es < u32_mod =
        omega (arith, Spans-fits laid.edges_at, (length-edges rows [] []).0) in
      rw (at, find_child, ◌>>=◌, laid.edge_count, u32_small (x.edge_start + length es) short)
        (bisect-seek_edge label index.edges x.edge_start es ascending (Spans-Holds laid.edges_at))

  rows_count : length rows ≡ size root
  rows_count =
      length-spread (size root) (root ∷ []) 1 (omega (arith, total-root root)) ∙ total-root root

  -- The walk from a builder's node collects what the walk from the builder in the tree does.
  visit-collect :
      (labels : List Bytes) (i : ℕ) (n : Node) (es : List Edge) (result : List ℕ)
      → get_elem? rows i ≡ some (n, es)
      → visit index labels i result ≡ some (result ++ collect n labels)
  unfolding visit collect compact_host_index
  visit-collect [] i n es result g = ap some (sym (append-nil result))
  visit-collect (label ∷ labels) i n es result g =
      let linked = row-IsLinked i n es g in
      let found : find_child index i label
          ≡ some (seek_edge label (number_edges (0 + linked.first) (kids_of n))) =
        find_child-seek_edge i n es label g ∙ ap (λ e. some (seek_edge label e)) linked.numbered in
      elim (seek-number_edges label (0 + linked.first) (kids_of n)) [
        | inl (gone, no_kid) ↦
            let missing : child_of label (children_of n) ≡ none =
              sym (kid_of-sort_children label (children_of n)) ∙ no_kid in
            rw (found, visit, ◌>>=◌, gone, missing, collect, append-nil)
        | inr (id, seen, r) ↦
            let is_child : child_of label (children_of n) ≡ some r.to =
              sym (kid_of-sort_children label (children_of n)) ∙ r.is_kid in
            let (es', row) =
              builders-get rows (linked.first + r.place) r.to
                (linked.leads r.place r.name r.to r.kid) in
            let below : linked.first + r.place < length rows =
              get_elem?-below rows (linked.first + r.place) (r.to, es') row in
            let here : id ≡ linked.first + r.place = r.target ∙ omega (arith, rows_count) in
            let (x, at, laid) = row-IsLaid id r.to es' (rw here row) in
            let short : x.rule_start + length (rules_of r.to) < u32_mod =
              omega (arith, Spans-fits laid.rules_at, (length-edges rows [] []).1) in
            let cut : slice index.rule_ids x.rule_start (u32 (x.rule_start + x.rule_count))
                ≡ some (rules_of r.to) =
              rw (laid.rule_count, u32_small (x.rule_start + length (rules_of r.to)) short)
                (Spans-slice laid.rules_at) in
            visit_step index label labels i id result (rules_of r.to) x (found ∙ ap some seen) at
              cut
            ∙ visit-collect labels id r.to es' (result ++ rules_of r.to) (rw here row)
            ∙ ap some (append_assoc result (rules_of r.to) (collect r.to labels))
            ∙ rw (is_child, collect)
      ]

  -- A walk through the compact index, whose nodes, edges and rule numbers can be numbered in 32
  -- bits, does not panic and collects what the walk through the tree does.
  pub visit-compact_host_index :
      (labels : List Bytes) (result : List ℕ)
      → visit index labels 0 result ≡ some (result ++ collect root labels)
  visit-compact_host_index labels result =
      let (es, row) = builders-get rows 0 root (spread-root root) in
      visit-collect labels 0 root es result row
