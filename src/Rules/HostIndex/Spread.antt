-- ===== src/Rules/HostIndex/Spread.antt =====
-- The first loop of `compactHostIndex` in internal/rules/host_index.go: the builders in the order of
-- the loop, each with edges to the positions of its children.
use mathlib.Core.Path.{subst}
use mathlib.Core.List
use mitmania.Prelude.{
  ℕ, zero, suc, ◌+◌, ◌≤◌, ◌<◌, ◌≡◌, refl, sym, ap, ◌∙◌, some, List, [], ◌∷◌, ◌++◌, arith, inl, inr,
  Bytes, Bool-cases, length, get_elem?, length-append, get_elem?-append_left,
  get_elem?-append_right, less,
}
use mitmania.Rules.HostTree.{Node, Children, node, nil, child, children_of}
use mitmania.Rules.HostIndex.{
  Kids, insert_kid, sort_children, node_of, Edge, number_edges, spread, size, size_children,
}

-- The nodes of a list of children, in order.
abbrev pub nodes_of : Kids → List Node
nodes_of = List.map node_of

abbrev pub builders : List (Node × List Edge) → List Node
builders [] = []
builders ((n, es) ∷ more) = n ∷ builders more

-- How many nodes hang under a list of nodes.
pub total : List Node → ℕ
total [] = 0
total (n ∷ ns) = size n + total ns

total-append : (xs ys : List Node) → total (xs ++ ys) ≡ total xs + total ys
unfolding total
total-append [] ys = omega arith
total-append (x ∷ xs) ys = omega (arith, total-append xs ys)

total-insert_kid :
    (l : Bytes) (n : Node) (kids : Kids)
    → total (nodes_of (insert_kid l n kids)) ≡ size n + total (nodes_of kids)
unfolding total insert_kid node_of
total-insert_kid l n [] = refl
total-insert_kid l n ((k, m) ∷ kids) = elim (Bool-cases (less k l)) [
  | inl e ↦ rw e (omega (arith, total-insert_kid l n kids))
  | inr e ↦ rw e
]

total-sort_children : (cs : Children) → total (nodes_of (sort_children cs)) ≡ size_children cs
unfolding sort_children size_children
total-sort_children nil = unfold total in refl
total-sort_children (child l n more) =
    total-insert_kid l n (sort_children more) ∙ ap (λ t. size n + t) (total-sort_children more)

size-children : (n : Node) → size n ≡ suc (total (nodes_of (sort_children (children_of n))))
unfolding size
size-children (node cs rules) = ap suc (sym (total-sort_children cs))

length-nodes_of : (kids : Kids) → length (nodes_of kids) ≡ length kids
length-nodes_of [] = refl
length-nodes_of (k ∷ kids) = ap suc (length-nodes_of kids)

abbrev pub kids_of : Node → Kids
kids_of n = sort_children (children_of n)

-- One round leaves as much fuel as there are nodes to go.
round_total :
    (n : Node) (pending : List Node)
    → total (n ∷ pending) ≡ suc (total (pending ++ nodes_of (kids_of n)))
unfolding total
round_total n pending = omega (arith, size-children n, total-append pending (nodes_of (kids_of n)))

-- The pending builders come first, in their order.
spread-first :
    (fuel : ℕ) (pending : List Node) (count i : ℕ)
    → total pending ≤ fuel
    → i < length pending
    → get_elem? (builders (spread fuel pending count)) i ≡ get_elem? pending i
unfolding spread
spread-first fuel [] count i h lt = elim lt [ ]
spread-first zero (n ∷ pending) count i h lt = absurd (omega (arith, round_total n pending))
spread-first (suc fuel) (n ∷ pending) count zero h lt = refl
spread-first (suc fuel) (n ∷ pending) count (suc i) h lt =
    spread-first fuel (pending ++ nodes_of (kids_of n)) (count + length (kids_of n)) i
      (omega (arith, round_total n pending))
      (omega (arith, length-append pending (nodes_of (kids_of n))))
    ∙ get_elem?-append_left pending (nodes_of (kids_of n)) i (omega arith)

-- There are as many builders as nodes.
pub length-spread :
    (fuel : ℕ) (pending : List Node) (count : ℕ)
    → total pending ≤ fuel
    → length (spread fuel pending count) ≡ total pending
unfolding spread
length-spread zero [] count h = unfold total in refl
length-spread (suc fuel) [] count h = unfold total in refl
length-spread zero (n ∷ pending) count h = absurd (omega (arith, round_total n pending))
length-spread (suc fuel) (n ∷ pending) count h = omega (
  arith,
  round_total n pending,
  length-spread fuel (pending ++ nodes_of (kids_of n)) (count + length (kids_of n))
      (omega (arith, round_total n pending)),
)

length-le-total : (ns : List Node) → length ns ≤ total ns
unfolding total size
length-le-total [] = omega arith
length-le-total (node cs rules ∷ ns) = omega (arith, length-le-total ns)

pub length-builders : (r : List (Node × List Edge)) → length (builders r) ≡ length r
length-builders [] = refl
length-builders (x ∷ r) = ap suc (length-builders r)

-- The edges of a builder lead to the positions of its children; `p` is the position of the first
-- builder of `all`.
pub record IsLinked (p : ℕ) (all : List Node) (n : Node) (es : List Edge) : Type 0 where
  pub first : ℕ
  pub numbered : es ≡ number_edges (p + first) (kids_of n)
  pub within : first + length (kids_of n) ≤ length all
  pub leads :
      (j : ℕ) (l : Bytes) (c : Node)
      → get_elem? (kids_of n) j ≡ some (l, c)
      → get_elem? all (first + j) ≡ some c

get_elem?-suc_add :
    (x : Node) (xs : List Node) (a j : ℕ) → get_elem? (x ∷ xs) (suc a + j) ≡ get_elem? xs (a + j)
get_elem?-suc_add x xs a j =
    let e : suc a + j ≡ suc (a + j) = omega arith in ap (get_elem? (x ∷ xs)) e

get_elem?-nodes_of :
    (kids : Kids) (j : ℕ) (l : Bytes) (c : Node)
    → get_elem? kids j ≡ some (l, c)
    → (get_elem? (nodes_of kids) j ≡ some c) × (j < length kids)
unfolding node_of
get_elem?-nodes_of [] j l c h = cc h
get_elem?-nodes_of ((k, m) ∷ kids) zero l c h = (cc h, omega arith)
get_elem?-nodes_of ((k, m) ∷ kids) (suc j) l c h =
    let (this, below) = get_elem?-nodes_of kids j l c h in (this, omega arith)

head-IsLinked :
    (fuel : ℕ) (n : Node) (pending : List Node) (p count : ℕ)
    → total (n ∷ pending) ≤ suc fuel
    → count ≡ p + length (n ∷ pending)
    → IsLinked p
        (n ∷ builders (spread fuel (pending ++ nodes_of (kids_of n)) (count + length (kids_of n))))
        n
        (number_edges count (kids_of n))
head-IsLinked fuel n pending p count h c =
    let pending' : List Node = pending ++ nodes_of (kids_of n) in
    let count' : ℕ = count + length (kids_of n) in
    let enough : total pending' ≤ fuel = omega (arith, round_total n pending) in
    let joined : length pending' ≡ length pending + length (kids_of n) =
      length-append pending (nodes_of (kids_of n))
      ∙ ap (λ k. length pending + k) (length-nodes_of (kids_of n)) in
    record {
      first = suc (length pending);
      numbered = ap (λ k. number_edges k (kids_of n)) c;
      within = omega (
        arith,
        length-builders (spread fuel pending' count'),
        length-spread fuel pending' count' enough,
        length-le-total pending',
      );
      leads = λ j l c' g.
          let (this, below) = get_elem?-nodes_of (kids_of n) j l c' g in
          get_elem?-suc_add n (builders (spread fuel pending' count')) (length pending) j
          ∙ spread-first fuel pending' count' (length pending + j) enough (omega arith)
          ∙ get_elem?-append_right pending (nodes_of (kids_of n)) j
          ∙ this;
    }

pub spread-IsLinked :
    (fuel : ℕ) (pending : List Node) (p count i : ℕ) (n : Node) (es : List Edge)
    → total pending ≤ fuel
    → count ≡ p + length pending
    → get_elem? (spread fuel pending count) i ≡ some (n, es)
    → IsLinked p (builders (spread fuel pending count)) n es
unfolding spread
spread-IsLinked zero pending p count i n es h c e = cc e
spread-IsLinked (suc fuel) [] p count i n es h c e = cc e
spread-IsLinked (suc fuel) (n' ∷ pending) p count zero n es h c e =
    let found : some (n', number_edges count (kids_of n')) ≡ some (n, es) = e in
    let this : (n', number_edges count (kids_of n')) ≡ (n, es) = cc found in
    subst
      (λ (b : Node × List Edge).
        IsLinked p (builders (spread (suc fuel) (n' ∷ pending) count)) b.0 b.1)
      this (unfold spread in head-IsLinked fuel n' pending p count h c)
spread-IsLinked (suc fuel) (n' ∷ pending) p count (suc i) n es h c e =
    let ih =
      spread-IsLinked fuel (pending ++ nodes_of (kids_of n')) (suc p) (count + length (kids_of n'))
        i n es (omega (arith, round_total n' pending))
        (omega (arith, length-append pending (nodes_of (kids_of n')), length-nodes_of (kids_of n')))
        e in
    record {
      first = suc ih.first;
      numbered = ih.numbered ∙ ap (λ k. number_edges k (kids_of n)) (omega arith);
      within = omega (arith, ih.within);
      leads = λ j l c' g.
          get_elem?-suc_add n'
            (builders
              (spread fuel (pending ++ nodes_of (kids_of n')) (count + length (kids_of n'))))
            ih.first j
          ∙ ih.leads j l c' g;
    }

pub total-root : (n : Node) → total (n ∷ []) ≡ size n
unfolding total
total-root n = omega arith

pub builders-get :
    (r : List (Node × List Edge)) (i : ℕ) (n : Node)
    → get_elem? (builders r) i ≡ some n
    → (es : List Edge) × (get_elem? r i ≡ some (n, es))
builders-get [] i n h = cc h
builders-get ((m, es) ∷ r) zero n h = (es, cc h)
builders-get ((m, es) ∷ r) (suc i) n h = builders-get r i n h

pub get_elem?-below :
    {A : Type 0} (xs : List A) (i : ℕ) (x : A) → get_elem? xs i ≡ some x → i < length xs
get_elem?-below [] i x h = cc h
get_elem?-below (y ∷ xs) zero x h = omega arith
get_elem?-below (y ∷ xs) (suc i) x h = omega (arith, get_elem?-below xs i x h)

pub spread-root : (n : Node) → get_elem? (builders (spread (size n) (n ∷ []) 1)) 0 ≡ some n
spread-root n = spread-first (size n) (n ∷ []) 1 0 (omega (arith, total-root n)) (omega arith)
