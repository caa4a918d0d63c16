-- ===== src/Rules/HostIndex/Bisect.antt =====
-- `findChild` of internal/rules/host_index.go: its binary search beside a search from the left.
pub mod Sorting
use mitmania.Prelude.{
  ℕ, zero, suc, ◌+◌, ◌/◌, ◌≤◌, ◌<◌, ◌≡◌, refl, sym, ap, ◌∙◌, true, false, Option, none, some, List,
  [], ◌∷◌, arith, inl, inr, Bytes, Bool-cases, All, length, get_elem?, less, same, same_iff,
  less_irrefl, less_trans, less_total, if◌then◌else◌, ltb, ltb→lt, ◌==◌, ◌>>=◌,
}
use mitmania.Rules.HostTree.{Node, Children, nil, child}
use mitmania.Rules.HostIndex.{Kids, insert_kid, sort_children, Edge, number_edges, bisect, edge_at}

-- No label is less than one before it.
abbrev pub IsAscending : List Bytes → Type 0
IsAscending [] = Unit
IsAscending (l ∷ ls) = All (λ k. less k l ≡ false) ls × IsAscending ls

abbrev pub edge_labels : List Edge → List Bytes
edge_labels [] = []
edge_labels (e ∷ es) = e.label ∷ edge_labels es

abbrev pub kid_labels : Kids → List Bytes
kid_labels [] = []
kid_labels ((l, n) ∷ kids) = l ∷ kid_labels kids

-- The first edge with the label.
unfoldable pub seek_edge : Bytes → List Edge → Option ℕ
seek_edge label [] = none
seek_edge label (e ∷ es) = if same e.label label then some e.target else seek_edge label es

-- How many edges at the front have a smaller label.
rank : Bytes → List Edge → ℕ
rank label [] = 0
rank label (e ∷ es) = if less e.label label then suc (rank label es) else 0

rank-le : (label : Bytes) (es : List Edge) → rank label es ≤ length es
unfolding rank
rank-le label [] = omega arith
rank-le label (e ∷ es) = ground (arith, rank-le label es)

before_rank :
    (label : Bytes) (es : List Edge) (j : ℕ) (e : Edge)
    → get_elem? es j ≡ some e
    → j < rank label es
    → less e.label label ≡ true
unfolding rank
before_rank label [] j e h lt = cc h
before_rank label (e' ∷ es) zero e h lt = ground arith
before_rank label (e' ∷ es) (suc j) e h lt = ground (arith, before_rank label es j e)

below_first :
    (l : Bytes) (es : List Edge) (j : ℕ) (e : Edge)
    → All (λ k. less k l ≡ false) (edge_labels es)
    → get_elem? es j ≡ some e
    → less e.label l ≡ false
below_first l [] j e h g = cc g
below_first l (e' ∷ es) zero e h g = ground arith
below_first l (e' ∷ es) (suc j) e h g = below_first l es j e h.1 g

pub not_less_trans : (a b c : Bytes) → less a c ≡ true → less a b ≡ false → less b c ≡ true
not_less_trans a b c h k = elim (Bool-cases (less b c)) [
  | inl e ↦ e
  | inr n ↦ elim (Bool-cases (less c b)) [
    | inl e ↦ cc (less_trans a c b h e, k)
    | inr m ↦ cc (h, k, less_total b c n m)
  ]
]

-- In an ascending list the smaller labels are all at the front.
rank_bounds :
    (label : Bytes) (es : List Edge) (j : ℕ) (e : Edge)
    → IsAscending (edge_labels es)
    → get_elem? es j ≡ some e
    → less e.label label ≡ true
    → j < rank label es
unfolding rank
rank_bounds label [] j e a h lt = cc h
rank_bounds label (e' ∷ es) zero e a h lt = ground arith
rank_bounds label (e' ∷ es) (suc j) e a h lt =
    rw (not_less_trans e.label e'.label label lt (below_first e'.label es j e a.0 h))
      (omega (arith, rank_bounds label es j e a.1 h lt))

get_elem?-some :
    {A : Type 0} (xs : List A) (j : ℕ) → j < length xs → (x : A) × (get_elem? xs j ≡ some x)
get_elem?-some [] j h = elim h [ ]
get_elem?-some (x ∷ xs) zero h = (x, refl)
get_elem?-some (x ∷ xs) (suc j) h = get_elem?-some xs j (omega arith)

half_between :
    (b lo hi : ℕ) → lo < hi → (m : ℕ) × ((b + lo + (b + hi)) / 2 ≡ b + m) × (lo ≤ m) × (m < hi)
half_between b lo hi h = ((lo + hi) / 2, omega arith, omega arith, omega arith)

-- `edges` holds `es` from position `b` on.
abbrev pub Holds : List Edge → ℕ → List Edge → Type 0
Holds edges b es = (j : ℕ) → j < length es → get_elem? edges (b + j) ≡ get_elem? es j

not_before :
    (label : Bytes) (es : List Edge) (m : ℕ) (edge : Edge)
    → get_elem? es m ≡ some edge
    → less edge.label label ≡ false
    → rank label es ≤ m
not_before label es m edge g large = elim (Bool-cases (ltb m (rank label es))) [
  | inl h ↦ cc (before_rank label es m edge g (ltb→lt m (rank label es) h), large)
  | inr h ↦ ground arith
]

-- One round of the search.
module _ (edges : List Edge) (label : Bytes) (fuel lo hi m : ℕ) (edge : Edge)
    (more : ltb lo hi ≡ true) (e : (lo + hi) / 2 ≡ m) (g : get_elem? edges m ≡ some edge) where
  bisect_up :
      less edge.label label ≡ true
      → bisect edges label (suc fuel) lo hi ≡ bisect edges label fuel (m + 1) hi
  unfolding bisect
  bisect_up h = rw (more, bisect, e, g, ◌>>=◌, h, e)

  bisect_down :
      less edge.label label ≡ false
      → bisect edges label (suc fuel) lo hi ≡ bisect edges label fuel lo m
  unfolding bisect
  bisect_down h = rw (more, bisect, e, g, ◌>>=◌, h, e)

module _ (label : Bytes) (edges : List Edge) (b : ℕ) (es : List Edge)
    (a : IsAscending (edge_labels es)) (holds : Holds edges b es) where
  bisect-rank :
      (fuel lo hi : ℕ)
      → hi < lo + fuel
      → lo ≤ rank label es
      → rank label es ≤ hi
      → hi ≤ length es
      → bisect edges label fuel (b + lo) (b + hi) ≡ some (b + rank label es)
  bisect-rank zero lo hi f l r n = absurd (omega arith)
  bisect-rank (suc fuel) lo hi f l r n = elim (Bool-cases (ltb (b + lo) (b + hi))) [
    | inr done ↦
        let k : lo ≡ rank label es = ground arith in
        unfold bisect in rw (done, bisect) (ap (λ r. some (b + r)) k)
    | inl more ↦
        let (m, e, low, high) =
          half_between b lo hi (omega (arith, ltb→lt (b + lo) (b + hi) more)) in
        let (edge, g) = get_elem?-some es m (omega arith) in
        let found : get_elem? edges (b + m) ≡ some edge = holds m (omega arith) ∙ g in
        elim (Bool-cases (less edge.label label)) [
          | inl small ↦
              bisect_up edges label fuel (b + lo) (b + hi) (b + m) edge more e found small
              ∙ ap (λ k. bisect edges label fuel k (b + hi)) (omega arith)
              ∙ bisect-rank fuel (m + 1) hi (omega arith)
                  (omega (arith, rank_bounds label es m edge a g small)) r n
          | inr large ↦
              bisect_down edges label fuel (b + lo) (b + hi) (b + m) edge more e found large
              ∙ bisect-rank fuel lo m (omega arith) l (not_before label es m edge g large)
                  (omega arith)
        ]
  ]

absent :
    (label : Bytes) (es : List Edge)
    → All (λ k. less label k ≡ true) (edge_labels es)
    → seek_edge label es ≡ none
unfolding seek_edge
absent label [] h = refl
absent label (e ∷ es) h = elim (Bool-cases (same e.label label)) [
  | inl eq ↦ cc (h.0, less_irrefl label, (same_iff e.label label).0 eq)
  | inr ne ↦ rw ne (absent label es h.1)
]

less-All :
    (label first : Bytes) (ls : List Bytes)
    → less label first ≡ true
    → All (λ k. less k first ≡ false) ls
    → All (λ k. less label k ≡ true) ls
less-All label first [] h a = tt
less-All label first (k ∷ ls) h a = (above k a.0, less-All label first ls h a.1)
  where
    above : (k : Bytes) → less k first ≡ false → less label k ≡ true
    above k n = elim (Bool-cases (less label k)) [
      | inl e ↦ e
      | inr m ↦ elim (Bool-cases (less k label)) [
        | inl e ↦ cc (less_trans k label first e h, n)
        | inr o ↦ cc (h, n, less_total label k m o)
      ]
    ]

less_flip : (a b : Bytes) → less a b ≡ false → same a b ≡ false → less b a ≡ true
less_flip a b h k = elim (Bool-cases (less b a)) [
  | inl e ↦ e
  | inr n ↦ cc (k, (same_iff a b).1 (less_total a b h n))
]

abbrev pick : Bytes → Option Edge → Option ℕ
pick label none = none
pick label (some e) = if same e.label label then some e.target else none

-- The search from the left stops where the smaller labels end.
seek_edge-rank :
    (label : Bytes) (es : List Edge)
    → IsAscending (edge_labels es)
    → pick label (get_elem? es (rank label es)) ≡ seek_edge label es
unfolding seek_edge rank
seek_edge-rank label [] a = refl
seek_edge-rank label (e ∷ es) a = elim (Bool-cases (less e.label label)) [
  | inl small ↦ elim (Bool-cases (same e.label label)) [
    | inl eq ↦ cc (small, less_irrefl label, (same_iff e.label label).0 eq)
    | inr ne ↦ rw (small, ne) (seek_edge-rank label es a.1)
  ]
  | inr large ↦ elim (Bool-cases (same e.label label)) [
    | inl eq ↦ rw (large, eq)
    | inr ne ↦
        rw (large, ne)
          (sym (
            absent label es
              (less-All label e.label (edge_labels es) (less_flip e.label label large ne) a.0)))
  ]
]

get_elem?-past : {A : Type 0} (xs : List A) → get_elem? xs (length xs) ≡ none
get_elem?-past [] = refl
get_elem?-past (x ∷ xs) = get_elem?-past xs

edge_at-pick :
    (label : Bytes) (edges : List Edge) (b : ℕ) (es : List Edge) (r : ℕ)
    → Holds edges b es
    → r ≤ length es
    → edge_at edges label (b + r) (b + length es) ≡ some (pick label (get_elem? es r))
edge_at-pick label edges b es r h n = elim (Bool-cases (b + r == b + length es)) [
  | inl last ↦ let e : r ≡ length es = ground arith in rw (last, e, get_elem?-past es)
  | inr inside ↦
      let (edge, g) = get_elem?-some es r (ground arith) in rw (inside, h r (ground arith), g)
]

-- The binary search over the ascending edges of a node, with one round more than it has edges,
-- ends and finds what a search from the left finds.
pub bisect-seek_edge :
    (label : Bytes) (edges : List Edge) (b : ℕ) (es : List Edge)
    → IsAscending (edge_labels es)
    → Holds edges b es
    → (do
      lo ← bisect edges label (suc (length es)) b (b + length es)
      edge_at edges label lo (b + length es))
      ≡ some (seek_edge label es)
bisect-seek_edge label edges b es a h =
    let r = rank label es in
    let e : b ≡ b + 0 = omega arith in
    let s : bisect edges label (suc (length es)) b (b + length es) ≡ some (b + r) =
      ap (λ k. bisect edges label (suc (length es)) k (b + length es)) e
      ∙ bisect-rank label edges b es a h (suc (length es)) 0 (length es) (omega arith) (omega arith)
          (rank-le label es) (omega arith) in
    rw (s, ◌>>=◌)
      (edge_at-pick label edges b es r h (rank-le label es) ∙ ap some (seek_edge-rank label es a))
