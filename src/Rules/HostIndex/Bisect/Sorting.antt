-- ===== src/Rules/HostIndex/Bisect/Sorting.antt =====
-- compactHostIndex of internal/rules/host_index.go: the order of a node's edges.
use mitmania.Prelude.{
  ℕ, suc, ◌≡◌, refl, ap, true, false, List, [], ◌∷◌, inl, inr, Bytes, Bool-cases, All, less,
  less_irrefl, less_trans,
}
use mitmania.Rules.HostTree.{Node, Children, nil, child}
use mitmania.Rules.HostIndex.{Kids, insert_kid, sort_children, number_edges}
use mitmania.Rules.HostIndex.Bisect.{IsAscending, edge_labels, kid_labels, not_less_trans}

less_asym : (a b : Bytes) → less a b ≡ true → less b a ≡ false
less_asym a b h = elim (Bool-cases (less b a)) [
  | inl e ↦ cc (less_trans a b a h e, less_irrefl a)
  | inr n ↦ n
]

All-not_less :
    (k l : Bytes) (ls : List Bytes)
    → less k l ≡ false
    → All (λ x. less x k ≡ false) ls
    → All (λ x. less x l ≡ false) ls
All-not_less k l [] h a = tt
All-not_less k l (x ∷ ls) h a = (
  elim (Bool-cases (less x l)) [ inl e ↦ cc (not_less_trans x k l e a.0, h) | inr n ↦ n ],
  All-not_less k l ls h a.1,
)

-- The children of a node are numbered in the order of their labels.
insert_kid-below :
    (x l : Bytes) (n : Node) (kids : Kids)
    → less l x ≡ false
    → All (λ k. less k x ≡ false) (kid_labels kids)
    → All (λ k. less k x ≡ false) (kid_labels (insert_kid l n kids))
unfolding insert_kid
insert_kid-below x l n [] h a = (h, tt)
insert_kid-below x l n ((k, m) ∷ kids) h a = elim (Bool-cases (less k l)) [
  | inl e ↦ rw e (a.0, insert_kid-below x l n kids h a.1)
  | inr e ↦ rw e (h, a)
]

insert_kid-IsAscending :
    (l : Bytes) (n : Node) (kids : Kids)
    → IsAscending (kid_labels kids)
    → IsAscending (kid_labels (insert_kid l n kids))
unfolding insert_kid
insert_kid-IsAscending l n [] a = (tt, tt)
insert_kid-IsAscending l n ((k, m) ∷ kids) a = elim (Bool-cases (less k l)) [
  | inl e ↦
      rw e (insert_kid-below k l n kids (less_asym k l e) a.0, insert_kid-IsAscending l n kids a.1)
  | inr e ↦ rw e ((e, All-not_less k l (kid_labels kids) e a.0), a)
]

sort_children-IsAscending : (cs : Children) → IsAscending (kid_labels (sort_children cs))
unfolding sort_children
sort_children-IsAscending nil = tt
sort_children-IsAscending (child l n more) =
    insert_kid-IsAscending l n (sort_children more) (sort_children-IsAscending more)

number_edges-labels : (k : ℕ) (kids : Kids) → edge_labels (number_edges k kids) ≡ kid_labels kids
unfolding number_edges
number_edges-labels k [] = refl
number_edges-labels k ((l, n) ∷ kids) = ap (λ r. l ∷ r) (number_edges-labels (suc k) kids)

pub number_edges-IsAscending :
    (k : ℕ) (cs : Children) → IsAscending (edge_labels (number_edges k (sort_children cs)))
number_edges-IsAscending k cs =
    rw (number_edges-labels k (sort_children cs)) (sort_children-IsAscending cs)
