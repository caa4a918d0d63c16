-- ===== src/Rules/HostTree/Trie.antt =====
-- The tree of internal/rules/host_index.go before it is compacted: what a lookup along the labels of
-- a host collects, and what an insertion adds to it.
use mathlib.Core.Path.{subst}
use mitmania.Prelude.{
  ℕ, ◌<◌, ◌≡◌, refl, sym, true, Option, none, some, List, [], ◌∷◌, ◌++◌, arith, inl, inr,
  if◌then◌else◌, Bytes, Bool-cases, Option-cases, same, same_iff, same_refl, In, In-append_left,
  In-append_right, All,
}
use mitmania.Rules.HostTree.{
  Node, Children, node, nil, child, leaf, rules_of, children_of, add_rule, last_is, update_child,
  insert_path,
}

unfoldable pub child_of : Bytes → Children → Option Node
child_of l nil = none
child_of l (child k n more) = if same k l then some n else child_of l more

-- The rule numbers on the way along the labels, those of the root left out.
unfoldable pub collect : Node → List Bytes → List ℕ
unfolding child_of
collect n [] = []
collect n (l ∷ ls) = elim (child_of l (children_of n)) [
  | none ↦ []
  | some c ↦ rules_of c ++ collect c ls
]

abbrev AtSome : Option Node → (Node → Type 0) → Type 0
AtSome none P = ⊥
AtSome (some c) P = P c

-- The node at the end of the labels holds the rule.
pub Held : Node → List Bytes → ℕ → Type 0
Held n [] id = In id (rules_of n)
Held n (l ∷ ls) id = AtSome (child_of l (children_of n)) (λ c. Held c ls id)

abbrev or_leaf : Option Node → Node
or_leaf none = leaf
or_leaf (some n) = n

child_of-update_child :
    (k l : Bytes) (f : Node → Node) (cs : Children)
    → child_of l (update_child k f cs)
      ≡ (if same k l then some (f (or_leaf (child_of k cs))) else child_of l cs)
unfolding child_of update_child
child_of-update_child k l f nil = ground arith
child_of-update_child k l f (child j n more) =
    ground (arith, child_of-update_child k l f more, same_iff k l, same_iff j k, same_iff j l)

add_rule_self : (id : ℕ) (rules : List ℕ) → In id (add_rule id rules)
unfolding add_rule last_is
add_rule_self id rules = elim (Bool-cases (last_is id rules)) [
  | inl h ↦ rw h (last_in rules h)
  | inr h ↦ rw h (In-append_right id rules (id ∷ []) (inl refl))
]
  where
    last_in : (rs : List ℕ) → last_is id rs ≡ true → In id rs
    last_in [] h = cc h
    last_in (r ∷ []) h = inl (ground arith)
    last_in (r ∷ s ∷ rest) h = inr (last_in (s ∷ rest) h)

add_rule-keeps : (id j : ℕ) (rules : List ℕ) → In j rules → In j (add_rule id rules)
unfolding add_rule
add_rule-keeps id j rules h = elim (Bool-cases (last_is id rules)) [
  | inl e ↦ rw e h
  | inr e ↦ rw e (In-append_left j rules (id ∷ []) h)
]

-- An inserted rule is held at its path.
pub insert_path-Held : (ls : List Bytes) (id : ℕ) (n : Node) → Held (insert_path ls id n) ls id
unfolding insert_path Held
insert_path-Held [] id (node cs rules) = add_rule_self id rules
insert_path-Held (l ∷ ls) id (node cs rules) =
    rw (child_of-update_child l l (insert_path ls id) cs, same_refl l)
      (insert_path-Held ls id (or_leaf (child_of l cs)))

Held-leaf : (ls : List Bytes) (j : ℕ) → Held leaf ls j → ⊥
unfolding Held child_of
Held-leaf [] j h = h
Held-leaf (l ∷ ls) j h = h

AtSome-or_leaf : (o : Option Node) (P : Node → Type 0) → AtSome o P → P (or_leaf o)
AtSome-or_leaf none P h = absurd h
AtSome-or_leaf (some n) P h = h

-- An insertion keeps what is held.
pub Held-insert_path :
    (qs : List Bytes) (j : ℕ) (ls : List Bytes) (id : ℕ) (n : Node)
    → Held n qs j
    → Held (insert_path ls id n) qs j
unfolding insert_path Held
Held-insert_path [] j [] id (node cs rules) h = add_rule-keeps id j rules h
Held-insert_path [] j (l ∷ ls) id (node cs rules) h = h
Held-insert_path (q ∷ qs) j [] id (node cs rules) h = h
Held-insert_path (q ∷ qs) j (l ∷ ls) id (node cs rules) h =
    rw (child_of-update_child l q (insert_path ls id) cs) (elim (Bool-cases (same l q)) [
      | inr ne ↦ rw ne h
      | inl eq ↦
          let found =
            subst (λ k. AtSome (child_of k cs) (λ c. Held c qs j)) (sym ((same_iff l q).0 eq)) h in
          rw eq (
            Held-insert_path qs j ls id (or_leaf (child_of l cs))
              (AtSome-or_leaf (child_of l cs) (λ c. Held c qs j) found))
    ])

-- What is held on the way is collected.
pub Held-collect :
    (ls : List Bytes) (l : Bytes) (more : List Bytes) (id : ℕ) (n : Node)
    → Held n (l ∷ ls) id
    → In id (collect n (l ∷ ls ++ more))
unfolding collect Held
Held-collect [] l more id n h = elim (Option-cases (child_of l (children_of n))) [
  | inl e ↦ absurd (rw (e, Held) at h)
  | inr (c, e) ↦
      rw (e, collect) (In-append_left id (rules_of c) (collect c more) (rw (e, Held) at h))
]
Held-collect (k ∷ ls) l more id n h = elim (Option-cases (child_of l (children_of n))) [
  | inl e ↦ absurd (rw (e, Held) at h)
  | inr (c, e) ↦
      rw (e, collect)
        (In-append_right id (rules_of c) (collect c (k ∷ ls ++ more))
          (Held-collect ls k more id c (rw (e, Held) at h)))
]

-- Every rule number in the tree is below the bound.
mutual
  pub data IsBelow (b : ℕ) : Node → Type 0 where
    both :
        {cs : Children} {rules : List ℕ}
        → AreBelow b cs
        → All (λ r. r < b) rules
        → IsBelow b (node cs rules)

  pub data AreBelow (b : ℕ) : Children → Type 0 where
    no_more : AreBelow b nil
    one_more :
        {l : Bytes} {n : Node} {cs : Children}
        → IsBelow b n
        → AreBelow b cs
        → AreBelow b (child l n cs)

IsBelow-rules : {b : ℕ} {n : Node} → IsBelow b n → All (λ r. r < b) (rules_of n)
IsBelow-rules (both cs rules) = rules

update_child-AreBelow :
    {b : ℕ} (l : Bytes) (f : Node → Node) (cs : Children)
    → ((n : Node) → IsBelow b n → IsBelow b (f n))
    → AreBelow b cs
    → AreBelow b (update_child l f cs)
unfolding update_child
update_child-AreBelow l f nil keep no_more = one_more (keep leaf (both no_more tt)) no_more
update_child-AreBelow l f (child k n more) keep (one_more hn hs) = elim (Bool-cases (same k l)) [
  | inl e ↦ rw e (one_more (keep n hn) hs)
  | inr e ↦ rw e (one_more hn (update_child-AreBelow l f more keep hs))
]

pub All-append :
    {A : Type 0} (P : A → Type 0) (xs ys : List A) → All P xs → All P ys → All P (xs ++ ys)
All-append P [] ys h k = k
All-append P (x ∷ xs) ys h k = (h.0, All-append P xs ys h.1 k)

add_rule-below :
    (b id : ℕ) (rules : List ℕ)
    → id < b
    → All (λ r. r < b) rules
    → All (λ r. r < b) (add_rule id rules)
unfolding add_rule
add_rule-below b id rules h k = elim (Bool-cases (last_is id rules)) [
  | inl e ↦ rw e k
  | inr e ↦ rw e (All-append (λ r. r < b) rules (id ∷ []) k (h, tt))
]

pub insert_path-IsBelow :
    (b : ℕ) (ls : List Bytes) (id : ℕ) (n : Node)
    → id < b
    → IsBelow b n
    → IsBelow b (insert_path ls id n)
unfolding insert_path
insert_path-IsBelow b [] id (node cs rules) h (both hs hr) =
    both hs (add_rule-below b id rules h hr)
insert_path-IsBelow b (l ∷ ls) id (node cs rules) h (both hs hr) =
    both (update_child-AreBelow l (insert_path ls id) cs (λ n. insert_path-IsBelow b ls id n h) hs)
      hr

child_of-IsBelow :
    {b : ℕ} (l : Bytes) (cs : Children) (c : Node)
    → AreBelow b cs
    → child_of l cs ≡ some c
    → IsBelow b c
unfolding child_of
child_of-IsBelow l nil c no_more e = cc e
child_of-IsBelow {b} l (child k n more) c (one_more hn hs) e = elim (Bool-cases (same k l)) [
  | inl eq ↦
      let found : some n ≡ some c = rw (eq, child_of) at e in
      let this : n ≡ c = cc found in subst (IsBelow b) this hn
  | inr ne ↦ child_of-IsBelow l more c hs (rw (ne, child_of) at e)
]

children_of-AreBelow : {b : ℕ} {n : Node} → IsBelow b n → AreBelow b (children_of n)
children_of-AreBelow (both hs hr) = hs

-- A lookup collects numbers below the bound.
pub collect-below :
    (b : ℕ) (ls : List Bytes) (n : Node) → IsBelow b n → All (λ r. r < b) (collect n ls)
unfolding collect
collect-below b [] n h = tt
collect-below b (l ∷ ls) n h = elim (Option-cases (child_of l (children_of n))) [
  | inl e ↦ rw (e, collect) tt
  | inr (c, e) ↦
      let below = child_of-IsBelow l (children_of n) c (children_of-AreBelow h) e in
      rw (e, collect)
        (All-append (λ r. r < b) (rules_of c) (collect c ls) (IsBelow-rules below)
          (collect-below b ls c below))
]
