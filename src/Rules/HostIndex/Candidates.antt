-- ===== src/Rules/HostIndex/Candidates.antt =====
-- `appendCandidates` of internal/rules/host_index.go: what the candidates of a host are.
use mathlib.Core.List.{append-nil, append_assoc, reverse-append}
use mathlib.Core.List
use mitmania.Prelude.{
  ℕ, ◌≡◌, refl, sym, ap, ◌∙◌, true, false, List, [], ◌∷◌, ◌++◌, inl, inr, Bytes, Bool-cases, ◌==◌,
  if◌then◌else◌,
}
use mitmania.Rules.Labels.{dot, IsHost, Covers, starts_in, ends_in}
use mitmania.Rules.Pattern.Glob.{is_empty}
use mitmania.Rules.HostTree.{walk, host_labels}
use mitmania.Rules.HostIndex.{trim_dot}

walk_one :
    (c : ℕ) (b label : Bytes)
    → (c == dot) ≡ false
    → walk (c ∷ dot ∷ b) label ≡ walk (c ∷ []) label ++ (if is_empty b then [] else walk b [])
unfolding walk
walk_one c [] label h = rw h
walk_one c (d ∷ b) label h = rw h

walk_step_dot :
    (c d : ℕ) (r label : Bytes)
    → (c == dot) ≡ true
    → walk (c ∷ d ∷ r) label ≡ label ∷ walk (d ∷ r) []
unfolding walk
walk_step_dot c d r label h = rw (h, walk)

walk_step :
    (c d : ℕ) (r label : Bytes)
    → (c == dot) ≡ false
    → walk (c ∷ d ∷ r) label ≡ walk (d ∷ r) (c ∷ label)
unfolding walk
walk_step c d r label h = rw (h, walk)

walk-append :
    (a b : Bytes) (label : Bytes)
    → is_empty a ≡ false
    → ends_in dot a ≡ false
    → walk (a ++ dot ∷ b) label ≡ walk a label ++ (if is_empty b then [] else walk b [])
unfolding ends_in
walk-append [] b label n h = cc n
walk-append (c ∷ []) b label n h = walk_one c b label h
walk-append (c ∷ d ∷ a) b label n h = elim (Bool-cases (c == dot)) [
  | inl e ↦
      rw (walk_step_dot c d (a ++ dot ∷ b) label e, walk_step_dot c d a label e)
        (ap (λ r. label ∷ r) (walk-append (d ∷ a) b [] refl h))
  | inr e ↦
      rw (walk_step c d (a ++ dot ∷ b) label e, walk_step c d a label e)
        (walk-append (d ∷ a) b (c ∷ label) refl h)
]

ends_in-last : (a : Bytes) (c : ℕ) → ends_in dot (a ++ c ∷ []) ≡ (c == dot)
unfolding ends_in
ends_in-last [] c = refl
ends_in-last (x ∷ []) c = refl
ends_in-last (x ∷ y ∷ a) c = ends_in-last (y ∷ a) c

reverse_cons : (c : ℕ) (q : Bytes) → List.reverse (c ∷ q) ≡ List.reverse q ++ c ∷ []
reverse_cons c q = reverse-append (c ∷ []) q

reverse_ends : (q : Bytes) → starts_in dot q ≡ false → ends_in dot (List.reverse q) ≡ false
reverse_ends [] h = unfold ends_in in refl
reverse_ends (c ∷ q) h = ap (ends_in dot) (reverse_cons c q) ∙ ends_in-last (List.reverse q) c ∙ h

reverse_nonempty : (q : Bytes) → is_empty q ≡ false → is_empty (List.reverse q) ≡ false
reverse_nonempty [] h = h
reverse_nonempty (c ∷ q) h = ap is_empty (reverse_cons c q) ∙ snoc_nonempty (List.reverse q)
  where
    snoc_nonempty : (a : Bytes) → is_empty (a ++ c ∷ []) ≡ false
    snoc_nonempty [] = refl
    snoc_nonempty (d ∷ a) = refl

host_labels-walk : (q : Bytes) → is_empty q ≡ false → host_labels q ≡ walk (List.reverse q) []
unfolding host_labels
host_labels-walk q h = rw h

dotted_nonempty : (y q : Bytes) → is_empty (y ++ dot ∷ q) ≡ false
dotted_nonempty [] q = refl
dotted_nonempty (c ∷ y) q = refl

reverse_dotted :
    (y q : Bytes) → List.reverse (y ++ dot ∷ q) ≡ List.reverse q ++ dot ∷ List.reverse y
reverse_dotted y q =
    reverse-append y (dot ∷ q)
    ∙ ap (λ r. r ++ List.reverse y) (reverse_cons dot q)
    ∙ append_assoc (List.reverse q) (dot ∷ []) (List.reverse y)

-- The labels of a text that a host covers start with the host's.
pub Covers-host_labels :
    (q s : Bytes)
    → IsHost q
    → Covers q s
    → (more : List Bytes) × (host_labels s ≡ host_labels q ++ more)
Covers-host_labels q s h (inl e) = ([], ap host_labels e ∙ sym (append-nil (host_labels q)))
Covers-host_labels q s h (inr (y, e)) =
    let back = List.reverse y in
    (
      if is_empty back then [] else walk back [],
      ap host_labels e
          ∙ host_labels-walk (y ++ dot ∷ q) (dotted_nonempty y q)
          ∙ ap (λ r. walk r []) (reverse_dotted y q)
          ∙ walk-append (List.reverse q) back [] (reverse_nonempty q h.nonempty)
              (reverse_ends q h.starts)
          ∙ ap (λ r. r ++ (if is_empty back then [] else walk back []))
              (sym (host_labels-walk q h.nonempty)),
    )

trim_dot-same : (s : Bytes) → ends_in dot s ≡ false → trim_dot s ≡ s
unfolding trim_dot ends_in
trim_dot-same [] h = refl
trim_dot-same (c ∷ []) h = rw h
trim_dot-same (c ∷ d ∷ s) h = ap (λ r. c ∷ r) (trim_dot-same (d ∷ s) h)

ends_in-dotted : (y q : Bytes) → is_empty q ≡ false → ends_in dot (y ++ dot ∷ q) ≡ ends_in dot q
unfolding ends_in
ends_in-dotted [] [] h = cc h
ends_in-dotted [] (c ∷ q) h = refl
ends_in-dotted (x ∷ []) q h = unfold ends_in in ends_in-dotted [] q h
ends_in-dotted (x ∷ z ∷ y) q h = ends_in-dotted (z ∷ y) q h

-- A text that a host covers has no dot at its end to trim.
pub Covers-trim_dot : (q s : Bytes) → IsHost q → Covers q s → trim_dot s ≡ s
Covers-trim_dot q s h (inl e) = trim_dot-same s (ap (ends_in dot) e ∙ h.ends)
Covers-trim_dot q s h (inr (y, e)) =
    trim_dot-same s (ap (ends_in dot) e ∙ ends_in-dotted y q h.nonempty ∙ h.ends)

walk-nonempty : (r label : Bytes) → is_empty (walk r label) ≡ false
unfolding walk
walk-nonempty [] label = refl
walk-nonempty (c ∷ r) label = elim (Bool-cases (c == dot)) [
  | inr e ↦ rw (e, walk) (walk-nonempty r (c ∷ label))
  | inl e ↦ elim (Bool-cases (is_empty r)) [
    | inl b ↦ rw (e, walk, b) refl
    | inr b ↦ rw (e, walk, b) refl
  ]
]

-- A host has a label.
pub host_labels-cons :
    (q : Bytes) → IsHost q → (l : Bytes) × (ls : List Bytes) × (host_labels q ≡ l ∷ ls)
host_labels-cons q h =
    go (host_labels q)
      (ap is_empty (host_labels-walk q h.nonempty) ∙ walk-nonempty (List.reverse q) [])
  where
    go : (xs : List Bytes) → is_empty xs ≡ false → (l : Bytes) × (ls : List Bytes) × (xs ≡ l ∷ ls)
    go [] n = cc n
    go (l ∷ ls) n = (l, ls, refl)
