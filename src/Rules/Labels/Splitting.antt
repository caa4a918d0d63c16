-- ===== src/Rules/Labels/Splitting.antt =====
-- Go's strings.Split and strings.Join at one byte, which internal/rules/host_index.go uses at dots.
use mathlib.Core.List.{append_assoc}
use mitmania.Prelude.{
  ℕ, ◌≡◌, refl, sym, ap, ◌∙◌, false, List, [], ◌∷◌, ◌++◌, inl, inr, ◌==◌, Bytes, Bool-cases, ==_iff,
}
use mitmania.Rules.Pattern.Glob.{is_empty}
use mitmania.Rules.Labels.{cons_head, split, join}

pub split-ne-nil : (d : ℕ) (s : Bytes) → is_empty (split d s) ≡ false
unfolding split
split-ne-nil d [] = refl
split-ne-nil d (c ∷ s) = elim (Bool-cases (c == d)) [
  | inl e ↦ rw e
  | inr n ↦ rw n (cons_head_ne c (split d s))
]
  where
    cons_head_ne : (c : ℕ) (ls : List Bytes) → is_empty (cons_head c ls) ≡ false
    cons_head_ne c [] = refl
    cons_head_ne c (l ∷ ls) = refl

join-nil_head : (d : ℕ) (ls : List Bytes) → is_empty ls ≡ false → join d ([] ∷ ls) ≡ d ∷ join d ls
unfolding join
join-nil_head d [] h = cc h
join-nil_head d (l ∷ ls) h = refl

join-cons_head :
    (d c : ℕ) (ls : List Bytes) → is_empty ls ≡ false → join d (cons_head c ls) ≡ c ∷ join d ls
unfolding join
join-cons_head d c [] h = cc
join-cons_head d c (l ∷ []) h = refl
join-cons_head d c (l ∷ m ∷ ls) h = refl

-- Splitting and joining again gives the text back.
pub join-split : (d : ℕ) (s : Bytes) → join d (split d s) ≡ s
unfolding split
join-split d [] = unfold join in refl
join-split d (c ∷ s) = elim (Bool-cases (c == d)) [
  | inl e ↦
      rw e (join-nil_head d (split d s) (split-ne-nil d s) ∙ cc ((==_iff c d).0 e, join-split d s))
  | inr n ↦
      rw n (join-cons_head d c (split d s) (split-ne-nil d s) ∙ ap (λ r. c ∷ r) (join-split d s))
]

pub join-append :
    (d : ℕ) (l : Bytes) (ls : List Bytes) (m : Bytes) (ms : List Bytes)
    → join d ((l ∷ ls) ++ m ∷ ms) ≡ join d (l ∷ ls) ++ d ∷ join d (m ∷ ms)
unfolding join
join-append d l [] m ms = refl
join-append d l (k ∷ ls) m ms =
    ap (λ r. l ++ d ∷ r) (join-append d k ls m ms)
    ∙ sym (append_assoc l (d ∷ join d (k ∷ ls)) (d ∷ join d (m ∷ ms)))

cons_head-append :
    (c : ℕ) (ls ms : List Bytes)
    → is_empty ls ≡ false
    → cons_head c (ls ++ ms) ≡ cons_head c ls ++ ms
cons_head-append c [] ms h = cc h
cons_head-append c (l ∷ ls) ms h = refl

pub split-append : (d : ℕ) (a b : Bytes) → split d (a ++ d ∷ b) ≡ split d a ++ split d b
unfolding split
split-append d [] b = rw ((==_iff d d).1 refl) refl
split-append d (c ∷ a) b = elim (Bool-cases (c == d)) [
  | inl e ↦ rw (e, split) (ap (λ r. [] ∷ r) (split-append d a b))
  | inr e ↦
      rw (e, split)
        (ap (cons_head c) (split-append d a b)
          ∙ cons_head-append c (split d a) (split d b) (split-ne-nil d a))
]
