-- ===== src/Rules/Labels/Names.antt =====
-- isLiteralDNSLabel of internal/rules/host_index.go: what a literal label is, without the code's tests.
use mitmania.Prelude.{
  ℕ, ◌≤◌, ◌≡◌, refl, ap, ◌∙◌, true, false, List, [], ◌∷◌, ◌++◌, arith, ◌⊎◌, inl, inr, ◌==◌, ◌||◌,
  Bytes, Bool-cases, All, and_parts,
}
use mitmania.Rules.Pattern.Glob.{is_empty}
use mitmania.Rules.Labels.{
  cons_head, split, join, is_label_byte, all_label_bytes, ends_in, starts_in, is_literal_dns_label,
  dot, IsHost, AreLabels,
}
use mitmania.Rules.Labels.Splitting.{split-append}

-- A lower-case letter, a digit or a hyphen
abbrev pub IsNameByte : ℕ → Type 0
IsNameByte c = ((b'a' ≤ c) × (c ≤ b'z')) ⊎ (((b'0' ≤ c) × (c ≤ b'9')) ⊎ (c ≡ b'-'))

-- A label of such bytes, with no hyphen at either end
pub record IsName (label : Bytes) : Type 0 where
  pub bytes : All IsNameByte label
  pub nonempty : ¬ (label ≡ [])
  pub starts : (rest : Bytes) → ¬ (label ≡ b'-' ∷ rest)
  pub ends : (front : Bytes) → ¬ (label ≡ front ++ b'-' ∷ [])

-- A host, each of whose labels is such a name
abbrev pub IsLiteral : Bytes → Type 0
IsLiteral q = IsHost q × All IsName (split dot q)

name_bytes : (l : Bytes) → all_label_bytes l ≡ true → All IsNameByte l
unfolding all_label_bytes
name_bytes [] h = tt
name_bytes (c ∷ l) h =
    let (this, more) = and_parts (is_label_byte c) (all_label_bytes l) h in
    (ground (arith, this), name_bytes l more)

ends_in-snoc : (d : ℕ) (front : Bytes) → ends_in d (front ++ d ∷ []) ≡ true
unfolding ends_in
ends_in-snoc d [] = ground arith
ends_in-snoc d (c ∷ []) = ground arith
ends_in-snoc d (c ∷ b ∷ front) = ends_in-snoc d (b ∷ front)

pub label-IsName : (l : Bytes) → is_literal_dns_label l ≡ true → IsName l
unfolding is_literal_dns_label
label-IsName l h = elim (Bool-cases (is_empty l || starts_in b'-' l || ends_in b'-' l)) [
  | inl bad ↦ cc (rw bad at h)
  | inr good ↦ record {
    bytes = name_bytes l (rw good at h);
    nonempty = λ e. cc (rw e at good);
    starts = λ rest e. cc (rw e at good);
    ends = λ front e.
        let last : ends_in b'-' l ≡ true = ap (ends_in b'-') e ∙ ends_in-snoc b'-' front in
        ground (arith, good, last);
  }
]

pub AreLabels-AreNames : (ls : List Bytes) → AreLabels ls → All IsName ls
AreLabels-AreNames [] h = tt
AreLabels-AreNames (l ∷ ls) h = (label-IsName l h.0, AreLabels-AreNames ls h.1)

pub All-IsHost : (qs : List Bytes) → All IsLiteral qs → All IsHost qs
All-IsHost [] h = tt
All-IsHost (q ∷ qs) h = (h.0.0, All-IsHost qs h.1)

split-label : (l : Bytes) → all_label_bytes l ≡ true → split dot l ≡ l ∷ []
unfolding split all_label_bytes
split-label [] h = refl
split-label (c ∷ l) h =
    let (this, more) = and_parts (is_label_byte c) (all_label_bytes l) h in
    let other : (c == dot) ≡ false = ground (arith, this) in
    rw (other, split) (ap (cons_head c) (split-label l more))

label_bytes : (l : Bytes) → is_literal_dns_label l ≡ true → all_label_bytes l ≡ true
unfolding is_literal_dns_label
label_bytes l h = elim (Bool-cases (is_empty l || starts_in b'-' l || ends_in b'-' l)) [
  | inl bad ↦ cc (rw bad at h)
  | inr good ↦ rw good at h
]

-- Labels joined by dots are split into the labels again.
pub split-join :
    (l : Bytes) (ls : List Bytes) → AreLabels (l ∷ ls) → split dot (join dot (l ∷ ls)) ≡ l ∷ ls
unfolding join
split-join l [] h = split-label l (label_bytes l h.0)
split-join l (m ∷ ls) h =
    split-append dot l (join dot (m ∷ ls))
    ∙ ap (λ r. r ++ split dot (join dot (m ∷ ls))) (split-label l (label_bytes l h.0))
    ∙ ap (λ r. l ∷ r) (split-join m ls h.1)
