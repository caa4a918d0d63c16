-- ===== src/Headers/Reads.antt =====
-- Go's `http.Header`: reads behind writes.
use mitmania.Prelude.{
  ◌≡◌, refl, ap, ◌∙◌, true, false, List, [], ◌∷◌, if◌then◌else◌, Bytes, same, same_refl, same→eq,
  inl, inr, Bool-cases,
}
use mitmania.Headers.{Header, header_values, put_header, delete_header}

-- Two tests of one text agree.
pub same_left : (k a b : Bytes) → same k a ≡ true → same k b ≡ same a b
same_left k a b h = ap (λ t. same t b) (same→eq k a h)

differs : (k a b : Bytes) → same k a ≡ true → same a b ≡ false → same k b ≡ false
differs k a b h n = same_left k a b h ∙ n

pub header_values-put_header :
    (key other v : Bytes) (h : Header)
    → header_values other (put_header key v h)
      ≡ (if same key other then v ∷ [] else header_values other h)
unfolding header_values put_header
header_values-put_header key other v [] = refl
header_values-put_header key other v ((k, vs) ∷ h) = elim (Bool-cases (same k key)) [
  | inl e ↦ elim (Bool-cases (same key other)) [
    | inl t ↦ rw (e, same_left k key other e, t) refl
    | inr f ↦ rw (e, same_left k key other e, f) refl
  ]
  | inr e ↦ elim (Bool-cases (same k other)) [
    | inl t ↦ rw (e, header_values, t) (apart k key other vs h v e t)
    | inr f ↦ rw (e, header_values, f) (header_values-put_header key other v h)
  ]
]
  where
    apart :
        (k key other : Bytes) (vs : List Bytes) (h : Header) (v : Bytes)
        → same k key ≡ false
        → same k other ≡ true
        → vs ≡ (if same key other then v ∷ [] else vs)
    apart k key other vs h v e t = elim (Bool-cases (same key other)) [
      | inl s ↦ cc (e, same→eq k other t, same→eq key other s, same_refl k)
      | inr s ↦ rw s refl
    ]

pub header_values-delete_header :
    (key other : Bytes) (h : Header)
    → header_values other (delete_header key h)
      ≡ (if same key other then [] else header_values other h)
unfolding header_values delete_header
header_values-delete_header key other [] = elim (Bool-cases (same key other)) [
  | inl e ↦ rw e refl
  | inr e ↦ rw e refl
]
header_values-delete_header key other ((k, vs) ∷ h) = elim (Bool-cases (same k key)) [
  | inl e ↦ elim (Bool-cases (same key other)) [
    | inl t ↦ rw (e, delete_header, t) (header_values-delete_header key other h ∙ rw t refl)
    | inr f ↦
        rw (e, delete_header, f, header_values, differs k key other e f)
          (header_values-delete_header key other h ∙ rw f refl)
  ]
  | inr e ↦ elim (Bool-cases (same k other)) [
    | inl t ↦ elim (Bool-cases (same key other)) [
      | inl s ↦ cc (e, same→eq k other t, same→eq key other s, same_refl k)
      | inr s ↦ rw (e, delete_header, header_values, t, s) refl
    ]
    | inr f ↦ rw (e, delete_header, header_values, f) (header_values-delete_header key other h)
  ]
]
