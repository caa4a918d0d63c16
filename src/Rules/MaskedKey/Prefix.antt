-- ===== src/Rules/MaskedKey/Prefix.antt =====
-- internal/rules/defaultruleset.go: the masks that `contiguousPrefixLen` takes for a prefix.
use mathlib.Core.Path.{subst}
use mitmania.Prelude.{
  ℕ, ◌+◌, ◌<◌, ◌≡◌, refl, sym, true, some, [], ◌∷◌, ◌==◌, ==_iff, and_parts, Bool-cases, All, inl,
  inr, Bytes, arith,
}
use mitmania.Rules.MaskedKey.{
  full_bytes, leading_bits, all_zero, lead_mask, prefix_len_rest, contiguous_prefix_len,
}
use mitmania.Rules.MaskedKey.Table.{leading_bits-bound}

abbrev pub AreBytes : Bytes → Type 0
AreBytes = All (λ b. b < 256)

abbrev pub AreZero : Bytes → Type 0
AreZero = All (λ b. b ≡ 0)

-- Full bytes, then one byte with leading bits, then nothing.
pub data HasLen : Bytes → ℕ → Type 0 where
  ended : HasLen [] 0
  partly : {mask : Bytes} (lead : ℕ) → lead < 9 → AreZero mask → HasLen (lead_mask lead ∷ mask) lead
  whole : {mask : Bytes} {n : ℕ} → HasLen mask n → HasLen (255 ∷ mask) (8 + n)

all_zero-AreZero : (mask : Bytes) → all_zero mask ≡ true → AreZero mask
unfolding all_zero
all_zero-AreZero [] h = tt
all_zero-AreZero (b ∷ mask) h =
    let (this, more) = and_parts (b == 0) (all_zero mask) h in
    ((==_iff b 0).0 this, all_zero-AreZero mask more)

rest-HasLen :
    (k : ℕ) (mask : Bytes) (n : ℕ)
    → AreBytes mask
    → prefix_len_rest k mask ≡ some n
    → (m : ℕ) × (n ≡ k + m) × HasLen mask m
unfolding prefix_len_rest
rest-HasLen k [] n a h = (0, cc (h, plus_zero), ended)
  where
    plus_zero : k + 0 ≡ k
    plus_zero = omega arith
rest-HasLen k (b ∷ mask) n a h = elim (Bool-cases (b == lead_mask (leading_bits 8 b))) [
  | inr e ↦ cc (rw e at h)
  | inl e ↦ elim (Bool-cases (all_zero mask)) [
    | inr f ↦ cc (rw (e, f) at h)
    | inl f ↦
        let len : k + leading_bits 8 b ≡ n = cc (rw (e, f) at h) in
        (
          leading_bits 8 b,
          sym len,
          subst (λ c. HasLen (c ∷ mask) (leading_bits 8 b))
              (sym ((==_iff b (lead_mask (leading_bits 8 b))).0 e))
              (partly (leading_bits 8 b) (leading_bits-bound b a.0) (all_zero-AreZero mask f)),
        )
  ]
]

rest-skip :
    (k : ℕ) (mask : Bytes) (n : ℕ)
    → prefix_len_rest (k + 8) mask ≡ some n
    → (m : ℕ) × (prefix_len_rest k mask ≡ some m) × (n ≡ m + 8)
unfolding prefix_len_rest
rest-skip k [] n h = (k, refl, cc h)
rest-skip k (b ∷ mask) n h = elim (Bool-cases (b == lead_mask (leading_bits 8 b))) [
  | inr e ↦ cc (rw e at h)
  | inl e ↦ elim (Bool-cases (all_zero mask)) [
    | inr f ↦ cc (rw (e, f) at h)
    | inl f ↦
        let len : k + 8 + leading_bits 8 b ≡ n = cc (rw (e, f) at h) in
        (k + leading_bits 8 b, rw (e, f) refl, omega (arith, len))
  ]
]

-- A mask taken for a prefix
pub contiguous_prefix_len-HasLen :
    (mask : Bytes) (n : ℕ) → AreBytes mask → contiguous_prefix_len mask ≡ some n → HasLen mask n
unfolding contiguous_prefix_len full_bytes
contiguous_prefix_len-HasLen [] n a h =
    let (m, e, l) = rest-HasLen 0 [] n a h in subst (HasLen []) (omega (arith, e)) l
contiguous_prefix_len-HasLen (b ∷ mask) n a h = elim (Bool-cases (b == 255)) [
  | inl e ↦
      let (m, inner, len) =
        rest-skip (full_bytes mask).0 (full_bytes mask).1 n (rw (e, full_bytes) at h) in
      let ih : HasLen mask m = contiguous_prefix_len-HasLen mask m a.1 inner in
      subst (λ c. HasLen (c ∷ mask) n) (sym ((==_iff b 255).0 e))
        (subst (HasLen (255 ∷ mask)) (omega (arith, len)) (whole ih))
  | inr e ↦
      let (m, len, l) = rest-HasLen 0 (b ∷ mask) n a (rw (e, full_bytes) at h) in
      subst (HasLen (b ∷ mask)) (omega (arith, len)) l
]
