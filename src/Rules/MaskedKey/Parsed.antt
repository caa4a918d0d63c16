-- ===== src/Rules/MaskedKey/Parsed.antt =====
-- `parseMaskedKey` of internal/rules/defaultruleset.go: the shape of a key that it reads.
use Prim.Native.Nat.{bit_or}
use mathlib.Core.Path.{subst}
use mitmania.Prelude.{
  ℕ, zero, suc, ◌-◌, ◌*◌, ◌/◌, ◌%◌, ◌^◌, ◌<◌, ◌≡◌, refl, true, Option, none, some, [], ◌∷◌, ltb,
  if◌then◌else◌, Bytes, length, ◌⊎◌, inl, inr, Bool-cases, ap, ◌∙◌, ltb→lt, arith, bind_some,
  some_injective,
}
use mitmania.Rules.Egress.{cut}
use mitmania.Rules.MaskedKey.{
  MaskedKey, is_decimal, decimal, or_at, set_bits, zeros, prefix_mask, clear_bits, same_bool, is_v4,
  mask_of_length, literal_mask, mask_of, parse_masked_key,
}
use mitmania.Rules.MaskedKey.Prefix.{AreBytes}
use mitmania.Rules.MaskedKey.Table.{every, every-holds}

-- The bytes of an address.
abbrev pub IsAddress : Bytes → Type 0
IsAddress a = AreBytes a × ((length a ≡ 4) ⊎ (length a ≡ 16))

-- The key is an address with the bits cleared that its mask, which is as long, leaves out.
abbrev pub IsKey : MaskedKey → Type 0
IsKey k =
    (xs : Bytes) × (k.addr ≡ clear_bits xs k.mask)
    × IsAddress xs
    × AreBytes k.mask
    × (length k.mask ≡ length xs)
    × (k.is4 ≡ is_v4 xs)

or_table : every 256 (λ b. every 8 (λ k. ltb (bit_or b (2 ^ k)) 256)) ≡ true
unfolding every
or_table = refl

or_bound : (b k : ℕ) → b < 256 → k < 8 → bit_or b (2 ^ k) < 256
or_bound b k h l = ltb→lt (bit_or b (2 ^ k)) 256 (
    every-holds 8 (λ k. ltb (bit_or b (2 ^ k)) 256)
      (every-holds 256 (λ b. every 8 (λ k. ltb (bit_or b (2 ^ k)) 256)) or_table b h) k l)

or_at-AreBytes : (i k : ℕ) (m : Bytes) → k < 8 → AreBytes m → AreBytes (or_at i (2 ^ k) m)
unfolding or_at
or_at-AreBytes zero k [] l a = tt
or_at-AreBytes (suc i) k [] l a = tt
or_at-AreBytes zero k (b ∷ m) l a = (or_bound b k a.0 l, a.1)
or_at-AreBytes (suc i) k (b ∷ m) l a = (a.0, or_at-AreBytes i k m l a.1)

length-or_at : (i bits : ℕ) (m : Bytes) → length (or_at i bits m) ≡ length m
unfolding or_at
length-or_at zero bits [] = refl
length-or_at (suc i) bits [] = refl
length-or_at zero bits (b ∷ m) = refl
length-or_at (suc i) bits (b ∷ m) = ap suc (length-or_at i bits m)

set_bits-AreBytes : (left i : ℕ) (m : Bytes) → AreBytes m → AreBytes (set_bits left i m)
unfolding set_bits
set_bits-AreBytes zero i m a = a
set_bits-AreBytes (suc left) i m a =
    set_bits-AreBytes left (suc i) (or_at (i / 8) (2 ^ (7 - i % 8)) m)
      (or_at-AreBytes (i / 8) (7 - i % 8) m (omega arith) a)

length-set_bits : (left i : ℕ) (m : Bytes) → length (set_bits left i m) ≡ length m
unfolding set_bits
length-set_bits zero i m = refl
length-set_bits (suc left) i m =
    length-set_bits left (suc i) (or_at (i / 8) (2 ^ (7 - i % 8)) m)
    ∙ length-or_at (i / 8) (2 ^ (7 - i % 8)) m

zeros-AreBytes : (n : ℕ) → AreBytes (zeros n)
unfolding zeros
zeros-AreBytes zero = tt
zeros-AreBytes (suc n) = (omega arith, zeros-AreBytes n)

length-zeros : (n : ℕ) → length (zeros n) ≡ n
unfolding zeros
length-zeros zero = refl
length-zeros (suc n) = ap suc (length-zeros n)

prefix_mask-AreBytes : (n width : ℕ) → AreBytes (prefix_mask n width)
unfolding prefix_mask
prefix_mask-AreBytes n width = set_bits-AreBytes n 0 (zeros width) (zeros-AreBytes width)

length-prefix_mask : (n width : ℕ) → length (prefix_mask n width) ≡ width
unfolding prefix_mask
length-prefix_mask n width = length-set_bits n 0 (zeros width) ∙ length-zeros width

same_family :
    (m a : Bytes)
    → IsAddress m
    → IsAddress a
    → same_bool (is_v4 m) (is_v4 a) ≡ true
    → length m ≡ length a
same_family m a (mb, inl e) (ab, inl f) h = omega (arith, e, f)
same_family m a (mb, inr e) (ab, inr f) h = omega (arith, e, f)
same_family m a (mb, inl e) (ab, inr f) h = cc (rw (e, f) at h)
same_family m a (mb, inr e) (ab, inl f) h = cc (rw (e, f) at h)

module _ (parse_addr : Bytes → Option Bytes) (addr_text : Bytes → Bytes) (number_text : ℕ → Bytes)
    (parsed : (s a : Bytes) → parse_addr s ≡ some a → IsAddress a) where
  -- The bytes are a mask for the address.
  abbrev IsMaskFor : Bytes → Bytes → Type 0
  IsMaskFor addr m = AreBytes m × (length m ≡ length addr)

  mask_of_length-IsMaskFor :
      (addr : Bytes) (n : ℕ) (m : Bytes)
      → mask_of_length parse_addr addr_text number_text addr n ≡ some m
      → IsMaskFor addr m
  mask_of_length-IsMaskFor addr n m h = elim (Bool-cases (ltb (length addr * 8) n)) [
    | inl e ↦ cc (rw e at h)
    | inr e ↦
        let f : some (prefix_mask n (length addr)) ≡ some m = rw e at h in
        let g : prefix_mask n (length addr) ≡ m = cc f in
        subst (IsMaskFor addr) g
          (prefix_mask-AreBytes n (length addr), length-prefix_mask n (length addr))
  ]

  literal_mask-IsMaskFor :
      (addr text m : Bytes)
      → IsAddress addr
      → literal_mask parse_addr addr_text number_text addr text ≡ some m
      → IsMaskFor addr m
  literal_mask-IsMaskFor addr text m a h =
      let (mask, e, k) =
        bind_some (parse_addr text)
          (λ mask. if same_bool (is_v4 mask) (is_v4 addr) then some mask else none) m h in
      elim (Bool-cases (same_bool (is_v4 mask) (is_v4 addr))) [
        | inr f ↦ cc (rw f at k)
        | inl f ↦
            let g : mask ≡ m = cc (rw f at k) in
            let good = parsed text mask e in
            subst (IsMaskFor addr) g (good.0, same_family mask addr good a f)
      ]

  mask_of-IsMaskFor :
      (addr text m : Bytes)
      → IsAddress addr
      → mask_of parse_addr addr_text number_text addr text ≡ some m
      → IsMaskFor addr m
  unfolding mask_of
  mask_of-IsMaskFor addr text m a h = elim (Bool-cases (is_decimal text)) [
    | inl e ↦ mask_of_length-IsMaskFor addr (decimal 0 text) m (rw e at h)
    | inr e ↦ literal_mask-IsMaskFor addr text m a (rw e at h)
  ]

  abbrev key_of : Bytes → Bytes → MaskedKey
  key_of addr mask = record { is4 = is_v4 addr; addr = clear_bits addr mask; mask = mask }

  -- If netip's parser gives addresses of 4 or 16 bytes, a key that parses has a mask of bytes as
  -- long as its address, an address without the bits that the mask leaves out, and the family of
  -- that length.
  pub parse_masked_key-IsKey :
      (s : Bytes) (k : MaskedKey)
      → parse_masked_key parse_addr addr_text number_text s ≡ some k
      → IsKey k
  unfolding parse_masked_key
  parse_masked_key-IsKey s k h =
      let ((addr_part, mask_part), e, h1) = bind_some (cut b'/' s) _ k h in
      let (addr, f, h2) = bind_some (parse_addr addr_part) _ k h1 in
      let (mask, g, h3) =
        bind_some (mask_of parse_addr addr_text number_text addr mask_part) _ k h2 in
      let good = parsed addr_part addr f in
      let m = mask_of-IsMaskFor addr mask_part mask good g in
      subst IsKey (some_injective (key_of addr mask) k h3) (addr, refl, good, m.0, m.1, refl)
