-- ===== src/Rules/MaskedKey/Table.antt =====
-- internal/rules/defaultruleset.go: the bit operations on one byte, checked at every byte.
use Prim.Native.Nat.{bit_and}
use mitmania.Prelude.{
  ℕ, zero, suc, ◌+◌, ◌-◌, ◌*◌, ◌%◌, ◌^◌, ◌≤◌, ◌<◌, ◌≡◌, refl, Bool, true, false, ◌==◌, ==_iff, ◌&&◌,
  ltb, ltb→lt, ap, arith, and_parts, ◌⊎◌, inl, inr, Option, none, some,
}
use mitmania.Rules.MaskedKey.{lead_mask, leading_bits, prefix_mask, contiguous_prefix_len}

-- A test that holds of every number below a bound.
unfoldable pub every : ℕ → (ℕ → Bool) → Bool
every zero test = true
every (suc n) test = every n test && test n

pub every-holds : (n : ℕ) (test : ℕ → Bool) → every n test ≡ true → (x : ℕ) → x < n → test x ≡ true
unfolding every
every-holds zero test h x l = absurd (omega (arith, l))
every-holds (suc n) test h x l =
    let (before, here) = and_parts (every n test) (test n) h in
    elim (split_last n x l) [ inl e ↦ rw e here | inr k ↦ every-holds n test before x k ]
  where
    split_last : (n x : ℕ) → x < suc n → (x ≡ n) ⊎ (x < n)
    split_last n x l = ground arith

lead_table : every 9 (λ k. every 256 (λ a. bit_and a (lead_mask k) == a - a % 2 ^ (8 - k))) ≡ true
unfolding every
lead_table = refl

-- Masking by the leading bits takes the rest away.
pub bit_and-lead_mask : (k a : ℕ) → k < 9 → a < 256 → bit_and a (lead_mask k) ≡ a - a % 2 ^ (8 - k)
bit_and-lead_mask k a h l = (==_iff (bit_and a (lead_mask k)) (a - a % 2 ^ (8 - k))).0 (
    every-holds 256 (λ a. bit_and a (lead_mask k) == a - a % 2 ^ (8 - k))
      (every-holds 9 (λ k. every 256 (λ a. bit_and a (lead_mask k) == a - a % 2 ^ (8 - k)))
        lead_table k h)
      a l)

leading_table : every 256 (λ b. ltb (leading_bits 8 b) 9) ≡ true
unfolding every leading_bits
leading_table = refl

pub leading_bits-bound : (b : ℕ) → b < 256 → leading_bits 8 b < 9
leading_bits-bound b l =
    ltb→lt (leading_bits 8 b) 9 (every-holds 256 (λ b. ltb (leading_bits 8 b) 9) leading_table b l)

abbrev is_len : Option ℕ → ℕ → Bool
is_len none n = false
is_len (some m) n = m == n

is_len-eq : (o : Option ℕ) (n : ℕ) → is_len o n ≡ true → o ≡ some n
is_len-eq none n h = cc h
is_len-eq (some m) n h = ap some ((==_iff m n).0 h)

masks_v4 : every 33 (λ n. is_len (contiguous_prefix_len (prefix_mask n 4)) n) ≡ true
unfolding every contiguous_prefix_len prefix_mask
masks_v4 = refl

masks_v6 : every 129 (λ n. is_len (contiguous_prefix_len (prefix_mask n 16)) n) ≡ true
unfolding every contiguous_prefix_len prefix_mask
masks_v6 = refl

-- The mask of a prefix length of 4 or 16 bytes is read back as that length.
pub contiguous_prefix_len-prefix_mask :
    (n width : ℕ)
    → (width ≡ 4) ⊎ (width ≡ 16)
    → n ≤ width * 8
    → contiguous_prefix_len (prefix_mask n width) ≡ some n
contiguous_prefix_len-prefix_mask n width (inl e) h =
    is_len-eq (contiguous_prefix_len (prefix_mask n width)) n (
      rw e (
        every-holds 33 (λ n. is_len (contiguous_prefix_len (prefix_mask n 4)) n) masks_v4 n
          (omega arith)))
contiguous_prefix_len-prefix_mask n width (inr e) h =
    is_len-eq (contiguous_prefix_len (prefix_mask n width)) n (
      rw e (
        every-holds 129 (λ n. is_len (contiguous_prefix_len (prefix_mask n 16)) n) masks_v6 n
          (omega arith)))

room_table : every 9 (λ k. every 256 (λ a. ltb (a - a % 2 ^ (8 - k) + 2 ^ (8 - k)) 257)) ≡ true
unfolding every
room_table = refl

-- The bits taken away have room below the next byte.
pub lead_room : (k a : ℕ) → k < 9 → a < 256 → a - a % 2 ^ (8 - k) + 2 ^ (8 - k) < 257
lead_room k a h l = ltb→lt (a - a % 2 ^ (8 - k) + 2 ^ (8 - k)) 257 (
    every-holds 256 (λ a. ltb (a - a % 2 ^ (8 - k) + 2 ^ (8 - k)) 257)
      (every-holds 9 (λ k. every 256 (λ a. ltb (a - a % 2 ^ (8 - k) + 2 ^ (8 - k)) 257)) room_table
        k h)
      a l)

-- A byte from the same run has the same leading bits.
pub lead_same :
    (k a x : ℕ)
    → k < 9
    → a < 256
    → x < 256
    → x - x % 2 ^ (8 - k) ≤ a
    → a < x - x % 2 ^ (8 - k) + 2 ^ (8 - k)
    → a - a % 2 ^ (8 - k) ≡ x - x % 2 ^ (8 - k)
lead_same zero a x h l m lo hi = omega arith
lead_same (suc zero) a x h l m lo hi = omega arith
lead_same (suc (suc zero)) a x h l m lo hi = omega arith
lead_same (suc (suc (suc zero))) a x h l m lo hi = omega arith
lead_same (suc (suc (suc (suc zero)))) a x h l m lo hi = omega arith
lead_same (suc (suc (suc (suc (suc zero))))) a x h l m lo hi = omega arith
lead_same (suc (suc (suc (suc (suc (suc zero)))))) a x h l m lo hi = omega arith
lead_same (suc (suc (suc (suc (suc (suc (suc zero))))))) a x h l m lo hi = omega arith
lead_same (suc (suc (suc (suc (suc (suc (suc (suc zero)))))))) a x h l m lo hi = omega arith
lead_same (suc (suc (suc (suc (suc (suc (suc (suc (suc k))))))))) a x h l m lo hi =
    absurd (omega (arith, h))
