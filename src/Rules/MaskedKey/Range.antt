-- ===== src/Rules/MaskedKey/Range.antt =====
-- internal/rules/defaultruleset.go: a key whose mask is a prefix, beside the range of the prefix.
use Prim.Native.Nat.{bit_and}
use native.Mathlib.Nat.{pow-succ', one-le-pow}
use mathlib.Core.Path.{subst}
use mitmania.Prelude.{
  ℕ, zero, suc, ◌+◌, ◌-◌, ◌*◌, ◌%◌, ◌^◌, ◌≤◌, ◌<◌, ◌≡◌, refl, sym, ap, ◌∙◌, true, some, [], ◌∷◌,
  ==_iff, length, Bytes, arith, ltb, ltb→lt, Bool-cases, inl, inr,
}
use mitmania.Rules.Coverage.{big_endian}
use mitmania.Rules.MaskedKey.{lead_mask, clear_bits, contains_bytes}
use mitmania.Rules.MaskedKey.Prefix.{AreBytes, AreZero, HasLen, ended, partly, whole}
use mitmania.Rules.MaskedKey.Table.{bit_and-lead_mask, lead_room, lead_same}

power_split : (a b : ℕ) → 2 ^ (a + b) ≡ 2 ^ a * 2 ^ b
power_split zero b = ap (λ n. 2 ^ n) no_more ∙ once
  where
    no_more : 0 + b ≡ b
    no_more = omega arith

    once : 2 ^ b ≡ 2 ^ 0 * 2 ^ b
    once = omega arith
power_split (suc a) b =
    ap (λ n. 2 ^ n) same_exponent
    ∙ pow-succ' 2 (a + b)
    ∙ grind (arith, pow-succ' 2 a, power_split a b)
  where
    same_exponent : suc a + b ≡ suc (a + b)
    same_exponent = omega arith

pub power_pos : (n : ℕ) → 1 ≤ 2 ^ n
power_pos n = one-le-pow n 2 (omega arith)

-- The range of one byte more.
byte_more : (w : ℕ) → 2 ^ (8 * suc w) ≡ 256 * 2 ^ (8 * w)
byte_more w = ap (λ n. 2 ^ n) exponent ∙ power_split 8 (8 * w)
  where
    exponent : 8 * suc w ≡ 8 + 8 * w
    exponent = omega arith

mul_step : (a d n : ℕ) → a < d → a * n + n ≤ d * n
mul_step a d n h = grind arith

pub big_endian-bound : (bs : Bytes) → AreBytes bs → big_endian bs < 2 ^ (8 * length bs)
unfolding big_endian
big_endian-bound [] a = omega arith
big_endian-bound (b ∷ bs) a =
    rw (byte_more (length bs))
      (omega (arith, big_endian-bound bs a.1, mul_step b 256 (2 ^ (8 * length bs)) a.0))

-- The first digit, from a range.
digit_low : (a d n v : ℕ) → v < n → d * n ≤ a * n + v → d ≤ a
digit_low a d n v h l = elim (Bool-cases (ltb a d)) [
  | inr e ↦ ground arith
  | inl e ↦ absurd (omega (arith, mul_step a d n (ltb→lt a d e), h, l))
]

digit_high : (a d n v : ℕ) → a * n + v < d * n → a < d
digit_high a d n v l = elim (Bool-cases (ltb a d)) [
  | inl e ↦ ltb→lt a d e
  | inr e ↦ elim (Bool-cases (ltb d a)) [
    | inl f ↦ absurd (omega (arith, mul_step d a n (ltb→lt d a f), l))
    | inr f ↦
        let same_digit : a ≡ d = ground arith in
        absurd (omega (arith, ap (λ x. x * n) same_digit, l))
  ]
]

pub length-clear_bits :
    (xs mask : Bytes) → length xs ≡ length mask → length (clear_bits xs mask) ≡ length mask
unfolding clear_bits
length-clear_bits [] [] h = refl
length-clear_bits [] (m ∷ mask) h = absurd (omega (arith, h))
length-clear_bits (x ∷ xs) [] h = absurd (omega (arith, h))
length-clear_bits (x ∷ xs) (m ∷ mask) h = ap suc (length-clear_bits xs mask (omega (arith, h)))

-- Nothing is left behind a mask of zeros, and everything is contained.
cleared_zero : (xs mask : Bytes) → AreBytes xs → AreZero mask → big_endian (clear_bits xs mask) ≡ 0
unfolding big_endian clear_bits
cleared_zero [] mask a z = refl
cleared_zero (x ∷ xs) [] a z = refl
cleared_zero (x ∷ xs) (m ∷ mask) a z =
    let none_left : bit_and x m ≡ 0 =
      ap (bit_and x) z.0 ∙ bit_and-lead_mask 0 x (omega arith) a.0 ∙ omega (arith, a.0) in
    rw (none_left, cleared_zero xs mask a.1 z.1) (omega arith)

contains_zero :
    (ab xs mask : Bytes)
    → AreBytes ab
    → AreBytes xs
    → length ab ≡ length mask
    → length xs ≡ length mask
    → AreZero mask
    → contains_bytes ab mask (clear_bits xs mask) ≡ some true
unfolding contains_bytes clear_bits
contains_zero [] xs mask a b h k z = refl
contains_zero (y ∷ ab) xs [] a b h k z = absurd (omega (arith, h))
contains_zero (y ∷ ab) [] (m ∷ mask) a b h k z = absurd (omega (arith, k))
contains_zero (y ∷ ab) (x ∷ xs) (m ∷ mask) a b h k z =
    let y0 : bit_and y m ≡ 0 =
      ap (bit_and y) z.0 ∙ bit_and-lead_mask 0 y (omega arith) a.0 ∙ omega (arith, a.0) in
    let x0 : bit_and x m ≡ 0 =
      ap (bit_and x) z.0 ∙ bit_and-lead_mask 0 x (omega arith) b.0 ∙ omega (arith, b.0) in
    rw ((==_iff (bit_and y m) (bit_and x m)).1 (y0 ∙ sym x0))
      (contains_zero ab xs mask a.1 b.1 (omega (arith, h)) (omega (arith, k)) z.1)

len_short : {mask : Bytes} {n : ℕ} → HasLen mask n → n ≤ 8 * length mask
len_short ended = omega arith
len_short (partly lead h z) = omega (arith, h)
len_short (whole l) = omega (arith, len_short l)

-- The size of a prefix whose mask has one more byte.
size_whole : (w n : ℕ) → 2 ^ (8 * suc w - (8 + n)) ≡ 2 ^ (8 * w - n)
size_whole w n = ap (λ k. 2 ^ k) exponent
  where
    exponent : 8 * suc w - (8 + n) ≡ 8 * w - n
    exponent = omega arith

size_partly : (w lead : ℕ) → lead < 9 → 2 ^ (8 * suc w - lead) ≡ 2 ^ (8 - lead) * 2 ^ (8 * w)
size_partly w lead h = ap (λ k. 2 ^ k) exponent ∙ power_split (8 - lead) (8 * w)
  where
    exponent : 8 * suc w - lead ≡ 8 - lead + 8 * w
    exponent = omega arith

mul_mono : (a b n : ℕ) → a ≤ b → a * n ≤ b * n
mul_mono a b n h = grind arith

sum_times : (c d n : ℕ) → c + d ≤ 256 → c * n + d * n ≤ 256 * n
sum_times c d n h = omega (arith, distributed, mul_mono (c + d) 256 n h)
  where
    distributed : (c + d) * n ≡ c * n + d * n
    distributed = grind arith

all_bits : (x : ℕ) → x < 256 → bit_and x 255 ≡ x
all_bits x h = bit_and-lead_mask 8 x (omega arith) h ∙ taken_none
  where
    taken_none : x - x % 1 ≡ x
    taken_none = omega arith

-- A cleared address has room for its prefix.
clear_bits-room :
    (xs : Bytes) {mask : Bytes} {n : ℕ}
    → HasLen mask n
    → AreBytes xs
    → length xs ≡ length mask
    → big_endian (clear_bits xs mask) + 2 ^ (8 * length mask - n) ≤ 2 ^ (8 * length mask)
unfolding big_endian clear_bits
clear_bits-room [] ended a h = omega arith
clear_bits-room [] (partly lead l z) a h = absurd (omega (arith, h))
clear_bits-room [] (whole l) a h = absurd (omega (arith, h))
clear_bits-room (x ∷ xs) ended a h = absurd (omega (arith, h))
clear_bits-room (x ∷ xs) (partly {mask} lead l z) a h =
    let d = x - x % 2 ^ (8 - lead) in
    let w = length mask in
    rw
      (
        bit_and-lead_mask lead x l a.0,
        cleared_zero xs mask a.1 z,
        length-clear_bits xs mask (omega (arith, h)),
        size_partly w lead l,
        byte_more w,
      )
      (omega
        (arith, sum_times d (2 ^ (8 - lead)) (2 ^ (8 * w)) (omega (arith, lead_room lead x l a.0))))
clear_bits-room (x ∷ xs) (whole {mask} {n} l) a h =
    let w = length mask in
    rw (all_bits x a.0, length-clear_bits xs mask (omega (arith, h)), size_whole w n, byte_more w)
      (omega (arith, mul_step x 256 (2 ^ (8 * w)) a.0, clear_bits-room xs l a.1 (omega (arith, h))))

value_cons :
    (y : ℕ) (ab : Bytes) (w : ℕ)
    → length ab ≡ w
    → big_endian (y ∷ ab) ≡ y * 2 ^ (8 * w) + big_endian ab
unfolding big_endian
value_cons y ab w h = rw h refl

value_partly :
    (x : ℕ) (xs mask : Bytes) (lead : ℕ)
    → lead < 9
    → AreZero mask
    → AreBytes (x ∷ xs)
    → length xs ≡ length mask
    → big_endian (clear_bits (x ∷ xs) (lead_mask lead ∷ mask))
      ≡ (x - x % 2 ^ (8 - lead)) * 2 ^ (8 * length mask)
unfolding clear_bits
value_partly x xs mask lead l z a h =
    value_cons (bit_and x (lead_mask lead)) (clear_bits xs mask) (length mask)
      (length-clear_bits xs mask h)
    ∙ rw (bit_and-lead_mask lead x l a.0, cleared_zero xs mask a.1 z) (omega arith)

value_whole :
    (x : ℕ) (xs mask : Bytes)
    → x < 256
    → length xs ≡ length mask
    → big_endian (clear_bits (x ∷ xs) (255 ∷ mask))
      ≡ x * 2 ^ (8 * length mask) + big_endian (clear_bits xs mask)
unfolding clear_bits
value_whole x xs mask l h =
    value_cons (bit_and x 255) (clear_bits xs mask) (length mask) (length-clear_bits xs mask h)
    ∙ ap (λ d. d * 2 ^ (8 * length mask) + big_endian (clear_bits xs mask)) (all_bits x l)

short_rest :
    (ab mask : Bytes)
    → AreBytes ab
    → length ab ≡ length mask
    → big_endian ab < 2 ^ (8 * length mask)
short_rest ab mask b k = subst (λ w. big_endian ab < 2 ^ (8 * w)) k (big_endian-bound ab b)

distributed : (c d n : ℕ) → (c + d) * n ≡ c * n + d * n
distributed c d n = grind arith

range_partly :
    (x y lead v w : ℕ)
    → lead < 9
    → x < 256
    → y < 256
    → v < 2 ^ (8 * w)
    → (x - x % 2 ^ (8 - lead)) * 2 ^ (8 * w) ≤ y * 2 ^ (8 * w) + v
    → y * 2 ^ (8 * w) + v < (x - x % 2 ^ (8 - lead)) * 2 ^ (8 * w) + 2 ^ (8 * suc w - lead)
    → bit_and y (lead_mask lead) ≡ bit_and x (lead_mask lead)
range_partly x y lead v w l a b r lo hi =
    let d = x - x % 2 ^ (8 - lead) in
    let low : d ≤ y = digit_low y d (2 ^ (8 * w)) v r lo in
    let high : y < d + 2 ^ (8 - lead) =
      digit_high y (d + 2 ^ (8 - lead)) (2 ^ (8 * w)) v
        (omega (arith, hi, size_partly w lead l, distributed d (2 ^ (8 - lead)) (2 ^ (8 * w)))) in
    bit_and-lead_mask lead y l b
    ∙ lead_same lead y x l b a low high
    ∙ sym (bit_and-lead_mask lead x l a)

contains_cons :
    (x y m : ℕ) (xs ab mask : Bytes)
    → bit_and y m ≡ bit_and x m
    → contains_bytes ab mask (clear_bits xs mask) ≡ some true
    → contains_bytes (y ∷ ab) (m ∷ mask) (clear_bits (x ∷ xs) (m ∷ mask)) ≡ some true
unfolding contains_bytes clear_bits
contains_cons x y m xs ab mask e h = rw ((==_iff (bit_and y m) (bit_and x m)).1 e) h

-- Within the range of the prefix
pub contains_bytes-range :
    (xs : Bytes) {mask : Bytes} {n : ℕ} (ab : Bytes)
    → HasLen mask n
    → AreBytes xs
    → AreBytes ab
    → length xs ≡ length mask
    → length ab ≡ length mask
    → big_endian (clear_bits xs mask) ≤ big_endian ab
    → big_endian ab < big_endian (clear_bits xs mask) + 2 ^ (8 * length mask - n)
    → contains_bytes ab mask (clear_bits xs mask) ≡ some true
contains_bytes-range xs [] l a b h k lo hi = unfold contains_bytes in refl
contains_bytes-range xs (y ∷ ab) ended a b h k lo hi = absurd (omega (arith, k))
contains_bytes-range [] (y ∷ ab) (partly lead l z) a b h k lo hi = absurd (omega (arith, h))
contains_bytes-range [] (y ∷ ab) (whole l) a b h k lo hi = absurd (omega (arith, h))
contains_bytes-range (x ∷ xs) (y ∷ ab) (partly {mask} lead l z) a b h k lo hi =
    let h' : length xs ≡ length mask = omega (arith, h) in
    let k' : length ab ≡ length mask = omega (arith, k) in
    let first : bit_and y (lead_mask lead) ≡ bit_and x (lead_mask lead) =
      range_partly x y lead (big_endian ab) (length mask) l a.0 b.0 (short_rest ab mask b.1 k')
        (omega (arith, lo, value_partly x xs mask lead l z a h', value_cons y ab (length mask) k'))
        (omega
          (arith, hi, value_partly x xs mask lead l z a h', value_cons y ab (length mask) k')) in
    contains_cons x y (lead_mask lead) xs ab mask first (contains_zero ab xs mask b.1 a.1 k' h' z)
contains_bytes-range (x ∷ xs) (y ∷ ab) (whole {mask} {n} l) a b h k lo hi =
    let h' : length xs ≡ length mask = omega (arith, h) in
    let k' : length ab ≡ length mask = omega (arith, k) in
    let w = length mask in
    let from : x * 2 ^ (8 * w) + big_endian (clear_bits xs mask) ≤ y * 2 ^ (8 * w) + big_endian ab =
      omega (arith, lo, value_whole x xs mask a.0 h', value_cons y ab w k') in
    let to : y * 2 ^ (8 * w) + big_endian ab
        < x * 2 ^ (8 * w) + big_endian (clear_bits xs mask) + 2 ^ (8 * w - n) =
      omega (arith, hi, size_whole w n, value_whole x xs mask a.0 h', value_cons y ab w k') in
    let room = clear_bits-room xs l a.1 h' in
    let low : x ≤ y =
      digit_low y x (2 ^ (8 * w)) (big_endian ab) (short_rest ab mask b.1 k')
        (omega (arith, from)) in
    let high : y < x + 1 =
      digit_high y (x + 1) (2 ^ (8 * w)) (big_endian ab)
        (omega (arith, to, room, distributed x 1 (2 ^ (8 * w)))) in
    let first : y ≡ x = omega (arith, low, high) in
    let same_top : y * 2 ^ (8 * w) ≡ x * 2 ^ (8 * w) = ap (λ d. d * 2 ^ (8 * w)) first in
    contains_cons x y 255 xs ab mask (ap (λ d. bit_and d 255) first) (
      contains_bytes-range xs ab l a.1 b.1 h' k' (omega (arith, from, same_top))
        (omega (arith, to, same_top)))
