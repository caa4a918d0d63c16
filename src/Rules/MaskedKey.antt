-- ===== src/Rules/MaskedKey.antt =====
-- internal/rules/defaultruleset.go: `maskedKey`, an address with the mask of the bits that count. An
-- address is the 4 or 16 bytes of netip's AsSlice, and one of 4 bytes is `Is4`. Parameters:
-- `netip.ParseAddr` and the text of an address.
pub mod Prefix
pub mod Table
pub mod Range
pub mod Parsed
use Prim.Native.Nat.{bit_and, bit_or}
use mathlib.Core.List
use mitmania.Prelude.{
  ℕ, zero, suc, ◌+◌, ◌-◌, ◌*◌, ◌/◌, ◌%◌, ◌^◌, Bool, true, false, not, Option, none, some, List, [],
  ◌∷◌, ◌++◌, ◌==◌, ◌&&◌, leb, ltb, if◌then◌else◌, Bytes, codes, length, ◌>>=◌,
}
use mitmania.Rules.Pattern.Glob.{is_empty}
use mitmania.Rules.Egress.{cut}

pub record MaskedKey : Type 0 where
  pub is4 : Bool
  pub addr : Bytes
  pub mask : Bytes

all_digits : Bytes → Bool
all_digits [] = true
all_digits (c ∷ s) = leb b'0' c && leb c b'9' && all_digits s

-- `isDecimal`
unfoldable pub is_decimal : Bytes → Bool
unfolding all_digits
is_decimal s = if is_empty s then false else all_digits s

-- The number of a decimal text; `strconv.Atoi` fails where it is above any prefix length.
decimal : ℕ → Bytes → ℕ
decimal n [] = n
decimal n (c ∷ s) = decimal (n * 10 + (c - b'0')) s

-- `m[i] |= bits`; nothing is there out of range.
or_at : ℕ → ℕ → Bytes → Bytes
or_at i bits [] = []
or_at zero bits (b ∷ m) = bit_or b bits ∷ m
or_at (suc i) bits (b ∷ m) = b ∷ or_at i bits m

-- The loop of `prefixMask`, with so many rounds left, at `i`.
set_bits : ℕ → ℕ → Bytes → Bytes
unfolding or_at
set_bits zero i m = m
set_bits (suc left) i m = set_bits left (suc i) (or_at (i / 8) (2 ^ (7 - i % 8)) m)

unfoldable pub zeros : ℕ → Bytes
zeros zero = []
zeros (suc n) = 0 ∷ zeros n

unfoldable pub prefix_mask : ℕ → ℕ → Bytes
unfolding set_bits zeros
prefix_mask n width = set_bits n 0 (zeros width)

unfoldable pub clear_bits : Bytes → Bytes → Bytes
clear_bits (a ∷ addr) (m ∷ mask) = bit_and a m ∷ clear_bits addr mask
clear_bits addr mask = []

-- The first loop of `contiguousPrefixLen`: the bytes left behind the full ones.
unfoldable pub full_bytes : Bytes → ℕ × Bytes
full_bytes [] = (0, [])
full_bytes (b ∷ m) = let (n, rest) = full_bytes m in if b == 255 then (n + 8, rest) else (0, b ∷ m)

-- The loop over the bits of a byte, from bit `k - 1` down.
unfoldable pub leading_bits : ℕ → ℕ → ℕ
leading_bits zero b = 0
leading_bits (suc k) b =
    let more = leading_bits k b in if bit_and b (2 ^ k) == 0 then 0 else suc more

unfoldable pub all_zero : Bytes → Bool
all_zero [] = true
all_zero (b ∷ m) = b == 0 && all_zero m

-- `byte(0xFF) << (8 - lead)`
abbrev pub lead_mask : ℕ → ℕ
lead_mask lead = 255 * 2 ^ (8 - lead) % 256

-- The part of `contiguousPrefixLen` behind the full bytes.
unfoldable pub prefix_len_rest : ℕ → Bytes → Option ℕ
unfolding leading_bits all_zero
prefix_len_rest n [] = some n
prefix_len_rest n (b ∷ m) =
    let lead = leading_bits 8 b in
    if not (b == lead_mask lead) then none else if all_zero m then some (n + lead) else none

unfoldable pub contiguous_prefix_len : Bytes → Option ℕ
unfolding full_bytes prefix_len_rest
contiguous_prefix_len mask = let (n, rest) = full_bytes mask in prefix_len_rest n rest

-- The loop of `contains`; `none` is a panic.
unfoldable pub contains_bytes : Bytes → Bytes → Bytes → Option Bool
contains_bytes [] mask addr = some true
contains_bytes (a ∷ ab) (m ∷ mask) (d ∷ addr) =
    let rest = contains_bytes ab mask addr in if bit_and a m == d then rest else some false
contains_bytes (a ∷ ab) mask addr = none

abbrev pub contains : MaskedKey → Bytes → Option Bool
contains k ab = contains_bytes ab k.mask k.addr

abbrev same_bool : Bool → Bool → Bool
same_bool true b = b
same_bool false b = not b

-- `Is4`
abbrev pub is_v4 : Bytes → Bool
is_v4 addr = length addr == 4

module _ (parse_addr : Bytes → Option Bytes) (addr_text : Bytes → Bytes)
    (number_text : ℕ → Bytes) where
  abbrev mask_of_length : Bytes → ℕ → Option Bytes
  mask_of_length addr n =
      if ltb (length addr * 8) n then none else some (prefix_mask n (length addr))

  abbrev literal_mask : Bytes → Bytes → Option Bytes
  literal_mask addr text = do
    mask ← parse_addr text
    if same_bool (is_v4 mask) (is_v4 addr) then some mask else none

  unfoldable pub mask_of : Bytes → Bytes → Option Bytes
  unfolding is_decimal decimal prefix_mask
  mask_of addr text =
      if is_decimal text then mask_of_length addr (decimal 0 text) else literal_mask addr text

  unfoldable pub parse_masked_key : Bytes → Option MaskedKey
  unfolding cut mask_of clear_bits
  parse_masked_key s = do
    (addr_part, mask_part) ← cut b'/' s
    addr ← parse_addr addr_part
    mask ← mask_of addr mask_part
    some (record { is4 = is_v4 addr; addr = clear_bits addr mask; mask = mask })

  unfoldable pub canonical : MaskedKey → Bytes
  unfolding contiguous_prefix_len
  canonical k = elim (contiguous_prefix_len k.mask) [
    | some n ↦ addr_text k.addr ++ codes "/" ++ number_text n
    | none ↦ addr_text k.addr ++ codes "/" ++ addr_text k.mask
  ]
