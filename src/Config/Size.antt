-- ===== src/Config/Size.antt =====
-- internal/config/size.go: `ParseSize`. An int is its word of 64 bits. Parameter: strconv.Atoi.
pub mod Product
use mitmania.Prelude.{
  ℕ, ◌*◌, ◌%◌, ◌^◌, Bool, true, false, Option, none, some, List, [], ◌∷◌, ◌==◌, ◌||◌, ltb,
  if◌then◌else◌, Bytes, trim_space, reverse, ◌>>=◌,
}

-- The unit of a last byte.
abbrev pub unit_of : ℕ → Option ℕ
unit_of c =
    if c == b'k' || c == b'K'
    then some (2 ^ 10)
    else if c == b'm' || c == b'M'
    then some (2 ^ 20)
    else if c == b'g' || c == b'G'
    then some (2 ^ 30)
    else none

abbrev pub with_unit : Bytes → Bytes → Option ℕ → ℕ × Bytes
with_unit s rest none = (1, s)
with_unit s rest (some mul) = (mul, reverse rest)

-- The unit and the part in front of it, of the text and the text from its end.
abbrev pub unit_and_part : Bytes → Bytes → Option (ℕ × Bytes)
unit_and_part s [] = none
unit_and_part s (c ∷ rest) = some (with_unit s rest (unit_of c))

-- `n < 0`
abbrev pub is_negative : ℕ → Bool
is_negative n = if ltb n (2 ^ 63) then false else true

module _ (atoi : Bytes → Option ℕ) where
  unfoldable pub parse_size : Bytes → Option ℕ
  unfolding trim_space
  parse_size s = do
    (mul, part) ← unit_and_part s (reverse s)
    n ← atoi (trim_space part)
    if is_negative n then none else some (n * mul % 2 ^ 64)
