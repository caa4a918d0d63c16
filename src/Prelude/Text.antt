-- ===== src/Prelude/Text.antt =====
-- Go strings as lists of bytes. Text is taken to be ASCII where Go's own functions read runes.
use Prim.Native.Nat.{ℕ, ◌+◌}
use Prim.Native.Char.{code}
use Prim.Native.String.{String}
use mathlib.Core.Path.{◌≡◌, refl, subst}
use mathlib.Core.Logic.{◌↔◌, inl, inr}
use mathlib.Core.Bool.{Bool, true, false, ◌&&◌, ◌||◌}
use mathlib.Core.List
use mathlib.Core.List.{List, [], ◌∷◌, map}
use native.Mathlib.Omega.{arith}
use mitmania.Prelude.Tests.{Bool-cases, ◌==◌, ltb, leb, if◌then◌else◌}

abbrev pub Bytes : Type 0
Bytes = List ℕ

abbrev pub codes : String → Bytes
codes String.[] = []
codes (String.◌∷◌ c s) = code c ∷ codes s

-- `a == b` on Go strings
unfoldable pub same : Bytes → Bytes → Bool
same [] [] = true
same [] (b ∷ bs) = false
same (a ∷ as') [] = false
same (a ∷ as') (b ∷ bs) = a == b && same as' bs

pub same_refl : (a : Bytes) → same a a ≡ true
unfolding same
same_refl [] = refl
same_refl (a ∷ as') = ground (arith, same_refl as')

pub same→eq : (a b : Bytes) → same a b ≡ true → a ≡ b
unfolding same
same→eq [] [] h = refl
same→eq [] (b ∷ bs) h = cc
same→eq (a ∷ as') [] h = cc
same→eq (a ∷ as') (b ∷ bs) h = ground (arith, same→eq as' bs)

pub same_iff : (a b : Bytes) → (same a b ≡ true) ↔ (a ≡ b)
same_iff a b = (same→eq a b, λ e. rw e (same_refl b))

pub same_swapped : (a b : Bytes) → same a b ≡ false → same b a ≡ false
same_swapped a b n = elim (Bool-cases (same b a)) [
  | inr e ↦ e
  | inl e ↦ cc (same_refl a, subst (λ b. same a b ≡ false) (same→eq b a e) n)
]

-- `a < b` on Go strings: byte by byte
unfoldable pub less : Bytes → Bytes → Bool
less [] [] = false
less [] (b ∷ bs) = true
less (a ∷ as') [] = false
less (a ∷ as') (b ∷ bs) = ltb a b || (a == b && less as' bs)

pub less_irrefl : (a : Bytes) → less a a ≡ false
unfolding less
less_irrefl [] = refl
less_irrefl (a ∷ as') = ground (arith, less_irrefl as')

pub less_trans : (a b c : Bytes) → less a b ≡ true → less b c ≡ true → less a c ≡ true
unfolding less
less_trans [] [] c h k = cc
less_trans [] (b ∷ bs) [] h k = cc
less_trans [] (b ∷ bs) (c ∷ cs) h k = refl
less_trans (a ∷ as') [] c h k = cc
less_trans (a ∷ as') (b ∷ bs) [] h k = cc
less_trans (a ∷ as') (b ∷ bs) (c ∷ cs) h k = ground (arith, less_trans as' bs cs)

pub less_total : (a b : Bytes) → less a b ≡ false → less b a ≡ false → a ≡ b
unfolding less
less_total [] [] h k = refl
less_total [] (b ∷ bs) h k = cc
less_total (a ∷ as') [] h k = cc
less_total (a ∷ as') (b ∷ bs) h k = ground (arith, less_total as' bs)

pub less_asym : (a b : Bytes) → less a b ≡ true → less b a ≡ false
less_asym a b h = elim (Bool-cases (less b a)) [
  | inl e ↦ cc (less_irrefl a, less_trans a b a h e)
  | inr e ↦ e
]

pub less_negated : (a b c : Bytes) → less a b ≡ false → less b c ≡ false → less a c ≡ false
less_negated a b c h k = elim (Bool-cases (less a c)) [
  | inr e ↦ e
  | inl e ↦ elim (Bool-cases (less b a)) [
    | inl f ↦ cc (less_trans b a c f e, k)
    | inr f ↦ cc (less_total a b h f, e, k)
  ]
]

-- `strings.ToLower` on an ASCII text
unfoldable pub lower : ℕ → ℕ
lower c = if leb b'A' c && leb c b'Z' then c + 32 else c

unfoldable pub to_lower : Bytes → Bytes
unfolding lower
to_lower = map lower

-- The white space of ASCII
abbrev is_space : ℕ → Bool
is_space c = leb 9 c && leb c 13 || c == 32

trim_left : Bytes → Bytes
trim_left [] = []
trim_left (c ∷ s) = let rest = trim_left s in if is_space c then rest else c ∷ s

-- `strings.TrimSpace`
unfoldable pub trim_space : Bytes → Bytes
unfolding trim_left
trim_space s = List.reverse (trim_left (List.reverse (trim_left s)))
