-- ===== src/Rules/Pattern/Glob.antt =====
-- Go's `path.Match`, which `matcher.match` of internal/rules/compile.go calls: the documented
-- pattern language, and the standard library's matching without return to an earlier star.
pub mod Literal
use mitmania.Prelude.{
  ℕ, Bool, true, false, not, ◌&&◌, ◌||◌, Option, none, some, List, [], ◌∷◌, ◌==◌, leb,
  if◌then◌else◌, Bytes, ◌>>=◌,
}

-- What one byte of the name is held against.
pub data Test : Type 0 where
  literal : ℕ → Test
  any_byte : Test
  class : Bool → List (ℕ × ℕ) → Test

pub data Item : Type 0 where
  star : Item
  one : Test → Item

-- Where a scan of a pattern stands: between items, behind a backslash, or inside a class.
pub data Mode : Type 0 where
  plain : Mode
  escape : Mode
  opened : Mode
  need_lo : Bool → List (ℕ × ℕ) → Mode
  lo_escape : Bool → List (ℕ × ℕ) → Mode
  have_lo : Bool → List (ℕ × ℕ) → ℕ → Mode
  need_hi : Bool → List (ℕ × ℕ) → ℕ → Mode
  hi_escape : Bool → List (ℕ × ℕ) → ℕ → Mode

abbrev pub is_empty {ℓ} : {A : Type ℓ} → List A → Bool
is_empty [] = true
is_empty (x ∷ xs) = false

abbrev backslash : ℕ
backslash = 92

-- A byte at the start of a range, or the bracket that ends a class with at least one range.
class_byte : Bool → List (ℕ × ℕ) → ℕ → Option (Mode × Option Item)
class_byte neg spans c =
    if c == b']' && not (is_empty spans)
    then some (plain, some (one (class neg spans)))
    else if c == b']' || c == b'-'
    then none
    else if c == backslash
    then some (lo_escape neg spans, none)
    else some (have_lo neg spans c, none)

-- One byte of the pattern: the next mode and the item that it completes; `none` is ErrBadPattern.
scan_byte : Mode → ℕ → Option (Mode × Option Item)
unfolding class_byte
scan_byte plain c =
    if c == b'*'
    then some (plain, some star)
    else if c == b'?'
    then some (plain, some (one any_byte))
    else if c == b'['
    then some (opened, none)
    else if c == backslash
    then some (escape, none)
    else some (plain, some (one (literal c)))
scan_byte escape c = some (plain, some (one (literal c)))
scan_byte opened c = if c == b'^' then some (need_lo true [], none) else class_byte false [] c
scan_byte (need_lo neg spans) c = class_byte neg spans c
scan_byte (lo_escape neg spans) c = some (have_lo neg spans c, none)
scan_byte (have_lo neg spans lo) c =
    if c == b'-' then some (need_hi neg spans lo, none) else class_byte neg ((lo, lo) ∷ spans) c
scan_byte (need_hi neg spans lo) c =
    if c == b']' || c == b'-'
    then none
    else if c == backslash
    then some (hi_escape neg spans lo, none)
    else some (need_lo neg ((lo, c) ∷ spans), none)
scan_byte (hi_escape neg spans lo) c = some (need_lo neg ((lo, c) ∷ spans), none)

abbrev emit : Option Item → List Item → List Item
emit none items = items
emit (some i) items = i ∷ items

abbrev finish : Mode → Option (List Item)
finish plain = some []
finish _ = none

-- The pattern as items. It may end only between items.
parse : Mode → Bytes → Option (List Item)
parse m [] = finish m
parse m (c ∷ r) = elim (scan_byte m c) [
  | none ↦ none
  | some (m', e) ↦ do items ← parse m' r; some (emit e items)
]

in_spans : List (ℕ × ℕ) → ℕ → Bool
in_spans [] c = false
in_spans ((lo, hi) ∷ spans) c = leb lo c && leb c hi || in_spans spans c

accepts : Test → ℕ → Bool
unfolding in_spans
accepts (literal x) c = c == x
accepts any_byte c = not (c == b'/')
accepts (class true spans) c = not (in_spans spans c)
accepts (class false spans) c = in_spans spans c

-- `matchChunk`: what is left of the name behind a run of items without a star.
chunk_rest : List Test → Bytes → Option Bytes
unfolding accepts
chunk_rest [] s = some s
chunk_rest (t ∷ ts) [] = none
chunk_rest (t ∷ ts) (c ∷ s) = if accepts t c then chunk_rest ts s else none

-- The last chunk has to take the rest of the name.
pub attempt : List Test → Bool → Bytes → Option Bytes
unfolding chunk_rest
attempt ts last s = do t ← chunk_rest ts s; if last && not (is_empty t) then none else some t

-- Behind a star the chunk is tried further and further on, but not across a slash.
pub seek : List Test → Bool → Bytes → Option Bytes
unfolding attempt
seek ts last [] = attempt ts last []
seek ts last (c ∷ s) = elim (attempt ts last (c ∷ s)) [
  | some t ↦ some t
  | none ↦ elim (c == b'/') [ true ↦ none | false ↦ seek ts last s ]
]

abbrev pub find : Bool → List Test → Bool → Bytes → Option Bytes
find false = attempt
find true = seek

-- The loop of `path.Match`: a first chunk, and one chunk for each star.
match_chunks : Bool → List Test → List (List Test) → Bytes → Bool
unfolding seek
match_chunks starred ts [] s = elim (find starred ts true s) [ none ↦ false | some t ↦ is_empty t ]
match_chunks starred ts (next ∷ more) s = elim (find starred ts false s) [
  | none ↦ false
  | some t ↦ match_chunks true next more t
]

chunks : List Item → List Test × List (List Test)
chunks [] = ([], [])
chunks (star ∷ items) = let (ts, more) = chunks items in ([], ts ∷ more)
chunks (one t ∷ items) = let (ts, more) = chunks items in (t ∷ ts, more)

-- `ok, _ := path.Match(pattern, name)`
unfoldable pub path_match : Bytes → Bytes → Bool
unfolding parse scan_byte match_chunks chunks
path_match pattern' name = elim (parse plain pattern') [
  | none ↦ false
  | some items ↦ let (ts, more) = chunks items in match_chunks false ts more name
]
