-- ===== src/Rules/Pattern/Glob/Literal.antt =====
-- Go's `path.Match`, called by internal/rules/compile.go, on patterns with plain bytes at their end.
use mathlib.Core.List.{append_assoc, append-nil}
use mitmania.Prelude.{
  ℕ, ◌≡◌, refl, sym, ap, ◌∙◌, Bool, true, false, not, Option, none, some, List, [], ◌∷◌, ◌++◌, map,
  arith, ◌==◌, ◌&&◌, ◌||◌, leb, if◌then◌else◌, Bytes, Bool-cases, inl, inr, All, Option-cases,
}
use mitmania.Rules.Pattern.Glob.{
  Test, literal, Item, star, one, Mode, plain, escape, emit, parse, scan_byte, attempt, seek, find,
  chunk_rest, accepts, match_chunks, chunks, path_match, is_empty,
}

-- The bytes of literal DNS labels and the dots between them.
abbrev pub is_plain : ℕ → Bool
is_plain c = leb b'a' c && leb c b'z' || leb b'0' c && leb c b'9' || c == b'-' || c == b'.'

abbrev pub IsPlain : Bytes → Type 0
IsPlain = All (λ c. is_plain c ≡ true)

abbrev tests : Bytes → List Test
tests = map literal

abbrev items_of : Bytes → List Item
items_of = map (λ c. one (literal c))

abbrev InClass : Mode → Type 0
InClass plain = ⊥
InClass escape = ⊥
InClass _ = Unit

scan_plain : (c : ℕ) → is_plain c ≡ true → scan_byte plain c ≡ some (plain, some (one (literal c)))
unfolding scan_byte
scan_plain c h = ground arith

parse_plain : (q : Bytes) → IsPlain q → parse plain q ≡ some (items_of q)
unfolding parse
parse_plain [] h = refl
parse_plain (c ∷ q) h = rw (scan_plain c h.0, parse, parse_plain q h.1)

-- No plain byte closes a class.
class_stays :
    (m m' : Mode) (c : ℕ) (e : Option Item)
    → InClass m
    → is_plain c ≡ true
    → scan_byte m c ≡ some (m', e)
    → InClass m'
unfolding scan_byte
class_stays plain m' c e i h s = absurd i
class_stays escape m' c e i h s = absurd i
class_stays _ plain c e i h s = ground arith
class_stays _ escape c e i h s = ground arith
class_stays _ _ c e i h s = tt

parse-InClass : (m : Mode) (q : Bytes) → InClass m → IsPlain q → parse m q ≡ none
unfolding parse
parse-InClass plain [] i h = absurd i
parse-InClass escape [] i h = absurd i
parse-InClass _ [] i h = refl
parse-InClass m (c ∷ q) i h = elim (Option-cases (scan_byte m c)) [
  | inl s ↦ rw (s, parse)
  | inr ((m', e), s) ↦ rw (s, parse, parse-InClass m' q (class_stays m m' c e i h.0 s) h.1)
]

-- One plain byte in any mode: the items of the rest follow, or the pattern is not accepted.
parse_ends_here :
    (m : Mode) (c : ℕ) (q : Bytes) (items : List Item)
    → IsPlain (c ∷ q)
    → parse m (c ∷ q) ≡ some items
    → (pre : List Item) × (items ≡ pre ++ items_of (c ∷ q))
unfolding parse
parse_ends_here plain c q items h e = ([], cc (e, parse_plain (c ∷ q) h))
parse_ends_here escape c q items h e = ([], unfold scan_byte in cc (e, parse_plain q h.1))
parse_ends_here m c q items h e = cc (e, parse-InClass m (c ∷ q) tt h)

emit-append : (o : Option Item) (xs ys : List Item) → emit o xs ++ ys ≡ emit o (xs ++ ys)
emit-append none xs ys = refl
emit-append (some i) xs ys = refl

-- The items of a pattern that ends in plain bytes end in these bytes.
parse_ends :
    (p : Bytes) (m : Mode) (c : ℕ) (q : Bytes) (items : List Item)
    → IsPlain (c ∷ q)
    → parse m (p ++ c ∷ q) ≡ some items
    → (pre : List Item) × (items ≡ pre ++ items_of (c ∷ q))
unfolding parse
parse_ends [] m c q items h e = parse_ends_here m c q items h e
parse_ends (b ∷ p) m c q items h e = elim (Option-cases (scan_byte m b)) [
  | inl s ↦ cc (rw (s, parse) at e)
  | inr ((m', o), s) ↦ elim (Option-cases (parse m' (p ++ c ∷ q))) [
    | inl n ↦ cc (rw (s, parse, n) at e)
    | inr (more, r) ↦
        let (pre, f) = parse_ends p m' c q more h r in
        let found : some (emit o more) ≡ some items = rw (s, parse, r) at e in
        (emit o pre, cc (found, f, emit-append o pre (items_of (c ∷ q))))
  ]
]

-- The last chunk of a split pattern ends in the bytes `q`.
abbrev EndsIn : Bytes → List Test → List (List Test) → Type 0
EndsIn q ts [] = (pre : List Test) × (ts ≡ pre ++ tests q)
EndsIn q ts (next ∷ more) = EndsIn q next more

EndsIn-cons :
    (q : Bytes) (t : Test) (ts : List Test) (more : List (List Test))
    → EndsIn q ts more
    → EndsIn q (t ∷ ts) more
EndsIn-cons q t ts [] (pre, e) = (t ∷ pre, cc e)
EndsIn-cons q t ts (next ∷ more) h = h

chunks-items_of : (q : Bytes) → chunks (items_of q) ≡ (tests q, [])
unfolding chunks
chunks-items_of [] = refl
chunks-items_of (c ∷ q) = rw (chunks-items_of q, chunks)

chunks-EndsIn :
    (pre : List Item) (q : Bytes)
    → EndsIn q (chunks (pre ++ items_of q)).0 (chunks (pre ++ items_of q)).1
unfolding chunks
chunks-EndsIn [] q = rw chunks-items_of ([], refl)
chunks-EndsIn (star ∷ pre) q = chunks-EndsIn pre q
chunks-EndsIn (one t ∷ pre) q =
    EndsIn-cons q t (chunks (pre ++ items_of q)).0 (chunks (pre ++ items_of q)).1
      (chunks-EndsIn pre q)

-- What a run of tests leaves is an end of the name; literal tests take exactly their bytes.
chunk_rest-tests : (q s t : Bytes) → chunk_rest (tests q) s ≡ some t → s ≡ q ++ t
unfolding chunk_rest
chunk_rest-tests [] s t h = cc h
chunk_rest-tests (c ∷ q) [] t h = cc h
chunk_rest-tests (c ∷ q) (d ∷ s) t h = ground (arith, chunk_rest-tests q s t)

chunk_rest-end :
    (ts : List Test) (q s t : Bytes)
    → chunk_rest (ts ++ tests q) s ≡ some t
    → (x : Bytes) × (s ≡ x ++ q ++ t)
unfolding chunk_rest
chunk_rest-end [] q s t h = ([], chunk_rest-tests q s t h)
chunk_rest-end (c ∷ ts) q [] t h = cc h
chunk_rest-end (c ∷ ts) q (d ∷ s) t h = elim (Bool-cases (accepts c d)) [
  | inl e ↦ let (x, f) = chunk_rest-end ts q s t (rw e at h) in (d ∷ x, cc f)
  | inr e ↦ cc (rw e at h)
]

record Found (ts : List Test) (last : Bool) (s t : Bytes) : Type 0 where
  before : Bytes
  here : Bytes
  split : s ≡ before ++ here
  rest : chunk_rest ts here ≡ some t
  ended : last ≡ true → t ≡ []

attempt-Found :
    (ts : List Test) (last : Bool) (s t : Bytes) → attempt ts last s ≡ some t → Found ts last s t
unfolding attempt
attempt-Found ts last s t h = elim (Option-cases (chunk_rest ts s)) [
  | inl n ↦ cc (rw (n, attempt) at h)
  | inr (u, r) ↦
      let k : (if last && not (is_empty u) then none else some u) ≡ some t = rw (r, attempt) at h in
      record {
        before = [];
        here = s;
        split = refl;
        rest = ground (arith, k);
        ended = nothing_left last u t k;
      }
]
  where
    nothing_left :
        (last : Bool) (u t : Bytes)
        → (if last && not (is_empty u) then none else some u) ≡ some t
        → last ≡ true
        → t ≡ []
    nothing_left true [] t k l = cc k
    nothing_left true (c ∷ u) t k l = cc k
    nothing_left false u t k l = cc l

Found-cons :
    (c : ℕ) (ts : List Test) (last : Bool) (s t : Bytes)
    → Found ts last s t
    → Found ts last (c ∷ s) t
Found-cons c ts last s t f = record {
  before = c ∷ f.before;
  here = f.here;
  split = cc (f.split);
  rest = f.rest;
  ended = f.ended;
}

seek-Found :
    (ts : List Test) (last : Bool) (s t : Bytes) → seek ts last s ≡ some t → Found ts last s t
unfolding seek
seek-Found ts last [] t h = attempt-Found ts last [] t h
seek-Found ts last (c ∷ s) t h = elim (Option-cases (attempt ts last (c ∷ s))) [
  | inr (u, r) ↦ attempt-Found ts last (c ∷ s) t (cc (r, rw (r, seek) at h))
  | inl n ↦ elim (Bool-cases (c == b'/')) [
    | inl slash ↦ cc (rw (n, seek, slash) at h)
    | inr free ↦ Found-cons c ts last s t (seek-Found ts last s t (rw (n, seek, free) at h))
  ]
]

find-Found :
    (starred : Bool) (ts : List Test) (last : Bool) (s t : Bytes)
    → find starred ts last s ≡ some t
    → Found ts last s t
find-Found true = seek-Found
find-Found false = attempt-Found

chunk_rest-suffix :
    (ts : List Test) (s t : Bytes) → chunk_rest ts s ≡ some t → (x : Bytes) × (s ≡ x ++ t)
chunk_rest-suffix ts s t h = let (x, e) = chunk_rest-end ts [] s t (rw append-nil h) in (x ++ [], e)

Found-suffix :
    {ts : List Test} {last : Bool} {s t : Bytes} → Found ts last s t → (x : Bytes) × (s ≡ x ++ t)
Found-suffix {ts} {t} f =
    let (x, e) = chunk_rest-suffix ts f.here t f.rest in
    (f.before ++ x, f.split ∙ ap (λ r. f.before ++ r) e ∙ sym (append_assoc f.before x t))

match_chunks-end :
    (q : Bytes) (more : List (List Test)) (starred : Bool) (ts : List Test) (s : Bytes)
    → EndsIn q ts more
    → match_chunks starred ts more s ≡ true
    → (x : Bytes) × (s ≡ x ++ q)
unfolding match_chunks
match_chunks-end q [] starred ts s (pre, e) h = elim (Option-cases (find starred ts true s)) [
  | inl n ↦ cc (rw (n, match_chunks) at h)
  | inr (t, r) ↦
      let f = find-Found starred ts true s t r in
      let (x, g) = chunk_rest-end pre q f.here t (rw (← e) f.rest) in
      let whole : f.here ≡ x ++ q =
        g ∙ ap (λ r. x ++ q ++ r) (f.ended refl) ∙ append-nil (x ++ q) in
      (f.before ++ x, f.split ∙ ap (λ r. f.before ++ r) whole ∙ sym (append_assoc f.before x q))
]
match_chunks-end q (next ∷ more) starred ts s e h = elim (Option-cases (find starred ts false s)) [
  | inl n ↦ cc (rw (n, match_chunks) at h)
  | inr (t, r) ↦
      let (x, g) = Found-suffix (find-Found starred ts false s t r) in
      let (y, k) = match_chunks-end q more true next t e (rw (r, match_chunks) at h) in
      (x ++ y, g ∙ ap (λ r. x ++ r) k ∙ sym (append_assoc x y q))
]

-- A pattern that ends in plain bytes matches only names that end in them.
pub path_match-suffix :
    (p : Bytes) (c : ℕ) (q name : Bytes)
    → IsPlain (c ∷ q)
    → path_match (p ++ c ∷ q) name ≡ true
    → (x : Bytes) × (name ≡ x ++ c ∷ q)
unfolding path_match
path_match-suffix p c q name h m = elim (Option-cases (parse plain (p ++ c ∷ q))) [
  | inl n ↦ cc (rw (n, path_match) at m)
  | inr (items, r) ↦
      let (pre, e) = parse_ends p plain c q items h r in
      let k : match_chunks false (chunks items).0 (chunks items).1 name ≡ true =
        rw (r, path_match) at m in
      match_chunks-end (c ∷ q) (chunks (pre ++ items_of (c ∷ q))).1 false
        (chunks (pre ++ items_of (c ∷ q))).0 name (chunks-EndsIn pre (c ∷ q)) (rw e at k)
]

literal_chunk : (q name : Bytes) → match_chunks false (tests q) [] name ≡ true → name ≡ q
unfolding match_chunks attempt
literal_chunk q name m = elim (Option-cases (chunk_rest (tests q) name)) [
  | inl n ↦ cc (rw (n, match_chunks, attempt) at m)
  | inr ([], r) ↦ chunk_rest-tests q name [] r ∙ append-nil q
  | inr (c ∷ t, r) ↦ cc (rw (r, match_chunks, attempt) at m)
]

-- A pattern of plain bytes alone matches only itself.
pub path_match-plain : (q name : Bytes) → IsPlain q → path_match q name ≡ true → name ≡ q
unfolding path_match
path_match-plain q name h m =
    literal_chunk q name (rw (parse_plain q h, path_match, chunks-items_of q) at m)
