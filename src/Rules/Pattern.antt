-- ===== src/Rules/Pattern.antt =====
-- internal/rules/compile.go: `matcher`, `compileMatcher` and `match`, and the regexes that
-- internal/rules/host_index.go recognises. `path.Match` is the child Glob. A compiled regex of Go's
-- `regexp` is the function that its MatchString computes.
pub mod Glob
pub mod Compiled
use mathlib.Core.List
use mitmania.Prelude.{
  ℕ, suc, ◌-◌, ◌<◌, ◌≡◌, refl, sym, ap, ◌∙◌, Bool, true, false, not, Option, none, some, List, [],
  ◌∷◌, ◌++◌, arith, ◌⊎◌, inl, inr, ◌==◌, ◌&&◌, ◌||◌, leb, ltb, if◌then◌else◌, Bytes, codes,
  Bool-cases, All, length, take, drop, get_elem?, to_lower, same, and_parts, map, ◌>>=◌,
}
use mitmania.Rules.Pattern.Glob.{is_empty, path_match}
use mitmania.Rules.Labels.{split, dot, is_literal_dns_label}

pub record Matcher : Type 0 where
  pub always : Bool
  pub glob : Bytes
  pub re : Option (Bytes → Bool)
  pub suffixes : Option (List Bytes)

abbrev backslash : ℕ
backslash = 92

abbrev is_host_byte : ℕ → Bool
is_host_byte c = leb b'a' c && leb c b'z' || leb b'0' c && leb c b'9' || c == b'-'

-- One alternative of an imported regex: `\.` stands for a dot.
unescape : Bytes → Option Bytes
unescape [] = some []
unescape (c ∷ []) = if is_host_byte c then some (c ∷ []) else none
unescape (c ∷ d ∷ r) = elim (c == backslash && d == dot) [
  | true ↦ do host ← unescape r; some (dot ∷ host)
  | false ↦ elim (is_host_byte c) [
    | true ↦ do host ← unescape (d ∷ r); some (c ∷ host)
    | false ↦ none
  ]
]

all_literal : List Bytes → Bool
all_literal [] = true
all_literal (l ∷ ls) = is_literal_dns_label l && all_literal ls

imported_host : Bytes → Option Bytes
unfolding unescape all_literal
imported_host atom = do
  value ← unescape atom
  if ltb (length (split dot value)) 2 || not (all_literal (split dot value))
      then none
      else some value

imported_hosts : List Bytes → Option (List Bytes)
imported_hosts [] = some []
imported_hosts (atom ∷ atoms) = do
  host ← imported_host atom
  hosts ← imported_hosts atoms
  some (host ∷ hosts)

-- `strings.CutPrefix`
unfoldable pub cut_prefix : Bytes → Bytes → Option Bytes
cut_prefix [] s = some s
cut_prefix (p ∷ ps) [] = none
cut_prefix (p ∷ ps) (c ∷ s) = if c == p then cut_prefix ps s else none

-- `strings.CutSuffix`
unfoldable pub cut_suffix : Bytes → Bytes → Option Bytes
unfolding cut_prefix
cut_suffix p s = do rest ← cut_prefix (List.reverse p) (List.reverse s); some (List.reverse rest)

abbrev regex_prefix : Bytes
regex_prefix = codes "(?i)(?:^|\\.)(?:"

abbrev regex_suffix : Bytes
regex_suffix = codes ")$"

unfoldable pub parse_imported_suffix_regex : Bytes → Option (List Bytes)
unfolding cut_suffix imported_host imported_hosts split
parse_imported_suffix_regex pattern' = do
  rest ← cut_prefix regex_prefix pattern'
  body ← cut_suffix regex_suffix rest
  if is_empty body then none else imported_hosts (split b'|' body)

-- `strings.EqualFold` on texts of one length
equal_fold : Bytes → Bytes → Bool
equal_fold s t = same (to_lower s) (to_lower t)

abbrev at_dot : Option ℕ → Bool
at_dot none = false
at_dot (some c) = c == dot

suffix_matches : Bytes → Bytes → Bool
unfolding equal_fold
suffix_matches s suffix =
    let start = length s - length suffix in
    if length s == length suffix && equal_fold s suffix
    then true
    else if ltb 0 start && at_dot (get_elem? s (start - 1)) && equal_fold (drop start s) suffix
    then true
    else false

unfoldable pub any_suffix : List Bytes → Bytes → Bool
unfolding suffix_matches
any_suffix [] s = false
any_suffix (suffix ∷ more) s = if suffix_matches s suffix then true else any_suffix more s

-- `matcher.match`
unfoldable pub matches : Matcher → Bytes → Bool
unfolding any_suffix path_match
matches m s = if m.always then true else elim m.suffixes [
  | some hosts ↦ any_suffix hosts s
  | none ↦ elim m.re [ some regex ↦ regex s | none ↦ path_match m.glob s ]
]

abbrev re_prefix : Bytes
re_prefix = codes "re:"

-- `regexp_compile` is Go's `regexp.Compile`; `none` is its error, the only one here.
module _ (regexp_compile : Bytes → Option (Bytes → Bool)) where
  abbrev suffixes_or_regex : Bytes → Option (List Bytes) → Option Matcher
  suffixes_or_regex rest (some hosts) =
      some (record { always = false; glob = []; re = none; suffixes = some hosts })
  suffixes_or_regex rest none = do
    regex ← regexp_compile rest
    some (record { always = false; glob = []; re = some regex; suffixes = none })

  abbrev regex_or_glob : Bytes → Option Bytes → Option Matcher
  regex_or_glob pattern' (some rest) = suffixes_or_regex rest (parse_imported_suffix_regex rest)
  regex_or_glob pattern' none =
      some (record { always = false; glob = pattern'; re = none; suffixes = none })

  unfoldable pub compile_matcher : Bytes → Option Matcher
  unfolding parse_imported_suffix_regex
  compile_matcher pattern' =
      if is_empty pattern'
      then some (record { always = true; glob = []; re = none; suffixes = none })
      else regex_or_glob pattern' (cut_prefix re_prefix pattern')
