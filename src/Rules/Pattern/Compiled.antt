-- ===== src/Rules/Pattern/Compiled.antt =====
-- The matchers that `compileMatcher` of internal/rules/compile.go makes, and their suffixes.
use mathlib.Core.Path.{subst}
use mitmania.Prelude.{
  ℕ, zero, suc, ◌-◌, ◌≡◌, refl, ap, ◌∙◌, Bool, true, false, not, Option, none, some, List, [], ◌∷◌,
  ◌++◌, arith, inl, inr, ◌==◌, ◌&&◌, ◌||◌, ltb, ltb→lt, if◌then◌else◌, Bytes, Bool-cases,
  Option-cases, All, In, length, take, drop, get_elem?, to_lower, same→eq, and_parts, ==_iff, ◌>>=◌,
}
use mitmania.Rules.Pattern.Glob.{is_empty}
use mitmania.Rules.Labels.{split, dot, is_literal_dns_label, IsHost, Covers, AreLabels}
use mitmania.Rules.Labels.Suffix.{split-IsLiteral}
use mitmania.Rules.Labels.Names.{IsLiteral, All-IsHost}
use mitmania.Rules.Labels.Hosts.{to_lower-plain, to_lower-dotted}
use mitmania.Rules.Pattern.{
  Matcher, imported_host, imported_hosts, all_literal, unescape, parse_imported_suffix_regex,
  cut_prefix, cut_suffix, suffix_matches, any_suffix, equal_fold, at_dot, compile_matcher,
  re_prefix, suffixes_or_regex, regex_prefix, regex_suffix,
}

all_literal-AreLabels : (ls : List Bytes) → all_literal ls ≡ true → AreLabels ls
unfolding all_literal
all_literal-AreLabels [] h = tt
all_literal-AreLabels (l ∷ ls) h =
    let (this, more) = and_parts (is_literal_dns_label l) (all_literal ls) h in
    (this, all_literal-AreLabels ls more)

literal_value :
    (value host : Bytes) (ls : List Bytes)
    → (if ltb (length ls) 2 || not (all_literal ls) then none else some value) ≡ some host
    → (value ≡ host) × (all_literal ls ≡ true)
literal_value value host ls h = elim (Bool-cases (all_literal ls)) [
  | inl e ↦ elim (Bool-cases (ltb (length ls) 2)) [
    | inl short ↦ cc (rw short at h)
    | inr long ↦ (cc (rw (long, e) at h), e)
  ]
  | inr e ↦ elim (Bool-cases (ltb (length ls) 2)) [
    | inl short ↦ cc (rw short at h)
    | inr long ↦ cc (rw (long, e) at h)
  ]
]

imported_host-IsLiteral : (atom host : Bytes) → imported_host atom ≡ some host → IsLiteral host
unfolding imported_host
imported_host-IsLiteral atom host h = elim (Option-cases (unescape atom)) [
  | inl e ↦ cc (rw (e, ◌>>=◌) at h)
  | inr (value, e) ↦
      let (same_text, literal) = literal_value value host (split dot value) (rw (e, ◌>>=◌) at h) in
      subst IsLiteral same_text
        (split-IsLiteral value (all_literal-AreLabels (split dot value) literal))
]

imported_hosts-IsLiteral :
    (atoms hosts : List Bytes) → imported_hosts atoms ≡ some hosts → All IsLiteral hosts
unfolding imported_hosts
imported_hosts-IsLiteral [] [] h = tt
imported_hosts-IsLiteral [] (host ∷ hosts) h = cc h
imported_hosts-IsLiteral (atom ∷ atoms) hosts h = elim (Option-cases (imported_host atom)) [
  | inl e ↦ cc (rw (e, imported_hosts, ◌>>=◌) at h)
  | inr (first, e) ↦ elim (Option-cases (imported_hosts atoms)) [
    | inl n ↦ cc (rw (e, imported_hosts, ◌>>=◌, n) at h)
    | inr (rest, r) ↦
        let whole : some (first ∷ rest) ≡ some hosts = rw (e, imported_hosts, ◌>>=◌, r) at h in
        let parts : first ∷ rest ≡ hosts = cc whole in
        subst (All IsLiteral) parts
          (imported_host-IsLiteral atom first e, imported_hosts-IsLiteral atoms rest r)
  ]
]

-- Every text that is taken from an imported regex is a host each of whose labels is not empty, has
-- only lower-case letters, digits and hyphens, and has no hyphen at either end.
pub parse_imported_suffix_regex-IsLiteral :
    (pattern' : Bytes) (hosts : List Bytes)
    → parse_imported_suffix_regex pattern' ≡ some hosts
    → All IsLiteral hosts
unfolding parse_imported_suffix_regex
parse_imported_suffix_regex-IsLiteral pattern' hosts h =
    elim (Option-cases (cut_prefix regex_prefix pattern')) [
      | inl e ↦ cc (rw (e, ◌>>=◌) at h)
      | inr (rest, e) ↦ elim (Option-cases (cut_suffix regex_suffix rest)) [
        | inl n ↦ cc (rw (e, ◌>>=◌, n) at h)
        | inr (body, r) ↦ elim (Bool-cases (is_empty body)) [
          | inl b ↦ cc (rw (e, ◌>>=◌, r, b) at h)
          | inr b ↦ imported_hosts-IsLiteral (split b'|' body) hosts (rw (e, ◌>>=◌, r, b) at h)
        ]
      ]
    ]

-- What a pattern is compiled to: only hosts stand among the suffixes, and with them it is no match of all.
pub record IsCompiled (m : Matcher) : Type 0 where
  pub hosts : (hosts : List Bytes) → m.suffixes ≡ some hosts → (m.always ≡ false) × All IsHost hosts

without_suffixes : (m : Matcher) → m.suffixes ≡ none → IsCompiled m
without_suffixes m e = record { hosts = λ hosts h. cc (e, h) }

module _ (regexp_compile : Bytes → Option (Bytes → Bool)) where
  suffixes_or_regex-IsCompiled :
      (rest : Bytes) (m : Matcher)
      → suffixes_or_regex regexp_compile rest (parse_imported_suffix_regex rest) ≡ some m
      → IsCompiled m
  suffixes_or_regex-IsCompiled rest m h = elim (Option-cases (parse_imported_suffix_regex rest)) [
    | inl e ↦ elim (Option-cases (regexp_compile rest)) [
      | inl n ↦ cc (rw (e, ◌>>=◌, n) at h)
      | inr (regex, r) ↦
          let made : record { always = false; glob = []; re = some regex; suffixes = none } ≡ m =
            cc (rw (e, ◌>>=◌, r) at h) in
          subst IsCompiled made (without_suffixes _ refl)
    ]
    | inr (found, e) ↦
        let made : record { always = false; glob = []; re = none; suffixes = some found } ≡ m =
          cc (rw e at h) in
        subst IsCompiled made (record {
          hosts = λ hosts k.
              (refl, All-IsHost hosts (parse_imported_suffix_regex-IsLiteral rest hosts (e ∙ k)));
        })
  ]

  -- A pattern that compiles comes to such a matcher.
  pub compile_matcher-IsCompiled :
      (pattern' : Bytes) (m : Matcher)
      → compile_matcher regexp_compile pattern' ≡ some m
      → IsCompiled m
  unfolding compile_matcher
  compile_matcher-IsCompiled pattern' m h = elim (Bool-cases (is_empty pattern')) [
    | inl e ↦
        let made : record { always = true; glob = []; re = none; suffixes = none } ≡ m =
          cc (rw e at h) in
        subst IsCompiled made (without_suffixes _ refl)
    | inr e ↦ elim (Option-cases (cut_prefix re_prefix pattern')) [
      | inl n ↦
          let made : record { always = false; glob = pattern'; re = none; suffixes = none } ≡ m =
            cc (rw (e, n) at h) in
          subst IsCompiled made (without_suffixes _ refl)
      | inr (rest, r) ↦ suffixes_or_regex-IsCompiled rest m (rw (e, r) at h)
    ]
  ]

cut_at_dot :
    (n : ℕ) (s : Bytes) → at_dot (get_elem? s n) ≡ true → s ≡ take n s ++ dot ∷ drop (suc n) s
cut_at_dot n [] h = cc h
cut_at_dot zero (c ∷ s) h = ap (λ x. x ∷ s) ((==_iff c dot).0 h)
cut_at_dot (suc n) (c ∷ s) h = ap (λ r. c ∷ r) (cut_at_dot n s h)

fold_lower : (q t : Bytes) → IsHost q → equal_fold t q ≡ true → to_lower t ≡ q
unfolding equal_fold
fold_lower q t h e = same→eq (to_lower t) (to_lower q) e ∙ to_lower-plain q h.plain

dotted_suffix :
    (q s : Bytes) (start : ℕ)
    → IsHost q
    → (ltb 0 start && at_dot (get_elem? s (start - 1)) && equal_fold (drop start s) q) ≡ true
    → Covers q (to_lower s)
dotted_suffix q s start h e =
    let (before, fold) =
      and_parts (ltb 0 start && at_dot (get_elem? s (start - 1))) (equal_fold (drop start s) q) e in
    let (positive, at) = and_parts (ltb 0 start) (at_dot (get_elem? s (start - 1))) before in
    let back : suc (start - 1) ≡ start = omega (arith, ltb→lt 0 start positive) in
    inr (
      to_lower (take (start - 1) s),
      ap to_lower
            (cut_at_dot (start - 1) s at ∙ ap (λ n. take (start - 1) s ++ dot ∷ drop n s) back)
          ∙ to_lower-dotted (take (start - 1) s) (drop start s)
          ∙ ap (λ r. to_lower (take (start - 1) s) ++ dot ∷ r) (fold_lower q (drop start s) h fold),
    )

-- A host among the suffixes matches only texts that it covers, in lower case.
suffix_matches-Covers : (q s : Bytes) → IsHost q → suffix_matches s q ≡ true → Covers q (to_lower s)
unfolding suffix_matches
suffix_matches-Covers q s h e = elim (Bool-cases (length s == length q && equal_fold s q)) [
  | inl whole ↦ inl (fold_lower q s h (and_parts (length s == length q) (equal_fold s q) whole).1)
  | inr n ↦
      elim (Bool-cases (
        ltb 0 (length s - length q)
        && at_dot (get_elem? s (length s - length q - 1))
        && equal_fold (drop (length s - length q) s) q)) [
          | inl part ↦ dotted_suffix q s (length s - length q) h part
          | inr none' ↦ cc (rw (n, none') at e)
        ]
]

pub any_suffix-Covers :
    (hosts : List Bytes) (s : Bytes)
    → All IsHost hosts
    → any_suffix hosts s ≡ true
    → (q : Bytes) × In q hosts × IsHost q × Covers q (to_lower s)
unfolding any_suffix
any_suffix-Covers [] s h e = cc e
any_suffix-Covers (host ∷ hosts) s h e = elim (Bool-cases (suffix_matches s host)) [
  | inl this ↦ (host, inl refl, h.0, suffix_matches-Covers host s h.0 this)
  | inr n ↦
      let (q, i, known, covers) = any_suffix-Covers hosts s h.1 (rw (n, any_suffix) at e) in
      (q, inr i, known, covers)
]
