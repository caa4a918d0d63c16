-- ===== src/Rules/Labels/Suffix.antt =====
-- literalGlobSuffix of internal/rules/host_index.go: what the suffix of a glob is.
use mathlib.Core.Path.{subst}
use mitmania.Prelude.{
  ◌≡◌, refl, sym, All, ap, ◌∙◌, true, false, List, [], ◌∷◌, ◌++◌, arith, inl, inr, ◌==◌, ◌&&◌,
  Bytes, Bool-cases, length, length-append, and_parts, ==_iff,
}
use mitmania.Rules.Pattern.Glob.{is_empty}
use mitmania.Rules.Labels.{
  split, join, is_literal_dns_label, dot, IsHost, Covers, AreLabels, trailing, literal_suffix,
}
use mitmania.Rules.Labels.Names.{IsName, IsLiteral, AreLabels-AreNames, split-join}
use mitmania.Rules.Labels.Hosts.{join-IsHost}
use mitmania.Rules.Labels.Splitting.{split-ne-nil, join-split, join-append}

record Ending (ls run : List Bytes) : Type 0 where
  before : List Bytes
  parts : ls ≡ before ++ run
  labels : AreLabels run

whole_run : (before run ls : List Bytes) → ls ≡ before ++ run → length run ≡ length ls → ls ≡ run
whole_run [] run ls e h = e
whole_run (b ∷ before) run ls e h = absurd (omega (arith, ap length e, length-append before run))

grow :
    {ls run : List Bytes} (l : Bytes)
    → Ending ls run
    → is_literal_dns_label l ≡ true
    → length run ≡ length ls
    → Ending (l ∷ ls) (l ∷ run)
grow {ls} {run} l e literal h = record {
  before = [];
  parts = ap (λ r. l ∷ r) (whole_run e.before run ls e.parts h);
  labels = (literal, e.labels);
}

trailing-Ending : (ls : List Bytes) → Ending ls (trailing ls)
unfolding trailing
trailing-Ending [] = record { before = []; parts = refl; labels = tt }
trailing-Ending (l ∷ ls) =
    let ih = trailing-Ending ls in
    elim (Bool-cases (length (trailing ls) == length ls && is_literal_dns_label l)) [
      | inl whole ↦
          let (all, this) =
            and_parts (length (trailing ls) == length ls) (is_literal_dns_label l) whole in
          rw whole (grow l ih this ((==_iff (length (trailing ls)) (length ls)).0 all))
      | inr part ↦
          rw part (record {
            before = l ∷ ih.before;
            parts = ap (λ r. l ∷ r) ih.parts;
            labels = ih.labels;
          })
    ]

Ending-Covers :
    (ls run : List Bytes)
    → is_empty run ≡ false
    → Ending ls run
    → IsLiteral (join dot run) × Covers (join dot run) (join dot ls)
Ending-Covers ls [] h e = cc h
Ending-Covers ls (r ∷ run) h e = (
  (
    join-IsHost r run e.labels,
    subst (All IsName) (sym (split-join r run e.labels)) (AreLabels-AreNames (r ∷ run) e.labels),
  ),
  covered e.before e.parts,
)
  where
    covered :
        (before : List Bytes) → ls ≡ before ++ r ∷ run → Covers (join dot (r ∷ run)) (join dot ls)
    covered [] p = inl (ap (join dot) p)
    covered (b ∷ before) p =
        inr (join dot (b ∷ before), ap (join dot) p ∙ join-append dot b before r run)

join_ne : (run : List Bytes) → is_empty (join dot run) ≡ false → is_empty run ≡ false
unfolding join
join_ne [] h = h
join_ne (r ∷ run) h = refl

-- A literal suffix that is not empty is a host each of whose labels is not empty, has only lower-
-- case letters, digits and hyphens, and has no hyphen at either end; and its glob is the suffix or
-- ends in it at a dot.
pub literal_suffix-Covers :
    (glob : Bytes)
    → is_empty (literal_suffix glob) ≡ false
    → IsLiteral (literal_suffix glob) × Covers (literal_suffix glob) glob
unfolding literal_suffix
literal_suffix-Covers glob h =
    let (host, covers) =
      Ending-Covers (split dot glob) (trailing (split dot glob))
        (join_ne (trailing (split dot glob)) h) (trailing-Ending (split dot glob)) in
    (host, rw (join-split dot glob) at covers)

-- A text whose labels are all literal is a literal host.
pub split-IsLiteral : (value : Bytes) → AreLabels (split dot value) → IsLiteral value
split-IsLiteral value h = (
  go (split dot value) (split-ne-nil dot value) (join-split dot value) h,
  AreLabels-AreNames (split dot value) h,
)
  where
    go : (ls : List Bytes) → is_empty ls ≡ false → join dot ls ≡ value → AreLabels ls → IsHost value
    go [] n e labels = cc n
    go (l ∷ ls) n e labels = rw e at (join-IsHost l ls labels)
