-- ===== src/Rules/HostIndex/Laid.antt =====
-- The second loop of `compactHostIndex` in internal/rules/host_index.go: where it puts the edges and
-- the rule numbers of a builder.
use mathlib.Core.Path.{subst}
use mathlib.Core.List.{append_assoc, append-nil}
use mitmania.Prelude.{
  ◌&&◌, ℕ, zero, suc, ◌+◌, ◌-◌, ◌≤◌, ◌<◌, ◌≡◌, refl, sym, ap, ◌∙◌, true, some, List, [], ◌∷◌, ◌++◌,
  arith, length, length-append, get_elem?, take, drop, leb, get_elem?-append_left,
  get_elem?-append_right,
}
use mitmania.Rules.HostTree.{Node, rules_of}
use mitmania.Rules.HostIndex.{Edge, IndexNode, lay_out, u32, u32_mod, u32_sub, slice}
use mitmania.Rules.HostIndex.Bisect.{Holds}

abbrev pub edge_total : List (Node × List Edge) → ℕ
edge_total [] = 0
edge_total ((n, es) ∷ more) = length es + edge_total more

abbrev pub rule_total : List (Node × List Edge) → ℕ
rule_total [] = 0
rule_total ((n, es) ∷ more) = length (rules_of n) + rule_total more

-- `xs` holds `ys` from position `b` on.
pub record Spans {A : Type 0} (xs : List A) (b : ℕ) (ys : List A) : Type 0 where
  pub before : List A
  pub after : List A
  pub whole : xs ≡ before ++ (ys ++ after)
  pub start : length before ≡ b

-- What the laid out node of a builder says.
pub record IsLaid (edges : List Edge) (rule_ids : List ℕ) (n : Node) (es : List Edge)
    (x : IndexNode) : Type 0 where
  pub edges_at : Spans edges x.edge_start es
  pub edge_count : x.edge_count ≡ length es
  pub rules_at : Spans rule_ids x.rule_start (rules_of n)
  pub rule_count : x.rule_count ≡ length (rules_of n)

lay_out-extends :
    (bs : List (Node × List Edge)) (edges : List Edge) (ids : List ℕ)
    → ((more : List Edge) × ((lay_out bs edges ids).edges ≡ edges ++ more))
      × ((more : List ℕ) × ((lay_out bs edges ids).rule_ids ≡ ids ++ more))
unfolding lay_out
lay_out-extends [] edges ids = (([], sym (append-nil edges)), ([], sym (append-nil ids)))
lay_out-extends ((n, es) ∷ bs) edges ids =
    let ((m, e), (r, f)) = lay_out-extends bs (edges ++ es) (ids ++ rules_of n) in
    ((es ++ m, e ∙ append_assoc edges es m), (rules_of n ++ r, f ∙ append_assoc ids (rules_of n) r))

pub u32_small : (n : ℕ) → n < u32_mod → u32 n ≡ n
u32_small n h = omega arith

u32_count : (a b : ℕ) → a + b < u32_mod → u32_sub (u32 (a + b)) (u32 a) ≡ b
u32_count a b h = omega arith

count_added :
    {A : Type 0} (xs ys : List A)
    → length xs + length ys < u32_mod
    → u32_sub (u32 (length (xs ++ ys))) (u32 (length xs)) ≡ length ys
count_added xs ys h = rw (length-append xs ys) (u32_count (length xs) (length ys) h)

Spans-added :
    {A : Type 0} (all xs ys more : List A)
    → all ≡ xs ++ ys ++ more
    → length xs < u32_mod
    → Spans all (u32 (length xs)) ys
Spans-added all xs ys more e h = record {
  before = xs;
  after = more;
  whole = e ∙ append_assoc xs ys more;
  start = sym (u32_small (length xs) h);
}

pub lay_out-IsLaid :
    (bs : List (Node × List Edge)) (edges : List Edge) (ids : List ℕ) (i : ℕ) (n : Node)
    (es : List Edge)
    → length edges + edge_total bs < u32_mod
    → length ids + rule_total bs < u32_mod
    → get_elem? bs i ≡ some (n, es)
    → (x : IndexNode) × (get_elem? (lay_out bs edges ids).nodes i ≡ some x)
      × IsLaid (lay_out bs edges ids).edges (lay_out bs edges ids).rule_ids n es x
unfolding lay_out
lay_out-IsLaid [] edges ids i n es he hr g = cc g
lay_out-IsLaid ((n', es') ∷ bs) edges ids zero n es he hr g =
    let found : some (n', es') ≡ some (n, es) = g in
    let this : (n', es') ≡ (n, es) = cc found in
    let l = lay_out bs (edges ++ es') (ids ++ rules_of n') in
    let ((m, e), (r, f)) = lay_out-extends bs (edges ++ es') (ids ++ rules_of n') in
    (
      record {
        edge_start = u32 (length edges);
        edge_count = u32_sub (u32 (length (edges ++ es'))) (u32 (length edges));
        rule_start = u32 (length ids);
        rule_count = u32_sub (u32 (length (ids ++ rules_of n'))) (u32 (length ids));
      },
      refl,
      subst
          (λ (b : Node × List Edge). IsLaid l.edges l.rule_ids b.0 b.1 (record {
            edge_start = u32 (length edges);
            edge_count = u32_sub (u32 (length (edges ++ es'))) (u32 (length edges));
            rule_start = u32 (length ids);
            rule_count = u32_sub (u32 (length (ids ++ rules_of n'))) (u32 (length ids));
          }))
          this
          (record {
            edges_at = Spans-added l.edges edges es' m e (omega arith);
            edge_count = count_added edges es' (omega arith);
            rules_at = Spans-added l.rule_ids ids (rules_of n') r f (omega arith);
            rule_count = count_added ids (rules_of n') (omega arith);
          }),
    )
lay_out-IsLaid ((n', es') ∷ bs) edges ids (suc i) n es he hr g =
    lay_out-IsLaid bs (edges ++ es') (ids ++ rules_of n') i n es
      (omega (arith, length-append edges es')) (omega (arith, length-append ids (rules_of n'))) g

drop-append : {A : Type 0} (xs ys : List A) → drop (length xs) (xs ++ ys) ≡ ys
drop-append [] ys = refl
drop-append (x ∷ xs) ys = drop-append xs ys

take-append : {A : Type 0} (xs ys : List A) → take (length xs) (xs ++ ys) ≡ xs
take-append [] ys = refl
take-append (x ∷ xs) ys = ap (λ r. x ∷ r) (take-append xs ys)

pub Spans-fits :
    {A : Type 0} {xs : List A} {b : ℕ} {ys : List A} → Spans xs b ys → b + length ys ≤ length xs
Spans-fits {ys} s = omega (
  arith,
  ap length s.whole,
  length-append s.before (ys ++ s.after),
  length-append ys s.after,
  s.start,
)

pub Spans-slice :
    {A : Type 0} {xs : List A} {b : ℕ} {ys : List A}
    → Spans xs b ys
    → slice xs b (b + length ys) ≡ some ys
Spans-slice {xs} {b} {ys} s =
    let e : drop b xs ≡ ys ++ s.after =
      ap (drop b) s.whole
      ∙ ap (λ k. drop k (s.before ++ (ys ++ s.after))) (sym s.start)
      ∙ drop-append s.before (ys ++ s.after) in
    let in_range : (leb b (b + length ys) && leb (b + length ys) (length xs)) ≡ true =
      ground (arith, Spans-fits s) in
    let count : b + length ys - b ≡ length ys = omega arith in
    rw (in_range, count, e, take-append ys s.after)

pub Spans-Holds : {edges es : List Edge} {b : ℕ} → Spans edges b es → Holds edges b es
Spans-Holds {edges} {es} {b} s j h =
    ap (λ xs. get_elem? xs (b + j)) s.whole
    ∙ ap (λ k. get_elem? (s.before ++ (es ++ s.after)) (k + j)) (sym s.start)
    ∙ get_elem?-append_right s.before (es ++ s.after) j
    ∙ get_elem?-append_left es s.after j h

pub length-edges :
    (bs : List (Node × List Edge)) (edges : List Edge) (ids : List ℕ)
    → (length (lay_out bs edges ids).edges ≡ length edges + edge_total bs)
      × (length (lay_out bs edges ids).rule_ids ≡ length ids + rule_total bs)
unfolding lay_out
length-edges [] edges ids = (omega arith, omega arith)
length-edges ((n, es) ∷ bs) edges ids =
    let (e, r) = length-edges bs (edges ++ es) (ids ++ rules_of n) in
    (omega (arith, length-append edges es), omega (arith, length-append ids (rules_of n)))
