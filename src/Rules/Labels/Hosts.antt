-- ===== src/Rules/Labels/Hosts.antt =====
-- internal/rules/host_index.go: texts of literal DNS labels, and lower case.
use mitmania.Prelude.{
  ℕ, ◌≡◌, refl, ap, ◌∙◌, true, false, List, [], ◌∷◌, ◌++◌, arith, inl, inr, ◌==◌, Bytes, lower,
  to_lower, and_parts,
}
use mitmania.Rules.Pattern.Glob.Literal.{is_plain, IsPlain}
use mitmania.Rules.Labels.{
  join, is_label_byte, all_label_bytes, ends_in, is_literal_dns_label, dot, IsHost, Covers,
  AreLabels,
}

IsPlain-append : (a b : Bytes) → IsPlain a → IsPlain b → IsPlain (a ++ b)
IsPlain-append [] b h k = k
IsPlain-append (c ∷ a) b h k = (h.0, IsPlain-append a b h.1 k)

ends_in-append : (a : Bytes) (c : ℕ) (b : Bytes) → ends_in dot (a ++ c ∷ b) ≡ ends_in dot (c ∷ b)
unfolding ends_in
ends_in-append [] c b = refl
ends_in-append (x ∷ []) c b = refl
ends_in-append (x ∷ y ∷ a) c b = ends_in-append (y ∷ a) c b

all_label_bytes-IsPlain :
    (l : Bytes) → all_label_bytes l ≡ true → IsPlain l × (ends_in dot l ≡ false)
unfolding all_label_bytes ends_in
all_label_bytes-IsPlain [] h = (tt, refl)
all_label_bytes-IsPlain (c ∷ []) h = ground arith
all_label_bytes-IsPlain (c ∷ b ∷ l) h =
    let (this, more) = and_parts (is_label_byte c) (all_label_bytes (b ∷ l)) h in
    let (p, e) = all_label_bytes-IsPlain (b ∷ l) more in ((ground arith, p), e)

label_starts : (c : ℕ) (l : Bytes) → all_label_bytes (c ∷ l) ≡ true → (c == dot) ≡ false
unfolding all_label_bytes
label_starts c l h = ground arith

label-IsHost : (l : Bytes) → is_literal_dns_label l ≡ true → IsHost l
unfolding is_literal_dns_label
label-IsHost [] h = cc h
label-IsHost (c ∷ l) h =
    let bytes : all_label_bytes (c ∷ l) ≡ true = ground arith in
    let (p, e) = all_label_bytes-IsPlain (c ∷ l) bytes in
    record { nonempty = refl; plain = p; starts = label_starts c l bytes; ends = e }

dotted-IsHost : (a b : Bytes) → IsHost a → IsHost b → IsHost (a ++ dot ∷ b)
dotted-IsHost [] b h k = cc h.nonempty
dotted-IsHost (c ∷ a) [] h k = cc k.nonempty
dotted-IsHost (c ∷ a) (d ∷ b) h k = record {
  nonempty = refl;
  plain = IsPlain-append (c ∷ a) (dot ∷ d ∷ b) h.plain (refl, k.plain);
  starts = h.starts;
  ends = ends_in-append (c ∷ a) dot (d ∷ b) ∙ unfold ends_in in k.ends;
}

-- Literal labels joined by dots are a host.
pub join-IsHost : (l : Bytes) (ls : List Bytes) → AreLabels (l ∷ ls) → IsHost (join dot (l ∷ ls))
unfolding join
join-IsHost l [] h = label-IsHost l h.0
join-IsHost l (m ∷ ls) h =
    dotted-IsHost l (join dot (m ∷ ls)) (label-IsHost l h.0) (join-IsHost m ls h.1)

lower_plain : (c : ℕ) → is_plain c ≡ true → lower c ≡ c
unfolding lower
lower_plain c h = ground arith

pub to_lower-plain : (q : Bytes) → IsPlain q → to_lower q ≡ q
unfolding to_lower
to_lower-plain [] h = refl
to_lower-plain (c ∷ q) h = cc (lower_plain c h.0, to_lower-plain q h.1)

pub to_lower-dotted : (y q : Bytes) → to_lower (y ++ dot ∷ q) ≡ to_lower y ++ dot ∷ to_lower q
unfolding to_lower
to_lower-dotted [] q = refl
to_lower-dotted (c ∷ y) q = ap (λ r. lower c ∷ r) (to_lower-dotted y q)

-- Lower case keeps a host at the end of a text.
pub to_lower-Covers : (q s : Bytes) → IsHost q → Covers q s → Covers q (to_lower s)
to_lower-Covers q s h (inl e) = inl (ap to_lower e ∙ to_lower-plain q h.plain)
to_lower-Covers q s h (inr (y, e)) = inr (
  to_lower y,
  ap to_lower e ∙ to_lower-dotted y q ∙ ap (λ r. to_lower y ++ dot ∷ r) (to_lower-plain q h.plain),
)

-- A host that ends a text in another case ends its lower case.
pub Covers-fold : (q s : Bytes) → IsHost q → to_lower s ≡ to_lower q → Covers q (to_lower s)
Covers-fold q s h e = inl (e ∙ to_lower-plain q h.plain)
