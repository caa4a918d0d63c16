-- ===== src/Rules/Labels.antt =====
-- internal/rules/host_index.go: DNS labels, `isLiteralDNSLabel`, and the texts made of such labels.
pub mod Hosts
pub mod Names
pub mod Splitting
pub mod Suffix
use mathlib.Core.List.{append_assoc}
use mitmania.Prelude.{
  ℕ, ◌≡◌, refl, sym, ap, ◌∙◌, Bool, true, false, List, [], ◌∷◌, ◌++◌, arith, ◌⊎◌, inl, inr, ◌==◌,
  ◌&&◌, ◌||◌, leb, if◌then◌else◌, Bytes, Bool-cases, All, length, length-append, lower, to_lower,
  and_parts, ==_iff,
}
use mitmania.Rules.Pattern.Glob.{is_empty}
use mitmania.Rules.Pattern.Glob.Literal.{is_plain, IsPlain}

abbrev pub cons_head : ℕ → List Bytes → List Bytes
cons_head c [] = (c ∷ []) ∷ []
cons_head c (l ∷ ls) = (c ∷ l) ∷ ls

-- `strings.Split` by one byte
unfoldable pub split : ℕ → Bytes → List Bytes
split d [] = [] ∷ []
split d (c ∷ r) = if c == d then [] ∷ split d r else cons_head c (split d r)

-- `strings.Join` by one byte
unfoldable pub join : ℕ → List Bytes → Bytes
join d [] = []
join d (l ∷ []) = l
join d (l ∷ m ∷ ls) = l ++ d ∷ join d (m ∷ ls)

-- The bytes that a label may hold.
abbrev pub is_label_byte : ℕ → Bool
is_label_byte c = leb b'a' c && leb c b'z' || leb b'0' c && leb c b'9' || c == b'-'

pub all_label_bytes : Bytes → Bool
all_label_bytes [] = true
all_label_bytes (c ∷ r) = is_label_byte c && all_label_bytes r

unfoldable pub ends_in : ℕ → Bytes → Bool
ends_in d [] = false
ends_in d (c ∷ []) = c == d
ends_in d (c ∷ b ∷ r) = ends_in d (b ∷ r)

abbrev pub starts_in : ℕ → Bytes → Bool
starts_in d [] = false
starts_in d (c ∷ r) = c == d

-- `isLiteralDNSLabel`
unfoldable pub is_literal_dns_label : Bytes → Bool
unfolding all_label_bytes ends_in
is_literal_dns_label label =
    if is_empty label || starts_in b'-' label || ends_in b'-' label
    then false
    else all_label_bytes label

abbrev pub dot : ℕ
dot = b'.'

-- A text of literal labels: what the index holds a rule under.
pub record IsHost (q : Bytes) : Type 0 where
  pub nonempty : is_empty q ≡ false
  pub plain : IsPlain q
  pub starts : starts_in dot q ≡ false
  pub ends : ends_in dot q ≡ false

-- The text ends in the host `q`, at a label's boundary.
abbrev pub Covers : Bytes → Bytes → Type 0
Covers q s = (s ≡ q) ⊎ ((y : Bytes) × (s ≡ y ++ dot ∷ q))

abbrev pub AreLabels : List Bytes → Type 0
AreLabels = All (λ l. is_literal_dns_label l ≡ true)

-- The labels at the end that are all literal: the loop of `literalGlobSuffix`.
pub trailing : List Bytes → List Bytes
trailing [] = []
trailing (l ∷ ls) =
    let run = trailing ls in
    if length run == length ls && is_literal_dns_label l then l ∷ run else run

-- The text of `literalGlobSuffix`; it is empty where the last label is not literal.
unfoldable pub literal_suffix : Bytes → Bytes
unfolding split join trailing
literal_suffix glob = join dot (trailing (split dot glob))
