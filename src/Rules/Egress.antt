-- ===== src/Rules/Egress.antt =====
-- internal/rules/egress.go and `LookupEgress` of internal/rules/engine.go: the policy on destination
-- addresses. Parameters: the addresses and prefixes of Go's netip, and `regexp.Compile`.
pub mod Ranges
pub mod First
use mitmania.Prelude.{
  ℕ, zero, suc, ◌+◌, ◌-◌, ◌*◌, Bool, true, false, Option, none, some, List, [], ◌∷◌, ◌==◌, ◌&&◌,
  ◌||◌, leb, ltb, if◌then◌else◌, Bytes, codes, same, trim_space, ◌>>=◌,
}
use mitmania.Rules.Schema.{EgressRule}
use mitmania.Rules.Pattern.Glob.{is_empty}
use mitmania.Rules.Pattern.{Matcher, matches, compile_matcher}

pub record PortRange : Type 0 where
  pub always : Bool
  pub lo : ℕ
  pub hi : ℕ

-- The digits of `strconv.ParseUint(s, 10, 16)`, which fails on a number that 16 bits do not hold.
unfoldable pub parse_digits : ℕ → Bytes → Option ℕ
parse_digits n [] = some n
parse_digits n (c ∷ s) = elim (leb b'0' c && leb c b'9' && ltb (n * 10 + (c - b'0')) 65536) [
  | true ↦ parse_digits (n * 10 + (c - b'0')) s
  | false ↦ none
]

unfoldable pub parse_uint16 : Bytes → Option ℕ
unfolding parse_digits
parse_uint16 s = if is_empty s then none else parse_digits 0 s

unfoldable pub parse_port : Bytes → Option ℕ
unfolding parse_uint16 trim_space
parse_port s = parse_uint16 (trim_space s)

-- `strings.Cut` at a byte
unfoldable pub cut : ℕ → Bytes → Option (Bytes × Bytes)
cut d [] = none
cut d (c ∷ s) =
    let rest = cut d s in
    if c == d then some ([], s) else (do (before, after) ← rest; some (c ∷ before, after))

abbrev pub port_span : Bytes × Bytes → Option PortRange
port_span (lo, hi) = do
  low ← parse_port lo
  high ← parse_port hi
  if ltb high low then none else some (record { always = false; lo = low; hi = high })

abbrev pub one_port : Bytes → Option PortRange
one_port s = do n ← parse_port s; some (record { always = false; lo = n; hi = n })

abbrev pub span_or_port : Bytes → Option (Bytes × Bytes) → Option PortRange
span_or_port s none = one_port s
span_or_port s (some parts) = port_span parts

unfoldable pub compile_port_range : Bytes → Option PortRange
unfolding parse_port cut
compile_port_range s =
    if is_empty s || same s (codes "*")
    then some (record { always = true; lo = 0; hi = 0 })
    else span_or_port s (cut b'-' s)

unfoldable pub port_matches : PortRange → ℕ → Bool
port_matches p port = p.always || leb p.lo port && leb port p.hi

pub record CompiledEgress (Prefix : Type 0) : Type 0 where
  pub prefix : Prefix
  pub port : PortRange
  pub proto : Matcher
  pub allow : Bool

abbrev pub egress_action : Bytes → Option Bool
egress_action action =
    if same action (codes "allow")
    then some true
    else if same action (codes "deny")
    then some false
    else none

pub record EgressVerdict : Type 0 where
  pub allow : Bool
  pub matched : Bool

module _ {Addr Prefix : Type 0} (parse_prefix : Bytes → Option Prefix)
    (contains : Prefix → Addr → Bool) (regexp_compile : Bytes → Option (Bytes → Bool)) where
  unfoldable pub compile_egress_rule : EgressRule → Option (CompiledEgress Prefix)
  unfolding compile_port_range compile_matcher
  compile_egress_rule r = do
    prefix ← parse_prefix r.cidr
    port ← compile_port_range r.port
    proto ← compile_matcher regexp_compile r.proto
    allow ← egress_action r.action
    some (record { prefix = prefix; port = port; proto = proto; allow = allow })

  unfoldable pub compile_egress : List EgressRule → Option (List (CompiledEgress Prefix))
  unfolding compile_egress_rule
  compile_egress [] = some []
  compile_egress (r ∷ rs) = do e ← compile_egress_rule r; es ← compile_egress rs; some (e ∷ es)

  unfoldable pub egress_passes : CompiledEgress Prefix → Addr → ℕ → Bytes → Bool
  unfolding port_matches matches
  egress_passes e addr port proto =
      contains e.prefix addr && port_matches e.port port && matches e.proto proto

  unfoldable pub lookup_egress : List (CompiledEgress Prefix) → Addr → ℕ → Bytes → EgressVerdict
  unfolding egress_passes
  lookup_egress [] addr port proto = record { allow = false; matched = false }
  lookup_egress (e ∷ es) addr port proto =
      let rest = lookup_egress es addr port proto in
      if egress_passes e addr port proto then record { allow = e.allow; matched = true } else rest
