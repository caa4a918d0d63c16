-- ===== src/Proxy/Pin.antt =====
-- internal/proxy/egress.go: `resolveAndPin`. Parameters: the addresses and prefixes of Go's netip, the
-- resolver's answer, and `net.JoinHostPort`. `none` is a panic.
pub mod Checked
use mitmania.Prelude.{ℕ, Bool, true, false, Option, none, some, List, [], ◌∷◌, if◌then◌else◌, Bytes}
use mitmania.Rules.Egress.{CompiledEgress, parse_uint16, lookup_egress}

pub data Pinned (Addr E : Type 0) : Type 0 where
  bad_port : Pinned Addr E
  lookup_failed : E → Pinned Addr E
  egress_denied : Addr → Pinned Addr E
  pinned : Bytes → Pinned Addr E

pub data Answer (Addr E : Type 0) : Type 0 where
  addresses : List Addr → Answer Addr E
  unresolved : E → Answer Addr E

module _ {Addr Prefix E : Type 0} (parse_prefix : Bytes → Option Prefix)
    (contains : Prefix → Addr → Bool) (regexp_compile : Bytes → Option (Bytes → Bool))
    (parse_addr : Bytes → Option Addr) (lookup_ip : Bytes → Answer Addr E)
    (addr_text : Addr → Bytes) (join_host_port : Bytes → Bytes → Bytes) where
  -- The addresses to check: the host's own where it is a literal.
  unfoldable pub resolve : Bytes → Answer Addr E
  resolve host = elim (parse_addr host) [
    | some addr ↦ addresses (addr ∷ [])
    | none ↦ lookup_ip host
  ]

  -- The loop over the addresses: the first that is denied.
  unfoldable pub first_denied : List (CompiledEgress Prefix) → ℕ → Bytes → List Addr → Option Addr
  unfolding lookup_egress
  first_denied egress port proto [] = none
  first_denied egress port proto (addr ∷ addrs) =
      let rest = first_denied egress port proto addrs in
      if (lookup_egress parse_prefix contains regexp_compile egress addr port proto).allow
      then rest
      else some addr

  abbrev pub pin_first : List Addr → Bytes → Option (Pinned Addr E)
  pin_first [] port = none
  pin_first (addr ∷ addrs) port = some (pinned (join_host_port (addr_text addr) port))

  abbrev pub check_all :
      List (CompiledEgress Prefix) → ℕ → Bytes → Bytes → List Addr → Option (Pinned Addr E)
  check_all egress num port proto addrs = elim (first_denied egress num proto addrs) [
    | some addr ↦ some (egress_denied addr)
    | none ↦ pin_first addrs port
  ]

  abbrev pub check_answer :
      List (CompiledEgress Prefix) → ℕ → Bytes → Bytes → Answer Addr E → Option (Pinned Addr E)
  check_answer egress num port proto (addresses addrs) = check_all egress num port proto addrs
  check_answer egress num port proto (unresolved e) = some (lookup_failed e)

  unfoldable pub resolve_and_pin :
      List (CompiledEgress Prefix) → Bytes → Bytes → Bytes → Option (Pinned Addr E)
  unfolding resolve first_denied parse_uint16
  resolve_and_pin egress host port proto = elim (parse_uint16 port) [
    | none ↦ some bad_port
    | some num ↦ check_answer egress num port proto (resolve host)
  ]
