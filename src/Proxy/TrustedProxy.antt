-- ===== src/Proxy/TrustedProxy.antt =====
-- internal/proxy/trustedproxy.go: the client's address behind trusted proxies. Parameters: the
-- addresses and prefixes of Go's netip. A header's names are in canonical form.
pub mod Spoof
use mathlib.Core.List
use mitmania.Prelude.{
  ℕ, Bool, true, false, Option, none, some, List, [], ◌∷◌, ◌==◌, ◌&&◌, ◌||◌, leb, if◌then◌else◌,
  Bytes, codes, same, trim_space,
}
use mitmania.Headers.{Header, header_values, first_or_empty}
use mitmania.Rules.Pattern.Glob.{is_empty}
use mitmania.Rules.Labels.{split, join}

module _ {Addr Prefix : Type 0} (parse_addr : Bytes → Option Addr)
    (contains : Prefix → Addr → Bool) where
  unfoldable pub is_trusted_peer : Addr → List Prefix → Bool
  is_trusted_peer addr [] = false
  is_trusted_peer addr (p ∷ trusted) =
      let rest = is_trusted_peer addr trusted in if contains p addr then true else rest

  abbrev untrusted : List Prefix → Option Addr → Option Addr
  untrusted trusted none = none
  untrusted trusted (some addr) = if is_trusted_peer addr trusted then none else some addr

  -- What one round of the loop returns.
  unfoldable pub hop_address : List Prefix → Bytes → Option Addr
  unfolding trim_space is_trusted_peer
  hop_address trusted hop =
      if is_empty (trim_space hop) then none else untrusted trusted (parse_addr (trim_space hop))

  -- The loop, over the hops from the right.
  unfoldable pub first_untrusted : List Prefix → List Bytes → Option Addr
  unfolding hop_address
  first_untrusted trusted [] = none
  first_untrusted trusted (hop ∷ hops) =
      let rest = first_untrusted trusted hops in
      elim (hop_address trusted hop) [ some addr ↦ some addr | none ↦ rest ]

  abbrev or_else : Option Addr → Addr → Addr
  or_else none addr = addr
  or_else (some found) addr = found

  abbrev real_ip : Addr → Bytes → Addr
  real_ip peer xri = if is_empty xri then peer else or_else (parse_addr xri) peer

  unfoldable pub recover_client_ip : Addr → Header → List Prefix → Addr
  unfolding is_trusted_peer header_values trim_space first_untrusted
  recover_client_ip peer header trusted =
      if is_trusted_peer peer trusted
      then (let hops = split b',' (join b',' (header_values (codes "X-Forwarded-For") header)) in
          or_else (first_untrusted trusted (List.reverse hops))
            (real_ip peer (trim_space (first_or_empty (header_values (codes "X-Real-Ip") header)))))
      else peer
