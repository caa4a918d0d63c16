-- ===== src/Rules/Egress/First.antt =====
-- `LookupEgress` of internal/rules/engine.go: which entry decides.
use mathlib.Core.Path.{subst}
use mitmania.Prelude.{
  ℕ, ◌≤◌, ◌≡◌, refl, sym, ap, Bool, true, false, Option, List, [], ◌∷◌, ◌++◌, ◌⊎◌, inl, inr, Bytes,
  arith, ◌&&◌, leb, Bool-cases, and_parts, All,
}
use mitmania.Rules.Pattern.{matches}
use mitmania.Rules.Egress.{
  PortRange, CompiledEgress, port_matches, egress_passes, EgressVerdict, lookup_egress,
}

-- The port is in the range.
abbrev pub IsAt : PortRange → ℕ → Type 0
IsAt p port = (p.always ≡ true) ⊎ ((p.lo ≤ port) × (port ≤ p.hi))

module _ {Addr Prefix : Type 0} (contains : Prefix → Addr → Bool) (addr : Addr) (port : ℕ)
    (proto : Bytes) where
  -- The entry is for this address, this port and this protocol.
  pub record IsFor (e : CompiledEgress Prefix) : Type 0 where
    pub address : contains e.prefix addr ≡ true
    pub at_port : IsAt e.port port
    pub protocol : matches e.proto proto ≡ true

  -- The list up to the first entry that is for them.
  pub record IsFirst (es : List (CompiledEgress Prefix)) (e : CompiledEgress Prefix) : Type 0 where
    pub before : List (CompiledEgress Prefix)
    pub after : List (CompiledEgress Prefix)
    pub whole : es ≡ before ++ e ∷ after
    pub is_for : IsFor e
    pub earlier : All (λ f. ¬ IsFor f) before

  abbrev pub Decided : List (CompiledEgress Prefix) → EgressVerdict → Type 0
  Decided es v =
      ((e : CompiledEgress Prefix) × IsFirst es e
        × (v ≡ record { allow = e.allow; matched = true }))
      ⊎ (All (λ e. ¬ IsFor e) es × (v ≡ record { allow = false; matched = false }))

  skip :
      (e : CompiledEgress Prefix) (es : List (CompiledEgress Prefix)) (v : EgressVerdict)
      → ¬ IsFor e
      → Decided es v
      → Decided (e ∷ es) v
  skip e es v n (inl (first, f, g)) = inl (
    first,
    record {
      before = e ∷ f.before;
      after = f.after;
      whole = ap (λ r. e ∷ r) f.whole;
      is_for = f.is_for;
      earlier = (n, f.earlier);
    },
    g,
  )
  skip e es v n (inr (all, g)) = inr ((n, all), g)

port_matches-IsAt : (p : PortRange) (port : ℕ) → port_matches p port ≡ true → IsAt p port
unfolding port_matches
port_matches-IsAt p port h = elim (Bool-cases p.always) [
  | inl y ↦ inl y
  | inr n ↦
      let (low, high) = and_parts (leb p.lo port) (leb port p.hi) (rw n at h) in
      inr (ground (arith, low), ground (arith, high))
]

IsAt-port_matches : (p : PortRange) (port : ℕ) → IsAt p port → port_matches p port ≡ true
unfolding port_matches
IsAt-port_matches p port (inl y) = rw y refl
IsAt-port_matches p port (inr (low, high)) =
    let l : leb p.lo port ≡ true = ground (arith, low) in
    let h : leb port p.hi ≡ true = ground (arith, high) in ground (arith, l, h)

module _ {Addr Prefix : Type 0} (parse_prefix : Bytes → Option Prefix)
    (contains : Prefix → Addr → Bool) (regexp_compile : Bytes → Option (Bytes → Bool)) (addr : Addr)
    (port : ℕ) (proto : Bytes) where
  passes-IsFor :
      (e : CompiledEgress Prefix)
      → egress_passes parse_prefix contains regexp_compile e addr port proto ≡ true
      → IsFor contains addr port proto e
  unfolding egress_passes
  passes-IsFor e h =
      let (front, protocol) =
        and_parts (contains e.prefix addr && port_matches e.port port) (matches e.proto proto) h in
      let (address, at_port) =
        and_parts (contains e.prefix addr) (port_matches e.port port) front in
      record {
        address = address;
        at_port = port_matches-IsAt e.port port at_port;
        protocol = protocol;
      }

  IsFor-passes :
      (e : CompiledEgress Prefix)
      → IsFor contains addr port proto e
      → egress_passes parse_prefix contains regexp_compile e addr port proto ≡ true
  unfolding egress_passes
  IsFor-passes e h = rw (h.address, IsAt-port_matches e.port port h.at_port, h.protocol) refl

  lookup_hit :
      (e : CompiledEgress Prefix) (es : List (CompiledEgress Prefix))
      → egress_passes parse_prefix contains regexp_compile e addr port proto ≡ true
      → lookup_egress parse_prefix contains regexp_compile (e ∷ es) addr port proto
        ≡ record { allow = e.allow; matched = true }
  unfolding lookup_egress
  lookup_hit e es t = rw (t, lookup_egress) refl

  lookup_miss :
      (e : CompiledEgress Prefix) (es : List (CompiledEgress Prefix))
      → egress_passes parse_prefix contains regexp_compile e addr port proto ≡ false
      → lookup_egress parse_prefix contains regexp_compile (e ∷ es) addr port proto
        ≡ lookup_egress parse_prefix contains regexp_compile es addr port proto
  unfolding lookup_egress
  lookup_miss e es f = rw (f, lookup_egress) refl

  -- The egress lookup answers as the first entry whose prefix contains the address, whose ports
  -- are all ports or go from a number up to the port's to one from it on, and whose protocol
  -- pattern matches, and denies as unmatched if there is none.
  pub lookup_egress-Decided :
      (es : List (CompiledEgress Prefix))
      → Decided contains addr port proto es
          (lookup_egress parse_prefix contains regexp_compile es addr port proto)
  lookup_egress-Decided [] = unfold lookup_egress in inr (tt, refl)
  lookup_egress-Decided (e ∷ es) =
      elim (Bool-cases (egress_passes parse_prefix contains regexp_compile e addr port proto)) [
        | inl t ↦ inl (
          e,
          record { before = []; after = es; whole = refl; is_for = passes-IsFor e t; earlier = tt },
          lookup_hit e es t,
        )
        | inr f ↦ subst (Decided contains addr port proto (e ∷ es)) (sym (lookup_miss e es f)) (
            skip contains addr port proto e es
              (lookup_egress parse_prefix contains regexp_compile es addr port proto)
              (λ h. cc (f, IsFor-passes e h)) (lookup_egress-Decided es))
      ]
