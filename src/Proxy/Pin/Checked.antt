-- ===== src/Proxy/Pin/Checked.antt =====
-- internal/proxy/egress.go: which destinations are pinned.
use mitmania.Prelude.{
  ℕ, ◌≡◌, ◌↔◌, refl, sym, ap, Bool, true, Option, none, some, List, [], ◌∷◌, inl, inr, Bytes,
  Bool-cases, Option-cases, All,
}
use mitmania.Rules.Egress.{CompiledEgress, parse_uint16, lookup_egress}
use mitmania.Proxy.Pin.{
  pinned, Answer, addresses, unresolved, resolve, first_denied, pin_first, check_all, check_answer,
  resolve_and_pin,
}

module _ {Addr Prefix E : Type 0} (parse_prefix : Bytes → Option Prefix)
    (contains : Prefix → Addr → Bool) (regexp_compile : Bytes → Option (Bytes → Bool))
    (parse_addr : Bytes → Option Addr) (lookup_ip : Bytes → Answer Addr E)
    (addr_text : Addr → Bytes) (join_host_port : Bytes → Bytes → Bytes)
    (egress : List (CompiledEgress Prefix)) (host port proto : Bytes) where
  abbrev pub Allowed : ℕ → Addr → Type 0
  Allowed num addr =
      (lookup_egress parse_prefix contains regexp_compile egress addr num proto).allow ≡ true

  -- The answer to the one lookup, whose addresses are all allowed and the first is the destination.
  pub record IsChecked (dst : Bytes) : Type 0 where
    pub num : ℕ
    pub parsed : parse_uint16 port ≡ some num
    pub first : Addr
    pub others : List Addr
    pub answer :
        resolve parse_prefix contains regexp_compile parse_addr lookup_ip addr_text join_host_port
          host
        ≡ addresses (first ∷ others)
    pub allowed : All (Allowed num) (first ∷ others)
    pub destination : dst ≡ join_host_port (addr_text first) port

  first_denied-none :
      (num : ℕ) (addrs : List Addr)
      → first_denied parse_prefix contains regexp_compile parse_addr lookup_ip addr_text
          join_host_port egress num proto addrs
        ≡ none
      → All (Allowed num) addrs
  unfolding first_denied
  first_denied-none num [] h = tt
  first_denied-none num (addr ∷ addrs) h =
      elim (Bool-cases
        (lookup_egress parse_prefix contains regexp_compile egress addr num proto).allow) [
          | inl t ↦ (t, first_denied-none num addrs (rw (t, first_denied) at h))
          | inr f ↦ cc (rw (f, first_denied) at h)
        ]

  check_answer-IsChecked :
      (num : ℕ) (dst : Bytes) (answer : Answer Addr E)
      → parse_uint16 port ≡ some num
      → resolve parse_prefix contains regexp_compile parse_addr lookup_ip addr_text join_host_port
          host
        ≡ answer
      → check_answer parse_prefix contains regexp_compile parse_addr lookup_ip addr_text
          join_host_port egress num port proto answer
        ≡ some (pinned dst)
      → IsChecked dst
  check_answer-IsChecked num dst (unresolved e) p r h = cc h
  check_answer-IsChecked num dst (addresses addrs) p r h =
      elim (Option-cases (
        first_denied parse_prefix contains regexp_compile parse_addr lookup_ip addr_text
          join_host_port egress num proto addrs)) [
            | inr (addr, d) ↦ cc (rw (d, check_answer, check_all) at h)
            | inl n ↦
                made addrs r (first_denied-none num addrs n) (rw (n, check_answer, check_all) at h)
          ]
    where
      made :
          (addrs : List Addr)
          → resolve parse_prefix contains regexp_compile parse_addr lookup_ip addr_text
              join_host_port host
            ≡ addresses addrs
          → All (Allowed num) addrs
          → pin_first parse_prefix contains regexp_compile parse_addr lookup_ip addr_text
              join_host_port addrs port
            ≡ some (pinned dst)
          → IsChecked dst
      made [] r a k = cc k
      made (first ∷ others) r a k = record {
        num = num;
        parsed = p;
        first = first;
        others = others;
        answer = r;
        allowed = a;
        destination = cc k;
      }

  none-first_denied :
      (num : ℕ) (addrs : List Addr)
      → All (Allowed num) addrs
      → first_denied parse_prefix contains regexp_compile parse_addr lookup_ip addr_text
          join_host_port egress num proto addrs
        ≡ none
  unfolding first_denied
  none-first_denied num [] h = refl
  none-first_denied num (addr ∷ addrs) h = rw (h.0, first_denied) (none-first_denied num addrs h.1)

  pinned-IsChecked :
      (dst : Bytes)
      → resolve_and_pin parse_prefix contains regexp_compile parse_addr lookup_ip addr_text
          join_host_port egress host port proto
        ≡ some (pinned dst)
      → IsChecked dst
  unfolding resolve_and_pin
  pinned-IsChecked dst h = elim (Option-cases (parse_uint16 port)) [
    | inl n ↦ cc (rw (n, resolve_and_pin) at h)
    | inr (num, e) ↦
        check_answer-IsChecked num dst
          (resolve parse_prefix contains regexp_compile parse_addr lookup_ip addr_text
            join_host_port host)
          e refl (rw (e, resolve_and_pin) at h)
  ]

  IsChecked-pinned :
      (dst : Bytes)
      → IsChecked dst
      → resolve_and_pin parse_prefix contains regexp_compile parse_addr lookup_ip addr_text
          join_host_port egress host port proto
        ≡ some (pinned dst)
  unfolding resolve_and_pin
  IsChecked-pinned dst c =
      rw
        (
          c.parsed,
          resolve_and_pin,
          c.answer,
          check_answer,
          check_all,
          none-first_denied c.num (c.first ∷ c.others) c.allowed,
        )
        (ap (λ d. some (pinned d)) (sym c.destination))

  -- A destination is pinned exactly if the port parses, the one answer for the host has an
  -- address, the policy allows every address of it, and the destination is the first of them with
  -- the port.
  pub resolve_and_pin-IsChecked :
      (dst : Bytes)
      → (resolve_and_pin parse_prefix contains regexp_compile parse_addr lookup_ip addr_text
            join_host_port egress host port proto
          ≡ some (pinned dst))
        ↔ IsChecked dst
  resolve_and_pin-IsChecked dst = (pinned-IsChecked dst, IsChecked-pinned dst)
