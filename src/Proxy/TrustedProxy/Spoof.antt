-- ===== src/Proxy/TrustedProxy/Spoof.antt =====
-- internal/proxy/trustedproxy.go: X-Forwarded-For with a line that a client wrote.
use mathlib.Core.List.{append_assoc, reverse-append, reverse-cons}
use mathlib.Core.List
use mitmania.Prelude.{
  ℕ, ◌≡◌, refl, ap, ◌∙◌, Bool, true, Option, some, List, [], ◌∷◌, ◌++◌, Bytes, codes, inl, inr,
  Option-cases, Bool-cases, false, none, All, In, ◌⊎◌, trim_space,
}
use mitmania.Rules.Pattern.Glob.{is_empty}
use mitmania.Rules.Labels.{split, join}
use mitmania.Rules.Labels.Splitting.{split-append}
use mitmania.Headers.{Header, header_values}
use mitmania.Proxy.TrustedProxy.{is_trusted_peer, hop_address, first_untrusted, recover_client_ip}

join-cons :
    (d : ℕ) (a : Bytes) (m : Bytes) (ms : List Bytes)
    → join d (a ∷ m ∷ ms) ≡ a ++ d ∷ join d (m ∷ ms)
unfolding join
join-cons d a m ms = refl

-- The address is in one of the trusted prefixes.
abbrev pub IsTrusted : {Addr Prefix : Type 0} → (Prefix → Addr → Bool) → List Prefix → Addr → Type 0
IsTrusted {Prefix = Prefix} contains trusted addr =
    (p : Prefix) × In p trusted × (contains p addr ≡ true)

-- The hop is the text of the address.
abbrev pub IsHop : {Addr : Type 0} → (Bytes → Option Addr) → Bytes → Addr → Type 0
IsHop parse_addr hop addr =
    (is_empty (trim_space hop) ≡ false) × (parse_addr (trim_space hop) ≡ some addr)

module _ {Addr Prefix : Type 0} (contains : Prefix → Addr → Bool) where
  IsTrusted-peer :
      (parse_addr : Bytes → Option Addr) (trusted : List Prefix) (addr : Addr)
      → IsTrusted contains trusted addr
      → is_trusted_peer parse_addr contains addr trusted ≡ true
  unfolding is_trusted_peer
  IsTrusted-peer parse_addr [] addr (p, i, h) = elim i [ ]
  IsTrusted-peer parse_addr (q ∷ trusted) addr (p, i, h) = elim (Bool-cases (contains q addr)) [
    | inl y ↦ rw (y, is_trusted_peer) refl
    | inr n ↦
        rw (n, is_trusted_peer)
          (IsTrusted-peer parse_addr trusted addr
            (elim i [ inl e ↦ cc (n, h, ap (λ r. contains r addr) e) | inr j ↦ (p, j, h) ]))
  ]

  peer-IsTrusted :
      (parse_addr : Bytes → Option Addr) (trusted : List Prefix) (addr : Addr)
      → is_trusted_peer parse_addr contains addr trusted ≡ true
      → IsTrusted contains trusted addr
  unfolding is_trusted_peer
  peer-IsTrusted parse_addr [] addr h = cc h
  peer-IsTrusted parse_addr (q ∷ trusted) addr h = elim (Bool-cases (contains q addr)) [
    | inl y ↦ (q, inl refl, y)
    | inr n ↦
        let (p, i, e) = peer-IsTrusted parse_addr trusted addr (rw (n, is_trusted_peer) at h) in
        (p, inr i, e)
  ]

module _ {Addr Prefix : Type 0} (parse_addr : Bytes → Option Addr)
    (contains : Prefix → Addr → Bool) where
  first_untrusted-append :
      (trusted : List Prefix) (hops more : List Bytes) (addr : Addr)
      → first_untrusted parse_addr contains trusted hops ≡ some addr
      → first_untrusted parse_addr contains trusted (hops ++ more) ≡ some addr
  unfolding first_untrusted
  first_untrusted-append trusted [] more addr h = cc h
  first_untrusted-append trusted (hop ∷ hops) more addr h =
      elim (Option-cases (hop_address parse_addr contains trusted hop)) [
        | inr (found, e) ↦ rw (e, first_untrusted) (rw (e, first_untrusted) at h)
        | inl e ↦
            rw (e, first_untrusted)
              (first_untrusted-append trusted hops more addr (rw (e, first_untrusted) at h))
      ]

  -- The hop names no address, or one that is trusted.
  abbrev pub IsSkipped : List Prefix → Bytes → Type 0
  IsSkipped trusted hop =
      ((is_empty (trim_space hop) ≡ true) ⊎ (parse_addr (trim_space hop) ≡ none))
      ⊎ ((addr : Addr) × IsHop parse_addr hop addr × IsTrusted contains trusted addr)

  hop_address-skipped :
      (trusted : List Prefix) (hop : Bytes)
      → IsSkipped trusted hop
      → hop_address parse_addr contains trusted hop ≡ none
  unfolding hop_address
  hop_address-skipped trusted hop (inl (inl e)) = rw e refl
  hop_address-skipped trusted hop (inl (inr e)) = elim (Bool-cases (is_empty (trim_space hop))) [
    | inl y ↦ rw y refl
    | inr n ↦ rw (n, e) refl
  ]
  hop_address-skipped trusted hop (inr (addr, (n, e), t)) =
      rw (n, e, IsTrusted-peer contains parse_addr trusted addr t) refl

  hop_address-found :
      (trusted : List Prefix) (hop : Bytes) (addr : Addr)
      → IsHop parse_addr hop addr
      → ¬ IsTrusted contains trusted addr
      → hop_address parse_addr contains trusted hop ≡ some addr
  unfolding hop_address
  hop_address-found trusted hop addr (n, e) t =
      elim (Bool-cases (is_trusted_peer parse_addr contains addr trusted)) [
        | inl y ↦ absurd (t (peer-IsTrusted contains parse_addr trusted addr y))
        | inr f ↦ rw (n, e, f) refl
      ]

  first_untrusted-skips :
      (trusted : List Prefix) (hops more : List Bytes)
      → All (IsSkipped trusted) hops
      → first_untrusted parse_addr contains trusted (List.reverse hops ++ more)
        ≡ first_untrusted parse_addr contains trusted more
  unfolding first_untrusted
  first_untrusted-skips trusted [] more h = refl
  first_untrusted-skips trusted (hop ∷ hops) more (this, rest) =
      ap (λ r. first_untrusted parse_addr contains trusted r)
        (ap (λ r. r ++ more) (reverse-cons hop hops)
          ∙ append_assoc (List.reverse hops) (hop ∷ []) more)
      ∙ first_untrusted-skips trusted hops (hop ∷ more) rest
      ∙ rw (hop_address-skipped trusted hop this, first_untrusted) refl

  right_most :
      (trusted : List Prefix) (hops before after : List Bytes) (hop : Bytes) (addr : Addr)
      → hops ≡ before ++ hop ∷ after
      → IsHop parse_addr hop addr
      → ¬ IsTrusted contains trusted addr
      → All (IsSkipped trusted) after
      → first_untrusted parse_addr contains trusted (List.reverse hops) ≡ some addr
  unfolding first_untrusted
  right_most trusted hops before after hop addr e f n skipped =
      ap (λ r. first_untrusted parse_addr contains trusted r)
        (ap List.reverse e
          ∙ reverse-append before (hop ∷ after)
          ∙ ap (λ r. r ++ List.reverse before) (reverse-cons hop after)
          ∙ append_assoc (List.reverse after) (hop ∷ []) (List.reverse before))
      ∙ first_untrusted-skips trusted after (hop ∷ List.reverse before) skipped
      ∙ rw (hop_address-found trusted hop addr f n, first_untrusted) refl

  hops_of :
      (line next : Bytes) (lines : List Bytes)
      → List.reverse (split b',' (join b',' (line ∷ next ∷ lines)))
        ≡ List.reverse (split b',' (join b',' (next ∷ lines))) ++ List.reverse (split b',' line)
  hops_of line next lines =
      ap (λ s. List.reverse (split b',' s)) (join-cons b',' line next lines)
      ∙ ap List.reverse (split-append b',' line (join b',' (next ∷ lines)))
      ∙ reverse-append (split b',' line) (split b',' (join b',' (next ∷ lines)))

  -- Behind a trusted peer, if the header lines behind the first one, split at commas, hold a hop
  -- that is the text of an address in no trusted prefix, and every hop behind it is empty, no
  -- address or the text of an address in a trusted prefix, then that hop's address is the
  -- client's, whatever the first line is.
  pub recover_client_ip-forged :
      (peer addr : Addr) (header : Header) (trusted : List Prefix) (forged next : Bytes)
      (lines before after : List Bytes) (hop : Bytes)
      → IsTrusted contains trusted peer
      → header_values (codes "X-Forwarded-For") header ≡ forged ∷ next ∷ lines
      → split b',' (join b',' (next ∷ lines)) ≡ before ++ hop ∷ after
      → IsHop parse_addr hop addr
      → ¬ IsTrusted contains trusted addr
      → All (IsSkipped trusted) after
      → recover_client_ip parse_addr contains peer header trusted ≡ addr
  unfolding recover_client_ip
  recover_client_ip-forged peer addr header trusted forged next lines before after hop t v e f n h =
      let hops = split b',' (join b',' (next ∷ lines)) in
      rw
        (
          IsTrusted-peer contains parse_addr trusted peer t,
          v,
          hops_of forged next lines,
          first_untrusted-append trusted (List.reverse hops) (List.reverse (split b',' forged)) addr
              (right_most trusted hops before after hop addr e f n h),
        )
        refl
