-- ===== src/Rules/Egress/Ranges.antt =====
-- internal/rules/egress.go: the port ranges that compile.
use mitmania.Prelude.{
  ℕ, ◌+◌, ◌-◌, ◌*◌, ◌≤◌, ◌<◌, ◌≡◌, refl, true, false, some, [], ◌∷◌, arith, ◌⊎◌, inl, inr, ◌&&◌,
  ◌||◌, leb, ltb, ltb→lt, Bytes, codes, same, trim_space, Bool-cases, Option-cases, and_parts,
  ◌>>=◌,
}
use mathlib.Core.Path.{subst}
use mitmania.Rules.Pattern.Glob.{is_empty}
use mitmania.Rules.Egress.{
  PortRange, parse_digits, parse_uint16, parse_port, cut, port_span, one_port, compile_port_range,
}

parse_digits-bound : (n : ℕ) (s : Bytes) (m : ℕ) → n < 65536 → parse_digits n s ≡ some m → m < 65536
unfolding parse_digits
parse_digits-bound n [] m h e = let k : n ≡ m = cc e in omega arith
parse_digits-bound n (c ∷ s) m h e =
    elim (Bool-cases (leb b'0' c && leb c b'9' && ltb (n * 10 + (c - b'0')) 65536)) [
      | inl t ↦
          let (_, small) =
            and_parts (leb b'0' c && leb c b'9') (ltb (n * 10 + (c - b'0')) 65536) t in
          parse_digits-bound (n * 10 + (c - b'0')) s m (ltb→lt (n * 10 + (c - b'0')) 65536 small)
            (rw (t, parse_digits) at e)
      | inr f ↦ cc (rw (f, parse_digits) at e)
    ]

parse_port-bound : (s : Bytes) (m : ℕ) → parse_port s ≡ some m → m < 65536
unfolding parse_port parse_uint16
parse_port-bound s m e = elim (Bool-cases (is_empty (trim_space s))) [
  | inl t ↦ cc (rw t at e)
  | inr f ↦ parse_digits-bound 0 (trim_space s) m (omega arith) (rw f at e)
]

-- A range is all ports, or from a port to one that is no less.
abbrev pub IsOrdered : PortRange → Type 0
IsOrdered r = (r.always ≡ true) ⊎ ((r.always ≡ false) × (r.lo ≤ r.hi) × (r.hi < 65536))

made-IsOrdered :
    (lo hi : ℕ) (r : PortRange)
    → lo ≤ hi
    → hi < 65536
    → some (record { always = false; lo = lo; hi = hi }) ≡ some r
    → IsOrdered r
made-IsOrdered lo hi r h k e =
    let this : record { always = false; lo = lo; hi = hi } ≡ r = cc e in
    subst IsOrdered this (inr (refl, h, k))

port_span-IsOrdered : (lo hi : Bytes) (r : PortRange) → port_span (lo, hi) ≡ some r → IsOrdered r
port_span-IsOrdered lo hi r e = elim (Option-cases (parse_port lo)) [
  | inl n ↦ cc (rw (n, ◌>>=◌) at e)
  | inr (low, l) ↦ elim (Option-cases (parse_port hi)) [
    | inl n ↦ cc (rw (l, ◌>>=◌, n) at e)
    | inr (high, k) ↦ elim (Bool-cases (ltb high low)) [
      | inl t ↦ cc (rw (l, ◌>>=◌, k, t) at e)
      | inr f ↦
          made-IsOrdered low high r (ground arith) (parse_port-bound hi high k)
            (rw (l, ◌>>=◌, k, f) at e)
    ]
  ]
]

one_port-IsOrdered : (s : Bytes) (r : PortRange) → one_port s ≡ some r → IsOrdered r
one_port-IsOrdered s r e = elim (Option-cases (parse_port s)) [
  | inl n ↦ cc (rw (n, ◌>>=◌) at e)
  | inr (n, k) ↦ made-IsOrdered n n r (omega arith) (parse_port-bound s n k) (rw (k, ◌>>=◌) at e)
]

-- A port range that compiles is all ports, or goes from a port to one that is no less and below
-- 65536.
pub compile_port_range-IsOrdered :
    (s : Bytes) (r : PortRange) → compile_port_range s ≡ some r → IsOrdered r
unfolding compile_port_range
compile_port_range-IsOrdered s r e = elim (Bool-cases (is_empty s || same s (codes "*"))) [
  | inl t ↦
      let this : record { always = true; lo = 0; hi = 0 } ≡ r = cc (rw t at e) in
      subst IsOrdered this (inl refl)
  | inr f ↦ elim (Option-cases (cut b'-' s)) [
    | inl n ↦ one_port-IsOrdered s r (rw (f, n) at e)
    | inr ((lo, hi), k) ↦ port_span-IsOrdered lo hi r (rw (f, k) at e)
  ]
]
