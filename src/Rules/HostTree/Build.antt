-- ===== src/Rules/HostTree/Build.antt =====
-- `buildHostCandidateIndex` of internal/rules/host_index.go: where its loop puts the rules.
use mathlib.Core.Path.{subst}
use mitmania.Prelude.{
  ℕ, zero, suc, ◌+◌, ◌≤◌, ◌<◌, ◌≡◌, refl, Option, none, some, List, [], ◌∷◌, ◌++◌, arith, inl, inr,
  Bytes, Option-cases, In, In-append_left, In-append_right, All, length, get_elem?,
}
use mitmania.Rules.Pattern.{Matcher}
use mitmania.Rules.HostTree.{
  Node, leaf, host_labels, insert_host_suffix, insert_all, index_keys, build_from,
}
use mitmania.Rules.HostTree.Trie.{
  Held, Held-insert_path, insert_path-Held, IsBelow, both, no_more, insert_path-IsBelow, All-append,
}

Held-insert_all :
    (hosts : List Bytes) (id : ℕ) (n : Node) (qs : List Bytes) (j : ℕ)
    → Held n qs j
    → Held (insert_all hosts id n) qs j
unfolding insert_all
Held-insert_all [] id n qs j h = h
Held-insert_all (host ∷ hosts) id n qs j h =
    Held-insert_all hosts id (insert_host_suffix n host id) qs j
      (unfold insert_host_suffix in Held-insert_path qs j (host_labels host) id n h)

insert_all-Held :
    (hosts : List Bytes) (id : ℕ) (n : Node) (host : Bytes)
    → In host hosts
    → Held (insert_all hosts id n) (host_labels host) id
unfolding insert_all
insert_all-Held [] id n host h = absurd h
insert_all-Held (first ∷ hosts) id n host (inr h) =
    insert_all-Held hosts id (insert_host_suffix n first id) host h
insert_all-Held (first ∷ hosts) id n host (inl e) =
    Held-insert_all hosts id (insert_host_suffix n first id) (host_labels host) id
      (unfold insert_host_suffix in rw e (insert_path-Held (host_labels first) id n))

insert_all-IsBelow :
    (b : ℕ) (hosts : List Bytes) (id : ℕ) (n : Node)
    → id < b
    → IsBelow b n
    → IsBelow b (insert_all hosts id n)
unfolding insert_all
insert_all-IsBelow b [] id n h k = k
insert_all-IsBelow b (host ∷ hosts) id n h k =
    insert_all-IsBelow b hosts id (insert_host_suffix n host id) h
      (unfold insert_host_suffix in insert_path-IsBelow b (host_labels host) id n h k)

-- What was held or fell back before the loop still does behind it.
build_from-keeps :
    (ms : List Matcher) (k : ℕ) (n : Node) (fb : List ℕ) (qs : List Bytes) (j : ℕ)
    → (Held n qs j → Held (build_from k ms n fb).0 qs j) × (In j fb → In j (build_from k ms n fb).1)
unfolding build_from
build_from-keeps [] k n fb qs j = (λ h. h, λ h. h)
build_from-keeps (m ∷ ms) k n fb qs j = elim (Option-cases (index_keys m)) [
  | inl e ↦
      rw (e, build_from)
        (let (held, fell) = build_from-keeps ms (suc k) n (fb ++ k ∷ []) qs j in
          (held, λ h. fell (In-append_left j fb (k ∷ []) h)))
  | inr (keys, e) ↦
      rw (e, build_from)
        (let (held, fell) = build_from-keeps ms (suc k) (insert_all keys k n) fb qs j in
          (λ h. held (Held-insert_all keys k n qs j h), fell))
]

-- Where rule number `k` with the matcher `m` stands in the outcome of the loop.
abbrev pub Placed : Option (List Bytes) → ℕ → Node → List ℕ → Type 0
Placed none k root fallback = In k fallback
Placed (some keys) k root fallback = (host : Bytes) → In host keys → Held root (host_labels host) k

build_from-first :
    (m : Matcher) (ms : List Matcher) (k : ℕ) (n : Node) (fb : List ℕ)
    → Placed (index_keys m) k (build_from k (m ∷ ms) n fb).0 (build_from k (m ∷ ms) n fb).1
unfolding build_from
build_from-first m ms k n fb = elim (Option-cases (index_keys m)) [
  | inl e ↦
      rw (e, build_from)
        ((build_from-keeps ms (suc k) n (fb ++ k ∷ []) [] k).1
          (In-append_right k fb (k ∷ []) (inl refl)))
  | inr (keys, e) ↦
      rw (e, build_from)
        (λ host h.
          (build_from-keeps ms (suc k) (insert_all keys k n) fb (host_labels host) k).0
            (insert_all-Held keys k n host h))
]

step-Placed :
    (m' : Matcher) (ms : List Matcher) (j k : ℕ) (n : Node) (fb : List ℕ) (m : Matcher)
    → ((n' : Node) (fb' : List ℕ)
        → Placed (index_keys m) j (build_from (suc k) ms n' fb').0 (build_from (suc k) ms n' fb').1)
    → Placed (index_keys m) j (build_from k (m' ∷ ms) n fb).0 (build_from k (m' ∷ ms) n fb).1
unfolding build_from
step-Placed m' ms j k n fb m ih = elim (Option-cases (index_keys m')) [
  | inl e ↦ rw (e, build_from) (ih n (fb ++ k ∷ []))
  | inr (keys, e) ↦ rw (e, build_from) (ih (insert_all keys k n) fb)
]

-- Each rule stands in the built tree under every text that its matcher gives, or in the fallback
-- list if it gives none.
pub build_from-Placed :
    (ms : List Matcher) (i k : ℕ) (n : Node) (fb : List ℕ) (m : Matcher)
    → get_elem? ms i ≡ some m
    → Placed (index_keys m) (i + k) (build_from k ms n fb).0 (build_from k ms n fb).1
build_from-Placed [] i k n fb m h = cc h
build_from-Placed (m' ∷ ms) zero k n fb m h =
    let this : m' ≡ m = cc h in
    let e : k ≡ 0 + k = omega arith in
    subst
      (λ x.
        Placed (index_keys x) (0 + k) (build_from k (m' ∷ ms) n fb).0
          (build_from k (m' ∷ ms) n fb).1)
      this
      (subst
        (λ j.
          Placed (index_keys m') j (build_from k (m' ∷ ms) n fb).0 (build_from k (m' ∷ ms) n fb).1)
        e (build_from-first m' ms k n fb))
build_from-Placed (m' ∷ ms) (suc i) k n fb m h = step-Placed m' ms (suc i + k) k n fb m (λ n' fb'.
    let e : i + suc k ≡ suc i + k = omega arith in
    subst
      (λ j.
        Placed (index_keys m) j (build_from (suc k) ms n' fb').0 (build_from (suc k) ms n' fb').1)
      e (build_from-Placed ms i (suc k) n' fb' m h))

-- Every number in the tree and in the fallback list is that of a rule.
pub build_from-IsBelow :
    (b : ℕ) (ms : List Matcher) (k : ℕ) (n : Node) (fb : List ℕ)
    → k + length ms ≤ b
    → IsBelow b n
    → All (λ r. r < b) fb
    → IsBelow b (build_from k ms n fb).0 × All (λ r. r < b) (build_from k ms n fb).1
unfolding build_from
build_from-IsBelow b [] k n fb h hn hf = (hn, hf)
build_from-IsBelow b (m ∷ ms) k n fb h hn hf = elim (Option-cases (index_keys m)) [
  | inl e ↦
      rw (e, build_from)
        (build_from-IsBelow b ms (suc k) n (fb ++ k ∷ []) (omega arith) hn
          (All-append (λ r. r < b) fb (k ∷ []) hf (omega arith)))
  | inr (keys, e) ↦
      rw (e, build_from)
        (build_from-IsBelow b ms (suc k) (insert_all keys k n) fb (omega arith)
          (insert_all-IsBelow b keys k n (omega arith) hn) hf)
]

pub leaf-IsBelow : (b : ℕ) → IsBelow b leaf
leaf-IsBelow b = both no_more tt
