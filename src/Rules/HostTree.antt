-- ===== src/Rules/HostTree.antt =====
-- internal/rules/host_index.go: the reversed-label tree of a rule list, before it is made compact. The tree
-- is built by value, since the code shares no node of it.
pub mod Trie
pub mod Build
pub mod Keys
use mathlib.Core.List
use mitmania.Prelude.{
  ℕ, zero, suc, ◌+◌, ◌-◌, ◌/◌, ◌%◌, ◌^◌, Bool, true, false, not, Option, none, some, List, [], ◌∷◌,
  ◌++◌, ◌==◌, ◌&&◌, ◌||◌, leb, ltb, if◌then◌else◌, Bytes, length, take, drop, get_elem?, to_lower,
  same, less, ◌>>=◌,
}
use mitmania.Rules.Labels.{dot, literal_suffix}
use mitmania.Rules.Pattern.{Matcher}
use mitmania.Rules.Pattern.Glob.{is_empty}

mutual
  pub data Node : Type 0 where
    node : Children → List ℕ → Node

  pub data Children : Type 0 where
    nil : Children
    child : Bytes → Node → Children → Children

abbrev pub rules_of : Node → List ℕ
rules_of (node _ rules) = rules

abbrev pub children_of : Node → Children
children_of (node children _) = children

abbrev pub leaf : Node
leaf = node nil []

-- The labels that a loop over `end` cuts from the right of a host, of which the reverse is read: a
-- label ends at each dot, and at the left end if a byte stands there.
unfoldable pub walk : Bytes → Bytes → List Bytes
walk [] label = label ∷ []
walk (c ∷ r) label =
    let more = walk r [] in
    let longer = walk r (c ∷ label) in
    if c == dot then (if is_empty r then label ∷ [] else label ∷ more) else longer

unfoldable pub host_labels : Bytes → List Bytes
unfolding walk
host_labels host = if is_empty host then [] else walk (List.reverse host) []

unfoldable pub last_is : ℕ → List ℕ → Bool
last_is id [] = false
last_is id (r ∷ []) = r == id
last_is id (r ∷ s ∷ rest) = last_is id (s ∷ rest)

unfoldable pub add_rule : ℕ → List ℕ → List ℕ
add_rule id rules = if last_is id rules then rules else rules ++ id ∷ []

unfoldable pub update_child : Bytes → (Node → Node) → Children → Children
update_child l f nil = child l (f leaf) nil
update_child l f (child k n more) =
    if same k l then child k (f n) more else child k n (update_child l f more)

unfoldable pub insert_path : List Bytes → ℕ → Node → Node
insert_path [] id (node children rules) = node children (add_rule id rules)
insert_path (l ∷ ls) id (node children rules) =
    node (update_child l (insert_path ls id) children) rules

-- `insertHostSuffix`
unfoldable pub insert_host_suffix : Node → Bytes → ℕ → Node
insert_host_suffix root host id = insert_path (host_labels host) id root

unfoldable pub insert_all : List Bytes → ℕ → Node → Node
insert_all [] id root = root
insert_all (host ∷ hosts) id root = insert_all hosts id (insert_host_suffix root host id)

abbrev pub is_some {ℓ} : {A : Type ℓ} → Option A → Bool
is_some none = false
is_some (some a) = true

-- `literalGlobSuffix`
unfoldable pub literal_glob_suffix : Matcher → Bytes
unfolding literal_suffix
literal_glob_suffix m =
    if m.always || is_some m.re || is_some m.suffixes || is_empty m.glob
    then []
    else literal_suffix m.glob

-- `importedSuffixRegex`
abbrev pub imported_suffix_regex : Matcher → Option (List Bytes)
imported_suffix_regex m = m.suffixes

-- The texts that a rule is held under, and `none` for the fallback list.
unfoldable pub index_keys : Matcher → Option (List Bytes)
unfolding literal_glob_suffix
index_keys m = elim (imported_suffix_regex m) [
  | some suffixes ↦ some suffixes
  | none ↦
      let suffix = literal_glob_suffix m in if is_empty suffix then none else some (suffix ∷ [])
]

-- The loop of `buildHostCandidateIndex`, over the rules' host matchers from number `id` on.
unfoldable pub build_from : ℕ → List Matcher → Node → List ℕ → Node × List ℕ
build_from id [] root fallback = (root, fallback)
build_from id (m ∷ ms) root fallback = elim (index_keys m) [
  | some keys ↦ build_from (suc id) ms (insert_all keys id root) fallback
  | none ↦ build_from (suc id) ms root (fallback ++ id ∷ [])
]
