-- ===== src/Headers.antt =====
-- Go's `http.Header`, which internal/rules/actions_http.go and internal/proxy/trustedproxy.go use: a map
-- from canonical names to values, as a list of pairs.
pub mod Reads
use mitmania.Prelude.{Bool, true, false, List, [], ◌∷◌, ◌++◌, if◌then◌else◌, Bytes, same}

abbrev pub Header : Type 0
Header = List (Bytes × List Bytes)

-- `h[key]`
unfoldable pub header_values : Bytes → Header → List Bytes
header_values key [] = []
header_values key ((k, vs) ∷ more) = if same k key then vs else header_values key more

abbrev pub first_or_empty : List Bytes → Bytes
first_or_empty [] = []
first_or_empty (v ∷ vs) = v

-- `h[key] = append(h[key], v)`
unfoldable pub add_header : Bytes → Bytes → Header → Header
add_header key v [] = (key, v ∷ []) ∷ []
add_header key v ((k, vs) ∷ more) =
    if same k key then (k, vs ++ v ∷ []) ∷ more else (k, vs) ∷ add_header key v more

-- `h[key] = []string{v}`
unfoldable pub put_header : Bytes → Bytes → Header → Header
put_header key v [] = (key, v ∷ []) ∷ []
put_header key v ((k, vs) ∷ more) =
    if same k key then (k, v ∷ []) ∷ more else (k, vs) ∷ put_header key v more

-- `delete(h, key)`
unfoldable pub delete_header : Bytes → Header → Header
delete_header key [] = []
delete_header key ((k, vs) ∷ more) =
    let rest = delete_header key more in if same k key then rest else (k, vs) ∷ rest
