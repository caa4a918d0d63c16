-- ===== src/Rules/Actions/Written.antt =====
-- internal/rules/actions_http.go: which values stand in a header behind `HeaderSet`.
use mitmania.Prelude.{
  ◌≡◌, refl, ◌∙◌, Bool, true, false, Option, none, some, List, [], ◌∷◌, if◌then◌else◌, Bytes, same,
}
use mitmania.Rules.Schema.{Value, null, boolean, number, text, array, object, Params}
use mitmania.Headers.{Header, header_values}
use mitmania.Headers.Reads.{header_values-put_header, header_values-delete_header}
use mitmania.Rules.Actions.{to_string, set_one, header_set}

module _ (canonical_key : Bytes → Bytes) (sprint : Value → Bytes) where
  abbrev pub outcome : Value → List Bytes
  outcome null = []
  outcome v = to_string canonical_key sprint v ∷ []

  -- What the last parameter that names the key leaves there, if one does.
  abbrev pub written : Bytes → Params → Option (List Bytes)
  written key [] = none
  written key ((name, v) ∷ p) = elim (written key p) [
    | some vs ↦ some vs
    | none ↦ if same (canonical_key name) key then some (outcome v) else none
  ]

  abbrev pub or_before : Option (List Bytes) → List Bytes → List Bytes
  or_before none vs = vs
  or_before (some ws) vs = ws

  header_values-set_one :
      (key other : Bytes) (v : Value) (h : Header)
      → header_values other (set_one canonical_key sprint key v h)
        ≡ (if same key other then outcome v else header_values other h)
  header_values-set_one key other null h = header_values-delete_header key other h
  header_values-set_one key other (boolean b) h =
      header_values-put_header key other (sprint (boolean b)) h
  header_values-set_one key other (number n) h =
      header_values-put_header key other (sprint (number n)) h
  header_values-set_one key other (text s) h = header_values-put_header key other s h
  header_values-set_one key other (array a) h =
      header_values-put_header key other (sprint (array a)) h
  header_values-set_one key other (object o) h =
      header_values-put_header key other (sprint (object o)) h

  -- Behind header.set, a name holds what the last parameter that names it leaves there, nothing if
  -- that is null, and what it held before if none names it.
  pub header_set-written :
      (key : Bytes) (p : Params) (h : Header)
      → header_values key (header_set canonical_key sprint p h)
        ≡ or_before (written key p) (header_values key h)
  unfolding header_set
  header_set-written key [] h = refl
  header_set-written key ((name, v) ∷ p) h =
      header_set-written key p (set_one canonical_key sprint (canonical_key name) v h)
      ∙ merge (written key p) (same (canonical_key name) key) (outcome v) (header_values key h)
          (header_values key (set_one canonical_key sprint (canonical_key name) v h))
          (header_values-set_one (canonical_key name) key v h)
    where
      merge :
          (w : Option (List Bytes)) (b : Bool) (o before now : List Bytes)
          → now ≡ (if b then o else before)
          → or_before w now
            ≡ or_before (elim w [ some vs ↦ some vs | none ↦ if b then some o else none ]) before
      merge (some ws) b o before now e = refl
      merge none true o before now e = e
      merge none false o before now e = e
