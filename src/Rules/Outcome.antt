-- ===== src/Rules/Outcome.antt =====
-- internal/rules/compile.go and internal/rules/outcall_action.go: the errors of loading, as values.
use mitmania.Prelude.{ℕ, Bool, Option, none, some, Bytes, ◌≡◌, refl}

pub data Reason : Type 0 where
  bad_pattern : Bytes → Reason
  message_without_mitm : Reason
  accept_missing : Reason
  denied_with_mitm : Reason
  denied_with_message : Reason
  denied_with_actions : Reason
  unknown_action : Bytes → Reason
  one_target : Reason
  path_without_socket : Reason
  bad_send : Reason
  bad_fail_open : Reason
  at_index : ℕ → Reason → Reason
  broker_target : Reason
  broker_path : Reason
  no_scheme : Reason
  empty_name : Reason
  duplicate_name : Bytes → Reason
  bad_hash : Bytes → Reason
  bad_json : Reason
  bad_key : Bytes → Reason
  bad_egress : Reason
  no_coverage : Bool → Reason
  coverage_gap : Bool → ℕ → ℕ → Reason
  in_bucket : Bytes → Reason → Reason
  storage_error : Reason
  panicked : Reason

pub data Outcome {ℓ} (A : Type ℓ) : Type ℓ where
  done : A → Outcome A
  failed : Reason → Outcome A

infixl 1 ◌>>=◌
abbrev pub ◌>>=◌ {ℓ ℓ'} : {A : Type ℓ} {B : Type ℓ'} → Outcome A → (A → Outcome B) → Outcome B
failed e >>= f = failed e
done a >>= f = f a

abbrev pub or_fail {ℓ} : {A : Type ℓ} → Option A → Reason → Outcome A
or_fail none e = failed e
or_fail (some a) e = done a

-- `fmt.Errorf("... %d: %w", i, err)`
abbrev pub within {ℓ} : {A : Type ℓ} → ℕ → Outcome A → Outcome A
within i (failed e) = failed (at_index i e)
within i (done a) = done a

-- `fmt.Errorf("rules/default[%q]: %w", label, err)`
abbrev pub labelled {ℓ} : {A : Type ℓ} → Bytes → Outcome A → Outcome A
labelled label (failed e) = failed (in_bucket label e)
labelled label (done a) = done a

-- What an operation that succeeds has done in two steps.
pub bind_done {ℓ ℓ'} :
    {A : Type ℓ} {B : Type ℓ'} (o : Outcome A) (f : A → Outcome B) (b : B)
    → (o >>= f) ≡ done b
    → (a : A) × (o ≡ done a) × (f a ≡ done b)
bind_done (failed e) f b h = cc h
bind_done (done a) f b h = (a, refl, h)

pub or_fail_done {ℓ} :
    {A : Type ℓ} (o : Option A) (e : Reason) (a : A) → or_fail o e ≡ done a → o ≡ some a
or_fail_done none e a h = cc h
or_fail_done (some b) e a h = cc h

pub within_done {ℓ} :
    {A : Type ℓ} (i : ℕ) (o : Outcome A) (a : A) → within i o ≡ done a → o ≡ done a
within_done i (failed e) a h = cc h
within_done i (done b) a h = h

pub labelled_done {ℓ} :
    {A : Type ℓ} (label : Bytes) (o : Outcome A) (a : A) → labelled label o ≡ done a → o ≡ done a
labelled_done label (failed e) a h = cc h
labelled_done label (done b) a h = h

pub done_injective {ℓ} : {A : Type ℓ} (a b : A) → done a ≡ done b → a ≡ b
done_injective a b h = cc h
