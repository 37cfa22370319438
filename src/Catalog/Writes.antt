-- ===== src/Catalog/Writes.antt =====
-- The checks of src/catalog.rs on a terminal write: its own consistency, and its identity with the
-- job that it ends.
use Prim.Native.Char.{code}
use camera_adapter.Base.{
  ◌≡◌, refl, sym, ap, ◌∙◌, arith, get_or, ◌≢◌, Bool-cases, inl, inr, ℕ, suc, String, Bool, true,
  false, ◌&&◌, ◌||◌, not, [], ◌∷◌, Option, none, some, leb, ◌==◌, if◌then◌else◌, str_eq,
}
use camera_adapter.Error.{catalog, Result, ok, err, ◌>>◌, reject_if}
use camera_adapter.Model.{
  JobState, accepted, queued, acquiring, encoding, persisting, succeeded, failed, cancelled,
  interrupted, is_terminal,
}
use camera_adapter.Catalog.Types.{Json, TerminalWrite, JobRecord}

abbrev pub is_some {ℓ} : {A : Type ℓ} → Option A → Bool
is_some none = false
is_some (some a) = true

abbrev pub same_option {ℓ} : {A : Type ℓ} → (A → A → Bool) → Option A → Option A → Bool
same_option same none none = true
same_option same (some a) (some b) = same a b
same_option same _ _ = false

-- Whether two states have the same token.
abbrev pub state_index : JobState → ℕ
state_index accepted = 0
state_index queued = 1
state_index acquiring = 2
state_index encoding = 3
state_index persisting = 4
state_index succeeded = 5
state_index failed = 6
state_index cancelled = 7
state_index interrupted = 8

abbrev pub same_state : JobState → JobState → Bool
same_state s t = state_index s == state_index t

-- The length of a text of lower-case hexadecimal digits, if it is one.
unfoldable pub hex_length : String → Option ℕ
hex_length String.[] = some 0
hex_length (String.◌∷◌ c s) =
    let rest = hex_length s in
    if (leb b'0' (code c) && leb (code c) b'9') || (leb b'a' (code c) && leb (code c) b'f')
    then elim rest [ none ↦ none | some n ↦ some (suc n) ]
    else none

unfoldable pub is_sha256 : String → Bool
unfolding hex_length
is_sha256 value = elim (hex_length value) [ none ↦ false | some n ↦ n == 64 ]

unfoldable pub validate_sha256 : String → Result (Unit {0})
unfolding is_sha256
validate_sha256 value =
    reject_if (not (is_sha256 value)) (catalog "must be 64 lower-case hexadecimal characters")

module _ {V : Type 0} (J : Json V) where
  -- The arms of the `match` on the state of the write.
  unfoldable pub validate_error : TerminalWrite V → Result (Unit {0})
  validate_error w = elim w.state [
    | succeeded ↦
        reject_if (is_some w.error_code || is_some w.error_message)
          (catalog "SUCCEEDED terminal writes must not retain an error")
    | failed ↦
        reject_if (not (is_some w.error_code))
          (catalog "failed/interrupted terminal writes require a stable error code")
    | interrupted ↦
        reject_if (not (is_some w.error_code))
          (catalog "failed/interrupted terminal writes require a stable error code")
    | _ ↦ ok tt
  ]

  unfoldable pub require_field : TerminalWrite V → String → Result (Unit {0})
  require_field w field = elim (J.get_str w.result field) [
    | none ↦ err (catalog "terminal result field must be a non-empty string")
    | some value ↦
        reject_if (str_eq value "") (catalog "terminal result field must be a non-empty string")
  ]

  unfoldable pub validate_terminal_write : TerminalWrite V → Result (Unit {0})
  unfolding validate_error require_field
  validate_terminal_write w = do
    reject_if (not (is_terminal w.state)) (catalog "terminal write requires a terminal job state")
    reject_if (not (J.is_object w.result)) (catalog "terminal result must be a JSON object")
    validate_error w
    reject_if (not (same_option (λ a b. a == b) (J.get_u64 w.result "schemaVersion") (some 1)))
        (catalog "terminal result schemaVersion must be 1")
    require_field w "eventId"
    require_field w "captureId"
    require_field w "cameraId"
    require_field w "correlationId"

  -- Whether a field of the result is the text.
  abbrev pub says : TerminalWrite V → String → String → Bool
  says w field value = same_option str_eq (J.get_str w.result field) (some value)

  unfoldable pub validate_terminal_for_job : TerminalWrite V → JobRecord V → Result (Unit {0})
  validate_terminal_for_job w job = do
    reject_if (not (J.is_object w.result)) (catalog "terminal result must be a JSON object")
    reject_if (not (says w "captureId" job.capture_id) || not (says w "cameraId" job.instance_id))
        (catalog "terminal result captureId/cameraId does not match the durable job")
    reject_if
        (elim job.origin_correlation_id [
          | none ↦ false
          | some origin ↦ not (says w "correlationId" origin)
        ])
        (catalog "terminal command result correlation does not match the creating request")
    reject_if (not (same_option str_eq job.group_id (J.get_str w.result "captureGroupId")))
        (catalog "terminal result group identity does not match the durable job")

state_of : ℕ → JobState
state_of n =
    get_or
      (accepted ∷ queued ∷ acquiring ∷ encoding ∷ persisting ∷ succeeded ∷ failed ∷ cancelled ∷ [])
      n interrupted

state_of-index : (s : JobState) → state_of (state_index s) ≡ s
unfolding state_of
state_of-index accepted = refl
state_of-index queued = refl
state_of-index acquiring = refl
state_of-index encoding = refl
state_of-index persisting = refl
state_of-index succeeded = refl
state_of-index failed = refl
state_of-index cancelled = refl
state_of-index interrupted = refl

pub same_state-eq : (s t : JobState) → same_state s t ≡ true → s ≡ t
same_state-eq s t h = sym (state_of-index s) ∙ (ap state_of (ground (arith, h)) ∙ state_of-index t)

refused :
    {V : Type 0} (J : Json V) (w : TerminalWrite V) (u : Unit {0})
    → is_terminal w.state ≡ false
    → validate_terminal_write J w ≢ ok u
unfolding validate_terminal_write
refused J w u nope h =
    let early : validate_terminal_write J w
        ≡ err (catalog "terminal write requires a terminal job state") =
      rw (validate_terminal_write, nope) refl in
    cc

-- A write that passes the check is terminal.
pub validate_terminal_write-terminal :
    {V : Type 0} (J : Json V) (w : TerminalWrite V) (u : Unit {0})
    → validate_terminal_write J w ≡ ok u
    → is_terminal w.state ≡ true
unfolding validate_terminal_write
validate_terminal_write-terminal J w u h = elim (Bool-cases (is_terminal w.state)) [
  | inl final ↦ final
  | inr nope ↦ absurd (refused J w u nope h)
]
