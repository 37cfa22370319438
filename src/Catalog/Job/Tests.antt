-- ===== src/Catalog/Job/Tests.antt =====
-- The theorems on the job rows of src/catalog.rs at concrete inputs. JSON objects are texts by field
-- here, with schema version 1.
use camera_adapter.Base.{
  String, ◌≡◌, ◌≢◌, refl, true, false, List, [], ◌∷◌, Option, none, some, str_eq, eq_iff, eq_refl,
  if◌then◌else◌,
}
use camera_adapter.Error.{ok}
use camera_adapter.Model.{
  persisting, encoding, accepted, queued, acquiring, succeeded, failed, cancelled, is_terminal,
  can_transition_to,
}
use camera_adapter.Catalog.Types.{Json, JobDeadlines, TerminalWrite, PendingInstall, JobRecord}
use camera_adapter.Catalog.Writes.{
  validate_terminal_write, validate_terminal_for_job, is_sha256, validate_sha256,
}
use camera_adapter.Catalog.Job.{
  queue_member, reschedule_deadlines, set_deadlines, set_state, set_started, set_installed,
  set_persisting, compare_and_set_state, begin_install, record_installed_artifact, same_write,
  check_pending, begin_persisting, artifact_verified, write_terminal, terminal, commit_terminal,
  cancel_job,
}
use camera_adapter.Catalog.Job.Arbitration.{
  Transaction, compares, reschedules, queues, persists, installs, records, commits, cancels, step,
  run, winners, ended_once, run-frozen, run-winners,
}
use camera_adapter.Catalog.Job.Artifacts.{
  Fresh, Verified, succeeded-Verified, installing-not-cancelled,
}
use camera_adapter.Catalog.Job.Pipeline.{pipeline, run-pipeline}

-- A value is the camera's name; every other field is fixed.
abbrev pub get_str : String → String → Option String
get_str camera field =
    if str_eq field "cameraId"
    then some camera
    else if str_eq field "captureGroupId"
    then none
    else some "c1"

abbrev pub json : Json String
json = record {
  is_object = λ v. true;
  get_str = get_str;
  get_u64 = λ v field. some 1;
  equal = str_eq;
  equal-sound = λ a b h. (eq_iff a b).0 h;
  equal-refl = eq_refl;
}

abbrev deadlines : JobDeadlines
deadlines = record {
  terminal_at_ms = 90;
  queue_at_ms = none;
  capture_at_ms = 50;
  encode_at_ms = 60;
  persist_at_ms = 70;
}

abbrev pub job : JobRecord String
job = record {
  capture_id = "c1";
  instance_id = "cam";
  request_id = none;
  request_hash = "h";
  state = accepted;
  deadlines = deadlines;
  origin_correlation_id = none;
  group_id = none;
  partial_path = none;
  final_path = none;
  expected_sha256 = none;
  expected_bytes = none;
  installed_sha256 = none;
  installed_bytes = none;
  updated_at_ms = 1;
  queued_at_ms = none;
  terminal_at_ms = none;
  install_started = false;
  terminal_result = none;
  error_code = none;
  pending_success = none;
}

abbrev pub hash : String
hash = "0123456789abcdef0123456789abcdef0123456789abcdef0123456789abcdef"

abbrev pub success : TerminalWrite String
success = record {
  state = succeeded;
  result = "cam";
  error_code = none;
  error_message = none;
  terminal_at_ms = 9;
}

abbrev cancellation : TerminalWrite String
cancellation = record {
  state = cancelled;
  result = "cam";
  error_code = none;
  error_message = none;
  terminal_at_ms = 8;
}

abbrev pending : PendingInstall String
pending = record {
  partial_path = "a.partial";
  final_path = "a";
  expected_sha256 = hash;
  expected_bytes = 7;
  success = success;
  changed_at_ms = 4;
}

-- A capture that is persisted and succeeds; a late cancellation loses.
abbrev life : List (Transaction String)
life =
    queues accepted [] 2
    ∷ reschedules deadlines 2
    ∷ compares queued acquiring 3
    ∷ persists pending
    ∷ installs 5
    ∷ records hash 7 6
    ∷ cancels cancellation
    ∷ commits success
    ∷ cancels cancellation
    ∷ []

run-winners_example : winners json job life ≡ ended_once json (run json job life)
unfolding is_terminal
run-winners_example = run-winners json job life refl

abbrev over : JobRecord String
over = record job { state = failed }

run-frozen_example : run json over life ≡ over
unfolding is_terminal
run-frozen_example = run-frozen json over life refl

abbrev fresh : Fresh job
fresh = record { not_started = refl; no_hash = refl; no_size = refl }

life_succeeds : (run json job life).state ≡ succeeded
unfolding run step queue_member reschedule_deadlines set_deadlines compare_and_set_state
    begin_persisting validate_terminal_for_job validate_terminal_write begin_install
    record_installed_artifact cancel_job commit_terminal terminal set_state set_started
    set_installed set_persisting write_terminal same_write check_pending validate_sha256 is_sha256
    artifact_verified is_terminal can_transition_to
life_succeeds = refl

succeeded-Verified_example : Verified (run json job life)
succeeded-Verified_example = succeeded-Verified json job life refl fresh life_succeeds

abbrev installing : List (Transaction String)
installing =
    compares accepted queued 2
    ∷ compares queued acquiring 3
    ∷ persists pending
    ∷ installs 5
    ∷ cancels cancellation
    ∷ []

installing_started : (run json job installing).install_started ≡ true
unfolding run step compare_and_set_state begin_persisting validate_terminal_for_job
    validate_terminal_write begin_install cancel_job terminal set_state set_started set_persisting
    check_pending validate_sha256 is_sha256 is_terminal can_transition_to
installing_started = refl

installing-not-cancelled_example : (run json job installing).state ≢ cancelled
installing-not-cancelled_example =
    installing-not-cancelled json job installing refl fresh installing_started

abbrev pub started_job : JobRecord String
started_job = record job {
  state = persisting;
  install_started = true;
  partial_path = some "a.partial";
  final_path = some "a";
  expected_sha256 = some hash;
  expected_bytes = some 7;
  installed_sha256 = some hash;
  installed_bytes = some 7;
  pending_success = some success;
}

abbrev encoding_job : JobRecord String
encoding_job = record job { state = encoding }

pending_checked : check_pending json pending ≡ ok tt
unfolding check_pending validate_sha256 is_sha256 validate_terminal_write is_terminal
pending_checked = refl

own_success : validate_terminal_for_job json success encoding_job ≡ ok tt
unfolding validate_terminal_for_job
own_success = refl

run-pipeline_example :
    let ts = pipeline json pending 5 6 (cancellation ∷ []) (cancellation ∷ cancellation ∷ []) in
    ((run json encoding_job ts).state ≡ succeeded)
    × ((run json encoding_job ts).terminal_result ≡ some "cam")
    × (winners json encoding_job ts ≡ 1)
run-pipeline_example =
    run-pipeline json pending 5 6 (cancellation ∷ []) (cancellation ∷ cancellation ∷ [])
      encoding_job refl refl refl pending_checked own_success
