-- ===== src/Catalog/Settlement/Tests.antt =====
-- A success of src/catalog.rs that settles the command of its capture.
use camera_adapter.Base.{String, ◌≡◌, refl, false, [], ◌∷◌, none, some, count}
use camera_adapter.Base.Map.{lookup}
use camera_adapter.Error.{ok}
use camera_adapter.Catalog.Types.{Tables, won}
use camera_adapter.Catalog.Writes.{validate_terminal_for_job}
use camera_adapter.Catalog.Job.{terminal, same_write, artifact_verified, write_terminal}
use camera_adapter.Catalog.Job.Tests.{json, success, started_job}
use camera_adapter.Catalog.Ledger.Insertion.{ledger_row}
use camera_adapter.Catalog.Settlement.{runs_for, terminal_blocking, terminal_blocking-settles}
use camera_adapter.Model.{is_terminal, can_transition_to}

abbrev tables : Tables String
tables = record {
  jobs = ("c1", started_job) ∷ [];
  ledger =
      ledger_row (record { instance_id = "cam"; verb = "capture"; request_id = "r1" }) "h" 1
        (some "c1")
      ∷ [];
  occurrences = [];
}

stored : lookup "c1" tables.jobs ≡ some started_job
unfolding lookup
stored = refl

wins :
    (terminal json success false none started_job).1
    ≡ ok (won (write_terminal json success started_job))
unfolding terminal validate_terminal_for_job is_terminal can_transition_to same_write
    artifact_verified
wins = refl

terminal_blocking-settles_example :
    let after = (terminal json success false none started_job).0 in
    (t' : Tables String) × (terminal_blocking json "c1" success false none tables
      ≡ ok (t', won (write_terminal json success started_job)))
    × (lookup "c1" t'.jobs ≡ some after)
    × (count (runs_for "c1") t'.ledger ≡ 0)
terminal_blocking-settles_example =
    terminal_blocking-settles json "c1" success false none tables started_job
      (write_terminal json success started_job) stored wins
