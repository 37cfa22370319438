-- ===== src/Catalog/Ledger/Acceptance.antt =====
-- Retries and other requests after an acceptance in src/catalog.rs.
use camera_adapter.Base.{String, ◌≡◌, refl, true, false, ◌∷◌, none, some, str_eq, eq_refl, ◌∙◌}
use camera_adapter.Base.Map.{lookup}
use camera_adapter.Error.{ok}
use camera_adapter.Catalog.Types.{
  JobRecord, LedgerKey, NewJob, Tables, inserted, existing, conflict,
}
use camera_adapter.Catalog.Ledger.{
  same_key, job_row, load_ledger, load_job_required, find_request, from_ledger, from_capture,
  accept_job_blocking,
}
use camera_adapter.Catalog.Ledger.Insertion.{
  ledger_row, accepted_tables, keyed_answer, job_row-requested, find_request-insert_other,
  insert_ledger-new, keyed_arm, accept_job_blocking-new, load_ledger-accepted, load_job-accepted,
  keyed_known,
}

module _ {V : Type 0} where
  retry_finds :
      (key : LedgerKey) (job : NewJob) (t : Tables V)
      → job.ledger_key ≡ some key
      → accept_job_blocking job (accepted_tables key job t)
        ≡ ok (accepted_tables key job t, existing (job_row job))
  unfolding from_ledger
  retry_finds key job t keyed =
      let t' = accepted_tables key job t in
      keyed_arm key job t' keyed
      ∙ (keyed_known key job t' _ (load_ledger-accepted key job t)
          ∙ rw (from_ledger, eq_refl job.request_hash, load_job-accepted key job t) refl)

  -- A request whose key, camera and request identifier, and capture identifier are all new is inserted
  -- as an accepted job with its ledger row, and a retry of it finds that job and changes nothing.
  pub accept_job_blocking-retry :
      (key : LedgerKey) (job : NewJob) (t : Tables V)
      → job.ledger_key ≡ some key
      → load_ledger key t.ledger ≡ none
      → find_request job.instance_id key.request_id t.jobs ≡ none
      → lookup job.capture_id t.jobs ≡ none
      → let t' = accepted_tables key job t in
        (accept_job_blocking job t ≡ ok (t', inserted (job_row job)))
        × (accept_job_blocking job t' ≡ ok (t', existing (job_row job)))
  accept_job_blocking-retry key job t keyed unknown free new =
      (accept_job_blocking-new key job t keyed unknown free new, retry_finds key job t keyed)

  -- Once a request was accepted, another one under its key, whose canonical form has another hash,
  -- conflicts, and changes nothing.
  pub accept_job_blocking-conflict :
      (key : LedgerKey) (job other : NewJob) (t : Tables V)
      → other.ledger_key ≡ some key
      → str_eq job.request_hash other.request_hash ≡ false
      → accept_job_blocking other (accepted_tables key job t)
        ≡ ok (accepted_tables key job t, conflict)
  unfolding from_ledger
  accept_job_blocking-conflict key job other t keyed differs =
      let t' = accepted_tables key job t in
      keyed_arm key other t' keyed
      ∙ (keyed_known key other t' _ (load_ledger-accepted key job t)
          ∙ rw (from_ledger, differs) refl)

  keyed_capture :
      (key : LedgerKey) (job : NewJob) (t : Tables V) (capture : String)
      → load_ledger key t.ledger ≡ none
      → find_request job.instance_id key.request_id t.jobs ≡ some capture
      → keyed_answer key job t ≡ from_capture key capture job t
  keyed_capture key job t capture unknown here = rw (keyed_answer, unknown, here) refl

  from_capture-known :
      (key : LedgerKey) (capture : String) (job : NewJob) (t : Tables V) (old : JobRecord V)
      → load_job_required capture t ≡ ok old
      → str_eq old.request_hash job.request_hash ≡ true
      → load_ledger key t.ledger ≡ none
      → from_capture key capture job t
        ≡ ok (
          record t {
            ledger = ledger_row key job.request_hash job.accepted_at_ms (some capture) ∷ t.ledger;
          },
          existing old,
        )
  unfolding from_capture
  from_capture-known key capture job t old here same unknown =
      rw
        (
          from_capture,
          here,
          same,
          insert_ledger-new key job.request_hash job.accepted_at_ms (some capture) t unknown,
        )
        refl

  -- A retry of an accepted request through another verb, with the same camera, request identifier and
  -- canonical form, finds the same job: no job is added, and the ledger learns the new key.
  pub accept_job_blocking-other_verb :
      (key key' : LedgerKey) (job other : NewJob) (t : Tables V)
      → job.ledger_key ≡ some key
      → find_request job.instance_id key.request_id t.jobs ≡ none
      → lookup job.capture_id t.jobs ≡ none
      → other.ledger_key ≡ some key'
      → same_key key key' ≡ false
      → load_ledger key' t.ledger ≡ none
      → key'.request_id ≡ key.request_id
      → other.instance_id ≡ job.instance_id
      → other.request_hash ≡ job.request_hash
      → let t' = accepted_tables key job t in
        accept_job_blocking other t'
        ≡ ok (
          record t' {
            ledger =
                ledger_row key' other.request_hash other.accepted_at_ms (some job.capture_id)
                ∷ t'.ledger;
          },
          existing (job_row job),
        )
  unfolding accepted_tables load_ledger job_row
  accept_job_blocking-other_verb key key' job other t keyed free new keyed' differs unknown' request
        camera hash =
      let t' = accepted_tables key job t in
      let none_yet : load_ledger key' t'.ledger ≡ none =
        rw (accepted_tables, load_ledger, differs) unknown' in
      let found : find_request other.instance_id key'.request_id t'.jobs ≡ some job.capture_id =
        rw (camera, request)
          (find_request-insert_other job.instance_id key.request_id job.capture_id (job_row job)
            t.jobs new free (job_row-requested V key job keyed)) in
      keyed_arm key' other t' keyed'
      ∙ (keyed_capture key' other t' job.capture_id none_yet found
          ∙ from_capture-known key' job.capture_id other t' (job_row job)
              (load_job-accepted key job t) (rw hash (eq_refl job.request_hash)) none_yet)
