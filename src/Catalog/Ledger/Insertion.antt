-- ===== src/Catalog/Ledger/Insertion.antt =====
-- What an acceptance of src/catalog.rs inserts, and what is then found.
use camera_adapter.Base.{
  ℕ, String, ◌≡◌, refl, true, false, ◌&&◌, [], ◌∷◌, Option, none, some, arith, str_eq, eq_refl, ap,
  ◌∙◌,
}
use camera_adapter.Base.Map.{Map, lookup, insert, lookup-insert_self}
use camera_adapter.Error.{Result, ok}
use camera_adapter.Catalog.Types.{
  JobRecord, LedgerKey, NewJob, CommandLedgerRecord, Tables, AcceptJobOutcome, inserted,
  in_progress,
}
use camera_adapter.Catalog.Writes.{same_option}
use camera_adapter.Catalog.Ledger.{
  same_key, job_row, load_ledger, load_job_required, find_request, insert_ledger, insert_job,
  insert_and_load, from_ledger, from_capture, insert_keyed, accept_job_blocking, request_taken,
  arbitrate,
}

pub same_key_refl : (k : LedgerKey) → same_key k k ≡ true
same_key_refl k = rw (eq_refl k.instance_id, eq_refl k.verb, eq_refl k.request_id) refl

pub job_row-requested :
    (V : Type 0) (key : LedgerKey) (job : NewJob)
    → job.ledger_key ≡ some key
    → (str_eq (job_row {V = V} job).instance_id job.instance_id
        && same_option str_eq (job_row {V = V} job).request_id (some key.request_id))
      ≡ true
unfolding job_row
job_row-requested V key job keyed = rw (eq_refl job.instance_id, keyed, eq_refl key.request_id) refl

module _ {V : Type 0} where
  -- The row that `insert_ledger` adds.
  abbrev pub ledger_row : LedgerKey → String → ℕ → Option String → CommandLedgerRecord V
  ledger_row key hash at capture = record {
    key = key;
    request_hash = hash;
    state = in_progress;
    updated_at_ms = at;
    capture_id = capture;
    reply = none;
    error_code = none;
  }

  -- The tables with a new command and its job.
  unfoldable pub accepted_tables : LedgerKey → NewJob → Tables V → Tables V
  unfolding job_row
  accepted_tables key job t = record t {
    jobs = insert job.capture_id (job_row job) t.jobs;
    ledger = ledger_row key job.request_hash job.accepted_at_ms (some job.capture_id) ∷ t.ledger;
  }

  pub find_request-insert_other :
      (instance_name request capture : String) (row : JobRecord V) (jobs : Map (JobRecord V))
      → lookup capture jobs ≡ none
      → find_request instance_name request jobs ≡ none
      → (str_eq row.instance_id instance_name && same_option str_eq row.request_id (some request))
        ≡ true
      → find_request instance_name request (insert capture row jobs) ≡ some capture
  unfolding find_request lookup insert
  find_request-insert_other i r c row [] new free own = rw (find_request, own) refl
  find_request-insert_other i r c row ((first, old) ∷ rest) new free own =
      ground (arith, find_request-insert_other i r c row rest, new, free, own)

  pub insert_and_load-new :
      (job : NewJob) (t : Tables V)
      → lookup job.capture_id t.jobs ≡ none
      → request_taken job t ≡ false
      → insert_and_load job t
        ≡ ok
            (record t { jobs = insert job.capture_id (job_row job) t.jobs }, inserted (job_row job))
  unfolding insert_and_load insert_job load_job_required
  insert_and_load-new job t new free =
      rw
        (
          insert_and_load,
          insert_job,
          new,
          free,
          load_job_required,
          lookup-insert_self job.capture_id (job_row job) t.jobs,
        )
        refl

  pub insert_ledger-new :
      (key : LedgerKey) (hash : String) (at : ℕ) (capture : Option String) (t : Tables V)
      → load_ledger key t.ledger ≡ none
      → insert_ledger key hash at capture t
        ≡ ok (record t { ledger = ledger_row key hash at capture ∷ t.ledger })
  unfolding insert_ledger
  insert_ledger-new key hash at capture t unknown = rw (insert_ledger, unknown) refl

  pub insert_keyed-new :
      (key : LedgerKey) (job : NewJob) (t : Tables V)
      → load_ledger key t.ledger ≡ none
      → request_taken job t ≡ false
      → lookup job.capture_id t.jobs ≡ none
      → insert_keyed key job t ≡ ok (accepted_tables key job t, inserted (job_row job))
  unfolding insert_keyed accepted_tables
  insert_keyed-new key job t unknown free new =
      let capture = some job.capture_id in
      let t1 : Tables V = record t {
        ledger = ledger_row key job.request_hash job.accepted_at_ms capture ∷ t.ledger;
      } in
      rw
        (
          insert_keyed,
          insert_ledger-new key job.request_hash job.accepted_at_ms capture t unknown,
          insert_and_load-new job t1 new free,
        )
        refl

  -- The arm of a job with a ledger key.
  abbrev pub keyed_answer : LedgerKey → NewJob → Tables V → Result (Tables V × AcceptJobOutcome V)
  keyed_answer key job t = elim (load_ledger key t.ledger) [
    | some row ↦ from_ledger row job t
    | none ↦ elim (find_request job.instance_id key.request_id t.jobs) [
      | some capture ↦ from_capture key capture job t
      | none ↦ insert_keyed key job t
    ]
  ]

  pub keyed_arm :
      (key : LedgerKey) (job : NewJob) (t : Tables V)
      → job.ledger_key ≡ some key
      → accept_job_blocking job t ≡ keyed_answer key job t
  unfolding accept_job_blocking
  keyed_arm key job t keyed =
      ap
        (λ o. elim o [
          | none ↦ elim (lookup job.capture_id t.jobs) [
            | some row ↦ ok (t, arbitrate row.request_hash job row)
            | none ↦ insert_and_load job t
          ]
          | some k ↦ keyed_answer k job t
        ])
        keyed

  pub keyed_new :
      (key : LedgerKey) (job : NewJob) (t : Tables V)
      → load_ledger key t.ledger ≡ none
      → find_request job.instance_id key.request_id t.jobs ≡ none
      → keyed_answer key job t ≡ insert_keyed key job t
  keyed_new key job t unknown free = rw (keyed_answer, unknown, free) refl

  pub accept_job_blocking-new :
      (key : LedgerKey) (job : NewJob) (t : Tables V)
      → job.ledger_key ≡ some key
      → load_ledger key t.ledger ≡ none
      → find_request job.instance_id key.request_id t.jobs ≡ none
      → lookup job.capture_id t.jobs ≡ none
      → accept_job_blocking job t ≡ ok (accepted_tables key job t, inserted (job_row job))
  unfolding accept_job_blocking
  accept_job_blocking-new key job t keyed unknown free new =
      let fresh : request_taken job t ≡ false = rw (keyed, free) refl in
      keyed_arm key job t keyed
      ∙ keyed_new key job t unknown free
      ∙ insert_keyed-new key job t unknown fresh new

  pub load_ledger-accepted :
      (key : LedgerKey) (job : NewJob) (t : Tables V)
      → load_ledger key (accepted_tables key job t).ledger
        ≡ some (ledger_row key job.request_hash job.accepted_at_ms (some job.capture_id))
  unfolding load_ledger accepted_tables
  load_ledger-accepted key job t = rw (load_ledger, same_key_refl key) refl

  pub load_job-accepted :
      (key : LedgerKey) (job : NewJob) (t : Tables V)
      → load_job_required job.capture_id (accepted_tables key job t) ≡ ok (job_row job)
  unfolding load_job_required accepted_tables
  load_job-accepted key job t =
      rw (load_job_required, lookup-insert_self job.capture_id (job_row job) t.jobs) refl

  pub keyed_known :
      (key : LedgerKey) (job : NewJob) (t : Tables V) (row : CommandLedgerRecord V)
      → load_ledger key t.ledger ≡ some row
      → keyed_answer key job t ≡ from_ledger row job t
  keyed_known key job t row here = rw (keyed_answer, here) refl
