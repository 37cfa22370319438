-- ===== src/Admission/Queue.antt =====
-- The capture descriptor queue of src/admission.rs: bounds, sweep, priority aging and selection. The
-- methods take the observed time, in nanoseconds, and the state of the cancellation tokens, each a
-- number. The lock makes each call atomic, so a concurrent history is a sequence of calls.
pub mod Counts
pub mod Sweep
pub mod Selection
pub mod Pop
pub mod History
mod Tests
pub mod Aging
use camera_adapter.Base.{
  ℕ, zero, suc, ◌+◌, ◌-◌, ◌/◌, ◌≤◌, ◌<◌, String, Bool, true, false, ◌&&◌, ◌||◌, not, List, [], ◌∷◌,
  ◌++◌, Option, none, some, ltb, leb, ◌==◌, if◌then◌else◌, length, get_elem?, str_eq,
}
use camera_adapter.Base.Words.{u64_max, checked_add}
use camera_adapter.Base.Map.{Map, lookup, insert, remove}
use camera_adapter.Base.Vec.{swap_remove}
use camera_adapter.Error.{
  CameraError, rejected, bad_args, catalog, Result, ok, err, ◌>>=◌, ◌>>◌, reject_if, ok_or,
}
use camera_adapter.Admission.Errors.{queue_full, resource_error, timeout_error, cancelled_error}

pub data CapturePriority : Type 0 where
  direct submitted scheduled : CapturePriority

unfoldable pub base_score : CapturePriority → ℕ
base_score direct = 2
base_score submitted = 1
base_score scheduled = 0

module _ {ℓ} where
  pub record QueueEntry (T : Type ℓ) : Type ℓ where
    pub ticket : ℕ
    pub camera_id : String
    pub priority : CapturePriority
    pub enqueued_at : ℕ
    pub deadline : ℕ
    pub cancellation : ℕ
    pub payload : T

  -- A capture with its ticket, on its way into the queue.
  pub record Arrival (T : Type ℓ) : Type ℓ where
    pub ticket : ℕ
    pub camera_id : String
    pub priority : CapturePriority
    pub deadline : ℕ
    pub cancellation : ℕ
    pub payload : T

  -- `QueueInner` with the state that its lock guards.
  pub record Queue (T : Type ℓ) : Type ℓ where
    pub entries : List (QueueEntry T)
    pub per_camera : Map ℕ
    pub next_ticket : ℕ
    pub max_global_pending : ℕ
    pub max_per_camera : ℕ
    pub aging_interval : ℕ

-- `HashMap::get(..).copied().unwrap_or(0)`.
unfoldable pub held_for : Map ℕ → String → ℕ
held_for counts camera = elim (lookup camera counts) [ none ↦ 0 | some n ↦ n ]

unfoldable pub decrement_camera_count : Map ℕ → String → Map ℕ
decrement_camera_count counts camera = elim (lookup camera counts) [
  | none ↦ counts
  | some n ↦ if (n - 1) == 0 then remove camera counts else insert camera (n - 1) counts
]

module _ {ℓ} {T : Type ℓ} where
  pub new : ℕ → ℕ → ℕ → Result (Queue T)
  new max_global_pending max_per_camera aging_interval = do
    reject_if (max_global_pending == 0 || max_per_camera == 0)
        (rejected bad_args "capture queue bounds must be non-zero")
    reject_if (aging_interval == 0)
        (rejected bad_args "capture queue aging interval must be non-zero")
    ok (record {
      entries = [];
      per_camera = [];
      next_ticket = 1;
      max_global_pending = max_global_pending;
      max_per_camera = max_per_camera;
      aging_interval = aging_interval;
    })

  pub effective_score : ℕ → ℕ → QueueEntry T → ℕ
  unfolding base_score
  effective_score now aging_interval entry =
      base_score entry.priority + (now - entry.enqueued_at) / aging_interval

  -- The part of `try_enqueue` under the lock, for a ticket already drawn.
  pub push_entry : Queue T → QueueEntry T → Queue T × Result ℕ
  push_entry q entry =
      if leb q.max_global_pending (length q.entries)
      then (q, err (queue_full "global capture descriptor queue is full"))
      else if leb q.max_per_camera (held_for q.per_camera entry.camera_id)
      then (q, err (queue_full "camera capture descriptor queue is full"))
      else (
        record q {
          entries = q.entries ++ (entry ∷ []);
          per_camera =
              insert entry.camera_id (held_for q.per_camera entry.camera_id + 1) q.per_camera;
        },
        ok entry.ticket,
      )

  -- The part of `try_enqueue` before the lock. `in_runtime` says whether the caller runs inside a Tokio
  -- runtime. A full queue does not give the ticket back.
  pub draw_ticket :
      (ℕ → Bool)
      → ℕ
      → Bool
      → Queue T
      → String
      → CapturePriority
      → ℕ
      → ℕ
      → T
      → Queue T × Result (Arrival T)
  draw_ticket is_cancelled now in_runtime q camera_id priority deadline cancellation payload =
      if str_eq camera_id ""
      then (q, err (rejected bad_args "camera id must not be empty"))
      else if is_cancelled cancellation
      then (q, err cancelled_error)
      else if leb deadline now
      then (q, err timeout_error)
      else if not in_runtime
      then (q, err (catalog "capture admission queue requires a Tokio runtime"))
      else elim (checked_add u64_max q.next_ticket 1) [
        | none ↦ (q, err (resource_error "capture queue ticket space exhausted"))
        | some after ↦ (
          record q { next_ticket = after },
          ok (record {
            ticket = q.next_ticket;
            camera_id = camera_id;
            priority = priority;
            deadline = deadline;
            cancellation = cancellation;
            payload = payload;
          }),
        )
      ]

  -- The entry of an arrival that is queued at a time.
  pub queued_at : ℕ → Arrival T → QueueEntry T
  queued_at now a = record {
    ticket = a.ticket;
    camera_id = a.camera_id;
    priority = a.priority;
    enqueued_at = now;
    deadline = a.deadline;
    cancellation = a.cancellation;
    payload = a.payload;
  }

  -- The whole of `try_enqueue`, when no other call comes between its two parts. The clock is read before
  -- the ticket is drawn, and again when the entry is made.
  pub try_enqueue :
      (ℕ → Bool)
      → (now later : ℕ) → Bool
      → Queue T
      → String
      → CapturePriority
      → ℕ
      → ℕ
      → T
      → Queue T × Result ℕ
  unfolding push_entry draw_ticket queued_at
  try_enqueue is_cancelled now later in_runtime q camera_id priority deadline cancellation payload =
      let drawn =
        draw_ticket is_cancelled now in_runtime q camera_id priority deadline cancellation
          payload in
      elim drawn.1 [
        | err e ↦ (drawn.0, err e)
        | ok arrival ↦ push_entry drawn.0 (queued_at later arrival)
      ]

  -- `entries.iter().position(..)`.
  pub position : ℕ → List (QueueEntry T) → Option ℕ
  position ticket [] = none
  position ticket (e ∷ es) =
      if e.ticket == ticket
      then some 0
      else elim (position ticket es) [ none ↦ none | some i ↦ some (suc i) ]

  -- `entries.swap_remove(index)` with the count of its camera; an index out of range does nothing.
  pub take_entry : ℕ → Queue T → Queue T
  take_entry index q = elim (get_elem? q.entries index) [
    | none ↦ q
    | some e ↦ record q {
      entries = swap_remove index q.entries;
      per_camera = decrement_camera_count q.per_camera e.camera_id;
    }
  ]

  pub remove_ticket : ℕ → Queue T → Queue T × Bool
  unfolding position take_entry
  remove_ticket ticket q = elim (position ticket q.entries) [
    | none ↦ (q, false)
    | some index ↦ (take_entry index q, true)
  ]

  pub is_dead : (ℕ → Bool) → ℕ → QueueEntry T → Bool
  is_dead is_cancelled now e = is_cancelled e.cancellation || leb e.deadline now

  -- The loop of `pop_best_admissible` that discards dead entries: `index` stays where it is after a
  -- removal, since `swap_remove` has put another entry there.
  pub sweep : (ℕ → Bool) → ℕ → ℕ → ℕ → List (QueueEntry T) → Queue T → Queue T × List (QueueEntry T)
  unfolding take_entry is_dead
  sweep is_cancelled now zero index discarded q = (q, discarded)
  sweep is_cancelled now (suc fuel) index discarded q = elim (get_elem? q.entries index) [
    | none ↦ (q, discarded)
    | some e ↦ elim (is_dead is_cancelled now e) [
      | true ↦ sweep is_cancelled now fuel index (discarded ++ (e ∷ [])) (take_entry index q)
      | false ↦ sweep is_cancelled now fuel (suc index) discarded q
    ]
  ]

  -- Whether `max_by` keeps `left` when it compares it with a later `right`: the higher score, and
  -- at equal scores the smaller ticket.
  pub outranks : ℕ → ℕ → QueueEntry T → QueueEntry T → Bool
  unfolding effective_score
  outranks now interval left right =
      ltb (effective_score now interval right) (effective_score now interval left)
      || (effective_score now interval right == effective_score now interval left
          && ltb left.ticket right.ticket)

  -- One step of `enumerate().filter(..).max_by(..)`: the entry at `index` against the best so far.
  pub consider :
      (String → Bool)
      → ℕ
      → ℕ
      → Option (ℕ × QueueEntry T)
      → ℕ
      → QueueEntry T
      → Option (ℕ × QueueEntry T)
  unfolding outranks
  consider admissible now interval best index e =
      if admissible e.camera_id
      then elim best [
        | none ↦ some (index, e)
        | some (i, b) ↦ if outranks now interval b e then some (i, b) else some (index, e)
      ]
      else best

  -- The whole chain over the entries from `index` on, with the best so far.
  pub best_from :
      (String → Bool)
      → ℕ
      → ℕ
      → Option (ℕ × QueueEntry T)
      → ℕ
      → List (QueueEntry T)
      → Option (ℕ × QueueEntry T)
  unfolding consider
  best_from admissible now interval best index [] = best
  best_from admissible now interval best index (e ∷ es) =
      best_from admissible now interval (consider admissible now interval best index e) (suc index)
        es

  pub select_best : (String → Bool) → ℕ → Queue T → Queue T × Option (QueueEntry T)
  unfolding best_from take_entry
  select_best admissible now q = elim (best_from admissible now q.aging_interval none 0 q.entries) [
    | none ↦ (q, none)
    | some (index, e) ↦ (take_entry index q, some e)
  ]

  -- One iteration of the loop discards or passes an entry, so the length is fuel enough.
  pub swept : (ℕ → Bool) → ℕ → Queue T → Queue T × List (QueueEntry T)
  unfolding sweep
  swept is_cancelled now q = sweep is_cancelled now (length q.entries) 0 [] q

  pub pop_best_admissible :
      (ℕ → Bool) → (String → Bool) → ℕ → Queue T → Queue T × Option (QueueEntry T)
  unfolding swept select_best
  pop_best_admissible is_cancelled admissible now q =
      select_best admissible now (swept is_cancelled now q).0

  pub pop_best : (ℕ → Bool) → ℕ → Queue T → Queue T × Option (QueueEntry T)
  unfolding pop_best_admissible
  pop_best is_cancelled now q = pop_best_admissible is_cancelled (λ _. true) now q

  pub pending : Queue T → ℕ
  pending q = length q.entries

  pub pending_for : Queue T → String → ℕ
  pending_for q camera = held_for q.per_camera camera
