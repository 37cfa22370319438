-- ===== src/Admission/Queue/History.antt =====
-- Histories of calls on the capture queue of src/admission.rs, and the outcome of one enqueue.
use camera_adapter.Base.{
  ℕ, ◌<◌, String, ◌≡◌, ◌≢◌, Bool, false, List, [], ◌∷◌, length, arith, eq_iff, none, some,
  get_elem?, Option-cases, inl, inr,
}
use camera_adapter.Base.Vec.{swap_remove}
use camera_adapter.Error.{CameraError, ok, err}
use camera_adapter.Admission.Queue.{
  queued_at, draw_ticket, Arrival, CapturePriority, Queue, held_for, new, push_entry, try_enqueue,
  remove_ticket, pop_best_admissible,
}
use camera_adapter.Admission.Queue.Counts.{
  Inv, new-Inv, draw_ticket-Inv, push-Inv, with_arrival, remove_ticket-Inv, pop_best_admissible-Inv,
}

-- The queue, and the arrivals whose enqueue has drawn a ticket and not taken the lock yet.
pub record World {ℓ} (T : Type ℓ) : Type ℓ where
  pub queue : Queue T
  pub drawn : List (Arrival T)

-- A step with what it observes: the tokens that are cancelled, the time, and the cameras that can take
-- work. An enqueue is two steps, between which others can come. The expiry task of an entry calls
-- `remove_ticket`.
pub data Call {ℓ} (T : Type ℓ) : Type ℓ where
  draws : (ℕ → Bool) → ℕ → Bool → String → CapturePriority → ℕ → ℕ → T → Call T
  pushes : ℕ → ℕ → Call T
  removes : ℕ → Call T
  pops : (ℕ → Bool) → (String → Bool) → ℕ → Call T

module _ {ℓ} {T : Type ℓ} where
  pub step : World T → Call T → World T
  unfolding queued_at
  step w (draws is_cancelled now in_runtime camera priority deadline token payload) =
      let out =
        draw_ticket is_cancelled now in_runtime w.queue camera priority deadline token payload in
      record { queue = out.0; drawn = with_arrival w.drawn out.1 }
  step w (pushes i now) = elim (get_elem? w.drawn i) [
    | none ↦ w
    | some a ↦ record {
      queue = (push_entry w.queue (queued_at now a)).0;
      drawn = swap_remove i w.drawn;
    }
  ]
  step w (removes ticket) = record w { queue = (remove_ticket ticket w.queue).0 }
  step w (pops is_cancelled admissible now) = record w {
    queue = (pop_best_admissible is_cancelled admissible now w.queue).0;
  }

  pub run : World T → List (Call T) → World T
  run w [] = w
  run w (c ∷ cs) = run (step w c) cs

  step-Inv :
      (w : World T) (c : Call T) → Inv w.drawn w.queue → Inv (step w c).drawn (step w c).queue
  unfolding step
  step-Inv w (draws is_cancelled now in_runtime camera priority deadline token payload) v =
      draw_ticket-Inv w.drawn is_cancelled now in_runtime w.queue camera priority deadline token
        payload v
  step-Inv w (pushes i now) v = elim (Option-cases (get_elem? w.drawn i)) [
    | inl missing ↦ rw (step, missing) v
    | inr (a, here) ↦ rw (step, here) (push-Inv w.drawn w.queue i a now here v)
  ]
  step-Inv w (removes ticket) v = remove_ticket-Inv w.drawn ticket w.queue v
  step-Inv w (pops is_cancelled admissible now) v =
      pop_best_admissible-Inv w.drawn is_cancelled admissible now w.queue v

  run-Inv :
      (w : World T) (cs : List (Call T))
      → Inv w.drawn w.queue
      → Inv (run w cs).drawn (run w cs).queue
  unfolding run
  run-Inv w [] v = v
  run-Inv w (c ∷ cs) v = run-Inv (step w c) cs (step-Inv w c v)

  -- After any history of calls, each with any observations, on a queue that was created, where the drawing
  -- of a ticket and the queueing under the lock are steps of their own: the per-camera counters agree with
  -- the entries, the global and the per-camera bound hold, and no two entries share a ticket, nor do
  -- an entry and an arrival that is not queued yet.
  pub run-new-Inv :
      (global per_camera interval : ℕ) (q : Queue T) (cs : List (Call T))
      → new global per_camera interval ≡ ok q
      → let w = run (record { queue = q; drawn = [] }) cs in Inv w.drawn w.queue
  run-new-Inv global per_camera interval q cs made =
      run-Inv (record { queue = q; drawn = [] }) cs (new-Inv global per_camera interval made)

  -- A refused capture leaves the entries and the counters as they were.
  pub enqueue_refused :
      (is_cancelled : ℕ → Bool) (now later : ℕ) (in_runtime : Bool) (q : Queue T) (camera : String)
      (priority : CapturePriority) (deadline cancellation : ℕ) (payload : T) (e : CameraError)
      → (try_enqueue is_cancelled now later in_runtime q camera priority deadline cancellation
          payload).1
        ≡ err e
      → let q' =
          (try_enqueue is_cancelled now later in_runtime q camera priority deadline cancellation
            payload).0 in
        (q'.entries ≡ q.entries) × (q'.per_camera ≡ q.per_camera)
  unfolding try_enqueue draw_ticket push_entry
  enqueue_refused is_cancelled now later in_runtime q camera priority deadline cancellation payload
        e h =
      ground arith

  -- An accepted capture has a camera, a live token and a deadline ahead, and both bounds had room for it.
  pub enqueue_checked :
      (is_cancelled : ℕ → Bool) (now later : ℕ) (in_runtime : Bool) (q : Queue T) (camera : String)
      (priority : CapturePriority) (deadline cancellation : ℕ) (payload : T) (ticket : ℕ)
      → (try_enqueue is_cancelled now later in_runtime q camera priority deadline cancellation
          payload).1
        ≡ ok ticket
      → (ticket ≡ q.next_ticket)
        × (camera ≢ "")
        × (is_cancelled cancellation ≡ false)
        × (now < deadline)
        × (length q.entries < q.max_global_pending)
        × (held_for q.per_camera camera < q.max_per_camera)
  unfolding try_enqueue draw_ticket push_entry
  enqueue_checked is_cancelled now later in_runtime q camera priority deadline cancellation payload
        ticket h =
      ground (arith, eq_iff camera "")
