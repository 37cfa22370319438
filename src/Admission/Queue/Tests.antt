-- ===== src/Admission/Queue/Tests.antt =====
-- Concrete runs of the capture queue of src/admission.rs.
use mathlib.Core.List.{mem-cons, mem-cons_self}
use mathlib.Core.Logic.Or
use camera_adapter.Base.{
  ℕ, ◌+◌, ◌*◌, ◌≤◌, ◌<◌, String, ◌≡◌, refl, ◌⊎◌, Bool, true, false, List, [], ◌∷◌, none, some, Mem,
  arith,
}
use camera_adapter.Base.Vec.{swap_remove}
use camera_adapter.Admission.Queue.{
  direct, scheduled, QueueEntry, Queue, new, effective_score, pop_best_admissible, is_dead,
}
use camera_adapter.Admission.Queue.Counts.{Inv}
use camera_adapter.Admission.Queue.Pop.{Popped, pop-Popped, pop_first, pop-none, pop_fair}
use camera_adapter.Admission.Queue.History.{
  World, Call, draws, pushes, removes, pops, run, run-new-Inv,
}

abbrev empty_queue : Queue ℕ
empty_queue = record {
  entries = [];
  per_camera = [];
  next_ticket = 1;
  max_global_pending = 3;
  max_per_camera = 2;
  aging_interval = 10;
}

-- A scheduled capture at time 0, a direct one at time 5, and one that has expired by time 40.
abbrev old_scheduled : QueueEntry ℕ
old_scheduled = record {
  ticket = 1;
  camera_id = "dock";
  priority = scheduled;
  enqueued_at = 0;
  deadline = 100;
  cancellation = 0;
  payload = 7;
}

abbrev late_direct : QueueEntry ℕ
late_direct = record {
  ticket = 2;
  camera_id = "gate";
  priority = direct;
  enqueued_at = 35;
  deadline = 100;
  cancellation = 1;
  payload = 8;
}

abbrev expired : QueueEntry ℕ
expired = record {
  ticket = 3;
  camera_id = "gate";
  priority = direct;
  enqueued_at = 6;
  deadline = 40;
  cancellation = 2;
  payload = 9;
}

abbrev waiting : Queue ℕ
waiting = record {
  entries = expired ∷ late_direct ∷ old_scheduled ∷ [];
  per_camera = ("gate", 2) ∷ ("dock", 1) ∷ [];
  next_ticket = 4;
  max_global_pending = 3;
  max_per_camera = 2;
  aging_interval = 10;
}

abbrev none_cancelled : ℕ → Bool
none_cancelled token = false

abbrev all_online : String → Bool
all_online camera = true

popped_old : (pop_best_admissible none_cancelled all_online 40 waiting).1 ≡ some old_scheduled
unfolding pop_best_admissible swap_remove
popped_old = refl

left_after : (pop_best_admissible none_cancelled all_online 40 waiting).0.entries ≡ late_direct ∷ []
unfolding pop_best_admissible swap_remove
left_after = refl

late_queued : Mem late_direct waiting.entries
late_queued = mem-cons.1 (Or.inr mem-cons_self)

pop-Popped_example :
    Popped none_cancelled all_online 40 waiting old_scheduled
      (pop_best_admissible none_cancelled all_online 40 waiting).0
pop-Popped_example = pop-Popped none_cancelled all_online 40 waiting old_scheduled popped_old

pop_first_example :
    let score = effective_score 40 10 in
    (score late_direct < score old_scheduled)
    ⊎ ((score late_direct ≡ score old_scheduled) × (1 ≤ 2))
unfolding is_dead
pop_first_example =
    pop_first none_cancelled all_online 40 waiting old_scheduled late_direct popped_old late_queued
      refl refl

no_camera : String → Bool
no_camera camera = false

none_popped : (pop_best_admissible none_cancelled no_camera 40 waiting).1 ≡ none
unfolding pop_best_admissible swap_remove no_camera
none_popped = refl

pop-none_example : no_camera "gate" ≡ false
unfolding is_dead
pop-none_example =
    pop-none none_cancelled no_camera 40 waiting none_popped late_direct late_queued refl

pop_fair_example : 0 < 35 + 3 * 10
unfolding is_dead
pop_fair_example =
    pop_fair none_cancelled all_online 40 waiting old_scheduled late_direct (omega arith) popped_old
      late_queued refl refl (omega arith)

-- Two enqueues that take the lock in the other order than they drew their tickets.
abbrev calls : List (Call ℕ)
calls =
    draws none_cancelled 0 true "dock" scheduled 100 0 7
    ∷ draws none_cancelled 1 true "gate" direct 100 1 8
    ∷ pushes 1 2
    ∷ pushes 0 3
    ∷ draws none_cancelled 3 true "gate" direct 50 3 10
    ∷ pushes 0 3
    ∷ pops none_cancelled all_online 4
    ∷ removes 3
    ∷ []

abbrev created : World ℕ
created = record { queue = empty_queue; drawn = [] }

run-new-Inv_example : Inv (run created calls).drawn (run created calls).queue
unfolding new
run-new-Inv_example = run-new-Inv 3 2 10 empty_queue calls refl
