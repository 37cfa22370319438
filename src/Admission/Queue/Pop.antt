-- ===== src/Admission/Queue/Pop.antt =====
-- One pop of src/admission.rs: the sweep and the selection together, and what aging makes of it.
use mathlib.Core.HLevel.{Π_prop, ×_prop}
use mathlib.Core.Bool.{Bool-set}
use mathlib.Core.Logic.Or
use mathlib.Core.List.{mem-append, mem-append_right, Mem-prop}
use mathlib.Core.List.Perm
use native.Mathlib.Bridge.{le_prop}
use camera_adapter.Base.{
  ℕ, ◌+◌, ◌*◌, ◌≤◌, ◌<◌, String, ◌≡◌, ap, ◌∙◌, ◌⊎◌, Bool, true, false, List, ◌∷◌, ◌++◌, none, some,
  Perm, Mem, arith, All, All-Mem, get_elem?-mem,
}
use camera_adapter.Base.Vec.{swap_remove, swap_remove-perm}
use camera_adapter.Admission.Queue.{
  QueueEntry, Queue, swept, effective_score, select_best, pop_best_admissible,
}
use camera_adapter.Admission.Queue.Sweep.{
  IsLive, IsDead, swept-Split, swept-interval, take_entry-entries,
}
use camera_adapter.Admission.Queue.Aging.{aging_outranks}
use camera_adapter.Admission.Queue.Selection.{Precedes, BestOf, select_best-some, select_best-none}

module _ {ℓ} {T : Type ℓ} (is_cancelled : ℕ → Bool) (admissible : String → Bool) (now : ℕ) where
  -- What one pop did to the queue.
  pub record Popped (q : Queue T) (e : QueueEntry T) (rest : Queue T) : Type ℓ where
    pub was_queued : Mem e q.entries
    pub is_live : IsLive is_cancelled now e
    pub can_serve : admissible e.camera_id ≡ true
    pub rest_kept :
        (dead : List (QueueEntry T)) × All (IsDead is_cancelled now) dead
        × Perm q.entries (dead ++ (e ∷ rest.entries))

  -- A live entry of the queue is still there after the sweep.
  stays :
      (q : Queue T) (f : QueueEntry T)
      → Mem f q.entries
      → IsLive is_cancelled now f
      → Mem f (swept is_cancelled now q).0.entries
  stays q f queued lives =
      let split = swept-Split is_cancelled now q in
      Or.elim Mem-prop (mem-append.0 ((Perm.mem_iff split.same).0 queued))
        (λ discarded.
          let dead =
            All-Mem (IsDead is_cancelled now) (λ g. Bool-set _ _) _ f split.all_dead discarded in
          cc)
        (λ kept. kept)

  BestOf-prop : (interval : ℕ) (e f : QueueEntry T) → IsProp (BestOf admissible now interval e f)
  BestOf-prop interval e f = Π_prop (λ s. ×_prop le_prop (Π_prop (λ h. le_prop)))

  -- The popped entry was queued, is live, and its camera can take work. The entries of the queue are,
  -- as often as before, the discarded dead ones, the popped one and those that remain.
  pub pop-Popped :
      (q : Queue T) (e : QueueEntry T)
      → (pop_best_admissible is_cancelled admissible now q).1 ≡ some e
      → Popped q e (pop_best_admissible is_cancelled admissible now q).0
  unfolding pop_best_admissible
  pop-Popped q e h =
      let split = swept-Split is_cancelled now q in
      let live = (swept is_cancelled now q).0 in
      let dead = (swept is_cancelled now q).1 in
      let (i, there, rest, serve, best) = select_best-some admissible now live e h in
      let in_live = get_elem?-mem live.entries i e there in
      let left : (select_best admissible now live).0.entries ≡ swap_remove i live.entries =
        ap (λ (r : Queue T). r.entries) rest ∙ take_entry-entries is_cancelled now i live e there in
      record {
        was_queued = (Perm.mem_iff split.same).1 (mem-append_right dead in_live);
        is_live =
            All-Mem (IsLive is_cancelled now) (λ f. Bool-set _ _) live.entries e split.all_live
              in_live;
        can_serve = serve;
        rest_kept = (
          dead,
          split.all_dead,
          rw left (
              Perm.trans split.same
                (Perm.append (Perm.refl dead) (swap_remove-perm live.entries i e there))),
        );
      }

  pop-Precedes :
      (q : Queue T) (e f : QueueEntry T)
      → (pop_best_admissible is_cancelled admissible now q).1 ≡ some e
      → Mem f q.entries
      → IsLive is_cancelled now f
      → admissible f.camera_id ≡ true
      → Precedes admissible now q.aging_interval e f
  unfolding pop_best_admissible
  pop-Precedes q e f h queued lives serves =
      let live = (swept is_cancelled now q).0 in
      let (i, there, rest, serve, best) = select_best-some admissible now live e h in
      rw (← swept-interval is_cancelled now q) (
        All-Mem (BestOf admissible now live.aging_interval e) (BestOf-prop live.aging_interval e)
          live.entries f best (stays q f queued lives) serves)

  -- No live entry whose camera can take work has a higher score than the popped one, and at the same
  -- score none has an earlier ticket.
  pub pop_first :
      (q : Queue T) (e f : QueueEntry T)
      → (pop_best_admissible is_cancelled admissible now q).1 ≡ some e
      → Mem f q.entries
      → IsLive is_cancelled now f
      → admissible f.camera_id ≡ true
      → let score = effective_score now q.aging_interval in
        (score f < score e) ⊎ ((score f ≡ score e) × (e.ticket ≤ f.ticket))
  pop_first q e f h queued lives serves =
      let (le, tie) = pop-Precedes q e f h queued lives serves in grind arith

  -- A pop returns nothing only if no live entry of the queue is admissible.
  pub pop-none :
      (q : Queue T)
      → (pop_best_admissible is_cancelled admissible now q).1 ≡ none
      → (f : QueueEntry T) → Mem f q.entries
      → IsLive is_cancelled now f
      → admissible f.camera_id ≡ false
  unfolding pop_best_admissible
  pop-none q h f queued lives =
      All-Mem (λ e. admissible e.camera_id ≡ false) (λ g. Bool-set _ _) _ f
        (select_best-none admissible now (swept is_cancelled now q).0 h) (stays q f queued lives)

  -- No capture is starved: while a live admissible entry waits, no entry that came three aging
  -- intervals or more after it is popped, whatever their priorities.
  pub pop_fair :
      (q : Queue T) (e f : QueueEntry T)
      → 0 < q.aging_interval
      → (pop_best_admissible is_cancelled admissible now q).1 ≡ some e
      → Mem f q.entries
      → IsLive is_cancelled now f
      → admissible f.camera_id ≡ true
      → e.enqueued_at ≤ now
      → e.enqueued_at < f.enqueued_at + 3 * q.aging_interval
  pop_fair q e f positive popped queued lives serves past =
      let first = pop-Precedes q e f popped queued lives serves in
      grind (arith, aging_outranks now q.aging_interval f e positive)
