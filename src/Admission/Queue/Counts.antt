-- ===== src/Admission/Queue/Counts.antt =====
-- The invariant of the capture queue of src/admission.rs.
use camera_adapter.Base.{
  ℕ, zero, suc, ◌+◌, ◌-◌, ◌≤◌, ◌<◌, String, ◌≡◌, refl, inl, inr, Bool, List, [], ◌∷◌, ◌++◌, none,
  some, ◌==◌, leb, if◌then◌else◌, length, get_elem?, str_eq, eq_iff, arith, count, All, All-append,
  sum_of-append, length-append, Option-cases, Bool-cases,
}
use camera_adapter.Base.Map.{Map, lookup, insert, lookup-insert, lookup-remove}
use camera_adapter.Base.Vec.{swap_remove, sum_of-swap_remove, All-swap_remove, length-swap_remove}
use camera_adapter.Error.{Result, ok, err}
use camera_adapter.Admission.Queue.{
  CapturePriority, QueueEntry, Arrival, Queue, held_for, decrement_camera_count, new, push_entry,
  draw_ticket, queued_at, position, take_entry, remove_ticket, is_dead, sweep, best_from,
  select_best, swept, pop_best_admissible,
}

pub held_for-insert :
    (m : Map ℕ) (c d : String) (n : ℕ)
    → held_for (insert c n m) d ≡ (if str_eq c d then n else held_for m d)
unfolding held_for
held_for-insert m c d n = ground (arith, lookup-insert c d n m)

pub held_for-decrement :
    (m : Map ℕ) (c d : String)
    → held_for (decrement_camera_count m c) d
      ≡ (if str_eq c d then held_for m c - 1 else held_for m d)
unfolding held_for decrement_camera_count
held_for-decrement m c d = elim (Option-cases (lookup c m)) [
  | inl e ↦ ground (arith, e, eq_iff c d)
  | inr (n, e) ↦ ground (arith, e, lookup-insert c d (n - 1) m, lookup-remove c d m, eq_iff c d)
]

module _ {ℓ} {T : Type ℓ} where
  abbrev pub on_camera : String → QueueEntry T → Bool
  on_camera c e = str_eq e.camera_id c

  abbrev pub has_ticket : ℕ → QueueEntry T → Bool
  has_ticket t e = e.ticket == t

  abbrev pub holds_ticket : ℕ → Arrival T → Bool
  holds_ticket t a = a.ticket == t

  -- The per-camera counters agree with the entries, both bounds hold, and tickets are unique among the
  -- entries and the arrivals that are not queued yet.
  pub record Inv (drawn : List (Arrival T)) (q : Queue T) : Type ℓ where
    pub counted : (c : String) → held_for q.per_camera c ≡ count (on_camera c) q.entries
    pub global_bounded : length q.entries ≤ q.max_global_pending
    pub camera_bounded : (c : String) → held_for q.per_camera c ≤ q.max_per_camera
    pub fresh : All (λ e. e.ticket < q.next_ticket) q.entries
    pub drawn_fresh : All (λ a. a.ticket < q.next_ticket) drawn
    pub unique : (t : ℕ) → count (has_ticket t) q.entries + count (holds_ticket t) drawn ≤ 1

  count_fresh :
      (n : ℕ) (es : List (QueueEntry T)) → All (λ e. e.ticket < n) es → count (has_ticket n) es ≡ 0
  count_fresh n [] h = refl
  count_fresh n (e ∷ es) h = ground (arith, count_fresh n es)

  fresh_mono :
      (m n : ℕ) (es : List (QueueEntry T))
      → m ≤ n
      → All (λ e. e.ticket < m) es
      → All (λ e. e.ticket < n) es
  fresh_mono m n [] l h = tt
  fresh_mono m n (e ∷ es) l h = (omega arith, fresh_mono m n es l h.1)

  -- Taking one entry out lowers every count by what the entry weighs.
  count-take :
      (p : QueueEntry T → Bool) (i : ℕ) (es : List (QueueEntry T)) (e : QueueEntry T)
      → get_elem? es i ≡ some e
      → (if p e then 1 else 0) + count p (swap_remove i es) ≡ count p es
  count-take p i es e h = sum_of-swap_remove (λ x. if p x then 1 else 0) es i e h

  take_entry-Inv :
      (drawn : List (Arrival T)) (i : ℕ) (q : Queue T) → Inv drawn q → Inv drawn (take_entry i q)
  unfolding take_entry
  take_entry-Inv drawn i q v = elim (Option-cases (get_elem? q.entries i)) [
    | inl e ↦ rw (e, take_entry) v
    | inr (e, h) ↦
        let count_after : (c : String)
            → held_for (decrement_camera_count q.per_camera e.camera_id) c
              ≡ count (on_camera c) (swap_remove i q.entries) =
          λ c. ground (
            arith,
            v.counted c,
            v.counted e.camera_id,
            eq_iff e.camera_id c,
            held_for-decrement q.per_camera e.camera_id c,
            count-take (on_camera c) i q.entries e h,
          ) in
        rw (h, take_entry)
          (record {
            counted = count_after;
            global_bounded = omega (arith, v.global_bounded, length-swap_remove q.entries i e h);
            camera_bounded = λ c. omega (
              arith,
              count_after c,
              v.counted c,
              v.camera_bounded c,
              count-take (on_camera c) i q.entries e h,
            );
            fresh = All-swap_remove _ q.entries i v.fresh;
            drawn_fresh = v.drawn_fresh;
            unique = λ t. omega (arith, v.unique t, count-take (has_ticket t) i q.entries e h);
          })
  ]

  push_entry-Inv :
      (drawn : List (Arrival T)) (q : Queue T) (e : QueueEntry T)
      → Inv drawn q
      → e.ticket < q.next_ticket
      → count (has_ticket e.ticket) q.entries + count (holds_ticket e.ticket) drawn ≡ 0
      → Inv drawn (push_entry q e).0
  unfolding push_entry
  push_entry-Inv drawn q e v low new_ticket =
      elim (Bool-cases (leb q.max_global_pending (length q.entries))) [
        | inl full ↦ rw (full, push_entry) v
        | inr room ↦ elim (Bool-cases (leb q.max_per_camera (held_for q.per_camera e.camera_id))) [
          | inl full ↦ rw (room, full, push_entry) v
          | inr free ↦
              rw (room, free, push_entry)
                (record {
                  counted = λ c. ground (
                    arith,
                    v.counted c,
                    v.counted e.camera_id,
                    eq_iff e.camera_id c,
                    held_for-insert q.per_camera e.camera_id c
                        (held_for q.per_camera e.camera_id + 1),
                    sum_of-append (λ x. if on_camera c x then 1 else 0) q.entries (e ∷ []),
                  );
                  global_bounded = ground (arith, room, length-append q.entries (e ∷ []));
                  camera_bounded = λ c. ground (
                    arith,
                    free,
                    v.camera_bounded c,
                    held_for-insert q.per_camera e.camera_id c
                        (held_for q.per_camera e.camera_id + 1),
                  );
                  fresh =
                      All-append (λ x. x.ticket < q.next_ticket) q.entries (e ∷ []) v.fresh
                        (low, tt);
                  drawn_fresh = v.drawn_fresh;
                  unique = λ t. ground (
                    arith,
                    v.unique t,
                    new_ticket,
                    sum_of-append (λ x. if has_ticket t x then 1 else 0) q.entries (e ∷ []),
                  );
                })
        ]
      ]

  pub new-Inv : (g c a : ℕ) {q : Queue T} → new g c a ≡ ok q → Inv [] q
  unfolding new held_for lookup
  new-Inv g c a h = ground arith

  drawn_count_fresh :
      (n : ℕ) (arrivals : List (Arrival T))
      → All (λ a. a.ticket < n) arrivals
      → count (holds_ticket n) arrivals ≡ 0
  drawn_count_fresh n [] h = refl
  drawn_count_fresh n (a ∷ arrivals) h = ground (arith, drawn_count_fresh n arrivals)

  drawn_fresh_mono :
      (m n : ℕ) (arrivals : List (Arrival T))
      → m ≤ n
      → All (λ a. a.ticket < m) arrivals
      → All (λ a. a.ticket < n) arrivals
  drawn_fresh_mono m n [] l h = tt
  drawn_fresh_mono m n (a ∷ arrivals) l h = (omega arith, drawn_fresh_mono m n arrivals l h.1)

  -- The next ticket is drawn, and is nobody else's.
  draw-Inv :
      (drawn : List (Arrival T)) (q : Queue T) (a : Arrival T)
      → a.ticket ≡ q.next_ticket
      → Inv drawn q
      → Inv (drawn ++ (a ∷ [])) (record q { next_ticket = q.next_ticket + 1 })
  draw-Inv drawn q a next v = record {
    counted = v.counted;
    global_bounded = v.global_bounded;
    camera_bounded = v.camera_bounded;
    fresh = fresh_mono q.next_ticket (q.next_ticket + 1) q.entries (omega arith) v.fresh;
    drawn_fresh =
        All-append (λ x. x.ticket < q.next_ticket + 1) drawn (a ∷ [])
          (drawn_fresh_mono q.next_ticket (q.next_ticket + 1) drawn (omega arith) v.drawn_fresh)
          (omega arith, tt);
    unique = λ t. ground (
      arith,
      v.unique t,
      count_fresh q.next_ticket q.entries v.fresh,
      drawn_count_fresh q.next_ticket drawn v.drawn_fresh,
      sum_of-append (λ x. if holds_ticket t x then 1 else 0) drawn (a ∷ []),
    );
  }

  -- The arrivals after a draw.
  abbrev pub with_arrival : List (Arrival T) → Result (Arrival T) → List (Arrival T)
  with_arrival drawn (err e) = drawn
  with_arrival drawn (ok a) = drawn ++ (a ∷ [])

  pub draw_ticket-Inv :
      (drawn : List (Arrival T)) (is_cancelled : ℕ → Bool) (now : ℕ) (in_runtime : Bool)
      (q : Queue T) (camera : String) (priority : CapturePriority) (deadline cancellation : ℕ)
      (payload : T)
      → Inv drawn q
      → let out =
          draw_ticket is_cancelled now in_runtime q camera priority deadline cancellation payload in
        Inv (with_arrival drawn out.1) out.0
  unfolding draw_ticket
  draw_ticket-Inv drawn is_cancelled now in_runtime q camera priority deadline cancellation payload
        v =
      ground (
        arith,
        draw-Inv drawn q
            (record {
              ticket = q.next_ticket;
              camera_id = camera;
              priority = priority;
              deadline = deadline;
              cancellation = cancellation;
              payload = payload;
            })
            refl v,
      )

  All-get :
      (n : ℕ) (arrivals : List (Arrival T)) (i : ℕ) (a : Arrival T)
      → All (λ x. x.ticket < n) arrivals
      → get_elem? arrivals i ≡ some a
      → a.ticket < n
  All-get n [] i a h e = cc
  All-get n (x ∷ xs) zero a h e = ground arith
  All-get n (x ∷ xs) (suc i) a h e = All-get n xs i a h.1 e

  -- An arrival takes its place in the queue, or is refused; either way its ticket is drawn no longer.
  pub push-Inv :
      (drawn : List (Arrival T)) (q : Queue T) (i : ℕ) (a : Arrival T) (now : ℕ)
      → get_elem? drawn i ≡ some a
      → Inv drawn q
      → Inv (swap_remove i drawn) (push_entry q (queued_at now a)).0
  unfolding queued_at
  push-Inv drawn q i a now here v =
      let taken : (t : ℕ)
          → (if holds_ticket t a then 1 else 0) + count (holds_ticket t) (swap_remove i drawn)
            ≡ count (holds_ticket t) drawn =
        λ t. sum_of-swap_remove (λ x. if holds_ticket t x then 1 else 0) drawn i a here in
      let rest : Inv (swap_remove i drawn) q = record {
        counted = v.counted;
        global_bounded = v.global_bounded;
        camera_bounded = v.camera_bounded;
        fresh = v.fresh;
        drawn_fresh = All-swap_remove _ drawn i v.drawn_fresh;
        unique = λ t. omega (arith, v.unique t, taken t);
      } in
      push_entry-Inv (swap_remove i drawn) q (queued_at now a) rest
        (All-get q.next_ticket drawn i a v.drawn_fresh here)
        (ground (arith, v.unique a.ticket, taken a.ticket))

  pub remove_ticket-Inv :
      (drawn : List (Arrival T)) (ticket : ℕ) (q : Queue T)
      → Inv drawn q
      → Inv drawn (remove_ticket ticket q).0
  unfolding remove_ticket
  remove_ticket-Inv drawn ticket q v = elim (Option-cases (position ticket q.entries)) [
    | inl e ↦ rw (e, remove_ticket) v
    | inr (i, e) ↦ rw (e, remove_ticket) (take_entry-Inv drawn i q v)
  ]

  sweep-Inv :
      (drawn : List (Arrival T)) (is_cancelled : ℕ → Bool) (now fuel index : ℕ)
      (discarded : List (QueueEntry T)) (q : Queue T)
      → Inv drawn q
      → Inv drawn (sweep is_cancelled now fuel index discarded q).0
  unfolding sweep
  sweep-Inv drawn is_cancelled now zero index discarded q v = v
  sweep-Inv drawn is_cancelled now (suc fuel) index discarded q v =
      elim (Option-cases (get_elem? q.entries index)) [
        | inl e ↦ rw (e, sweep) v
        | inr (e, h) ↦ elim (Bool-cases (is_dead is_cancelled now e)) [
          | inl dead ↦
              rw (h, dead, sweep)
                (sweep-Inv drawn is_cancelled now fuel index (discarded ++ (e ∷ []))
                  (take_entry index q) (take_entry-Inv drawn index q v))
          | inr live ↦
              rw (h, live, sweep) (sweep-Inv drawn is_cancelled now fuel (suc index) discarded q v)
        ]
      ]

  pub pop_best_admissible-Inv :
      (drawn : List (Arrival T)) (is_cancelled : ℕ → Bool) (admissible : String → Bool) (now : ℕ)
      (q : Queue T)
      → Inv drawn q
      → Inv drawn (pop_best_admissible is_cancelled admissible now q).0
  unfolding pop_best_admissible select_best swept
  pop_best_admissible-Inv drawn is_cancelled admissible now q v =
      let live = (swept is_cancelled now q).0 in
      let live_Inv = sweep-Inv drawn is_cancelled now (length q.entries) 0 [] q v in
      elim (Option-cases (best_from admissible now live.aging_interval none 0 live.entries)) [
        | inl e ↦ rw (e, select_best) live_Inv
        | inr ((i, b), e) ↦ rw (e, select_best) (take_entry-Inv drawn i live live_Inv)
      ]
