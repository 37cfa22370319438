-- ===== src/Admission/Queue/Sweep.antt =====
-- The sweep of src/admission.rs, which splits the entries into dead and live ones.
use mathlib.Core.List.{append_assoc}
use mathlib.Core.List.Perm
use camera_adapter.Base.{
  ℕ, zero, suc, ◌+◌, ◌≤◌, ◌≡◌, refl, ◌∙◌, inl, inr, Bool, true, false, List, [], ◌∷◌, ◌++◌, some,
  Perm, length, get_elem?, arith, All, All-append, take, All-take-suc, All-take-All, get_elem?-none,
  Option-cases, Bool-cases,
}
use camera_adapter.Base.Vec.{swap_remove, swap_remove-perm, take-swap_remove, length-swap_remove}
use camera_adapter.Admission.Queue.{QueueEntry, Queue, take_entry, is_dead, sweep, swept}

module _ {ℓ} {T : Type ℓ} (is_cancelled : ℕ → Bool) (now : ℕ) where
  abbrev pub IsDead : QueueEntry T → Type 0
  IsDead e = is_dead is_cancelled now e ≡ true

  abbrev pub IsLive : QueueEntry T → Type 0
  IsLive e = is_dead is_cancelled now e ≡ false

  -- What one sweep leaves and what it discards.
  pub record Split (before : List (QueueEntry T)) (live dead : List (QueueEntry T)) : Type ℓ where
    pub same : Perm before (dead ++ live)
    pub all_dead : All IsDead dead
    pub all_live : All IsLive live

  pub take_entry-entries :
      (i : ℕ) (q : Queue T) (e : QueueEntry T)
      → get_elem? q.entries i ≡ some e
      → (take_entry i q).entries ≡ swap_remove i q.entries
  unfolding take_entry
  take_entry-entries i q e h = rw (h, take_entry)

  moved :
      (i : ℕ) (discarded : List (QueueEntry T)) (q : Queue T) (e : QueueEntry T)
      → get_elem? q.entries i ≡ some e
      → Perm (discarded ++ q.entries) ((discarded ++ (e ∷ [])) ++ (take_entry i q).entries)
  moved i discarded q e h =
      rw (take_entry-entries i q e h, append_assoc)
        (Perm.append (Perm.refl discarded) (swap_remove-perm q.entries i e h))

  sweep-perm :
      (fuel index : ℕ) (discarded : List (QueueEntry T)) (q : Queue T)
      → Perm (discarded ++ q.entries) (
          (sweep is_cancelled now fuel index discarded q).1
          ++ (sweep is_cancelled now fuel index discarded q).0.entries)
  unfolding sweep
  sweep-perm zero index discarded q = Perm.refl _
  sweep-perm (suc fuel) index discarded q = elim (Option-cases (get_elem? q.entries index)) [
    | inl e ↦ rw (e, sweep) (Perm.refl _)
    | inr (e, h) ↦ elim (Bool-cases (is_dead is_cancelled now e)) [
      | inr live ↦ rw (h, live, sweep) (sweep-perm fuel (suc index) discarded q)
      | inl dead ↦
          rw (h, dead, sweep)
            (Perm.trans (moved index discarded q e h)
              (sweep-perm fuel index (discarded ++ (e ∷ [])) (take_entry index q)))
    ]
  ]

  sweep-IsDead :
      (fuel index : ℕ) (discarded : List (QueueEntry T)) (q : Queue T)
      → All IsDead discarded
      → All IsDead (sweep is_cancelled now fuel index discarded q).1
  unfolding sweep
  sweep-IsDead zero index discarded q h = h
  sweep-IsDead (suc fuel) index discarded q d = elim (Option-cases (get_elem? q.entries index)) [
    | inl e ↦ rw (e, sweep) d
    | inr (e, h) ↦ elim (Bool-cases (is_dead is_cancelled now e)) [
      | inr live ↦ rw (h, live, sweep) (sweep-IsDead fuel (suc index) discarded q d)
      | inl dead ↦
          rw (h, dead, sweep)
            (sweep-IsDead fuel index (discarded ++ (e ∷ [])) (take_entry index q)
              (All-append IsDead discarded (e ∷ []) d (dead, tt)))
    ]
  ]

  fewer :
      (i : ℕ) (q : Queue T) (e : QueueEntry T) {n : ℕ}
      → get_elem? q.entries i ≡ some e
      → length q.entries ≤ suc n
      → length (take_entry i q).entries ≤ n
  fewer i q e h l =
      rw (take_entry-entries i q e h) (omega (arith, length-swap_remove q.entries i e h))

  settled :
      (i : ℕ) (q : Queue T) (e : QueueEntry T)
      → get_elem? q.entries i ≡ some e
      → All IsLive (take i q.entries)
      → All IsLive (take i (take_entry i q).entries)
  settled i q e at h = rw (take_entry-entries i q e at, take-swap_remove q.entries i) h

  sweep-IsLive :
      (fuel index : ℕ) (discarded : List (QueueEntry T)) (q : Queue T)
      → length q.entries ≤ fuel + index
      → All IsLive (take index q.entries)
      → All IsLive (sweep is_cancelled now fuel index discarded q).0.entries
  unfolding sweep
  sweep-IsLive zero index discarded q l h = All-take-All IsLive index q.entries (omega arith) h
  sweep-IsLive (suc fuel) index discarded q l h = elim (Option-cases (get_elem? q.entries index)) [
    | inl e ↦
        rw (e, sweep) (All-take-All IsLive index q.entries (get_elem?-none q.entries index e) h)
    | inr (e, at) ↦ elim (Bool-cases (is_dead is_cancelled now e)) [
      | inr live ↦
          rw (at, live, sweep)
            (sweep-IsLive fuel (suc index) discarded q (omega arith)
              (All-take-suc IsLive index q.entries e h at live))
      | inl dead ↦
          rw (at, dead, sweep)
            (sweep-IsLive fuel index (discarded ++ (e ∷ [])) (take_entry index q)
              (fewer index q e at (omega arith)) (settled index q e at h))
    ]
  ]

  take_entry-interval : (i : ℕ) (q : Queue T) → (take_entry i q).aging_interval ≡ q.aging_interval
  unfolding take_entry
  take_entry-interval i q = ground arith

  sweep-interval :
      (fuel index : ℕ) (discarded : List (QueueEntry T)) (q : Queue T)
      → (sweep is_cancelled now fuel index discarded q).0.aging_interval ≡ q.aging_interval
  unfolding sweep
  sweep-interval zero index discarded q = refl
  sweep-interval (suc fuel) index discarded q = elim (Option-cases (get_elem? q.entries index)) [
    | inl e ↦ rw (e, sweep)
    | inr (e, at) ↦ elim (Bool-cases (is_dead is_cancelled now e)) [
      | inr live ↦ rw (at, live, sweep) (sweep-interval fuel (suc index) discarded q)
      | inl dead ↦
          rw (at, dead, sweep)
            (sweep-interval fuel index (discarded ++ (e ∷ [])) (take_entry index q)
              ∙ take_entry-interval index q)
    ]
  ]

  pub swept-interval :
      (q : Queue T) → (swept is_cancelled now q).0.aging_interval ≡ q.aging_interval
  unfolding swept
  swept-interval q = sweep-interval (length q.entries) 0 [] q

  -- The entries are split, with nothing lost or made up, into live entries, which stay, and dead
  -- ones, which are discarded.
  pub swept-Split :
      (q : Queue T)
      → Split q.entries (swept is_cancelled now q).0.entries (swept is_cancelled now q).1
  unfolding swept
  swept-Split q = record {
    same = sweep-perm (length q.entries) 0 [] q;
    all_dead = sweep-IsDead (length q.entries) 0 [] q tt;
    all_live = sweep-IsLive (length q.entries) 0 [] q (omega arith) tt;
  }
