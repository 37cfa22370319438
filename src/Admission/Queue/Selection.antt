-- ===== src/Admission/Queue/Selection.antt =====
-- The selection of src/admission.rs among the live entries.
use camera_adapter.Base.{
  ℕ, suc, ◌+◌, ◌≤◌, String, ◌≡◌, ap, ◌∙◌, subst, ◌⊎◌, inl, inr, Bool, true, false, List, [], ◌∷◌,
  Option, none, some, get_elem?, arith, All, Option-cases, Bool-cases,
}
use camera_adapter.Admission.Queue.{
  QueueEntry, Queue, take_entry, effective_score, outranks, consider, best_from, select_best,
}

module _ {ℓ} {T : Type ℓ} (admissible : String → Bool) (now interval : ℕ) where
  -- `e` is served before `f`: no lower score, and at equal scores no later ticket.
  abbrev pub Precedes : QueueEntry T → QueueEntry T → Type 0
  Precedes e f =
      (effective_score now interval f ≤ effective_score now interval e)
      × (effective_score now interval f ≡ effective_score now interval e → e.ticket ≤ f.ticket)

  abbrev pub CanServe : QueueEntry T → Type 0
  CanServe e = admissible e.camera_id ≡ true

  abbrev pub BestOf : QueueEntry T → QueueEntry T → Type 0
  BestOf b f = CanServe f → Precedes b f

  outranks-true : (e f : QueueEntry T) → outranks now interval e f ≡ true → Precedes e f
  unfolding outranks
  outranks-true e f h = ground arith

  outranks-false : (e f : QueueEntry T) → outranks now interval e f ≡ false → Precedes f e
  unfolding outranks
  outranks-false e f h = ground arith

  Precedes-trans : (e f g : QueueEntry T) → Precedes e f → Precedes f g → Precedes e g
  Precedes-trans e f g h k = ground arith

  consider-keeps :
      (best : Option (ℕ × QueueEntry T)) (index : ℕ) (e : QueueEntry T) (i : ℕ) (b : QueueEntry T)
      → best ≡ some (i, b)
      → (c : ℕ × QueueEntry T) × (consider admissible now interval best index e ≡ some c)
        × Precedes c.1 b
  unfolding consider
  consider-keeps best index e i b h = elim (Bool-cases (admissible e.camera_id)) [
    | inr skip ↦ ((i, b), rw (skip, consider) h, omega arith)
    | inl serve ↦ elim (Bool-cases (outranks now interval b e)) [
      | inl first ↦ ((i, b), rw (serve, h, consider) (rw first), omega arith)
      | inr second ↦ ((index, e), rw (serve, h, consider) (rw second), outranks-false b e second)
    ]
  ]

  consider-covers :
      (best : Option (ℕ × QueueEntry T)) (index : ℕ) (e : QueueEntry T)
      → CanServe e
      → (c : ℕ × QueueEntry T) × (consider admissible now interval best index e ≡ some c)
        × Precedes c.1 e
  unfolding consider
  consider-covers none index e serve = ((index, e), rw serve, omega arith)
  consider-covers (some (i, b)) index e serve = elim (Bool-cases (outranks now interval b e)) [
    | inl first ↦ ((i, b), rw (serve, first), outranks-true b e first)
    | inr second ↦ ((index, e), rw (serve, second), omega arith)
  ]

  consider-from :
      (best : Option (ℕ × QueueEntry T)) (index : ℕ) (e : QueueEntry T) (i : ℕ) (b : QueueEntry T)
      → consider admissible now interval best index e ≡ some (i, b)
      → (best ≡ some (i, b)) ⊎ ((i ≡ index) × (e ≡ b) × CanServe e)
  unfolding consider
  consider-from best index e i b h = ground arith

  -- What is known of the result: it precedes every entry seen, and it is the best so far or an
  -- admissible entry of the list.
  record Chosen (best : Option (ℕ × QueueEntry T)) (index : ℕ) (es : List (QueueEntry T)) (i : ℕ)
      (b : QueueEntry T) : Type ℓ where
    precedes : All (BestOf b) es
    precedes_best : (c : ℕ × QueueEntry T) → best ≡ some c → Precedes b c.1
    place :
        (best ≡ some (i, b)) ⊎ ((k : ℕ) × (i ≡ index + k) × (get_elem? es k ≡ some b) × CanServe b)

  best_from-Chosen :
      (best : Option (ℕ × QueueEntry T)) (index : ℕ) (es : List (QueueEntry T)) (i : ℕ)
      (b : QueueEntry T)
      → best_from admissible now interval best index es ≡ some (i, b)
      → Chosen best index es i b
  unfolding best_from
  best_from-Chosen best index [] i b h = record {
    precedes = tt;
    precedes_best = λ c e. ground arith;
    place = inl h;
  }
  best_from-Chosen best index (e ∷ es) i b h =
      let r =
        best_from-Chosen (consider admissible now interval best index e) (suc index) es i b h in
      record {
        precedes = (
          λ serve.
              let (c, is_best, before) = consider-covers best index e serve in
              Precedes-trans b c.1 e (r.precedes_best c is_best) before,
          r.precedes,
        );
        precedes_best = λ c is_best.
            let (d, still, before) = consider-keeps best index e c.0 c.1 is_best in
            Precedes-trans b d.1 c.1 (r.precedes_best d still) before;
        place = elim r.place [
          | inl now_best ↦ elim (consider-from best index e i b now_best) [
            | inl old ↦ inl old
            | inr (at, same, serve) ↦ inr (0, omega arith, ap some same, subst CanServe same serve)
          ]
          | inr (k, at, found, serve) ↦ inr (suc k, omega arith, found, serve)
        ];
      }

  consider-none :
      (best : Option (ℕ × QueueEntry T)) (index : ℕ) (e : QueueEntry T)
      → consider admissible now interval best index e ≡ none
      → (best ≡ none) × (admissible e.camera_id ≡ false)
  unfolding consider
  consider-none best index e h = ground arith

  best_from-none :
      (best : Option (ℕ × QueueEntry T)) (index : ℕ) (es : List (QueueEntry T))
      → best_from admissible now interval best index es ≡ none
      → (best ≡ none) × All (λ e. admissible e.camera_id ≡ false) es
  unfolding best_from
  best_from-none best index [] h = (h, tt)
  best_from-none best index (e ∷ es) h =
      let (first, rest) =
        best_from-none (consider admissible now interval best index e) (suc index) es h in
      let none_before = consider-none best index e first in (none_before.0, (none_before.1, rest))

module _ {ℓ} {T : Type ℓ} (admissible : String → Bool) (now : ℕ) where
  pub select_best-some :
      (q : Queue T) (e : QueueEntry T)
      → (select_best admissible now q).1 ≡ some e
      → (i : ℕ) × (get_elem? q.entries i ≡ some e)
        × ((select_best admissible now q).0 ≡ take_entry i q)
        × (admissible e.camera_id ≡ true)
        × All (BestOf admissible now q.aging_interval e) q.entries
  unfolding select_best
  select_best-some q e h =
      elim (Option-cases (best_from admissible now q.aging_interval none 0 q.entries)) [
        | inl missing ↦ absurd (ground (arith, missing))
        | inr ((i, b), found) ↦
            let same : b ≡ e = ground (arith, found) in
            let c =
              best_from-Chosen admissible now q.aging_interval none 0 q.entries i e
                (found ∙ ap (λ x. some (i, x)) same) in
            elim c.place [
              | inl impossible ↦ cc
              | inr (k, at, there, serve) ↦ (k, there, ground (arith, found), serve, c.precedes)
            ]
      ]

  pub select_best-none :
      (q : Queue T)
      → (select_best admissible now q).1 ≡ none
      → All (λ e. admissible e.camera_id ≡ false) q.entries
  unfolding select_best
  select_best-none q h =
      elim (Option-cases (best_from admissible now q.aging_interval none 0 q.entries)) [
        | inl missing ↦ (best_from-none admissible now q.aging_interval none 0 q.entries missing).1
        | inr ((i, b), found) ↦ absurd (ground (arith, found))
      ]
