-- ===== src/Admission/Lanes/Safety.antt =====
-- Safety stops among the pushes on the control lanes of src/admission.rs.
use mathlib.Core.List.{append-nil, append_assoc}
use camera_adapter.Base.{
  ◌≤◌, ◌≡◌, ◌⊎◌, true, ◌||◌, ◌&&◌, not, Option-cases, Bool-cases, inl, inr, sym, ◌∙◌, if◌then◌else◌,
  leb, ap, List, [], ◌∷◌, ◌++◌, some, length, arith, length-append,
}
use camera_adapter.Error.{ok}
use camera_adapter.Admission.Lanes.{
  SafetyStop, merge, safety, ControlLanes, try_push_ordinary, push_safety_stop, pop_next,
}

-- `t` stops every axis of `s`, no later.
pub record Covers (t s : SafetyStop) : Type 0 where
  pub pan : (t.pan || s.pan) ≡ t.pan
  pub tilt : (t.tilt || s.tilt) ≡ t.tilt
  pub zoom : (t.zoom || s.zoom) ≡ t.zoom
  pub deadline : t.deadline ≤ s.deadline

abbrev pub SelectsAxis : SafetyStop → Type 0
SelectsAxis s = (s.pan ≡ true) ⊎ ((s.tilt ≡ true) ⊎ (s.zoom ≡ true))

Covers-self : (s : SafetyStop) → Covers s s
Covers-self s = ground arith

merge-Covers_left : (t r s : SafetyStop) → Covers t s → Covers (merge t r) s
unfolding merge
merge-Covers_left t r s c = ground arith

merge-Covers_right : (t s : SafetyStop) → Covers (merge t s) s
unfolding merge
merge-Covers_right t s = ground arith

-- What other tasks may do before the actor polls the lane.
pub data Push {ℓ} (T : Type ℓ) : Type ℓ where
  operation : T → Push T
  stop : SafetyStop → Push T

module _ {ℓ} {T : Type ℓ} where
  unfoldable pub push : ControlLanes T → Push T → ControlLanes T
  push lanes (operation t) = (try_push_ordinary lanes t).0
  push lanes (stop s) = (push_safety_stop lanes s).0

  pub push_all : ControlLanes T → List (Push T) → ControlLanes T
  push_all lanes [] = lanes
  push_all lanes (p ∷ ps) = push_all (push lanes p) ps

  abbrev Holds : SafetyStop → ControlLanes T → Type 0
  Holds s lanes = (t : SafetyStop) × (lanes.safety_stop ≡ some t) × Covers t s

  push_safety_stop-Holds :
      (lanes : ControlLanes T) (s : SafetyStop)
      → SelectsAxis s
      → ((push_safety_stop lanes s).1 ≡ ok tt) × Holds s (push_safety_stop lanes s).0
  unfolding push_safety_stop
  push_safety_stop-Holds lanes s axis = elim (Option-cases lanes.safety_stop) [
    | inl e ↦ (ground arith, (s, ground (arith, e), Covers-self s))
    | inr (t, e) ↦ (ground arith, (merge t s, ground (arith, e), merge-Covers_right t s))
  ]

  push-Holds :
      (s : SafetyStop) (lanes : ControlLanes T) (p : Push T)
      → Holds s lanes
      → Holds s (push lanes p)
  unfolding push try_push_ordinary push_safety_stop
  push-Holds s lanes (operation t) (held, is_held, covers) = (held, ground arith, covers)
  push-Holds s lanes (stop r) (held, is_held, covers) =
      elim (Bool-cases (not r.pan && (not r.tilt && not r.zoom))) [
        | inl no_axis ↦ (held, ground (arith, no_axis), covers)
        | inr axis ↦ (merge held r, ground (arith, axis), merge-Covers_left held r s covers)
      ]

  push_all-Holds :
      (s : SafetyStop) (lanes : ControlLanes T) (ps : List (Push T))
      → Holds s lanes
      → Holds s (push_all lanes ps)
  unfolding push_all
  push_all-Holds s lanes [] h = h
  push_all-Holds s lanes (p ∷ ps) h = push_all-Holds s (push lanes p) ps (push-Holds s lanes p h)

  -- A safety stop that selects an axis is accepted in any state of the lanes, full or not. Whatever
  -- else is pushed before the next poll, that poll returns a safety stop that covers it: the same
  -- axes or more, no later.
  pub safety_served_first :
      (lanes : ControlLanes T) (s : SafetyStop) (later : List (Push T))
      → SelectsAxis s
      → ((push_safety_stop lanes s).1 ≡ ok tt)
        × ((t : SafetyStop) × ((pop_next (push_all (push_safety_stop lanes s).0 later)).1
              ≡ some (safety t))
            × Covers t s)
  unfolding pop_next
  safety_served_first lanes s later axis =
      let (accepted, holds) = push_safety_stop-Holds lanes s axis in
      let (t, held, covers) = push_all-Holds s (push_safety_stop lanes s).0 later holds in
      (accepted, (t, rw (held, pop_next), covers))

  -- The ordinary operations that a history accepts, oldest first.
  unfoldable pub accepted : ControlLanes T → List (Push T) → List T
  accepted lanes [] = []
  accepted lanes (operation t ∷ ps) =
      (if leb lanes.ordinary_capacity (length lanes.operations) then [] else t ∷ [])
      ++ accepted (push lanes (operation t)) ps
  accepted lanes (stop s ∷ ps) = accepted (push lanes (stop s)) ps

  -- Room for the ordinary operations.
  abbrev pub Fits : ControlLanes T → Type 0
  Fits lanes = length lanes.operations ≤ lanes.ordinary_capacity

  push_operation :
      (lanes : ControlLanes T) (t : T)
      → Fits lanes
      → ((push lanes (operation t)).operations
          ≡ lanes.operations
            ++ (if leb lanes.ordinary_capacity (length lanes.operations) then [] else t ∷ []))
        × Fits (push lanes (operation t))
        × ((push lanes (operation t)).ordinary_capacity ≡ lanes.ordinary_capacity)
  unfolding push try_push_ordinary
  push_operation lanes t room =
      elim (Bool-cases (leb lanes.ordinary_capacity (length lanes.operations))) [
        | inl full ↦ (
          rw (full, push) (sym (append-nil lanes.operations)),
          rw (full, push) room,
          rw (full, push),
        )
        | inr free ↦ (
          rw (free, push),
          rw (free, push) (ground (arith, free, length-append lanes.operations (t ∷ []))),
          rw (free, push),
        )
      ]

  push-stop :
      (lanes : ControlLanes T) (s : SafetyStop)
      → ((push lanes (stop s)).operations ≡ lanes.operations)
        × ((push lanes (stop s)).ordinary_capacity ≡ lanes.ordinary_capacity)
  unfolding push push_safety_stop
  push-stop lanes s = ground arith

  -- Within the capacity, the lane holds exactly the operations that it accepted, in their order, and
  -- it accepts one exactly while it has room: safety stops take none of it.
  pub push_all-operations :
      (lanes : ControlLanes T) (ps : List (Push T))
      → Fits lanes
      → ((push_all lanes ps).operations ≡ lanes.operations ++ accepted lanes ps)
        × Fits (push_all lanes ps)
  unfolding push_all accepted
  push_all-operations lanes [] room = (sym (append-nil _), room)
  push_all-operations lanes (operation t ∷ ps) room =
      let (held, fits, _) = push_operation lanes t room in
      let (all, fits_all) = push_all-operations (push lanes (operation t)) ps fits in
      (
        all
            ∙ (ap (λ xs. xs ++ accepted (push lanes (operation t)) ps) held
                ∙ append_assoc lanes.operations
                    (if leb lanes.ordinary_capacity (length lanes.operations) then [] else t ∷ [])
                    (accepted (push lanes (operation t)) ps)),
        fits_all,
      )
  push_all-operations lanes (stop s ∷ ps) room =
      let (held, capacity) = push-stop lanes s in
      let (all, fits_all) =
        push_all-operations (push lanes (stop s)) ps (rw (held, capacity) room) in
      (all ∙ ap (λ xs. xs ++ accepted (push lanes (stop s)) ps) held, fits_all)
