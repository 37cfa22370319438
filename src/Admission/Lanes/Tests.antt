-- ===== src/Admission/Lanes/Tests.antt =====
-- Concrete runs of the control lanes of src/admission.rs.
use camera_adapter.Base.{ℕ, ◌≡◌, refl, inl, true, false, List, [], ◌∷◌, none, some}
use camera_adapter.Admission.Lanes.{SafetyStop, safety, ControlLanes, push_safety_stop, pop_next}
use camera_adapter.Admission.Lanes.Safety.{
  Covers, Push, operation, stop, push_all, safety_served_first,
}

abbrev full : ControlLanes ℕ
full = record { safety_stop = none; operations = 1 ∷ 2 ∷ []; ordinary_capacity = 2 }

abbrev stop_pan : SafetyStop
stop_pan = record { pan = true; tilt = false; zoom = false; deadline = 50 }

abbrev stop_zoom : SafetyStop
stop_zoom = record { pan = false; tilt = false; zoom = true; deadline = 90 }

abbrev pushes : List (Push ℕ)
pushes = operation 3 ∷ stop stop_zoom ∷ []

safety_served_first_example :
    (t : SafetyStop) × ((pop_next (push_all (push_safety_stop full stop_pan).0 pushes)).1
      ≡ some (safety t))
    × Covers t stop_pan
safety_served_first_example = (safety_served_first full stop_pan pushes (inl refl)).1
