-- ===== src/Dispatch/Tests.antt =====
-- The fleet slots of src/dispatch.rs at concrete inputs.
use camera_adapter.Base.{List, [], ◌∷◌, arith}
use camera_adapter.Dispatch.Guards.{Event, reserves, drops, run, Counted}
use camera_adapter.Dispatch.Slots.{empty_slots, run-empty-Counted}

abbrev events : List Event
events =
    reserves "cam"
    ∷ reserves "cam"
    ∷ reserves "other"
    ∷ drops 0
    ∷ reserves "other"
    ∷ drops 0
    ∷ drops 1
    ∷ []

run-empty-Counted_example : Counted (run (record { slots = empty_slots 2 1; guards = [] }) events)
run-empty-Counted_example = run-empty-Counted 2 1 events (omega arith)
