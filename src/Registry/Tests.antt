-- ===== src/Registry/Tests.antt =====
-- Registry at concrete cameras: a gate and a dock, then a reload that moves the gate and drops the dock.
use camera_adapter.Base.{ℕ, ◌≡◌, refl, true, false, none, List, [], ◌∷◌, ◌==◌, arith}
use camera_adapter.Base.Map.{lookup, insert, remove}
use camera_adapter.Base.Vec.{swap_remove}
use camera_adapter.Error.{ok}
use camera_adapter.Registry.{
  connecting, Backends, CameraConfig, RegistryEntry, RegistryDiff, Entries, Observation,
  initial_snapshot, load, new, update, check_update, observed,
}
use camera_adapter.Registry.Reload.{
  incoming_of, missing_keys, replaced, apply_cameras, remove_all, apply_validated_config,
}
use camera_adapter.Registry.Updates.{
  IsTidy, Call, act, run, checks, publishes, reloads, run-new-IsTidy,
}
use camera_adapter.Registry.Roster.{
  find_camera, reloaded, lookup-apply_validated_config, update-apply_validated_config,
}

abbrev backends : Backends ℕ ℕ ℕ
backends = record {
  kind = λ backend. backend;
  same_backend = λ a b. a == b;
  capability_digest = λ capabilities. ok "digest";
}

abbrev gate : CameraConfig ℕ
gate = record { id = "gate"; enabled = true; backend = 1 }

abbrev moved_gate : CameraConfig ℕ
moved_gate = record { id = "gate"; enabled = true; backend = 2 }

abbrev disabled_gate : CameraConfig ℕ
disabled_gate = record { id = "gate"; enabled = false; backend = 1 }

abbrev dock : CameraConfig ℕ
dock = record { id = "dock"; enabled = true; backend = 1 }

abbrev started : CameraConfig ℕ → RegistryEntry ℕ ℕ ℕ
started camera = record { config = camera; snapshot = initial_snapshot backends 5 camera }

abbrev roster : Entries backends
roster = ("gate", started gate) ∷ ("dock", started dock) ∷ []

abbrev seen : Observation backends
seen = record {
  generation = 0;
  state = connecting;
  capabilities = none;
  last_error = none;
  observed_at = 6;
}

abbrev moved : Entries backends
moved = ("gate", replaced backends 7 (started gate) moved_gate) ∷ []

abbrev moved_diff : RegistryDiff
moved_diff = record {
  added = [];
  removed = "dock" ∷ [];
  lifecycle_changed = "gate" ∷ [];
  updated = [];
}

roster-moves : apply_validated_config backends 7 (moved_gate ∷ []) roster ≡ (moved, ok moved_diff)
unfolding apply_validated_config incoming_of missing_keys apply_cameras remove_all lookup insert
    remove replaced
roster-moves = refl

-- Two updates that pass their checks together, a reload that has to wait for them, and one that does not.
abbrev switch_off : List (Call backends)
switch_off =
    checks "gate" seen
    ∷ checks "gate" seen
    ∷ publishes 0
    ∷ reloads 7 (disabled_gate ∷ [])
    ∷ publishes 0
    ∷ reloads 7 (disabled_gate ∷ [])
    ∷ checks "gate" seen
    ∷ []

run-new-IsTidy_example : IsTidy (
    replaced backends 7
      (record { config = gate; snapshot = observed backends "gate" (started gate) seen none })
      disabled_gate)
unfolding new load lookup insert initial_snapshot run act swap_remove check_update
    apply_validated_config incoming_of missing_keys apply_cameras remove_all remove replaced
run-new-IsTidy_example =
    run-new-IsTidy backends 5 (gate ∷ dock ∷ []) roster switch_off "gate" _ refl refl

lookup-apply_validated_config_example :
    lookup "gate" moved
    ≡ reloaded backends 7 (lookup "gate" roster) (find_camera backends "gate" (moved_gate ∷ []))
lookup-apply_validated_config_example =
    lookup-apply_validated_config backends 7 (moved_gate ∷ []) roster moved moved_diff "gate"
      roster-moves

update-apply_validated_config_example : update backends "gate" seen moved ≡ (moved, ok false)
unfolding lookup find_camera initial_snapshot
update-apply_validated_config_example =
    update-apply_validated_config backends 7 (moved_gate ∷ []) roster moved moved_diff "gate"
      (started gate) moved_gate seen roster-moves refl refl refl (omega arith) (omega arith)
