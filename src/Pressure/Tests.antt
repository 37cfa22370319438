-- ===== src/Pressure/Tests.antt =====
-- Storage pressure at concrete disks: one with nine percent free, one unreadable, and one with room.
use camera_adapter.Base.{◌+◌, ◌≡◌, refl, ◌↔◌, true, false, none, some, [], ◌∷◌, ◌++◌, arith}
use camera_adapter.Error.{storage, ok, err}
use camera_adapter.Admission.Budget.{DiskSpace, Controller, Observation, poll_disk}
use camera_adapter.Pressure.{
  StoragePressureSnapshot, rejects_new_captures, alarm_root, StoragePressureMonitor, assess_space,
  assess, raise, clear, alarm_context, transition_alarm,
}
use camera_adapter.Pressure.Agreement.{written, assess_space-poll_disk}
use camera_adapter.Pressure.Alarm.{
  listened, alarms, Effective, IsWorst, alarms-alarm_context, alarm_root-IsWorst,
}

abbrev nine_percent : DiskSpace
nine_percent = record { available_bytes = 99; total_bytes = 1000 }

abbrev roomy : DiskSpace
roomy = record { available_bytes = 500; total_bytes = 1000 }

abbrev monitor : StoragePressureMonitor
monitor = record {
  output_root = "/images";
  state_root = "/state";
  minimum_free_bytes = 50;
  minimum_free_percent = 10;
}

abbrev controller : Controller
controller = record {
  global_acquisitions = 1;
  resource_groups = [];
  memory_capacity = 100;
  memory_available = 100;
  minimum_free_bytes = 50;
  minimum_free_percent = 10;
  disk_outstanding = 0;
}

abbrev calm : StoragePressureSnapshot
calm = assess monitor (λ root. ok roomy) λ root. ok roomy

abbrev full : StoragePressureSnapshot
full = assess monitor (λ root. ok nine_percent) λ root. ok roomy

abbrev broken : StoragePressureSnapshot
broken = assess monitor (λ root. ok nine_percent) λ root. err (storage "unreadable")

full-rejects_new_captures : rejects_new_captures full ≡ true
unfolding assess assess_space
full-rejects_new_captures = refl

calm-rejects_new_captures : rejects_new_captures calm ≡ false
unfolding assess assess_space
calm-rejects_new_captures = refl

-- A disk that fills up, a state root that breaks, the same again, and the end of both.
notices :
    alarms none (full ∷ broken ∷ broken ∷ calm ∷ [])
    ≡ raise (record { root = "/images"; free_bytes = some 99; free_percent = some 9 })
      ∷ raise (record { root = "/state"; free_bytes = none; free_percent = none })
      ∷ clear (record { root = "/state"; free_bytes = none; free_percent = none })
      ∷ []
unfolding alarms transition_alarm alarm_root assess assess_space
notices = refl

abbrev seen : Observation
seen = record { now = 1; cancelled = false; probe = some (ok roomy) }

assess_space-poll_disk_example :
    ((assess_space "/images"
        (written (controller.disk_outstanding + 399) roomy)
        controller.minimum_free_bytes
        controller.minimum_free_percent).pressured
      ≡ false)
    ↔ (poll_disk controller true 399 9 seen ≡ some (ok (controller.disk_outstanding + 399)))
assess_space-poll_disk_example =
    assess_space-poll_disk "/images" controller roomy true 399 9 seen (omega arith) (omega arith)
      (omega arith) (omega arith) (omega arith) (omega arith) refl refl (omega arith)

alarms-alarm_context_example :
    (listened none (alarms none ((full ∷ broken ∷ []) ++ (calm ∷ []))) ≡ alarm_context calm)
    × Effective none (alarms none ((full ∷ broken ∷ []) ++ (calm ∷ [])))
alarms-alarm_context_example = alarms-alarm_context none (full ∷ broken ∷ []) calm

alarm_root-IsWorst_example : IsWorst broken (alarm_root broken)
alarm_root-IsWorst_example = alarm_root-IsWorst broken
