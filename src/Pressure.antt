-- ===== src/Pressure.antt =====
-- src/storage_pressure.rs: the assessment of the output and state filesystems, and the storage alarm of
-- src/runtime.rs that follows it. The configured roots are
-- canonical, and a path is its text; the probe of a filesystem is an argument.
mod Percent
pub mod Agreement
pub mod Alarm
mod Tests
use camera_adapter.Base.{
  ℕ, ◌*◌, ◌/◌, String, Bool, true, false, not, ◌&&◌, ◌||◌, Option, none, some, ltb, leb, ◌==◌,
  if◌then◌else◌, str_eq,
}
use camera_adapter.Error.{Result, ok, err}
use camera_adapter.Admission.Budget.{DiskSpace}

pub record RootPressure : Type 0 where
  pub root : String
  pub free_bytes : Option ℕ
  pub free_percent : Option ℕ
  pub pressured : Bool
  pub readable : Bool

abbrev pub unavailable : RootPressure → Bool
unavailable r = not r.readable || r.pressured

pub record StoragePressureSnapshot : Type 0 where
  pub output : RootPressure
  pub state : RootPressure

abbrev pub rejects_new_captures : StoragePressureSnapshot → Bool
rejects_new_captures s = unavailable s.output || unavailable s.state

abbrev pub state_available : StoragePressureSnapshot → Bool
state_available s = not (unavailable s.state)

abbrev pub pressure_rank : RootPressure → ℕ × ℕ × ℕ
pressure_rank r = if not r.readable then (0, 0, 0) else elim r.free_percent [
  | none ↦ (0, 0, 0)
  | some percent ↦ elim r.free_bytes [ none ↦ (0, 0, 0) | some bytes ↦ (1, percent, bytes) ]
]

-- The order of tuples.
abbrev pub rank_leb : ℕ × ℕ × ℕ → ℕ × ℕ × ℕ → Bool
rank_leb (a, b, c) (d, e, f) = ltb a d || ((a == d) && (ltb b e || ((b == e) && leb c f)))

unfoldable pub alarm_root : StoragePressureSnapshot → Option RootPressure
alarm_root s =
    if unavailable s.output
    then (if unavailable s.state
        then (if rank_leb (pressure_rank s.state) (pressure_rank s.output)
            then some s.state
            else some s.output)
        else some s.output)
    else (if unavailable s.state then some s.state else none)

abbrev pub u8_or_hundred : ℕ → ℕ
u8_or_hundred n = if ltb n 256 then n else 100

abbrev pub free_percent_of : DiskSpace → ℕ
free_percent_of space =
    if space.total_bytes == 0
    then 0
    else u8_or_hundred (space.available_bytes * 100 / space.total_bytes)

unfoldable pub assess_space : String → DiskSpace → ℕ → ℕ → RootPressure
assess_space root space minimum_free_bytes minimum_free_percent = record {
  root = root;
  free_bytes = some space.available_bytes;
  free_percent = some (free_percent_of space);
  pressured =
      ltb space.available_bytes minimum_free_bytes
      || ltb (free_percent_of space) minimum_free_percent;
  readable = true;
}

pub record StoragePressureMonitor : Type 0 where
  pub output_root : String
  pub state_root : String
  pub minimum_free_bytes : ℕ
  pub minimum_free_percent : ℕ

abbrev pub assessed : StoragePressureMonitor → String → Result DiskSpace → RootPressure
assessed m root (ok space) = assess_space root space m.minimum_free_bytes m.minimum_free_percent
assessed m root (err e) = record {
  root = root;
  free_bytes = none;
  free_percent = none;
  pressured = false;
  readable = false;
}

-- The second probe may see another state of the same disk; equal roots are probed once.
unfoldable pub assess :
    StoragePressureMonitor
    → (output_probe state_probe : String → Result DiskSpace) → StoragePressureSnapshot
assess m output_probe state_probe =
    let output = assessed m m.output_root (output_probe m.output_root) in
    record {
      output = output;
      state =
          if str_eq m.output_root m.state_root
          then record output { root = m.state_root }
          else assessed m m.state_root (state_probe m.state_root);
    }

pub record StorageAlarmContext : Type 0 where
  pub root : String
  pub free_bytes : Option ℕ
  pub free_percent : Option ℕ

pub data StorageAlarmTransition : Type 0 where
  raise : StorageAlarmContext → StorageAlarmTransition
  clear : StorageAlarmContext → StorageAlarmTransition

abbrev pub storage_alarm_context : RootPressure → StorageAlarmContext
storage_alarm_context r = record {
  root = r.root;
  free_bytes = r.free_bytes;
  free_percent = r.free_percent;
}

abbrev pub number_eq : Option ℕ → Option ℕ → Bool
number_eq none none = true
number_eq none (some b) = false
number_eq (some a) none = false
number_eq (some a) (some b) = a == b

abbrev pub context_eq : StorageAlarmContext → StorageAlarmContext → Bool
context_eq a b =
    str_eq a.root b.root
    && number_eq a.free_bytes b.free_bytes
    && number_eq a.free_percent b.free_percent

-- The active alarm after an observation, and what is published.
abbrev pub alarm_after :
    Option StorageAlarmContext
    → Option StorageAlarmContext
    → Option StorageAlarmContext × Option StorageAlarmTransition
alarm_after none none = (none, none)
alarm_after (some previous) none = (none, some (clear previous))
alarm_after none (some next) = (some next, some (raise next))
alarm_after (some previous) (some next) =
    if context_eq previous next then (some previous, none) else (some next, some (raise next))

abbrev pub alarm_context : StoragePressureSnapshot → Option StorageAlarmContext
alarm_context s = elim (alarm_root s) [
  | none ↦ none
  | some root ↦ some (storage_alarm_context root)
]

unfoldable pub transition_alarm :
    Option StorageAlarmContext
    → StoragePressureSnapshot
    → Option StorageAlarmContext × Option StorageAlarmTransition
transition_alarm active s = alarm_after active (alarm_context s)
