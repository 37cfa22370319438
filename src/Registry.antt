-- ===== src/Registry.antt =====
-- src/registry.rs: the camera roster and its lifecycle observations. A reload holds the lock
-- alone, and an update shares it, so that an update is two functions on the entries; the watch channel of a camera is the snapshot that it holds. Backend
-- settings, capabilities and their digest are an interface, and a call that reads the clock is given the
-- time. An error message leaves out the identifier that the code puts in it.
pub mod Reload
pub mod Updates
pub mod Roster
mod Tests
use camera_adapter.Base.{
  ℕ, ◌+◌, String, Bool, true, false, not, ◌&&◌, ◌||◌, Option, none, some, List, [], ◌∷◌, ◌++◌,
  length, ltb, ◌==◌, if◌then◌else◌, str_eq,
}
use camera_adapter.Base.Map.{Map, lookup, insert, remove}
use camera_adapter.Base.Words.{u64_max, saturating_add}
use camera_adapter.Error.{
  CameraError, config, catalog, rejected, bad_args, no_such_instance, camera_disabled, Result, ok,
  err, ◌>>=◌, ok_or,
}

pub data CameraConnectionState : Type 0 where
  disabled offline connecting online degraded backoff stopping : CameraConnectionState

pub record CameraStatusError : Type 0 where
  pub code : String
  pub message : String
  pub observed_at : ℕ

-- What the other modules know of a camera: the settings of its backend, its kind, its capabilities.
pub record Backends (B K C : Type 0) : Type 0 where
  pub kind : B → K
  pub same_backend : B → B → Bool
  pub capability_digest : C → Result String

-- The backend's settings, and with them the fields that these calls store and never read.
pub record CameraConfig (B : Type 0) : Type 0 where
  pub id : String
  pub enabled : Bool
  pub backend : B

pub record CameraSnapshot (K C : Type 0) : Type 0 where
  pub instance_id : String
  pub enabled : Bool
  pub backend : K
  pub generation : ℕ
  pub state : CameraConnectionState
  pub capabilities : Option C
  pub capabilities_digest : Option String
  pub connected_at : Option ℕ
  pub last_error : Option CameraStatusError
  pub updated_at : ℕ

pub record RegistryEntry (B K C : Type 0) : Type 0 where
  pub config : CameraConfig B
  pub snapshot : CameraSnapshot K C

pub record RegistryDiff : Type 0 where
  pub added : List String
  pub removed : List String
  pub lifecycle_changed : List String
  pub updated : List String

abbrev pub is_disabled : CameraConnectionState → Bool
is_disabled disabled = true
is_disabled _ = false

abbrev pub is_online : CameraConnectionState → Bool
is_online online = true
is_online _ = false

abbrev not_configured : CameraError
not_configured = rejected no_such_instance "camera instance is not configured"

abbrev pub not_unique : CameraError
not_unique = config "component.instances" "camera IDs must be unique"

module _ {B K C : Type 0} (L : Backends B K C) where
  abbrev pub Entries : Type 0
  Entries = Map (RegistryEntry B K C)

  unfoldable pub initial_snapshot : ℕ → CameraConfig B → CameraSnapshot K C
  initial_snapshot now camera = record {
    instance_id = camera.id;
    enabled = camera.enabled;
    backend = L.kind camera.backend;
    generation = 0;
    state = if camera.enabled then offline else disabled;
    capabilities = none;
    capabilities_digest = none;
    connected_at = none;
    last_error = none;
    updated_at = now;
  }

  unfoldable pub load : ℕ → List (CameraConfig B) → Entries → Result Entries
  load now [] entries = ok entries
  load now (camera ∷ rest) entries = elim (lookup camera.id entries) [
    | some entry ↦ err not_unique
    | none ↦ load now rest (
        insert camera.id (record { config = camera; snapshot = initial_snapshot now camera })
          entries)
  ]

  unfoldable pub new : ℕ → List (CameraConfig B) → Result Entries
  new now cameras = load now cameras []

  unfoldable pub snapshot : String → Entries → Result (CameraSnapshot K C)
  snapshot instance_id entries = do
    entry ← ok_or (lookup instance_id entries) not_configured
    ok entry.snapshot

  unfoldable pub camera_config : String → Entries → Result (CameraConfig B)
  camera_config instance_id entries = do
    entry ← ok_or (lookup instance_id entries) not_configured
    ok entry.config

  -- The camera that a call is about: the one that is asked for, or the only one.
  unfoldable pub requested_instance : Option String → Entries → Result String
  requested_instance (some instance_id) entries = ok instance_id
  requested_instance none ((instance_id, entry) ∷ []) = ok instance_id
  requested_instance none _ =
      err (rejected bad_args "instance is required when more than one camera is configured")

  unfoldable pub resolve_instance : Option String → Entries → Result String
  resolve_instance requested entries = do
    instance_id ← requested_instance requested entries
    entry ← ok_or (lookup instance_id entries) not_configured
    ok instance_id

  unfoldable pub resolve_actuation_instance : Option String → Entries → Result String
  resolve_actuation_instance requested entries = do
    instance_id ← requested_instance requested entries
    entry ← ok_or (lookup instance_id entries) not_configured
    if entry.config.enabled
        then ok instance_id
        else err (rejected camera_disabled "camera instance is disabled")

  abbrev pub digest_of : Option C → Result (Option String)
  digest_of none = ok none
  digest_of (some capabilities) = L.capability_digest capabilities >>= λ digest. ok (some digest)

  -- An observation of a supervisor.
  pub record Observation : Type 0 where
    pub generation : ℕ
    pub state : CameraConnectionState
    pub capabilities : Option C
    pub last_error : Option CameraStatusError
    pub observed_at : ℕ

  abbrev pub connected_since : CameraSnapshot K C → Observation → Option ℕ
  connected_since prior seen =
      if is_online seen.state
      then (if is_online prior.state && (prior.generation == seen.generation)
          then prior.connected_at
          else some seen.observed_at)
      else prior.connected_at

  abbrev pub observed :
      String → RegistryEntry B K C → Observation → Option String → CameraSnapshot K C
  observed instance_id entry seen digest = record {
    instance_id = instance_id;
    enabled = entry.config.enabled;
    backend = L.kind entry.config.backend;
    generation = seen.generation;
    state = seen.state;
    capabilities = seen.capabilities;
    capabilities_digest = digest;
    connected_at = connected_since entry.snapshot seen;
    last_error = seen.last_error;
    updated_at = seen.observed_at;
  }

  abbrev pub publish :
      String
      → RegistryEntry B K C
      → Observation
      → Entries
      → Result (Option String)
      → Entries × Result Bool
  publish instance_id entry seen entries (err e) = (entries, err e)
  publish instance_id entry seen entries (ok digest) = (
    insert instance_id (record entry { snapshot = observed instance_id entry seen digest }) entries,
    ok true,
  )

  abbrev pub is_stale : RegistryEntry B K C → Observation → Bool
  is_stale entry seen =
      ltb seen.generation entry.snapshot.generation
      || (not entry.config.enabled && not (is_disabled seen.state))

  -- An update that has passed its checks and publishes next, under the same shared lock.
  pub record Flight : Type 0 where
    pub instance_id : String
    pub entry : RegistryEntry B K C
    pub seen : Observation

  abbrev pub checked_entry : String → Observation → Option (RegistryEntry B K C) → Option Flight
  checked_entry instance_id seen none = none
  checked_entry instance_id seen (some entry) =
      if is_stale entry seen
      then none
      else some (record { instance_id = instance_id; entry = entry; seen = seen })

  unfoldable pub check_update : String → Observation → Entries → Option Flight
  check_update instance_id seen entries =
      checked_entry instance_id seen (lookup instance_id entries)

  abbrev pub publish_flight : Option Flight → Entries → Entries × Result Bool
  publish_flight none entries = (entries, ok false)
  publish_flight (some f) entries =
      publish f.instance_id f.entry f.seen entries (digest_of f.seen.capabilities)

  -- The whole of `update`, when no other update comes between its checks and its publication.
  unfoldable pub update : String → Observation → Entries → Entries × Result Bool
  unfolding check_update
  update instance_id seen entries = publish_flight (check_update instance_id seen entries) entries
