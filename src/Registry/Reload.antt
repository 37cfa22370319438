-- ===== src/Registry/Reload.antt =====
-- src/registry.rs: the swap of the whole configuration, with the changes that it reports.
use camera_adapter.Base.{
  ℕ, String, Bool, not, ◌&&◌, ◌||◌, Option, none, some, List, [], ◌∷◌, ◌++◌, length, ◌==◌,
  if◌then◌else◌,
}
use camera_adapter.Base.Map.{Map, lookup, insert, remove}
use camera_adapter.Base.Words.{u64_max, saturating_add}
use camera_adapter.Error.{Result, ok, err}
use camera_adapter.Registry.{
  disabled, stopping, not_unique, Backends, CameraConfig, RegistryEntry, RegistryDiff, Entries,
  initial_snapshot,
}

module _ {B K C : Type 0} (L : Backends B K C) where
  unfoldable pub incoming_of : List (CameraConfig B) → Map (CameraConfig B) → Map (CameraConfig B)
  incoming_of [] incoming = incoming
  incoming_of (camera ∷ rest) incoming = incoming_of rest (insert camera.id camera incoming)

  unfoldable pub missing_keys : Entries L → Map (CameraConfig B) → List String
  missing_keys [] incoming = []
  missing_keys ((key, entry) ∷ rest) incoming = elim (lookup key incoming) [
    | none ↦ key ∷ missing_keys rest incoming
    | some camera ↦ missing_keys rest incoming
  ]

  abbrev pub has_changed : CameraConfig B → CameraConfig B → Bool
  has_changed old camera =
      (old.enabled && not camera.enabled)
      || (not old.enabled && camera.enabled)
      || not (L.same_backend old.backend camera.backend)

  -- What a camera that survives a reload becomes.
  unfoldable pub replaced : ℕ → RegistryEntry B K C → CameraConfig B → RegistryEntry B K C
  replaced now entry camera = record {
    config = camera;
    snapshot =
        if has_changed entry.config camera
        then record {
          instance_id = camera.id;
          enabled = camera.enabled;
          backend = L.kind camera.backend;
          generation = saturating_add u64_max entry.snapshot.generation 1;
          state = if camera.enabled then stopping else disabled;
          capabilities = none;
          capabilities_digest = none;
          connected_at = entry.snapshot.connected_at;
          last_error = none;
          updated_at = now;
        }
        else entry.snapshot;
  }

  abbrev pub applied : ℕ → Option (RegistryEntry B K C) → CameraConfig B → RegistryEntry B K C
  applied now none camera = record { config = camera; snapshot = initial_snapshot L now camera }
  applied now (some entry) camera = replaced now entry camera

  abbrev pub recorded : Option (RegistryEntry B K C) → CameraConfig B → RegistryDiff → RegistryDiff
  recorded none camera diff = record diff { added = diff.added ++ (camera.id ∷ []) }
  recorded (some entry) camera diff =
      if has_changed entry.config camera
      then record diff { lifecycle_changed = diff.lifecycle_changed ++ (camera.id ∷ []) }
      else record diff { updated = diff.updated ++ (camera.id ∷ []) }

  unfoldable pub apply_cameras :
      ℕ → List (CameraConfig B) → Entries L → RegistryDiff → Entries L × RegistryDiff
  apply_cameras now [] entries diff = (entries, diff)
  apply_cameras now (camera ∷ rest) entries diff =
      let found = lookup camera.id entries in
      apply_cameras now rest (insert camera.id (applied now found camera) entries)
        (recorded found camera diff)

  unfoldable pub remove_all : List String → Entries L → Entries L
  remove_all [] entries = entries
  remove_all (key ∷ keys) entries = remove_all keys (remove key entries)

  abbrev pub swapped : List String → Entries L × RegistryDiff → Entries L × Result RegistryDiff
  swapped gone (entries, diff) = (remove_all gone entries, ok diff)

  -- The removed identifiers come in the order of the entries, where the code has them sorted.
  unfoldable pub apply_validated_config :
      ℕ → List (CameraConfig B) → Entries L → Entries L × Result RegistryDiff
  apply_validated_config now cameras entries =
      let incoming = incoming_of cameras [] in
      let gone = missing_keys entries incoming in
      if not (length incoming == length cameras)
      then (entries, err not_unique)
      else swapped gone (
          apply_cameras now cameras entries
            (record { added = []; removed = gone; lifecycle_changed = []; updated = [] }))
