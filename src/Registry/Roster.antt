-- ===== src/Registry/Roster.antt =====
-- src/registry.rs: what a reload makes of the roster, camera by camera.
use camera_adapter.Base.{
  ℕ, suc, ◌+◌, ◌≤◌, ◌<◌, ◌≡◌, refl, ap, ◌∙◌, subst, inl, inr, String, Bool, true, false, not, ◌&&◌,
  ◌||◌, Option, none, some, List, [], ◌∷◌, arith, if◌then◌else◌, str_eq, eq_iff, Bool-cases,
  Option-cases, length, is_some,
}
use camera_adapter.Base.Map.{
  Map, lookup, insert, remove, lookup-insert, lookup-insert_self, lookup-remove,
}
use camera_adapter.Base.Words.{u64_max}
use camera_adapter.Error.{ok}
use camera_adapter.Registry.{
  Backends, CameraConfig, RegistryEntry, RegistryDiff, Entries, Observation, is_stale, update,
  checked_entry, check_update, publish_flight,
}
use camera_adapter.Registry.Reload.{
  has_changed, replaced, incoming_of, applied, apply_cameras, missing_keys, remove_all,
  apply_validated_config,
}

module _ {B K C : Type 0} (L : Backends B K C) where
  -- The settings of a camera in a configuration.
  unfoldable pub find_camera : String → List (CameraConfig B) → Option (CameraConfig B)
  find_camera key [] = none
  find_camera key (camera ∷ rest) =
      if str_eq camera.id key then some camera else find_camera key rest

  unfoldable Distinct : List (CameraConfig B) → Type 0
  Distinct [] = Unit
  Distinct (camera ∷ rest) = (find_camera camera.id rest ≡ none) × Distinct rest

  -- An insertion adds an entry exactly when its key is new.
  length-insert :
      (put : String) (camera : CameraConfig B) (m : Map (CameraConfig B))
      → length (insert put camera m) ≡ (if is_some (lookup put m) then length m else suc (length m))
  unfolding lookup insert
  length-insert put camera [] = refl
  length-insert put camera ((first, old) ∷ rest) =
      ground (arith, length-insert put camera rest, eq_iff first put)

  length-incoming_of-le :
      (cameras : List (CameraConfig B)) (m : Map (CameraConfig B))
      → length (incoming_of L cameras m) ≤ length cameras + length m
  unfolding incoming_of
  length-incoming_of-le [] m = omega arith
  length-incoming_of-le (camera ∷ rest) m = ground (
    arith,
    length-insert camera.id camera m,
    length-incoming_of-le rest (insert camera.id camera m),
  )

  -- With as many entries as cameras, no identifier came twice.
  record Separate (cameras : List (CameraConfig B)) (m : Map (CameraConfig B)) : Type 0 where
    distinct : Distinct cameras
    apart : (key : String) → (is_some (find_camera key cameras) && is_some (lookup key m)) ≡ false

  step-Separate :
      (camera : CameraConfig B) (rest : List (CameraConfig B)) (m : Map (CameraConfig B))
      → is_some (lookup camera.id m) ≡ false
      → Separate rest (insert camera.id camera m)
      → Separate (camera ∷ rest) m
  unfolding find_camera Distinct
  step-Separate camera rest m fresh s = record {
    distinct =
        (ground (arith, s.apart camera.id, lookup-insert_self camera.id camera m), s.distinct);
    apart = λ key.
        ground
          (arith, s.apart key, lookup-insert camera.id key camera m, eq_iff camera.id key, fresh);
  }

  incoming_of-Separate :
      (cameras : List (CameraConfig B)) (m : Map (CameraConfig B))
      → length (incoming_of L cameras m) ≡ length cameras + length m
      → Separate cameras m
  unfolding incoming_of find_camera Distinct
  incoming_of-Separate [] m e = record { distinct = tt; apart = λ key. refl }
  incoming_of-Separate (camera ∷ rest) m e =
      let bound = length-incoming_of-le rest (insert camera.id camera m) in
      let grown = length-insert camera.id camera m in
      elim (Bool-cases (is_some (lookup camera.id m))) [
        | inl there ↦ ground arith
        | inr fresh ↦ step-Separate camera rest m fresh (incoming_of-Separate rest _ (ground arith))
      ]

  lookup-incoming_of :
      (key : String) (cameras : List (CameraConfig B)) (m : Map (CameraConfig B))
      → is_some (lookup key (incoming_of L cameras m))
        ≡ (is_some (find_camera key cameras) || is_some (lookup key m))
  unfolding incoming_of find_camera
  lookup-incoming_of key [] m = refl
  lookup-incoming_of key (camera ∷ rest) m = ground (
    arith,
    lookup-incoming_of key rest (insert camera.id camera m),
    lookup-insert camera.id key camera m,
  )

  unfoldable has_key : String → List String → Bool
  has_key key [] = false
  has_key key (first ∷ rest) = str_eq first key || has_key key rest

  has_key-missing_keys :
      (key : String) (entries : Entries L) (incoming : Map (CameraConfig B))
      → has_key key (missing_keys L entries incoming)
        ≡ (is_some (lookup key entries) && not (is_some (lookup key incoming)))
  unfolding missing_keys lookup has_key
  has_key-missing_keys key [] incoming = refl
  has_key-missing_keys key ((first, entry) ∷ rest) incoming =
      elim (Option-cases (lookup first incoming)) [
        | inl missing ↦
            ground (arith, missing, has_key-missing_keys key rest incoming, eq_iff first key)
        | inr (camera, there) ↦
            ground (arith, there, has_key-missing_keys key rest incoming, eq_iff first key)
      ]

  lookup-remove_all :
      (key : String) (keys : List String) (entries : Entries L)
      → lookup key (remove_all L keys entries)
        ≡ (if has_key key keys then none else lookup key entries)
  unfolding remove_all has_key
  lookup-remove_all key [] entries = refl
  lookup-remove_all key (gone ∷ keys) entries =
      ground
        (arith, lookup-remove_all key keys (remove gone entries), lookup-remove gone key entries)

  abbrev merged :
      ℕ → Option (RegistryEntry B K C) → Option (CameraConfig B) → Option (RegistryEntry B K C)
  merged now found none = found
  merged now found (some camera) = some (applied L now found camera)

  lookup-apply_cameras :
      (now : ℕ) (key : String) (cameras : List (CameraConfig B)) (entries : Entries L)
      (diff : RegistryDiff)
      → Distinct cameras
      → lookup key (apply_cameras L now cameras entries diff).0
        ≡ merged now (lookup key entries) (find_camera key cameras)
  unfolding apply_cameras find_camera Distinct
  lookup-apply_cameras now key [] entries diff d = refl
  lookup-apply_cameras now key (camera ∷ rest) entries diff d =
      elim (Bool-cases (str_eq camera.id key)) [
        | inl same ↦
            let key_eq : camera.id ≡ key = ground (arith, eq_iff camera.id key) in
            let once = subst (λ k. find_camera k rest ≡ none) key_eq d.0 in
            lookup-apply_cameras now key rest _ _ d.1
            ∙ rw (once, lookup-insert, same)
                (ap (λ k. some (applied L now (lookup k entries) camera)) key_eq)
        | inr other ↦ lookup-apply_cameras now key rest _ _ d.1 ∙ rw (lookup-insert, other) refl
      ]

  abbrev pub reloaded :
      ℕ → Option (RegistryEntry B K C) → Option (CameraConfig B) → Option (RegistryEntry B K C)
  reloaded now found none = none
  reloaded now found (some camera) = some (applied L now found camera)

  -- Taking out what the configuration lacks leaves exactly its cameras.
  pruned :
      (now : ℕ) (found : Option (RegistryEntry B K C)) (asked : Option (CameraConfig B))
      (gone : Bool)
      → gone ≡ (is_some found && not (is_some asked))
      → (if gone then none else merged now found asked) ≡ reloaded now found asked
  pruned now none none gone h = rw h refl
  pruned now none (some camera) gone h = rw h refl
  pruned now (some e) none gone h = rw h refl
  pruned now (some e) (some camera) gone h = rw h refl

  unique_of :
      (now : ℕ) (cameras : List (CameraConfig B)) (entries after : Entries L) (diff : RegistryDiff)
      → apply_validated_config L now cameras entries ≡ (after, ok diff)
      → length (incoming_of L cameras []) ≡ length cameras
  unfolding apply_validated_config
  unique_of now cameras entries after diff e = ground arith

  after_of :
      (now : ℕ) (cameras : List (CameraConfig B)) (entries after : Entries L) (diff : RegistryDiff)
      → apply_validated_config L now cameras entries ≡ (after, ok diff)
      → let gone = missing_keys L entries (incoming_of L cameras []) in
        after
        ≡ remove_all L gone
            (apply_cameras L now cameras entries
              (record { added = []; removed = gone; lifecycle_changed = []; updated = [] })).0
  unfolding apply_validated_config
  after_of now cameras entries after diff e = ground arith

  is_gone :
      (key : String) (cameras : List (CameraConfig B)) (entries : Entries L)
      → has_key key (missing_keys L entries (incoming_of L cameras []))
        ≡ (is_some (lookup key entries) && not (is_some (find_camera key cameras)))
  unfolding lookup
  is_gone key cameras entries = ground (
    arith,
    has_key-missing_keys key entries (incoming_of L cameras []),
    lookup-incoming_of key cameras [],
  )

  -- After a reload that succeeds, the roster holds each camera of the configuration and no other: a new
  -- camera starts with its first snapshot, and one that was there is replaced in its own place.
  pub lookup-apply_validated_config :
      (now : ℕ) (cameras : List (CameraConfig B)) (entries after : Entries L) (diff : RegistryDiff)
      (key : String)
      → apply_validated_config L now cameras entries ≡ (after, ok diff)
      → lookup key after ≡ reloaded now (lookup key entries) (find_camera key cameras)
  lookup-apply_validated_config now cameras entries after diff key e =
      let unique = unique_of now cameras entries after diff e in
      let s : Separate cameras [] = incoming_of-Separate cameras [] (omega (arith, unique)) in
      ap (lookup key) (after_of now cameras entries after diff e)
      ∙ lookup-remove_all key _ _
      ∙ rw (lookup-apply_cameras now key cameras entries _ s.distinct) (
          pruned now (lookup key entries) (find_camera key cameras) _ (is_gone key cameras entries))

  replaced-is_stale :
      (now : ℕ) (e : RegistryEntry B K C) (camera : CameraConfig B) (seen : Observation L)
      → has_changed L e.config camera ≡ true
      → e.snapshot.generation < u64_max
      → seen.generation ≤ e.snapshot.generation
      → is_stale L (replaced L now e camera) seen ≡ true
  unfolding replaced
  replaced-is_stale now e camera seen changed room old = rw changed (ground arith)

  stale-unchecked :
      (key : String) (e : RegistryEntry B K C) (seen : Observation L) (entries : Entries L)
      → lookup key entries ≡ some e
      → is_stale L e seen ≡ true
      → check_update L key seen entries ≡ none
  unfolding check_update
  stale-unchecked key e seen entries there stale =
      ap (checked_entry L key seen) there ∙ rw stale refl

  -- Once a reload has changed the life cycle of a camera, an observation of the session before it, or of an
  -- older one, is refused and changes nothing, as long as the generation can still grow.
  pub update-apply_validated_config :
      (now : ℕ) (cameras : List (CameraConfig B)) (entries after : Entries L) (diff : RegistryDiff)
      (key : String) (e : RegistryEntry B K C) (camera : CameraConfig B) (seen : Observation L)
      → apply_validated_config L now cameras entries ≡ (after, ok diff)
      → lookup key entries ≡ some e
      → find_camera key cameras ≡ some camera
      → has_changed L e.config camera ≡ true
      → e.snapshot.generation < u64_max
      → seen.generation ≤ e.snapshot.generation
      → update L key seen after ≡ (after, ok false)
  unfolding update
  update-apply_validated_config now cameras entries after diff key e camera seen done found asked
        changed room old =
      let there : lookup key after ≡ some (replaced L now e camera) =
        lookup-apply_validated_config now cameras entries after diff key done
        ∙ rw (found, asked) refl in
      ap (λ o. publish_flight L o after)
        (stale-unchecked key _ seen after there
          (replaced-is_stale now e camera seen changed room old))
