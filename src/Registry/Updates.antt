-- ===== src/Registry/Updates.antt =====
-- Every run of observations and reloads of src/registry.rs.
use camera_adapter.Base.Vec.{swap_remove, All-swap_remove}
use camera_adapter.Base.{
  zero, suc, ◌++◌, get_elem?, All, All-append, ℕ, ◌≡◌, refl, sym, ap, ◌∙◌, subst, inl, inr, String,
  Bool, true, false, not, ◌&&◌, ◌||◌, Option, none, some, List, [], ◌∷◌, arith, ◌==◌, if◌then◌else◌,
  str_eq, Bool-cases, Option-cases, length,
}
use camera_adapter.Base.Map.{lookup, insert, remove, lookup-insert, lookup-remove}
use camera_adapter.Error.{Result, ok, err}
use camera_adapter.Registry.{
  CameraConnectionState, disabled, offline, stopping, is_disabled, Backends, CameraConfig,
  RegistryEntry, RegistryDiff, Entries, initial_snapshot, load, new, Observation, observed, publish,
  is_stale, Flight, checked_entry, check_update, publish_flight, digest_of,
}
use camera_adapter.Registry.Reload.{
  incoming_of, has_changed, replaced, applied, apply_cameras, missing_keys, remove_all,
  apply_validated_config,
}

-- A camera shows the flag of its settings, and shows DISABLED when they disable it.
pub record IsTidy {B K C : Type 0} (e : RegistryEntry B K C) : Type 0 where
  pub flag : e.snapshot.enabled ≡ e.config.enabled
  pub off : (e.config.enabled || is_disabled e.snapshot.state) ≡ true

shows :
    (s : CameraConnectionState) (b : Bool) → (b || is_disabled (if b then s else disabled)) ≡ true
shows s true = refl
shows s false = refl

same_flag : (a b x : Bool) → ((a && not b) || (not a && b) || x) ≡ false → a ≡ b
same_flag true true x e = refl
same_flag true false x e = cc
same_flag false true x e = cc
same_flag false false x e = refl

module _ {B K C : Type 0} (L : Backends B K C) where
  abbrev AllTidy : Entries L → Type 0
  AllTidy entries =
      (key : String) (e : RegistryEntry B K C) → lookup key entries ≡ some e → IsTidy e

  chosen-IsTidy :
      (c : Bool) (o : Option (RegistryEntry B K C)) (new_entry e : RegistryEntry B K C)
      → IsTidy new_entry
      → (o ≡ some e → IsTidy e)
      → (if c then some new_entry else o) ≡ some e
      → IsTidy e
  chosen-IsTidy true o new_entry e fresh old h = subst IsTidy (ground arith) fresh
  chosen-IsTidy false o new_entry e fresh old h = old h

  insert-AllTidy :
      (put : String) (new_entry : RegistryEntry B K C) (entries : Entries L)
      → IsTidy new_entry
      → AllTidy entries
      → AllTidy (insert put new_entry entries)
  insert-AllTidy put new_entry entries fresh h key e found =
      chosen-IsTidy (str_eq put key) (lookup key entries) new_entry e fresh (h key e)
        (sym (lookup-insert put key new_entry entries) ∙ found)

  kept :
      (c : Bool) (o : Option (RegistryEntry B K C)) (e : RegistryEntry B K C)
      → (if c then none else o) ≡ some e
      → o ≡ some e
  kept true o e h = cc
  kept false o e h = h

  remove-AllTidy :
      (gone : String) (entries : Entries L) → AllTidy entries → AllTidy (remove gone entries)
  remove-AllTidy gone entries h key e found =
      h key e (
        kept (str_eq gone key) (lookup key entries) e
          (sym (lookup-remove gone key entries) ∙ found))

  initial-IsTidy : (now : ℕ) (camera : CameraConfig B) → IsTidy (applied L now none camera)
  unfolding initial_snapshot
  initial-IsTidy now camera = record { flag = refl; off = shows offline camera.enabled }

  observed-IsTidy :
      (instance_id : String) (e : RegistryEntry B K C) (seen : Observation L)
      (digest : Option String)
      → is_stale L e seen ≡ false
      → IsTidy (record e { snapshot = observed L instance_id e seen digest })
  observed-IsTidy instance_id e seen digest fresh = record {
    flag = refl;
    off = ground (arith, fresh);
  }

  -- The flag has changed, or the snapshot was tidy with the old one.
  replaced-IsTidy :
      (now : ℕ) (e : RegistryEntry B K C) (camera : CameraConfig B)
      → IsTidy e
      → IsTidy (replaced L now e camera)
  unfolding replaced
  replaced-IsTidy now e camera tidy = elim (Bool-cases (has_changed L e.config camera)) [
    | inl changed ↦ rw changed (record { flag = refl; off = shows stopping camera.enabled })
    | inr same ↦
        let kept_flag = same_flag e.config.enabled camera.enabled _ same in
        rw same (record {
          flag = tidy.flag ∙ kept_flag;
          off = ap (λ c. c || is_disabled e.snapshot.state) (sym kept_flag) ∙ tidy.off;
        })
  ]

  applied-IsTidy :
      (now : ℕ) (o : Option (RegistryEntry B K C)) (camera : CameraConfig B)
      → ((e : RegistryEntry B K C) → o ≡ some e → IsTidy e)
      → IsTidy (applied L now o camera)
  applied-IsTidy now none camera h = initial-IsTidy now camera
  applied-IsTidy now (some e) camera h = replaced-IsTidy now e camera (h e refl)

  apply_cameras-AllTidy :
      (now : ℕ) (cameras : List (CameraConfig B)) (entries : Entries L) (diff : RegistryDiff)
      → AllTidy entries
      → AllTidy (apply_cameras L now cameras entries diff).0
  unfolding apply_cameras
  apply_cameras-AllTidy now [] entries diff h = h
  apply_cameras-AllTidy now (camera ∷ rest) entries diff h = apply_cameras-AllTidy now rest _ _ (
      insert-AllTidy camera.id _ entries
        (applied-IsTidy now (lookup camera.id entries) camera (h camera.id)) h)

  remove_all-AllTidy :
      (keys : List String) (entries : Entries L)
      → AllTidy entries
      → AllTidy (remove_all L keys entries)
  unfolding remove_all
  remove_all-AllTidy [] entries h = h
  remove_all-AllTidy (key ∷ keys) entries h =
      remove_all-AllTidy keys (remove key entries) (remove-AllTidy key entries h)

  if-AllTidy :
      {X : Type 0} (c : Bool) (x y : Entries L × X)
      → AllTidy x.0
      → (c ≡ false → AllTidy y.0)
      → AllTidy (if c then x else y).0
  if-AllTidy true x y hx hy = hx
  if-AllTidy false x y hx hy = hy refl

  apply-AllTidy :
      (now : ℕ) (cameras : List (CameraConfig B)) (entries : Entries L)
      → AllTidy entries
      → AllTidy (apply_validated_config L now cameras entries).0
  unfolding apply_validated_config
  apply-AllTidy now cameras entries h =
      if-AllTidy (not (length (incoming_of L cameras []) == length cameras)) _ _ h λ _.
        remove_all-AllTidy (missing_keys L entries (incoming_of L cameras [])) _
          (apply_cameras-AllTidy now cameras entries _ h)

  publish-AllTidy :
      (instance_id : String) (e : RegistryEntry B K C) (seen : Observation L) (entries : Entries L)
      (digest : Result (Option String))
      → is_stale L e seen ≡ false
      → AllTidy entries
      → AllTidy (publish L instance_id e seen entries digest).0
  publish-AllTidy instance_id e seen entries (err x) fresh h = h
  publish-AllTidy instance_id e seen entries (ok digest) fresh h =
      insert-AllTidy instance_id _ entries (observed-IsTidy instance_id e seen digest fresh) h

  -- What an update has checked holds until it publishes.
  abbrev Checked : Flight L → Type 0
  Checked f = is_stale L f.entry f.seen ≡ false

  load-AllTidy :
      (now : ℕ) (cameras : List (CameraConfig B)) (entries loaded : Entries L)
      → AllTidy entries
      → load L now cameras entries ≡ ok loaded
      → AllTidy loaded
  unfolding load
  load-AllTidy now [] entries loaded h e = subst AllTidy (ground arith) h
  load-AllTidy now (camera ∷ rest) entries loaded h e =
      elim (Option-cases (lookup camera.id entries)) [
        | inl absent ↦
            load-AllTidy now rest _ loaded
              (insert-AllTidy camera.id _ entries (initial-IsTidy now camera) h)
              (ground (arith, absent))
        | inr (old, there) ↦ ground (arith, there)
      ]

  -- The roster, and the updates that hold the shared lock and have not published yet.
  pub record World : Type 0 where
    pub entries : Entries L
    pub flights : List (Flight L)

  -- The steps that change the roster, in any order. An update checks and then publishes, and other
  -- updates can come between. A reload takes the lock alone, so it waits until none is under way.
  pub data Call : Type 0 where
    checks : String → Observation L → Call
    publishes : ℕ → Call
    reloads : ℕ → List (CameraConfig B) → Call

  abbrev pub taking_off : Option (Flight L) → List (Flight L) → List (Flight L)
  taking_off none flights = flights
  taking_off (some f) flights = flights ++ (f ∷ [])

  abbrev pub reload_alone : ℕ → List (CameraConfig B) → Entries L → List (Flight L) → Entries L
  reload_alone now cameras entries [] = (apply_validated_config L now cameras entries).0
  reload_alone now cameras entries (f ∷ flights) = entries

  unfoldable pub act : Call → World → World
  act (checks instance_id seen) w = record w {
    flights = taking_off (check_update L instance_id seen w.entries) w.flights;
  }
  act (publishes i) w = elim (get_elem? w.flights i) [
    | none ↦ w
    | some f ↦ record {
      entries = (publish_flight L (some f) w.entries).0;
      flights = swap_remove i w.flights;
    }
  ]
  act (reloads now cameras) w = record w { entries = reload_alone now cameras w.entries w.flights }

  unfoldable pub run : List Call → World → World
  run [] w = w
  run (call ∷ calls) w = run calls (act call w)

  record Tidy (w : World) : Type 0 where
    all_tidy : AllTidy w.entries
    all_checked : All Checked w.flights

  Checked-get :
      (flights : List (Flight L)) (i : ℕ) (f : Flight L)
      → All Checked flights
      → get_elem? flights i ≡ some f
      → Checked f
  Checked-get [] i f h e = cc
  Checked-get (x ∷ xs) zero f h e = let same : x ≡ f = ground arith in subst Checked same h.0
  Checked-get (x ∷ xs) (suc i) f h e = Checked-get xs i f h.1 e

  if-Checked :
      (c : Bool) (f : Flight L) (flights : List (Flight L))
      → (c ≡ false → Checked f)
      → All Checked flights
      → All Checked (taking_off (if c then none else some f) flights)
  if-Checked true f flights fresh h = h
  if-Checked false f flights fresh h = All-append Checked flights (f ∷ []) h (fresh refl, tt)

  checks-Checked :
      (instance_id : String) (seen : Observation L) (o : Option (RegistryEntry B K C))
      (flights : List (Flight L))
      → All Checked flights
      → All Checked (taking_off (checked_entry L instance_id seen o) flights)
  checks-Checked instance_id seen none flights h = h
  checks-Checked instance_id seen (some e) flights h =
      if-Checked (is_stale L e seen) (record { instance_id = instance_id; entry = e; seen = seen })
        flights (λ fresh. fresh) h

  alone-AllTidy :
      (now : ℕ) (cameras : List (CameraConfig B)) (entries : Entries L) (flights : List (Flight L))
      → AllTidy entries
      → AllTidy (reload_alone now cameras entries flights)
  alone-AllTidy now cameras entries [] h = apply-AllTidy now cameras entries h
  alone-AllTidy now cameras entries (f ∷ flights) h = h

  act-Tidy : (call : Call) (w : World) → Tidy w → Tidy (act call w)
  unfolding act check_update
  act-Tidy (checks instance_id seen) w h = record {
    all_tidy = h.all_tidy;
    all_checked =
        checks-Checked instance_id seen (lookup instance_id w.entries) w.flights h.all_checked;
  }
  act-Tidy (publishes i) w h = elim (Option-cases (get_elem? w.flights i)) [
    | inl missing ↦ rw (act, missing) h
    | inr (f, here) ↦
        rw (act, here)
          (record {
            all_tidy =
                publish-AllTidy f.instance_id f.entry f.seen w.entries
                  (digest_of L f.seen.capabilities) (Checked-get w.flights i f h.all_checked here)
                  h.all_tidy;
            all_checked = All-swap_remove Checked w.flights i h.all_checked;
          })
  ]
  act-Tidy (reloads now cameras) w h = record {
    all_tidy = alone-AllTidy now cameras w.entries w.flights h.all_tidy;
    all_checked = h.all_checked;
  }

  run-Tidy : (calls : List Call) (w : World) → Tidy w → Tidy (run calls w)
  unfolding run
  run-Tidy [] w h = h
  run-Tidy (call ∷ calls) w h = run-Tidy calls _ (act-Tidy call w h)

  nothing-AllTidy : AllTidy []
  unfolding lookup
  nothing-AllTidy key e found = cc

  -- From the start on, whatever observations and reloads come in whatever order, with other updates between
  -- the checks of an update and its publication: each camera shows the enabled flag of its current
  -- settings, and is DISABLED whenever they disable it.
  pub run-new-IsTidy :
      (now : ℕ) (cameras : List (CameraConfig B)) (entries : Entries L) (calls : List Call)
      (key : String) (e : RegistryEntry B K C)
      → new L now cameras ≡ ok entries
      → lookup key (run calls (record { entries = entries; flights = [] })).entries ≡ some e
      → IsTidy e
  unfolding new
  run-new-IsTidy now cameras entries calls key e started found =
      (run-Tidy calls (record { entries = entries; flights = [] })
          (record {
            all_tidy = load-AllTidy now cameras [] entries nothing-AllTidy started;
            all_checked = tt;
          })).all_tidy
        key e found
