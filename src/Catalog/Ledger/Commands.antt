-- ===== src/Catalog/Ledger/Commands.antt =====
-- Generic commands in src/catalog.rs, begun and completed more than once.
use camera_adapter.Base.{
  ℕ, String, ◌≡◌, refl, ◌∙◌, true, false, List, [], ◌∷◌, Option, none, some, str_eq, eq_refl,
  Bool-cases, inl, inr, if◌then◌else◌, ap, sym, subst,
}
use camera_adapter.Error.{ok}
use camera_adapter.Catalog.Types.{
  LedgerKey, LedgerState, CommandLedgerRecord, Tables, command_started, command_existing,
}
use camera_adapter.Catalog.Ledger.{
  same_key, is_in_progress, load_ledger, insert_command, begin_command_blocking, update_ledger,
  complete_row, complete_command_blocking,
}
use camera_adapter.Catalog.Ledger.Insertion.{insert_ledger-new, same_key_refl, ledger_row}

module _ {V : Type 0} where
  skip :
      (key : LedgerKey) (r : CommandLedgerRecord V) (rows : List (CommandLedgerRecord V))
      → same_key r.key key ≡ false
      → load_ledger key (r ∷ rows) ≡ load_ledger key rows
  unfolding load_ledger
  skip key r rows other = rw (load_ledger, other) refl

  hit :
      (key : LedgerKey) (r : CommandLedgerRecord V) (rows : List (CommandLedgerRecord V))
      → same_key r.key key ≡ true
      → load_ledger key (r ∷ rows) ≡ some r
  unfolding load_ledger
  hit key r rows found = rw (load_ledger, found) refl

  begin_known :
      (key : LedgerKey) (hash : String) (at : ℕ) (t : Tables V) (row : CommandLedgerRecord V)
      → load_ledger key t.ledger ≡ some row
      → str_eq row.request_hash hash ≡ true
      → begin_command_blocking key hash at t ≡ ok (t, command_existing row)
  unfolding begin_command_blocking
  begin_known key hash at t row here same = rw (begin_command_blocking, here, same) refl

  -- A command that is new starts, and a retry of it, at any time, finds its ledger row and starts
  -- nothing.
  pub begin_command_blocking-retry :
      (key : LedgerKey) (hash : String) (at later : ℕ) (t : Tables V)
      → load_ledger key t.ledger ≡ none
      → let row : CommandLedgerRecord V = ledger_row key hash at none in
        let t' : Tables V = record t { ledger = row ∷ t.ledger } in
        (begin_command_blocking key hash at t ≡ ok (t', command_started row))
        × (begin_command_blocking key hash later t' ≡ ok (t', command_existing row))
  unfolding begin_command_blocking insert_command load_ledger
  begin_command_blocking-retry key hash at later t new =
      let row : CommandLedgerRecord V = ledger_row key hash at none in
      let t' : Tables V = record t { ledger = row ∷ t.ledger } in
      (
        rw
            (
              begin_command_blocking,
              new,
              insert_command,
              insert_ledger-new key hash at none t new,
              load_ledger,
              same_key_refl key,
            )
            refl,
        begin_known key hash later t' row (rw (load_ledger, same_key_refl key) refl) (eq_refl hash),
      )

  update_hit :
      (key : LedgerKey) (f : CommandLedgerRecord V → CommandLedgerRecord V)
      (r : CommandLedgerRecord V) (rows : List (CommandLedgerRecord V))
      → (f r).key ≡ r.key
      → same_key r.key key ≡ true
      → load_ledger key (update_ledger key f (r ∷ rows))
        ≡ some (if is_in_progress r.state then f r else r)
  unfolding load_ledger update_ledger
  update_hit key f r rows keeps found =
      let kept : same_key (f r).key key ≡ true = rw keeps found in
      elim (Bool-cases (is_in_progress r.state)) [
        | inl runs ↦ rw (load_ledger, update_ledger, found, runs, kept) refl
        | inr settled ↦ rw (load_ledger, update_ledger, found, settled, found) refl
      ]

  some-injective : (a b : CommandLedgerRecord V) → some a ≡ some b → a ≡ b
  some-injective a b h = ap (λ o. elim o [ none ↦ a | some c ↦ c ]) h

  -- The row under the key after an update that keeps keys.
  load_ledger-update :
      (key : LedgerKey) (f : CommandLedgerRecord V → CommandLedgerRecord V)
      (rows : List (CommandLedgerRecord V)) (row : CommandLedgerRecord V)
      → ((r : CommandLedgerRecord V) → (f r).key ≡ r.key)
      → load_ledger key rows ≡ some row
      → load_ledger key (update_ledger key f rows)
        ≡ some (if is_in_progress row.state then f row else row)
  unfolding load_ledger update_ledger
  load_ledger-update key f [] row keeps here = cc
  load_ledger-update key f (r ∷ rows) row keeps here = elim (Bool-cases (same_key r.key key)) [
    | inr other ↦
        rw (load_ledger, update_ledger, other, other)
          (load_ledger-update key f rows row keeps (rw⁻¹ (skip key r rows other) here))
    | inl found ↦
        let same : some r ≡ some row = sym (hit key r rows found) ∙ here in
        subst
          (λ x.
            load_ledger key (update_ledger key f (r ∷ rows))
            ≡ some (if is_in_progress x.state then f x else x))
          (some-injective r row same) (update_hit key f r rows (keeps r) found)
  ]

  complete-row :
      (key : LedgerKey) (state : LedgerState) (reply : V) (error : Option String) (at : ℕ)
      (t : Tables V) (row : CommandLedgerRecord V)
      → load_ledger key t.ledger ≡ some row
      → let f : CommandLedgerRecord V → CommandLedgerRecord V = complete_row state reply error at in
        complete_command_blocking key state reply error at t
        ≡ ok (
          record t { ledger = update_ledger key f t.ledger },
          if is_in_progress row.state then f row else row,
        )
  unfolding complete_command_blocking complete_row
  complete-row key state reply error at t row here =
      let f : CommandLedgerRecord V → CommandLedgerRecord V = complete_row state reply error at in
      rw (complete_command_blocking, load_ledger-update key f t.ledger row (λ r. refl) here) refl

  -- A command that runs is completed with the given outcome, and the next completion of it, whatever
  -- outcome it brings, returns the first one.
  pub complete_command_blocking-once :
      (key : LedgerKey) (state state' : LedgerState) (reply reply' : V)
      (error error' : Option String) (at at' : ℕ) (t : Tables V) (row : CommandLedgerRecord V)
      → load_ledger key t.ledger ≡ some row
      → is_in_progress row.state ≡ true
      → is_in_progress state ≡ false
      → let done = complete_row state reply error at row in
        let t' : Tables V = record t {
          ledger = update_ledger key (complete_row state reply error at) t.ledger;
        } in
        (complete_command_blocking key state reply error at t ≡ ok (t', done))
        × ((t'' : Tables V) × (complete_command_blocking key state' reply' error' at' t'
              ≡ ok (t'', done)))
  unfolding complete_row
  complete_command_blocking-once key state state' reply reply' error error' at at' t row here runs
        final =
      let f : CommandLedgerRecord V → CommandLedgerRecord V = complete_row state reply error at in
      let t' : Tables V = record t { ledger = update_ledger key f t.ledger } in
      let t'' : Tables V = record t' {
        ledger = update_ledger key (complete_row state' reply' error' at') t'.ledger;
      } in
      let after : load_ledger key t'.ledger ≡ some (f row) =
        subst (λ b. load_ledger key t'.ledger ≡ some (if b then f row else row)) runs
          (load_ledger-update key f t.ledger row (λ r. refl) here) in
      (
        subst
            (λ b.
              complete_command_blocking key state reply error at t
              ≡ ok (t', if b then f row else row))
            runs (complete-row key state reply error at t row here),
        (
          t'',
          subst
              (λ b.
                complete_command_blocking key state' reply' error' at' t'
                ≡ ok (t'', if b then complete_row state' reply' error' at' (f row) else f row))
              final (complete-row key state' reply' error' at' t' (f row) after),
        ),
      )
