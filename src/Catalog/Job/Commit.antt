-- ===== src/Catalog/Job/Commit.antt =====
-- The commit of a success in src/catalog.rs that has passed its checks.
use camera_adapter.Base.{String, ◌≡◌, refl, true, false, Option, none, some, arith, eq_refl, str_eq}
use camera_adapter.Error.{ok}
use camera_adapter.Model.{
  JobState, persisting, succeeded, cancelled, is_terminal, can_transition_to,
}
use camera_adapter.Catalog.Types.{Json, TerminalWrite, JobRecord, won}
use camera_adapter.Catalog.Writes.{
  same_state, same_option, validate_terminal_write, validate_terminal_for_job,
}
use camera_adapter.Catalog.Job.{
  same_write, artifact_verified, write_terminal, terminal, commit_terminal,
}

same_state_refl : (s : JobState) → same_state s s ≡ true
same_state_refl s = ground arith

same_text_refl : (o : Option String) → same_option str_eq o o ≡ true
same_text_refl none = refl
same_text_refl (some s) = eq_refl s

module _ {V : Type 0} (J : Json V) where
  same_write_refl : (w : TerminalWrite V) → same_write J w w ≡ true
  unfolding same_write
  same_write_refl w =
      rw
        (
          same_write,
          same_state_refl w.state,
          J.equal-refl w.result,
          same_text_refl w.error_code,
          same_text_refl w.error_message,
        )
        (ground arith)

  -- A success that passes its checks, is exactly the staged one, and finds the artifact verified in a
  -- persisting row, wins: the row has succeeded and keeps its result.
  pub commit_terminal-succeeds :
      (w : TerminalWrite V) (job : JobRecord V)
      → validate_terminal_write J w ≡ ok tt
      → validate_terminal_for_job J w job ≡ ok tt
      → w.state ≡ succeeded
      → job.pending_success ≡ some w
      → job.state ≡ persisting
      → artifact_verified J job ≡ true
      → let out = commit_terminal J w job in
        (out.1 ≡ ok (won out.0))
        × (out.0.state ≡ succeeded)
        × (out.0.terminal_result ≡ some w.result)
  unfolding commit_terminal terminal write_terminal is_terminal can_transition_to
  commit_terminal-succeeds w job good own kind staged at verified =
      let other : same_state w.state cancelled ≡ false = rw kind refl in
      let named : same_state w.state succeeded ≡ true = rw kind refl in
      let live : is_terminal job.state ≡ false = rw at refl in
      let may : can_transition_to job.state w.state ≡ true = rw (at, kind) refl in
      let same : same_option (same_write J) job.pending_success (some w) ≡ true =
        rw staged (same_write_refl w) in
      rw (commit_terminal, other, good, terminal, live, own, may, named, same, verified)
        (refl, kind, refl)
