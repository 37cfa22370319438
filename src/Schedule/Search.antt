-- ===== src/Schedule/Search.antt =====
-- The search of `next_after` in src/scheduler.rs, which has no bound of its own, over a cron library that keeps
-- its promises.
use camera_adapter.Base.{ℕ, ◌<◌, ◌≡◌, Bool, true, false, ◌&&◌, ltb}
use camera_adapter.Error.{Result, ok, err}
use camera_adapter.Schedule.{Cron}

-- What the code relies on: the library's search moves strictly forward and skips no instant that matches
-- the expression, and its test answers.
pub record Searches (c : Cron) (cursor : ℕ) : Type 0 where
  pub candidate : ℕ
  pub found : c.find_next_occurrence cursor ≡ ok candidate
  pub forward : cursor < candidate
  pub skips : (t : ℕ) → cursor < t → t < candidate → c.is_time_matching t ≡ ok false

pub record IsCron (c : Cron) : Type 0 where
  pub searches : (cursor : ℕ) → Searches c cursor
  pub answers : (t : ℕ) → (b : Bool) × (c.is_time_matching t ≡ ok b)

-- An instant at which the schedule fires.
abbrev fires_if : Result Bool → Bool → Bool
fires_if (err e) earlier = false
fires_if (ok matches) earlier = matches && earlier

abbrev pub fires : Cron → ℕ → Bool
fires c t = fires_if (c.is_time_matching t) (c.is_earlier_or_unambiguous t)

-- The first instant after the cursor at which the schedule fires.
pub record IsFirst (c : Cron) (cursor y : ℕ) : Type 0 where
  pub later : cursor < y
  pub fired : fires c y ≡ true
  pub first : (t : ℕ) → (ltb cursor t && (ltb t y && fires c t)) ≡ false
