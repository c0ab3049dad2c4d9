-- ===== src/Work/Schema.antt =====
-- The rows of backend/app/db.py that progress and the work timer read and write. An instant is a
-- number of microseconds in UTC; `as_utc` reads a datetime without a zone as UTC. A percentage is
-- in thousandths, so that a hundred is `full`; an effort of the analysis is in any unit, and what
-- remains of it in its hundred-thousandths, so that the product with a percentage is exact.
use canvas_watcher.Base.{
  ℕ, suc, ◌+◌, ◌-◌, max, Bool, Option, none, some, List, [], ◌∷◌, Text, leb, if◌then◌else◌,
}

pub data ℤ : Type 0 where
  pos negsuc : ℕ → ℤ

unfoldable pub minus : ℕ → ℕ → ℤ
minus a b = if leb b a then pos (a - b) else negsuc (b - a - 1)

unfoldable pub plus : ℕ → ℤ → ℤ
unfolding minus
plus a (pos b) = pos (a + b)
plus a (negsuc b) = minus a (suc b)

-- `max(0, value)`
abbrev pub clamp : ℤ → ℕ
clamp (pos a) = a
clamp (negsuc a) = 0

pub data TaskStatus : Type 0 where
  not_started in_progress ready_to_submit : TaskStatus
  other : Text → TaskStatus

pub record Task : Type 0 where
  pub id : ℕ
  pub submission_state : Option Text
  pub status : TaskStatus
  pub manual_time_adjustment_minutes : ℤ
  pub last_client_remaining_minutes : Option ℕ
  pub last_client_reported_at : Option ℕ
  pub local_completed : Bool
  pub local_completed_at : Option ℕ
  pub completion_origin : Option Text
  pub state_revision : ℕ

pub record TaskWorkSession : Type 0 where
  pub id : ℕ
  pub task_id : ℕ
  pub started_at : ℕ
  pub ended_at : Option ℕ
  pub duration_seconds : Option ℕ

pub record TaskProgress : Type 0 where
  pub id : ℕ
  pub task_id : ℕ
  pub status : TaskStatus
  pub progress_percent : Option ℕ
  pub recorded_at : ℕ

pub record TaskAnalysis : Type 0 where
  pub task_id : ℕ
  pub estimated_effort : ℕ
  pub remaining_effort : ℕ

pub record Db : Type 0 where
  pub tasks : List Task
  pub sessions : List TaskWorkSession
  pub progress : List TaskProgress
  pub analyses : List TaskAnalysis

pub data Error : Type 0 where
  value_error lookup_error runtime_error : Error

pub data Result {ℓ} (A : Type ℓ) : Type ℓ where
  ok : A → Result A
  err : Error → Result A

-- A datetime with or without a zone, in UTC.
pub data Stamp : Type 0 where
  zoned naive : ℕ → Stamp

abbrev pub full : ℕ
full = 100000

abbrev pub second : ℕ
second = 1000000

abbrev pub five_minutes : ℕ
five_minutes = 300000000

abbrev pub one_day : ℕ
one_day = 86400000000

-- The first row in the order of `after`, as `ORDER BY ... DESC LIMIT 1` fetches it.
unfoldable pub latest {ℓ} : {A : Type ℓ} → (A → A → Bool) → List A → Option A
latest after [] = none
latest after (x ∷ xs) = elim (latest after xs) [
  | none ↦ some x
  | some y ↦ if after x y then some x else some y
]

-- SQLite's next INTEGER PRIMARY KEY.
unfoldable pub next_id : List ℕ → ℕ
next_id [] = 1
next_id (id ∷ ids) = max (suc id) (next_id ids)
