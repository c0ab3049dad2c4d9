-- ===== src/Analysis/Schema.antt =====
-- backend/app/db.py: the rows that the queue of analyses reads and writes. Instants are seconds.
use canvas_watcher.Base.{
  ℕ, Bool, true, false, Option, List, Text, ◌==◌, text_eq, nat_eq, if◌then◌else◌,
}
use canvas_watcher.Changes.Json.{Json, Fields, end_fields, field}

-- The values of `AnalysisJob.kind`; the code refuses any other one.
pub data Kind : Type 0 where
  task_effort change_importance assignment_summary other_kind : Kind

pub data State : Type 0 where
  pending reviewing waiting_ai ready failed superseded : State

abbrev pub same_kind : Kind → Kind → Bool
same_kind task_effort task_effort = true
same_kind change_importance change_importance = true
same_kind assignment_summary assignment_summary = true
same_kind other_kind other_kind = true
same_kind _ _ = false

abbrev pub is_pending : State → Bool
is_pending pending = true
is_pending _ = false

abbrev pub is_reviewing : State → Bool
is_reviewing reviewing = true
is_reviewing _ = false

abbrev pub is_waiting : State → Bool
is_waiting waiting_ai = true
is_waiting _ = false

abbrev pub is_failed : State → Bool
is_failed failed = true
is_failed _ = false

pub record Job : Type 0 where
  pub id : ℕ
  pub kind : Kind
  pub entity_id : ℕ
  pub input_hash : Text
  pub state : State
  pub attempts : ℕ
  pub last_error : Option Text
  pub updated_at : ℕ

pub data Status : Type 0 where
  status_pending status_reviewing status_ready status_failed suppressed : Status

pub record TaskAnalysis : Type 0 where
  pub task_id : ℕ
  pub classification : Text
  pub analysis_status : Status
  pub input_hash : Option Text
  pub analysis_json : Fields

pub record ChangeAnalysis : Type 0 where
  pub change_event_id : ℕ
  pub input_hash : Text
  pub analysis_status : Status
  pub analysis_json : Fields
  pub requires_action : Bool
  pub reason : Text
  pub recommended_action : Option Text

-- The jobs stand in the order of `created_at` and `id`.
pub record Store : Type 0 where
  pub jobs : List Job
  pub tasks : List TaskAnalysis
  pub changes : List ChangeAnalysis

-- UPDATE of a row by the session, with `onupdate`.
abbrev pub touched : ℕ → Job → Job
touched now j = record j { updated_at = now }

-- `{**values, key: value}`
unfoldable pub put : Text → Json → Fields → Fields
put key value end_fields = field key value end_fields
put key value (field k x fs) =
    let rest = put key value fs in if k == key then field k value fs else field k x rest
