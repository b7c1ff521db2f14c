-- ===== src/Orchestrator/Types.antt =====
-- The rows that the orchestrator works on (internal/server/store/jobs.go, internal/shared/status,
-- internal/server/orchestrator/resolver.go). Fields that no function here reads are left out.
use claude_plane.Base.{ℕ, String, Bool, true, false, Option, Map, ℤ}

-- The status of a step, by the strings of status.go that a run step takes.
pub data Status : Type 0 where
  pending running completed failed skipped cancelled : Status

abbrev pub is_pending : Status → Bool
is_pending pending = true
is_pending _ = false

abbrev pub is_running : Status → Bool
is_running running = true
is_running _ = false

abbrev pub is_failed : Status → Bool
is_failed failed = true
is_failed _ = false

abbrev pub is_completed : Status → Bool
is_completed completed = true
is_completed _ = false

-- One step of one run.
pub record RunStep : Type 0 where
  pub run_step_id : String
  pub step_id : String
  pub status : Status
  pub exit_code : Option ℤ
  pub delay_seconds_snapshot : ℤ
  pub session_key_snapshot : String
  pub run_if_snapshot : String
  pub max_retries_snapshot : ℤ
  pub retry_delay_seconds_snapshot : ℤ
  pub attempt : ℤ
  pub on_failure : String

-- An edge: `step_id` waits for `depends_on`.
pub record StepDependency : Type 0 where
  pub step_id : String
  pub depends_on : String

-- The configuration of a step, as a job declares it.
pub record Step : Type 0 where
  pub step_id : String
  pub name : String
  pub machine_id : String
  pub command : String
  pub task_type : String
  pub session_key : String
  pub run_if : String
  pub max_retries : ℤ
  pub retry_delay_seconds : ℤ
  pub target_job_id : String

pub record StepResult : Type 0 where
  pub status : Status
  pub exit_code : ℤ

pub record JobMeta : Type 0 where
  pub name : String
  pub run_id : String
  pub run_number : ℕ
  pub start_time : String
  pub trigger_type : String

pub record ResolveContext : Type 0 where
  pub run_params : Map String
  pub job_meta : JobMeta
  pub step_values : Map (Map String)
  pub step_results : Map StepResult
