-- ===== src/Orchestrator/Effects.antt =====
-- What the runner does to the world (internal/server/orchestrator/dag_runner.go): writes to the
-- store, events, launches of the executor, and the callback at the end of the run. Each call is
-- one entry of a log; a failed write is only logged by the program, so no result comes back.
use claude_plane.Base.{String, ℤ}
use claude_plane.Orchestrator.Types.{Status, RunStep, ResolveContext}

pub data StepEvent : Type 0 where
  step_started step_completed step_failed : StepEvent

pub data Effect : Type 0 where
  -- UpdateRunStepStatus(run_step_id, status, exit_code)
  wrote_status : String → Status → ℤ → Effect
  -- UpdateRunStepAttempt(run_step_id, attempt)
  wrote_attempt : String → ℤ → Effect
  -- NewRunStepEvent(type, run_step_id, step_id, status)
  published : StepEvent → String → String → Status → Effect
  -- ExecuteStep(run step, resolve context)
  executed : RunStep → ResolveContext → Effect
  -- onRunComplete(run_id, status)
  run_completed : String → Status → Effect
