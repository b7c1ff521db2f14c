-- ===== src/Orchestrator/System.antt =====
-- A run as a system of interleaved steps (internal/server/orchestrator/dag_runner.go): the runner,
-- and the goroutines that wait to retry a step. Each step of the relation is one critical section of
-- the runner's mutex with the calls around it; any order of the steps is possible, since delays and
-- executions take any time. The executor is outside the code: it reports the end of each execution
-- once, so a completion is of a step that runs.
pub mod Waits
pub mod Invariant
pub mod Account
pub mod Declared
pub mod Unmoved
pub mod Initial
pub mod Runs
use claude_plane.Base.{◌++◌, ◌≡◌, String, true, Option, none, some, List, [], ◌∷◌, Map, ℤ, lookup}
use claude_plane.Orchestrator.Types.{RunStep, is_running}
use claude_plane.Orchestrator.Runner.{Runner, RunContext, set_step_values}
use claude_plane.Orchestrator.Runner.Events.{start, on_step_completed, run_retry, cancel}

pub record System : Type 0 where
  pub runner : Runner
  -- the copies of the steps that wait for their retry
  pub retries : List RunStep

abbrev pub add_retry : Option RunStep → List RunStep → List RunStep
add_retry none retries = retries
add_retry (some copy) retries = copy ∷ retries

abbrev pub after_completion : String → ℤ → System → System
after_completion id exit_code s = record {
  runner = (on_step_completed id exit_code s.runner).runner;
  retries = add_retry (on_step_completed id exit_code s.runner).retry s.retries;
}

pub data Transition (s : System) : System → Type 0 where
  starts :
      (r : Runner)
      → s.runner.ctx ≡ RunContext.unset
      → start s.runner ≡ some r
      → Transition s (record s { runner = r })
  completes :
      (id : String) (rs : RunStep) (exit_code : ℤ)
      → lookup id s.runner.steps ≡ some rs
      → is_running rs.status ≡ true
      → Transition s (after_completion id exit_code s)
  retries :
      (before : List RunStep) (copy : RunStep) (after : List RunStep)
      → s.retries ≡ before ++ (copy ∷ after)
      → Transition s (record { runner = run_retry copy s.runner; retries = before ++ after })
  sets_values :
      (name : String) (values : Map String)
      → Transition s (record s { runner = set_step_values name values s.runner })
  cancels : Transition s (record s { runner = cancel s.runner })

pub data Reach (s : System) : System → Type 0 where
  here : Reach s s
  next : {t u : System} → Reach s t → Transition t u → Reach s u

-- A runner that has just been built; nothing waits.
abbrev pub fresh : Runner → System
fresh r = record { runner = r; retries = [] }
