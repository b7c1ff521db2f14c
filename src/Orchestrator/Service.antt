-- ===== src/Orchestrator/Service.antt =====
-- Orchestrator (internal/server/orchestrator/orchestrator.go): the runs in progress, and the requests that
-- create, retry, repair and cancel them. A request is cut where it holds the mutex. What the store
-- answers is an argument; what it is told with success, and the events, are a log; JSON is an argument.
pub mod Requests
pub mod Parameters
pub mod Reset
pub mod Retried
pub mod Placed
pub mod Slots
pub mod Served
use claude_plane.Base.{
  ℕ, suc, String, Bool, true, false, ◌&&◌, ◌||◌, not, Option, some, none, List, [], ◌∷◌, ◌++◌, Map,
  ℤ, pos, int_ltb, int_leb, lookup, insert, delete, has, tally, str_eq, if◌then◌else◌, get_or,
}
use claude_plane.Orchestrator.Types.{
  Status, pending, running, failed, cancelled, Step, StepDependency, RunStep, JobMeta, is_pending,
  is_running, is_failed, is_completed,
}
use claude_plane.Orchestrator.Runner.{Runner, Collaborators, new_dag_runner}
use claude_plane.Orchestrator.Runner.Events.{start, cancel, on_step_completed}
use claude_plane.Orchestrator.Rebuild.{rebuild_runner}
use claude_plane.Orchestrator.Dag.{validate_dag}

pub data RunEvent : Type 0 where
  run_created run_started run_ended run_failed run_was_cancelled : RunEvent

pub data ServiceCall : Type 0 where
  -- store: CreateRun(job, trigger, detail, parameters), InsertRunSteps, UpdateRunStatus
  stored_run : String → String → String → String → ServiceCall
  stored_run_steps : String → ServiceCall
  wrote_run_status : String → Status → ServiceCall
  wrote_run_parameters : String → String → ServiceCall
  -- store, by run step: the status with exit code 0, the attempt, the task values
  wrote_step_status : String → Status → ServiceCall
  wrote_step_attempt : String → ℕ → ServiceCall
  cleared_task_values : String → ServiceCall
  -- NewRunEvent(type, run, job, status, trigger, job name)
  published_run : RunEvent → String → String → Status → String → String → ServiceCall
  -- executor: CleanupRunSessions(run)
  cleaned_sessions : String → ServiceCall
  -- Cancel of the runner of a run that leaves the map
  cancelled_runner : String → ServiceCall

-- An entry of activeRuns: the runner's jobID, and the runner, or none for a reservation.
pub record ActiveRun : Type 0 where
  pub job_id : String
  pub runner : Option Runner

pub record Orchestrator : Type 0 where
  pub active_runs : Map ActiveRun
  pub has_publisher : Bool
  pub calls : List ServiceCall

pub record JobRow : Type 0 where
  pub name : String
  pub max_concurrent_runs : ℤ
  pub parameters : String

pub record RunRow : Type 0 where
  pub run_id : String
  pub job_id : String
  pub status : Status
  pub trigger_type : String
  pub parameters : String
  pub created_at : String

unfoldable pub new_orchestrator : Orchestrator
new_orchestrator = record { active_runs = []; has_publisher = false; calls = [] }

-- SetPublisher
unfoldable pub set_publisher : Bool → Orchestrator → Orchestrator
set_publisher has_publisher o = record o { has_publisher = has_publisher }

unfoldable pub record_call : ServiceCall → Orchestrator → Orchestrator
record_call c o = record o { calls = o.calls ++ (c ∷ []) }

unfoldable pub publish_run :
    RunEvent → String → String → Status → String → String → Orchestrator → Orchestrator
unfolding record_call
publish_run event run_id job_id status trigger job_name o =
    if o.has_publisher
    then record_call (published_run event run_id job_id status trigger job_name) o
    else o

-- buildOnComplete: the callback at the end of a run.
unfoldable pub on_complete :
    String → String → String → String → Status → Orchestrator → Orchestrator
unfolding record_call publish_run
on_complete job_id trigger job_name run_id status o =
    let p =
      record_call (wrote_run_status run_id status) (record_call (cleaned_sessions run_id) o) in
    publish_run (if is_failed status then run_failed else run_ended) run_id job_id status trigger
      job_name (record p { active_runs = delete run_id p.active_runs })

unfoldable pub count_active_runs_for_job : String → Map ActiveRun → ℕ
count_active_runs_for_job job_id = tally (λ a. str_eq a.job_id job_id)

-- The errors of CreateRun.
pub data CreateError : Type 0 where
  get_job_failed : CreateError
  max_concurrent_runs : CreateError
  get_steps_failed : CreateError
  invalid_dag : CreateError
  marshal_failed : CreateError
  create_run_failed : CreateError
  insert_steps_failed : CreateError
  get_run_steps_failed : CreateError

pub data Reservation : Type 0 where
  refused : CreateError → Reservation
  reserved : JobRow → Reservation

-- CreateRun, to the end of its first critical section, with the answer of GetJob and the new key.
unfoldable pub reserve_run :
    Option JobRow → String → String → Orchestrator → Reservation × Orchestrator
unfolding count_active_runs_for_job
reserve_run none job_id key o = (refused get_job_failed, o)
reserve_run (some job) job_id key o =
    if int_ltb (pos 0) job.max_concurrent_runs
      && int_leb job.max_concurrent_runs (pos (count_active_runs_for_job job_id o.active_runs))
    then (refused max_concurrent_runs, o)
    else (
      reserved job,
      record o {
        active_runs = insert key (record { job_id = job_id; runner = none }) o.active_runs;
      },
    )

unfoldable pub remove_reservation : String → Orchestrator → Orchestrator
remove_reservation key o = record o { active_runs = delete key o.active_runs }

-- for k, v := range overrides: only keys of the defaults are taken
unfoldable pub apply_overrides : Map String → Map String → Map String
apply_overrides [] defaults = defaults
apply_overrides ((k, v) ∷ overrides) defaults =
    apply_overrides overrides (if has k defaults then insert k v defaults else defaults)

-- resolveParameters, with what json.Unmarshal makes of a text (and whether it reports an error)
unfoldable pub resolve_parameters : (String → Map String × Bool) → String → Map String → Map String
unfolding apply_overrides
resolve_parameters decode defaults overrides =
    apply_overrides overrides (if str_eq defaults "" then [] else (decode defaults).0)

-- What the store and the encoder answer to the rest of CreateRun; false and none for an error.
pub record CreateAnswers : Type 0 where
  pub steps_with_deps : Option (List Step × List StepDependency)
  pub params_json : Option String
  pub run : Option RunRow
  pub steps_inserted : Bool
  pub run_steps : Option (List RunStep)
  pub run_number : Option ℕ

-- The request: the job, the trigger, its detail, and the overrides.
pub record CreateRequest : Type 0 where
  pub job_id : String
  pub trigger_type : String
  pub trigger_detail : String
  pub overrides : Map String

pub data CreateOutcome : Type 0 where
  created : RunRow → CreateOutcome
  not_created : CreateError → CreateOutcome

unfoldable pub step_name_map : List Step → Map String → Map String
step_name_map [] m = m
step_name_map (s ∷ rest) m = step_name_map rest (insert s.step_id s.name m)

-- Start, on a runner that has just been built.
unfoldable pub started : Runner → Runner
started r = elim (start r) [ none ↦ r | some r' ↦ r' ]

module _ (decode : String → Map String × Bool) (with_calls : Collaborators) (req : CreateRequest)
    (job : JobRow) (key : String) (a : CreateAnswers) where
  -- From the new runner on: it takes the place of the reservation, and starts.
  unfoldable pub launch_run :
      RunRow → List Step → List StepDependency → List RunStep → Orchestrator → Orchestrator
  unfolding resolve_parameters step_name_map started record_call publish_run
  launch_run run steps deps run_steps o =
      let runner = started (
        new_dag_runner run.run_id req.job_id run_steps deps with_calls
          (resolve_parameters decode job.parameters req.overrides)
          (record {
            name = job.name;
            run_id = run.run_id;
            run_number = elim a.run_number [ none ↦ 0 | some n ↦ n ];
            start_time = run.created_at;
            trigger_type = req.trigger_type;
          })
          (step_name_map steps [])) in
      let p = record o {
        active_runs =
            insert run.run_id (record { job_id = req.job_id; runner = some runner })
              (delete key o.active_runs);
      } in
      publish_run run_started run.run_id req.job_id running req.trigger_type job.name
        (record_call (wrote_run_status run.run_id running) p)

  unfoldable pub snapshot_steps :
      RunRow → List Step → List StepDependency → Orchestrator → CreateOutcome × Orchestrator
  unfolding launch_run remove_reservation record_call
  snapshot_steps run steps deps o =
      if a.steps_inserted
      then (let p = record_call (stored_run_steps run.run_id) o in
          elim a.run_steps [
            | none ↦ (not_created get_run_steps_failed, remove_reservation key p)
            | some run_steps ↦ (created run, launch_run run steps deps run_steps p)
          ])
      else (not_created insert_steps_failed, remove_reservation key o)

  unfoldable pub store_run :
      List Step → List StepDependency → Orchestrator → CreateOutcome × Orchestrator
  unfolding snapshot_steps remove_reservation record_call publish_run
  store_run steps deps o = elim a.params_json [
    | none ↦ (not_created marshal_failed, remove_reservation key o)
    | some json ↦ elim a.run [
      | none ↦ (not_created create_run_failed, remove_reservation key o)
      | some run ↦ snapshot_steps run steps deps (
          publish_run run_created run.run_id req.job_id pending req.trigger_type job.name
            (record_call (stored_run req.job_id req.trigger_type req.trigger_detail json) o))
    ]
  ]

  -- CreateRun, after its first critical section.
  unfoldable pub create_reserved_run : Orchestrator → CreateOutcome × Orchestrator
  unfolding store_run remove_reservation
  create_reserved_run o = elim a.steps_with_deps [
    | none ↦ (not_created get_steps_failed, remove_reservation key o)
    | some (steps, deps) ↦
        if validate_dag steps deps
        then store_run steps deps o
        else (not_created invalid_dag, remove_reservation key o)
  ]
