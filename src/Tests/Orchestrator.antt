-- ===== src/Tests/Orchestrator.antt =====
-- A run with two steps under one session key and a step that waits for both, and a run that is
-- rebuilt (internal/server/orchestrator).
use claude_plane.Orchestrator.Runner.{
  Runner, new_dag_runner, Collaborators, index_steps, zero_degrees, index_dependents, count_degrees,
  release_session_key, process_deferred_steps, close_done, deferred_step, update_run_step_attempt,
}
use claude_plane.Orchestrator.Runner.Events.{
  start, on_step_completed, start_scan, start_entry, launch_steps, launch_step, complete_step,
  record_result, add_result, finish_step, settle_step, publish_step_event, complete_run, fail_step,
  schedule_retry,
}
use claude_plane.Orchestrator.System.{
  System, Reach, next, here, starts, fresh, after_completion, completes,
}
use claude_plane.Base.Int.{pos}
use claude_plane.Orchestrator.Types.{
  JobMeta, Status, StepDependency, RunStep, running, failed, pending, completed, skipped,
}
use claude_plane.Base.{
  Option, List, String, ◌≡◌, true, some, [], ◌∷◌, none, map, false, ◌≢◌, arith, lookup, eq_iff,
  insert, delete, refl, All, ◌+◌, ◌<◌, length,
}
use claude_plane.Orchestrator.System.Runs.{
  built, session_keys_exclusive, rebuilt, complete_run_is_over, retries_are_failed,
  rebuilt_run_never_completes, completed_count,
}
use claude_plane.Orchestrator.Runner.Ready.{process_ready_dependents, visit_dependent}
use claude_plane.Orchestrator.Runner.Moves.Completion.{finished_as}
use claude_plane.Orchestrator.Runner.Ready.Ends.{process_ready_dependents_ends}
use claude_plane.Orchestrator.Rebuild.{
  rebuild_runner, resume_steps, resume_step, count_down_dependents,
}
use claude_plane.Orchestrator.System.Initial.{NoneRuns}
use claude_plane.Orchestrator.Runner.Progress.{LaterEntry}
use claude_plane.Orchestrator.System.Waits.{Waiting, Distinct}
use claude_plane.Orchestrator.System.Account.{is_over, over_count}
use claude_plane.Orchestrator.Runner.Moves.Quiet.{declared}
use claude_plane.Orchestrator.Runner.Progress.Completion.{on_step_completed_statuses}

abbrev step_row : String → String → Status → RunStep
step_row id key status = record {
  run_step_id = id;
  step_id = id;
  status = status;
  exit_code = none;
  delay_seconds_snapshot = pos 0;
  session_key_snapshot = key;
  run_if_snapshot = "all_success";
  max_retries_snapshot = pos 0;
  retry_delay_seconds_snapshot = pos 0;
  attempt = pos 1;
  on_failure = "continue";
}

abbrev sample_meta : JobMeta
sample_meta = record {
  name = "job";
  run_id = "run";
  run_number = 1;
  start_time = "";
  trigger_type = "manual";
}

abbrev edge : String → String → StepDependency
edge a b = record { step_id = a; depends_on = b }

abbrev sample_rows : List RunStep
sample_rows =
    step_row "a" "k" pending
    ∷ step_row "b" "k" pending
    ∷ step_row "c" "" pending
    ∷ step_row "d" "m" pending
    ∷ []

abbrev sample_deps : List StepDependency
sample_deps = edge "c" "a" ∷ edge "c" "b" ∷ []

abbrev everything : Collaborators
everything = record { store = true; publisher = true; on_complete = true }

abbrev sample_system : System
sample_system = built "run" "job" sample_rows sample_deps everything [] sample_meta []

abbrev statuses : Runner → List (String × Status)
statuses r = map (λ (p : String × RunStep). (p.0, p.1.status)) r.steps

abbrev or_self : Runner → Option Runner → Runner
or_self r none = r
or_self r (some r') = r'

abbrev started : Runner
started = or_self sample_system.runner (start sample_system.runner)

-- The definitions that a test computes with.
run_code : Unit {0}
unfolding new_dag_runner index_steps zero_degrees index_dependents count_degrees start start_scan
    start_entry launch_steps launch_step on_step_completed complete_step record_result add_result
    finish_step release_session_key settle_step process_ready_dependents process_deferred_steps
    publish_step_event close_done complete_run fail_step deferred_step visit_dependent lookup insert
    delete schedule_retry update_run_step_attempt rebuild_runner resume_steps resume_step
    count_down_dependents
run_code = tt

started-statuses :
    statuses started ≡ ("a", running) ∷ ("b", pending) ∷ ("c", pending) ∷ ("d", running) ∷ []
unfolding run_code
started-statuses = refl

-- The failure of "a" frees the key for "b".
after_a : Runner
after_a = (on_step_completed "a" (pos 1) started).runner

after_a-statuses :
    statuses after_a ≡ ("a", failed) ∷ ("b", running) ∷ ("c", pending) ∷ ("d", running) ∷ []
unfolding run_code after_a
after_a-statuses = refl

finished : Runner
unfolding after_a
finished = (on_step_completed "b" (pos 0) after_a).runner

finished-statuses :
    statuses finished ≡ ("a", failed) ∷ ("b", completed) ∷ ("c", skipped) ∷ ("d", running) ∷ []
unfolding run_code finished
finished-statuses = refl

finished_open : finished.done_closed ≡ false
unfolding run_code finished
finished_open = refl

started-Reach : Reach sample_system (fresh started)
unfolding run_code
started-Reach = next here (starts started refl refl)

sample_idle : NoneRuns sample_rows
sample_idle = (refl, (refl, (refl, (refl, tt))))

session_keys_exclusive_example : ◌≢◌ {A = String} "k" "m"
unfolding run_code
session_keys_exclusive_example =
    session_keys_exclusive "run" "job" sample_rows sample_deps everything [] sample_meta [] "a" "d"
      (step_row "a" "k" running) (step_row "d" "m" running) sample_idle started-Reach
      (λ e. ground (arith, eq_iff "a" "d")) refl refl refl refl (λ e. ground (arith, eq_iff "k" ""))

-- A run of one step that may be tried twice.
abbrev retry_rows : List RunStep
retry_rows = record (step_row "a" "k" pending) { max_retries_snapshot = pos 1 } ∷ []

abbrev retry_system : System
retry_system = built "run" "job" retry_rows [] everything [] sample_meta []

abbrev retry_started : System
retry_started = fresh (or_self retry_system.runner (start retry_system.runner))

abbrev retry_running : RunStep
retry_running = record (step_row "a" "k" running) { max_retries_snapshot = pos 1 }

retry_started-Reach : Reach retry_system retry_started
unfolding run_code
retry_started-Reach = next here (starts retry_started.runner refl refl)

-- It fails, and waits for its second attempt.
retry_waits_Reach : Reach retry_system (after_completion "a" (pos 1) retry_started)
unfolding run_code
retry_waits_Reach = next retry_started-Reach (completes "a" retry_running (pos 1) refl refl)

-- It succeeds at once.
retry_done_Reach : Reach retry_system (after_completion "a" (pos 0) retry_started)
unfolding run_code
retry_done_Reach = next retry_started-Reach (completes "a" retry_running (pos 0) refl refl)

retries_are_failed_example :
    All
      (Waiting (after_completion "a" (pos 1) retry_started).runner.steps)
      (after_completion "a" (pos 1) retry_started).retries
    × Distinct (after_completion "a" (pos 1) retry_started).retries
retries_are_failed_example =
    retries_are_failed "run" "job" retry_rows [] everything [] sample_meta [] (refl, tt)
      retry_waits_Reach

completed_count_example :
    (after_completion "a" (pos 1) retry_started).runner.completed
      + length (after_completion "a" (pos 1) retry_started).retries
    ≡ over_count (after_completion "a" (pos 1) retry_started).runner.steps
unfolding run_code
completed_count_example =
    completed_count "run" "job" retry_rows [] everything [] sample_meta [] (refl, tt) refl
      retry_waits_Reach refl

complete_run_is_over_example :
    (declared (after_completion "a" (pos 0) retry_started).runner ≡ 1)
    × (0 < declared (after_completion "a" (pos 0) retry_started).runner
        → ((after_completion "a" (pos 0) retry_started).retries ≡ [])
          × ((id : String) (rs : RunStep)
              → lookup id (after_completion "a" (pos 0) retry_started).runner.steps ≡ some rs
              → is_over rs ≡ true))
unfolding run_code
complete_run_is_over_example =
    complete_run_is_over "run" "job" retry_rows [] everything [] sample_meta [] (refl, tt) refl
      (omega arith) retry_done_Reach refl

-- A failed step beside a step that is retried.
abbrev stale_rows : List RunStep
stale_rows = step_row "a" "" failed ∷ step_row "b" "" pending ∷ []

abbrev stale_system : System
stale_system = rebuilt "run" "job" stale_rows [] everything [] sample_meta []

abbrev stale_started : System
stale_started = fresh (or_self stale_system.runner (start stale_system.runner))

stale_Reach : Reach stale_system (after_completion "b" (pos 0) stale_started)
unfolding run_code
stale_Reach =
    next (next here (starts stale_started.runner refl refl))
      (completes "b" (step_row "b" "" running) (pos 0) refl refl)

-- The retried step succeeds, nothing runs or waits any more, and the run stays open.
rebuilt_run_never_completes_example :
    (after_completion "b" (pos 0) stale_started).runner.completed
    < (after_completion "b" (pos 0) stale_started).runner.total
unfolding run_code
rebuilt_run_never_completes_example =
    rebuilt_run_never_completes "run" "job" stale_rows [] everything [] sample_meta []
      (refl, (refl, tt)) (((λ e. ground (arith, eq_iff "a" "b")), tt), (tt, tt)) (omega arith)
      stale_Reach refl

process_ready_dependents_ends_example : (process_ready_dependents "a" true started []).queue ≡ []
process_ready_dependents_ends_example = process_ready_dependents_ends "a" true started []

on_step_completed_statuses_example :
    (lookup "a" (on_step_completed "a" (pos 1) started).runner.steps
      ≡ some (finished_as (step_row "a" "k" running) (pos 1)))
    × ((j : String)
        → "a" ≢ j
        → LaterEntry
            (lookup j started.steps)
            (lookup j (on_step_completed "a" (pos 1) started).runner.steps))
unfolding run_code
on_step_completed_statuses_example =
    on_step_completed_statuses "a" (step_row "a" "k" running) (pos 1) started refl refl
