-- ===== src/Orchestrator/Runner/Events.antt =====
-- The entry points of the runner (internal/server/orchestrator/dag_runner.go): Start, launchStep,
-- OnStepCompleted, the goroutine of a retry, and Cancel. Each is one step of the system: its parts
-- outside the mutex only read the runner, publish and call the executor. A delay is time between two
-- steps, so the timers of launches and retries have no clock here.
use claude_plane.Base.{
  suc, ◌++◌, String, Bool, true, false, not, ◌&&◌, ◌||◌, Option, none, some, List, [], ◌∷◌, ℤ, pos,
  is_zero, increment, int_leb, int_ltb, str_eq, if◌then◌else◌, ◌==◌, lookup, insert, Map, get_or,
}
use claude_plane.Orchestrator.Types.{
  Status, RunStep, pending, running, completed, failed, skipped, cancelled, is_pending, is_running,
}
use claude_plane.Orchestrator.Effects.{
  Effect, StepEvent, step_started, step_completed, step_failed, published, executed, run_completed,
}
use claude_plane.Orchestrator.Runner.{
  Runner, RunContext, can_launch, claim_session_key, release_session_key, close_done,
  update_run_step_in_db, update_run_step_attempt, build_resolve_context, put_status, mark_running,
  process_deferred_steps, StepResult,
}
use claude_plane.Orchestrator.Runner.Ready.{process_ready_dependents}

-- d.ctx != nil && d.ctx.Err() != nil
abbrev pub is_cancelled : RunContext → Bool
is_cancelled RunContext.cancelled = true
is_cancelled _ = false

abbrev pub emit : Effect → Runner → Runner
emit e r = record r { effects = r.effects ++ e ∷ [] }

unfoldable pub publish_step_event : StepEvent → String → String → Status → Runner → Runner
publish_step_event type run_step_id step_id status r = record r {
  effects =
      if r.has_publisher
      then r.effects ++ published type run_step_id step_id status ∷ []
      else r.effects;
}

-- launchStep: the event, then the executor with a snapshot of the run's values. With a delay the
-- executor is called later, and not at all once the context is cancelled; the call is logged here.
unfoldable pub launch_step : RunStep → Runner → Runner
unfolding publish_step_event
launch_step rs r =
    let resolve_ctx = build_resolve_context r in
    emit (executed rs resolve_ctx)
      (publish_step_event step_started rs.run_step_id rs.step_id running r)

unfoldable pub launch_steps : List RunStep → Runner → Runner
launch_steps [] r = r
launch_steps (rs ∷ rest) r = launch_steps rest (launch_step rs r)

-- The loop state of Start. A root that the map of steps does not hold is a nil dereference.
pub data StartScan : Type 0 where
  scanning : Runner → List RunStep → StartScan
  panicked : StartScan

unfoldable pub start_root : String → RunStep → Runner → List RunStep → StartScan
unfolding can_launch mark_running
start_root id rs r to_launch =
    if is_pending rs.status
    then if can_launch rs r
      then scanning (mark_running id rs r) (to_launch ++ record rs { status = running } ∷ [])
      else scanning (record r { deferred_steps = r.deferred_steps ++ id ∷ [] }) to_launch
    else scanning r to_launch

unfoldable pub start_entry : String → ℤ → Runner → List RunStep → StartScan
unfolding start_root
start_entry id deg r to_launch =
    if is_zero deg
    then elim (lookup id r.steps) [ none ↦ panicked | some rs ↦ start_root id rs r to_launch ]
    else scanning r to_launch

unfoldable pub start_scan : List (String × ℤ) → StartScan → StartScan
start_scan entries panicked = panicked
start_scan [] (scanning r to_launch) = scanning r to_launch
start_scan ((id, deg) ∷ rest) (scanning r to_launch) =
    start_scan rest (start_entry id deg r to_launch)

-- Start; `none` is the panic.
unfoldable pub start : Runner → Option Runner
start r = elim (start_scan r.in_degree (scanning (record r { ctx = RunContext.live }) [])) [
  | scanning r' to_launch ↦ some (launch_steps to_launch r')
  | panicked ↦ none
]

-- What OnStepCompleted leaves: the runner, and the copy of the step that a retry goroutine took.
pub record Completion : Type 0 where
  pub runner : Runner
  pub retry : Option RunStep

-- d.stepResults[stepName] = ..., if the step has a name.
unfoldable pub add_result : String → ℤ → Map StepResult → Map StepResult
add_result name exit_code results =
    if str_eq name ""
    then results
    else insert name
        (record { status = if is_zero exit_code then completed else failed; exit_code = exit_code })
        results

unfoldable pub record_result : String → ℤ → Runner → Runner
record_result step_id exit_code r = record r {
  step_results = add_result (get_or "" step_id r.step_names) exit_code r.step_results;
}

-- rs.Status and rs.ExitCode, with the write to the store.
unfoldable pub finish_step : String → RunStep → Status → ℤ → Runner → Runner
unfolding update_run_step_in_db
finish_step id rs status exit_code r =
    update_run_step_in_db rs.run_step_id status exit_code (record r {
      steps = insert id (record rs { status = status; exit_code = some exit_code }) r.steps;
    })

-- The body of the loop of `fail_run` over all steps.
unfoldable pub abandon_step : String → String → RunStep → Runner → Runner
unfolding put_status update_run_step_in_db
abandon_step failed_id id rs r =
    if is_pending rs.status
    then update_run_step_in_db rs.run_step_id skipped (pos 0) (put_status id rs skipped r)
    else if is_running rs.status && not (str_eq rs.step_id failed_id)
    then update_run_step_in_db rs.run_step_id cancelled (pos 0) (put_status id rs cancelled r)
    else r

-- `for _, s := range d.steps`: the entries are pointers, so each status is read when its turn comes.
unfoldable pub abandon_steps : String → List (String × RunStep) → Runner → Runner
unfolding abandon_step
abandon_steps failed_id [] r = r
abandon_steps failed_id ((id, _) ∷ rest) r =
    abandon_steps failed_id rest
      (elim (lookup id r.steps) [ none ↦ r | some rs ↦ abandon_step failed_id id rs r ])

-- if d.onRunComplete != nil, the callback, after the lock.
unfoldable pub complete_run : Status → Runner → Runner
complete_run status r = record r {
  effects =
      if r.has_on_complete then r.effects ++ run_completed r.run_id status ∷ [] else r.effects;
}

-- The branch of `fail_run`: the rest of the run is abandoned and its context cancelled.
unfoldable pub fail_run : String → RunStep → Runner → Runner
fail_run step_id rs r =
    let r' = abandon_steps step_id r.steps r in
    complete_run failed (
      publish_step_event step_failed rs.run_step_id step_id failed
        (close_done (record r' { ctx = RunContext.cancelled })))

abbrev pub outcome_event : Bool → StepEvent
outcome_event true = step_failed
outcome_event false = step_completed

abbrev pub outcome_status : Bool → Status
outcome_status true = failed
outcome_status false = completed

-- From `d.completed++` to the end: dependents, deferred steps, the end of the run, launches.
unfoldable pub settle_step : String → RunStep → Bool → Runner → Runner
settle_step step_id rs has_failed r =
    let w =
      process_ready_dependents step_id has_failed (record r { completed = suc r.completed }) [] in
    let (r', to_launch) = process_deferred_steps w.runner w.to_launch in
    let published_run =
      publish_step_event (outcome_event has_failed) rs.run_step_id step_id
        (outcome_status has_failed) in
    if r'.completed == r'.total
    then complete_run (outcome_status (r'.failed || has_failed)) (published_run (close_done r'))
    else launch_steps to_launch (published_run r')

-- `rs.MaxRetriesSnapshot > 0 && rs.Attempt <= rs.MaxRetriesSnapshot`
abbrev pub can_retry : RunStep → Bool
can_retry rs = int_ltb (pos 0) rs.max_retries_snapshot && int_leb rs.attempt rs.max_retries_snapshot

-- A failure with a retry left: the attempt is counted, and a goroutine gets a copy of the step.
unfoldable pub schedule_retry : String → RunStep → ℤ → Runner → Completion
schedule_retry step_id rs exit_code r =
    let rs' = record rs {
      status = failed;
      exit_code = some exit_code;
      attempt = increment rs.attempt;
    } in
    record {
      runner = publish_step_event step_failed rs.run_step_id step_id failed (
          update_run_step_attempt rs.run_step_id rs'.attempt
            (record r { steps = insert step_id rs' r.steps }));
      retry = some rs';
    }

-- A failure with no retry left.
unfoldable pub fail_step : String → RunStep → Runner → Runner
fail_step step_id rs r =
    let r' = record r { failed = true } in
    if str_eq rs.on_failure "fail_run"
    then fail_run step_id rs r'
    else settle_step step_id rs true r'

-- OnStepCompleted, past its two early returns.
unfoldable pub complete_step : String → RunStep → ℤ → Runner → Completion
complete_step step_id rs exit_code r =
    let r' = release_session_key rs (record_result step_id exit_code r) in
    if is_zero exit_code
    then record {
      runner = settle_step step_id rs false (finish_step step_id rs completed (pos 0) r');
      retry = none;
    }
    else (let failed_run = finish_step step_id rs failed exit_code r' in
        if can_retry rs
        then schedule_retry step_id rs exit_code failed_run
        else record { runner = fail_step step_id rs failed_run; retry = none })

unfoldable pub on_step_completed : String → ℤ → Runner → Completion
on_step_completed step_id exit_code r =
    if is_cancelled r.ctx
    then record { runner = r; retry = none }
    else elim (lookup step_id r.steps) [
      | none ↦ record { runner = r; retry = none }
      | some rs ↦ complete_step step_id rs exit_code r
    ]

-- d.steps[id].Status = status. The entry is there whenever a retry was scheduled.
unfoldable pub overwrite_status : String → Status → Runner → Runner
unfolding put_status
overwrite_status id status r = elim (lookup id r.steps) [
  | none ↦ r
  | some rs ↦ put_status id rs status r
]

-- The retry goroutine, once its timer has fired; `copy` is the step as OnStepCompleted left it.
unfoldable pub run_retry : RunStep → Runner → Runner
unfolding can_launch claim_session_key overwrite_status update_run_step_in_db
run_retry copy r =
    if is_cancelled r.ctx
    then r
    else if not (str_eq copy.session_key_snapshot "") && not (can_launch copy r)
    then (let r' = overwrite_status copy.step_id pending r in
        record r' { deferred_steps = r'.deferred_steps ++ copy.step_id ∷ [] })
    else (let copy' = record copy { status = running } in
        let r' =
          update_run_step_in_db copy.run_step_id running (pos 0)
            (overwrite_status copy.step_id running (claim_session_key copy r)) in
        emit (executed copy' (build_resolve_context r')) r')

-- Before Start there is no context to cancel.
abbrev pub stop_context : RunContext → RunContext
stop_context RunContext.unset = RunContext.unset
stop_context _ = RunContext.cancelled

-- Cancel
unfoldable pub cancel : Runner → Runner
unfolding close_done
cancel r = close_done (record r { ctx = stop_context r.ctx })
