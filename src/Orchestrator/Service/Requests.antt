-- ===== src/Orchestrator/Service/Requests.antt =====
-- RetryStep, RepairRun, CancelRun and OnStepCompleted of the Orchestrator
-- (internal/server/orchestrator/orchestrator.go). `fails` tells which calls of the store report an error.
use claude_plane.Base.{
  ℕ, zero, suc, String, Bool, true, false, ◌&&◌, ◌||◌, not, Option, some, none, List, [], ◌∷◌, ◌++◌,
  Map, lookup, insert, delete, has, get_or, str_eq, if◌then◌else◌, length, ◌==◌, ℤ,
}
use claude_plane.Orchestrator.Types.{
  Status, pending, running, skipped, failed, cancelled, Step, StepDependency, RunStep, is_pending,
  is_running, is_failed,
}
use claude_plane.Orchestrator.Runner.{Collaborators, index_dependents}
use claude_plane.Orchestrator.Runner.Events.{on_step_completed}
use claude_plane.Orchestrator.Rebuild.{rebuild_runner}
use claude_plane.Orchestrator.Service.{
  ServiceCall, Orchestrator, JobRow, RunRow, record_call, publish_run, apply_overrides, started,
  step_name_map, wrote_step_status, cancelled_runner, wrote_run_status, cleaned_sessions,
  wrote_step_attempt, run_was_cancelled, cleared_task_values, wrote_run_parameters,
}

abbrev pub is_cancelled : Status → Bool
is_cancelled cancelled = true
is_cancelled _ = false

-- The variables of RetryStep's search: toReset and queue.
pub record Search : Type 0 where
  pub to_reset : Map Bool
  pub queue : List String

unfoldable pub reach_dependents : List String → Search → Search
reach_dependents [] s = s
reach_dependents (dep ∷ rest) s = reach_dependents rest (
    if get_or false dep s.to_reset
    then s
    else record { to_reset = insert dep true s.to_reset; queue = s.queue ++ (dep ∷ []) })

unfoldable pub search_loop : Map (List String) → ℕ → Search → Search
unfolding reach_dependents
search_loop dependents zero s = s
search_loop dependents (suc fuel) s = elim s.queue [
  | [] ↦ s
  | curr ∷ rest ↦
      search_loop dependents fuel
        (reach_dependents (get_or [] curr dependents) (record s { queue = rest }))
]

-- The steps that RetryStep resets. Each round but the first is for the end of an edge, once.
unfoldable pub steps_to_reset : String → List StepDependency → Search
unfolding search_loop index_dependents
steps_to_reset step_id deps =
    search_loop (index_dependents deps []) (suc (suc (length deps)))
      (record { to_reset = (step_id, true) ∷ []; queue = step_id ∷ [] })

unfoldable pub is_resettable : Status → Bool
is_resettable failed = true
is_resettable skipped = true
is_resettable cancelled = true
is_resettable _ = false

pub data RequestError : Type 0 where
  read_failed : RequestError
  write_failed : RequestError
  invalid_run_state : RequestError

-- A call of the store: whether it succeeds, and the log with it if it does.
unfoldable pub write_call : (ServiceCall → Bool) → ServiceCall → Orchestrator → Bool × Orchestrator
unfolding record_call
write_call fails c o = if fails c then (false, o) else (true, record_call c o)

-- The writes for one row, up to the first that fails; RepairRun clears the task values too.
unfoldable pub reset_row :
    (ServiceCall → Bool) → (clears : Bool) → RunStep → Orchestrator → Bool × Orchestrator
unfolding write_call
reset_row fails clears rs o =
    let (a, p) = write_call fails (wrote_step_status rs.run_step_id pending) o in
    let (b, q) = write_call fails (wrote_step_attempt rs.run_step_id 1) p in
    let (c, r) = write_call fails (cleared_task_values rs.run_step_id) q in
    if not a
    then (false, o)
    else if not b
    then (false, p)
    else if not clears
    then (true, q)
    else (c, r)

unfoldable pub reset_rows :
    (ServiceCall → Bool)
    → (clears : Bool) → (RunStep → Bool)
    → List RunStep
    → Orchestrator
    → Bool × Orchestrator
unfolding reset_row
reset_rows fails clears select [] o = (true, o)
reset_rows fails clears select (rs ∷ rest) o =
    let (ok, p) = (if select rs then reset_row fails clears rs o else (true, o)) in
    elim ok [ true ↦ reset_rows fails clears select rest p | false ↦ (false, p) ]

-- The answers that rebuildAndStartRun reads after the update of the run's status.
pub record RebuildAnswers : Type 0 where
  pub run : Option (RunRow × List RunStep)
  pub steps_with_deps : Option (List Step × List StepDependency)
  pub job : Option JobRow
  pub steps : Option (List Step)
  pub run_number : Option ℕ

unfoldable pub own_names : List RunStep → Map String → Map String
own_names [] m = m
own_names (rs ∷ rest) m = own_names rest (insert rs.step_id rs.step_id m)

module _ (decode : String → Map String × Bool) (with_calls : Collaborators)
    (fails : ServiceCall → Bool) where
  -- The new runner replaces the old one, which is cancelled, and starts.
  unfoldable pub replace_runner :
      String
      → RebuildAnswers
      → RunRow
      → List RunStep
      → List StepDependency
      → Orchestrator
      → Orchestrator
  unfolding rebuild_runner own_names step_name_map started record_call
  replace_runner run_id a run run_steps deps o =
      let job_name : String = elim a.job [ none ↦ "" | some job ↦ job.name ] in
      let names : Map String = elim a.steps [
        | none ↦ own_names run_steps []
        | some steps ↦ step_name_map steps (own_names run_steps [])
      ] in
      let runner = started (
        rebuild_runner run_id run.job_id run_steps deps with_calls
          (if str_eq run.parameters "" then [] else (decode run.parameters).0)
          (record {
            name = job_name;
            run_id = run_id;
            run_number = elim a.run_number [ none ↦ 0 | some n ↦ n ];
            start_time = run.created_at;
            trigger_type = run.trigger_type;
          })
          names) in
      let p = (if has run_id o.active_runs then record_call (cancelled_runner run_id) o else o) in
      record p {
        active_runs =
            insert run_id (record { job_id = run.job_id; runner = some runner }) p.active_runs;
      }

  unfoldable pub rebuild_and_start_run :
      String → RebuildAnswers → Orchestrator → Option RequestError × Orchestrator
  unfolding replace_runner write_call
  rebuild_and_start_run run_id a o =
      let (ok, p) = write_call fails (wrote_run_status run_id running) o in
      if not ok then (some write_failed, o) else elim a.run [
        | none ↦ (some read_failed, p)
        | some (run, run_steps) ↦ elim a.steps_with_deps [
          | none ↦ (some read_failed, p)
          | some (steps, deps) ↦ (none, replace_runner run_id a run run_steps deps p)
        ]
      ]

  -- RetryStep, with the answers of its own reads and those of the rebuild.
  unfoldable pub retry_step :
      String
      → String
      → Option (List RunStep)
      → Option (List StepDependency)
      → RebuildAnswers
      → Orchestrator
      → Option RequestError × Orchestrator
  unfolding steps_to_reset reset_rows rebuild_and_start_run is_resettable
  retry_step run_id step_id rows deps a o = elim rows [
    | none ↦ (some read_failed, o)
    | some run_steps ↦ elim deps [
      | none ↦ (some read_failed, o)
      | some edges ↦
          let s = steps_to_reset step_id edges in
          let (ok, p) =
            reset_rows fails false
              (λ rs. get_or false rs.step_id s.to_reset && is_resettable rs.status) run_steps o in
          if ok then rebuild_and_start_run run_id a p else (some write_failed, p)
    ]
  ]

  -- RepairRun's merge of the parameters: none for an error, and the text to store, if any. `encode` is
  -- json.Marshal, none for an error.
  unfoldable pub merge_parameters :
      (Map String → Option String) → String → Map String → Option (Option String)
  unfolding apply_overrides
  merge_parameters encode parameters overrides =
      if (if length overrides == 0 then true else str_eq parameters "")
      then some none
      else (let (existing, bad) = decode parameters in
          if bad then none else elim (encode (apply_overrides overrides existing)) [
            | none ↦ none
            | some json ↦ some (some json)
          ])

  unfoldable pub repair_rows :
      String → List RunStep → RebuildAnswers → Orchestrator → Option RequestError × Orchestrator
  unfolding reset_rows rebuild_and_start_run is_resettable
  repair_rows run_id run_steps a o =
      let (ok, p) = reset_rows fails true (λ rs. is_resettable rs.status) run_steps o in
      if ok then rebuild_and_start_run run_id a p else (some write_failed, p)

  unfoldable pub repair_run :
      (Map String → Option String)
      → String
      → Map String
      → Option (RunRow × List RunStep)
      → RebuildAnswers
      → Orchestrator
      → Option RequestError × Orchestrator
  unfolding merge_parameters repair_rows write_call
  repair_run encode run_id overrides rows a o = elim rows [
    | none ↦ (some read_failed, o)
    | some (run, run_steps) ↦
        if not (is_failed run.status) && not (is_cancelled run.status)
        then (some invalid_run_state, o)
        else elim (merge_parameters encode run.parameters overrides) [
          | none ↦ (some write_failed, o)
          | some none ↦ repair_rows run_id run_steps a o
          | some (some json) ↦
              let (ok, p) = write_call fails (wrote_run_parameters run_id json) o in
              if ok then repair_rows run_id run_steps a p else (some write_failed, o)
        ]
  ]

  -- CancelRun's loop over the rows
  unfoldable pub cancel_rows : List RunStep → Orchestrator → Bool × Orchestrator
  unfolding write_call
  cancel_rows [] o = (true, o)
  cancel_rows (rs ∷ rest) o =
      let (ok, p) =
        (if is_pending rs.status || is_running rs.status
          then write_call fails (wrote_step_status rs.run_step_id cancelled) o
          else (true, o)) in
      elim ok [ true ↦ cancel_rows rest p | false ↦ (false, p) ]

  -- CancelRun's critical section, and the calls of Cancel and of CleanupRunSessions.
  unfoldable pub drop_run : String → Orchestrator → Orchestrator
  unfolding record_call
  drop_run run_id o =
      let p = record o { active_runs = delete run_id o.active_runs } in
      record_call (cleaned_sessions run_id)
        (if has run_id o.active_runs then record_call (cancelled_runner run_id) p else p)

  -- CancelRun; `after` is the last read, for the event.
  unfoldable pub cancel_run :
      String
      → Option (List RunStep)
      → Option RunRow
      → Option JobRow
      → Orchestrator
      → Option RequestError × Orchestrator
  unfolding drop_run cancel_rows write_call publish_run
  cancel_run run_id rows after job o =
      let p = drop_run run_id o in
      elim rows [
        | none ↦ (some read_failed, p)
        | some run_steps ↦
            let (ok, q) = cancel_rows run_steps p in
            let (ok', r) = write_call fails (wrote_run_status run_id cancelled) q in
            if not ok
            then (some write_failed, q)
            else if not ok'
            then (some write_failed, q)
            else elim after [
              | none ↦ (none, r)
              | some run ↦ (
                none,
                publish_run run_was_cancelled run_id run.job_id cancelled run.trigger_type
                    (elim job [ none ↦ "" | some j ↦ j.name ]) r,
              )
            ]
      ]

-- OnStepCompleted: the run's runner takes the completion; the retry that it schedules is handed on.
unfoldable pub route_completion : String → String → ℤ → Orchestrator → Option RunStep × Orchestrator
route_completion run_id step_id exit_code o = elim (lookup run_id o.active_runs) [
  | none ↦ (none, o)
  | some a ↦ elim a.runner [
    | none ↦ (none, o)
    | some r ↦
        let c = on_step_completed step_id exit_code r in
        (
          c.retry,
          record o {
            active_runs = insert run_id (record a { runner = some c.runner }) o.active_runs;
          },
        )
  ]
]
