-- ===== src/Orchestrator/Service/Placed.antt =====
-- What each request does to activeRuns (internal/server/orchestrator/orchestrator.go).
use claude_plane.Base.{
  if◌then◌else◌, ◌&&◌, ℕ, ◌≡◌, ◌⊎◌, refl, String, Map, List, arith, Bool, delete, some, insert,
  Bool-cases, inl, Option-cases, inr, ◌<◌, lookup, none, has, ℤ, int_ltb, int_leb,
}
use claude_plane.Orchestrator.Types.{
  pending, running, Status, Step, StepDependency, RunStep, running, is_failed,
}
use claude_plane.Orchestrator.Runner.{Runner, Collaborators}
use claude_plane.Orchestrator.Service.{
  ActiveRun, Orchestrator, JobRow, RunRow, CreateAnswers, CreateRequest, RunEvent, reserved,
  publish_run, on_complete, count_active_runs_for_job, reserve_run, create_reserved_run,
  record_call, snapshot_steps, launch_run, remove_reservation, run_started, store_run, stored_run,
  run_created, stored_run_steps, ServiceCall, run_failed, run_ended,
}
use claude_plane.Orchestrator.Service.Requests.{
  drop_run, replace_runner, route_completion, RebuildAnswers,
}
use claude_plane.Orchestrator.Dag.{validate_dag}
use claude_plane.Base.Int.{pos}

pub publish_run-active_runs :
    (event : RunEvent) (run job : String) (s : Status) (trigger name : String) (o : Orchestrator)
    → (publish_run event run job s trigger name o).active_runs ≡ o.active_runs
unfolding publish_run record_call
publish_run-active_runs event run job s trigger name o = ground arith

module _ (decode : String → Map String × Bool) (with_calls : Collaborators) (req : CreateRequest)
    (job : JobRow) (key : String) (a : CreateAnswers) where
  -- What CreateRun leaves in the map.
  abbrev pub Placed : Orchestrator → Orchestrator → Type 0
  Placed o p =
      (p.active_runs ≡ delete key o.active_runs)
      ⊎ ((run : RunRow) × (r : Runner) × (a.run ≡ some run)
          × (p.active_runs
              ≡ insert run.run_id (record { job_id = req.job_id; runner = some r })
                  (delete key o.active_runs)))

  launch_run-active_runs :
      (run : RunRow) (steps : List Step) (deps : List StepDependency) (rows : List RunStep)
      (o : Orchestrator)
      → (r : Runner) × ((launch_run decode with_calls req job key a run steps deps rows
            o).active_runs
          ≡ insert run.run_id
              (record { job_id = req.job_id; runner = some r })
              (delete key o.active_runs))
  unfolding launch_run record_call
  launch_run-active_runs run steps deps rows o = (
    _,
    publish_run-active_runs run_started run.run_id req.job_id running req.trigger_type job.name _,
  )

  snapshot_steps-Placed :
      (run : RunRow) (steps : List Step) (deps : List StepDependency) (o : Orchestrator)
      → a.run ≡ some run
      → Placed o (snapshot_steps decode with_calls req job key a run steps deps o).1
  unfolding snapshot_steps remove_reservation record_call
  snapshot_steps-Placed run steps deps o h = elim (Bool-cases a.steps_inserted) [
    | inl e ↦ elim (Option-cases a.run_steps) [
      | inl n ↦ rw (snapshot_steps, e, n) (inl refl)
      | inr (rows, n) ↦
          let (r, placed) =
            launch_run-active_runs run steps deps rows
              (record_call (stored_run_steps run.run_id) o) in
          rw (snapshot_steps, e, n) (inr (run, r, h, placed))
    ]
    | inr e ↦ rw (snapshot_steps, e) (inl refl)
  ]

  store_run-Placed :
      (steps : List Step) (deps : List StepDependency) (o : Orchestrator)
      → Placed o (store_run decode with_calls req job key a steps deps o).1
  unfolding store_run remove_reservation record_call
  store_run-Placed steps deps o = elim (Option-cases a.params_json) [
    | inl e ↦ rw (store_run, e) (inl refl)
    | inr (json, e) ↦ elim (Option-cases a.run) [
      | inl n ↦ rw (store_run, e, n) (inl refl)
      | inr (run, n) ↦
          let q = record_call (stored_run req.job_id req.trigger_type req.trigger_detail json) o in
          let p =
            publish_run run_created run.run_id req.job_id pending req.trigger_type job.name q in
          let same : p.active_runs ≡ o.active_runs =
            publish_run-active_runs run_created run.run_id req.job_id pending req.trigger_type
              job.name q in
          rw (store_run, e, n)
            (elim (snapshot_steps-Placed run steps deps p n) [
              | inl placed ↦ inl (rw (placed, same) refl)
              | inr (row, r, m, placed) ↦ inr (row, r, cc, rw (placed, same) refl)
            ])
    ]
  ]

  pub create_reserved_run-Placed :
      (o : Orchestrator) → Placed o (create_reserved_run decode with_calls req job key a o).1
  unfolding create_reserved_run remove_reservation
  create_reserved_run-Placed o = elim (Option-cases a.steps_with_deps) [
    | inl e ↦ rw (create_reserved_run, e) (inl refl)
    | inr (g, e) ↦ elim (Bool-cases (validate_dag g.0 g.1)) [
      | inl ok ↦ rw (create_reserved_run, e, ok) (store_run-Placed g.0 g.1 o)
      | inr bad ↦ rw (create_reserved_run, e, bad) (inl refl)
    ]
  ]

pub replace_runner-active_runs :
    (decode : String → Map String × Bool) (with_calls : Collaborators) (fails : ServiceCall → Bool)
    (run_id : String) (a : RebuildAnswers) (run : RunRow) (rows : List RunStep)
    (deps : List StepDependency) (o : Orchestrator)
    → (r : Runner) × ((replace_runner decode with_calls fails run_id a run rows deps o).active_runs
        ≡ insert run_id (record { job_id = run.job_id; runner = some r }) o.active_runs)
unfolding replace_runner record_call
replace_runner-active_runs decode with_calls fails run_id a run rows deps o =
    elim (Bool-cases (has run_id o.active_runs)) [
      | inl e ↦ rw (replace_runner, e) (_, refl)
      | inr e ↦ rw (replace_runner, e) (_, refl)
    ]

-- A reservation is given only below the limit.
pub reserve_run_lem :
    (row : JobRow) (job key : String) (o p : Orchestrator) (n : ℕ)
    → row.max_concurrent_runs ≡ pos n
    → reserve_run (some row) job key o ≡ (reserved row, p)
    → (p.active_runs ≡ insert key (record { job_id = job; runner = none }) o.active_runs)
      × (0 < n → count_active_runs_for_job job o.active_runs < n)
unfolding reserve_run
reserve_run_lem row job key o p n h e =
    elim (Bool-cases (
      int_ltb (pos 0) row.max_concurrent_runs
      && int_leb row.max_concurrent_runs (pos (count_active_runs_for_job job o.active_runs)))) [
        | inl full ↦ absurd (ground (arith, full, e))
        | inr room ↦ (ground (arith, room, e), ground (arith, room, h))
      ]

pub on_complete-active_runs :
    (job trigger name run : String) (s : Status) (o : Orchestrator)
    → (on_complete job trigger name run s o).active_runs ≡ delete run o.active_runs
unfolding on_complete record_call
on_complete-active_runs job trigger name run s o =
    publish_run-active_runs (if is_failed s then run_failed else run_ended) run job s trigger name _

pub drop_run-active_runs :
    (decode : String → Map String × Bool) (with_calls : Collaborators) (fails : ServiceCall → Bool)
    (run : String) (o : Orchestrator)
    → (drop_run decode with_calls fails run o).active_runs ≡ delete run o.active_runs
unfolding drop_run record_call
drop_run-active_runs decode with_calls fails run o = ground arith

-- A completion changes at most the runner in its entry.
pub route_completion-active_runs :
    (run step : String) (exit_code : ℤ) (o : Orchestrator)
    → ((route_completion run step exit_code o).1.active_runs ≡ o.active_runs)
      ⊎ ((a : ActiveRun) × (r : Runner) × (lookup run o.active_runs ≡ some a)
          × ((route_completion run step exit_code o).1.active_runs
              ≡ insert run (record a { runner = some r }) o.active_runs))
unfolding route_completion
route_completion-active_runs run step exit_code o = elim (Option-cases (lookup run o.active_runs)) [
  | inl e ↦ rw (route_completion, e) (inl refl)
  | inr (a, e) ↦ elim (Option-cases a.runner) [
    | inl n ↦ rw (route_completion, e, n) (inl refl)
    | inr (r, n) ↦ rw (route_completion, e, n) (inr (record a { runner = some r }, _, refl, refl))
  ]
]
