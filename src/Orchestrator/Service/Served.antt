-- ===== src/Orchestrator/Service/Served.antt =====
-- The requests of many goroutines in any order (internal/server/orchestrator/orchestrator.go), each cut
-- where it holds the mutex, and the limit on the runs in progress of a job.
use claude_plane.Base.{
  ℕ, ◌+◌, ◌≤◌, ◌≡◌, String, Map, List, arith, Bool, delete, some, insert, Bool-cases, inl, inr, ◌<◌,
  [], count, lookup, none, has, false, ◌∷◌, ℤ, tally-insert-le, str_eq, eq_iff, lookup-insert,
  tally-insert,
}
use claude_plane.Orchestrator.Types.{Status, StepDependency, RunStep}
use claude_plane.Orchestrator.Runner.{Collaborators}
use claude_plane.Orchestrator.Service.{
  ActiveRun, Orchestrator, JobRow, RunRow, CreateAnswers, CreateRequest, reserved, new_orchestrator,
  on_complete, count_active_runs_for_job, reserve_run, create_reserved_run, ServiceCall,
}
use claude_plane.Orchestrator.Service.Requests.{
  drop_run, replace_runner, route_completion, RebuildAnswers,
}
use claude_plane.Base.Int.{pos}
use claude_plane.Orchestrator.Service.Placed.{
  replace_runner-active_runs, on_complete-active_runs, drop_run-active_runs,
  route_completion-active_runs,
}
use claude_plane.Orchestrator.Service.Slots.{
  Traffic, Slots, first-Slots, reserve-Slots, finish-Slots, delete-Slots, keeps,
}

-- The limit of each job; 0 for a job without one.
module _ (decode : String → Map String × Bool) (with_calls : Collaborators)
    (fails : ServiceCall → Bool) (limit : String → ℕ) where
  -- A new run's identifier, and that of a run that ends, is not the key of a reservation.
  pub data Served : Traffic → Type 0 where
    opened : Served (record { service = new_orchestrator; creating = []; rebuilt = [] })
    reserve :
        {t : Traffic}
        → Served t
        → (row : JobRow) → (job key : String) → (p : Orchestrator)
        → row.max_concurrent_runs ≡ pos (limit job)
        → lookup key t.service.active_runs ≡ none
        → lookup key t.creating ≡ none
        → reserve_run (some row) job key t.service ≡ (reserved row, p)
        → Served (record t { service = p; creating = insert key job t.creating })
    finish :
        {t : Traffic}
        → Served t
        → (req : CreateRequest) → (row : JobRow) → (key : String) → (a : CreateAnswers)
        → lookup key t.creating ≡ some req.job_id
        → ((run : RunRow) → a.run ≡ some run → has run.run_id t.creating ≡ false)
        → Served (record t {
          service = (create_reserved_run decode with_calls req row key a t.service).1;
          creating = delete key t.creating;
        })
    rebuild :
        {t : Traffic}
        → Served t
        → (a : RebuildAnswers) → (run : RunRow) → (rows : List RunStep)
        → (deps : List StepDependency) → has run.run_id t.creating ≡ false
        → Served (record t {
          service = replace_runner decode with_calls fails run.run_id a run rows deps t.service;
          rebuilt = run.job_id ∷ t.rebuilt;
        })
    complete :
        {t : Traffic}
        → Served t
        → (job trigger name run : String) → (s : Status) → has run t.creating ≡ false
        → Served (record t { service = on_complete job trigger name run s t.service })
    drop :
        {t : Traffic}
        → Served t
        → (run : String) → has run t.creating ≡ false
        → Served (record t { service = drop_run decode with_calls fails run t.service })
    route :
        {t : Traffic}
        → Served t
        → (run step : String) → (exit_code : ℤ)
        → Served (record t { service = (route_completion run step exit_code t.service).1 })

  rebuild-Slots :
      (t : Traffic) (a : RebuildAnswers) (run : RunRow) (rows : List RunStep)
      (deps : List StepDependency)
      → Slots limit t
      → has run.run_id t.creating ≡ false
      → Slots limit (record t {
        service = replace_runner decode with_calls fails run.run_id a run rows deps t.service;
        rebuilt = run.job_id ∷ t.rebuilt;
      })
  unfolding count_active_runs_for_job
  rebuild-Slots t a run rows deps inv h =
      let (r, placed) =
        replace_runner-active_runs decode with_calls fails run.run_id a run rows deps t.service in
      let new : ActiveRun = record { job_id = run.job_id; runner = some r } in
      record {
        limited = λ job l. rw placed (
            ground (
              arith,
              inv.limited job l,
              tally-insert-le (λ r. str_eq r.job_id job) run.run_id new t.service.active_runs,
            ));
        kept =
            keeps limit t
              (replace_runner decode with_calls fails run.run_id a run rows deps t.service)
              run.run_id inv h
              (λ k other.
                rw placed
                  (ground (arith, other, lookup-insert run.run_id k new t.service.active_runs)));
      }

  -- An entry that is overwritten with the same job.
  route-Slots :
      (t : Traffic) (run step : String) (exit_code : ℤ)
      → Slots limit t
      → Slots limit (record t { service = (route_completion run step exit_code t.service).1 })
  unfolding count_active_runs_for_job
  route-Slots t run step exit_code inv =
      elim (route_completion-active_runs run step exit_code t.service) [
        | inl placed ↦ record {
          limited = λ job l. rw placed (inv.limited job l);
          kept = λ key job l.
              let (r, found, of_job) = inv.kept key job l in (r, rw placed found, of_job);
        }
        | inr (a, r, here, placed) ↦
            let new : ActiveRun = record a { runner = some r } in
            record {
              limited = λ job l. rw placed (
                  ground (
                    arith,
                    inv.limited job l,
                    tally-insert (λ r. str_eq r.job_id job) run new a t.service.active_runs here,
                  ));
              kept = λ key job l.
                  let (r, found, of_job) = inv.kept key job l in
                  elim (Bool-cases (str_eq run key)) [
                    | inl same ↦ (
                      new,
                      rw placed
                          (ground (arith, same, lookup-insert run key new t.service.active_runs)),
                      ground (arith, here, found, of_job, same, eq_iff run key),
                    )
                    | inr other ↦ (
                      r,
                      rw placed (
                          ground
                            (arith, found, other, lookup-insert run key new t.service.active_runs)),
                      of_job,
                    )
                  ];
            }
      ]

  served-Slots : {t : Traffic} → Served t → Slots limit t
  served-Slots opened = first-Slots limit
  served-Slots (reserve {t} d row job key p e fresh unused h) =
      reserve-Slots limit t row job key p (served-Slots d) e fresh unused h
  served-Slots (finish {t} d req row key a e fresh) =
      finish-Slots limit decode with_calls t req row key a (served-Slots d) e fresh
  served-Slots (rebuild {t} d a run rows deps h) =
      rebuild-Slots t a run rows deps (served-Slots d) h
  served-Slots (complete {t} d job trigger name run s h) =
      delete-Slots limit t run _ (served-Slots d) h
        (on_complete-active_runs job trigger name run s t.service)
  served-Slots (drop {t} d run h) =
      delete-Slots limit t run _ (served-Slots d) h
        (drop_run-active_runs decode with_calls fails run t.service)
  served-Slots (route {t} d run step exit_code) = route-Slots t run step exit_code (served-Slots d)

  -- In any order of requests, completions and cancellations, the runs in progress of a job with a limit,
  -- reservations included, are at most its limit and the number of times that RetryStep or RepairRun
  -- rebuilt one of its runs; its limit is assumed to stay the same.
  pub active_runs_limited :
      {t : Traffic}
      → Served t
      → (job : String) → 0 < limit job
      → count_active_runs_for_job job t.service.active_runs ≤ limit job + count job t.rebuilt
  active_runs_limited d job h = (served-Slots d).limited job h
