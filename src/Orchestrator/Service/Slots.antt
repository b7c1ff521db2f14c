-- ===== src/Orchestrator/Service/Slots.antt =====
-- The runs in progress of a job (internal/server/orchestrator/orchestrator.go), with the requests of many
-- goroutines in any order, each cut where it holds the mutex.
use claude_plane.Base.{
  lookup-delete, tally-delete, tally-delete_le, ℕ, ◌+◌, ◌≤◌, ◌≡◌, String, Map, List, arith, Bool,
  delete, some, insert, Bool-cases, inl, inr, ◌<◌, [], count, lookup, none, has, false, tally,
  tally-insert-le, str_eq, eq_iff, lookup-insert,
}
use claude_plane.Orchestrator.Runner.{Collaborators}
use claude_plane.Orchestrator.Service.{
  ActiveRun, Orchestrator, JobRow, RunRow, CreateAnswers, CreateRequest, reserved, new_orchestrator,
  count_active_runs_for_job, reserve_run, create_reserved_run,
}
use claude_plane.Base.Int.{pos}
use claude_plane.Orchestrator.Service.Placed.{create_reserved_run-Placed, reserve_run_lem}

-- The orchestrator; the keys of the reservations, with their jobs; the jobs of the rebuilt runs.
pub record Traffic : Type 0 where
  pub service : Orchestrator
  pub creating : Map String
  pub rebuilt : List String

-- The limit of each job; 0 for a job without one.
module _ (limit : String → ℕ) where
  abbrev pub holds : Traffic → String → ℕ
  holds t job = count_active_runs_for_job job t.service.active_runs

  pub record Slots (t : Traffic) : Type 0 where
    pub limited : (job : String) → 0 < limit job → holds t job ≤ limit job + count job t.rebuilt
    pub kept :
        (key job : String)
        → lookup key t.creating ≡ some job
        → (r : ActiveRun) × (lookup key t.service.active_runs ≡ some r) × (r.job_id ≡ job)

  pub first-Slots : Slots (record { service = new_orchestrator; creating = []; rebuilt = [] })
  unfolding new_orchestrator count_active_runs_for_job tally lookup
  first-Slots = record {
    limited = λ job h. omega arith;
    kept = λ key job h. absurd (ground (arith, h));
  }

  pub reserve-Slots :
      (t : Traffic) (row : JobRow) (job key : String) (p : Orchestrator)
      → Slots t
      → row.max_concurrent_runs ≡ pos (limit job)
      → lookup key t.service.active_runs ≡ none
      → lookup key t.creating ≡ none
      → reserve_run (some row) job key t.service ≡ (reserved row, p)
      → Slots (record t { service = p; creating = insert key job t.creating })
  unfolding count_active_runs_for_job
  reserve-Slots t row job key p inv e fresh unused h =
      let (placed, room) = reserve_run_lem row job key t.service p (limit job) e h in
      record {
        limited = λ other l. rw (placed) (
            ground (
              arith,
              inv.limited other l,
              room,
              tally-insert-le (λ r. str_eq r.job_id other) key
                  (record { job_id = job; runner = none }) t.service.active_runs,
              eq_iff job other,
            ));
        kept = λ k other l. elim (Bool-cases (str_eq key k)) [
          | inl same ↦ (
            record { job_id = job; runner = none },
            rw placed (
                ground (
                  arith,
                  same,
                  lookup-insert key k (record { job_id = job; runner = none })
                      t.service.active_runs,
                )),
            ground (arith, same, l, lookup-insert key k job t.creating),
          )
          | inr new ↦
              let (r, found, of_job) =
                inv.kept k other (ground (arith, new, l, lookup-insert key k job t.creating)) in
              (
                r,
                rw placed (
                    ground (
                      arith,
                      new,
                      found,
                      lookup-insert key k (record { job_id = job; runner = none })
                          t.service.active_runs,
                    )),
                of_job,
              )
        ];
      }

  -- A map that differs in an entry that is no reservation, or lacks it.
  pub keeps :
      (t : Traffic) (p : Orchestrator) (run : String)
      → Slots t
      → has run t.creating ≡ false
      → ((key : String)
          → str_eq run key ≡ false
          → lookup key p.active_runs ≡ lookup key t.service.active_runs)
      → (key job : String) → lookup key t.creating ≡ some job
      → (r : ActiveRun) × (lookup key p.active_runs ≡ some r) × (r.job_id ≡ job)
  keeps t p run inv h same key job l =
      let (r, found, of_job) = inv.kept key job l in
      (r, ground (arith, found, same key, h, l, eq_iff run key), of_job)

  pub finish-Slots :
      (decode : String → Map String × Bool) (with_calls : Collaborators) (t : Traffic)
      (req : CreateRequest) (row : JobRow) (key : String) (a : CreateAnswers)
      → Slots t
      → lookup key t.creating ≡ some req.job_id
      → ((run : RunRow) → a.run ≡ some run → has run.run_id t.creating ≡ false)
      → Slots (record t {
        service = (create_reserved_run decode with_calls req row key a t.service).1;
        creating = delete key t.creating;
      })
  unfolding count_active_runs_for_job
  finish-Slots decode with_calls t req row key a inv e fresh =
      let old = t.service.active_runs in
      let (own, has_own, of_own) = inv.kept key req.job_id e in
      elim (create_reserved_run-Placed decode with_calls req row key a t.service) [
        | inl placed ↦ record {
          limited = λ job l. rw (placed) (
              ground
                (arith, inv.limited job l, tally-delete_le (λ r. str_eq r.job_id job) key old));
          kept = λ k job l.
              let other : str_eq key k ≡ false =
                ground (arith, l, lookup-delete key k t.creating) in
              let (r, found, of_job) =
                inv.kept k job (ground (arith, other, l, lookup-delete key k t.creating)) in
              (r, rw placed (ground (arith, found, other, lookup-delete key k old)), of_job);
        }
        | inr (run, r, here, placed) ↦
            let new : ActiveRun = record { job_id = req.job_id; runner = some r } in
            record {
              limited = λ job l. rw (placed) (
                  ground (
                    arith,
                    inv.limited job l,
                    tally-delete (λ r. str_eq r.job_id job) key own old has_own,
                    of_own,
                    tally-insert-le (λ r. str_eq r.job_id job) run.run_id new (delete key old),
                  ));
              kept = λ k job l.
                  let other : str_eq key k ≡ false =
                    ground (arith, l, lookup-delete key k t.creating) in
                  let still : lookup k t.creating ≡ some job =
                    ground (arith, other, l, lookup-delete key k t.creating) in
                  let apart : str_eq run.run_id k ≡ false =
                    ground (arith, still, fresh run here, eq_iff run.run_id k) in
                  let (r, found, of_job) = inv.kept k job still in
                  (
                    r,
                    rw placed (
                        ground (
                          arith,
                          found,
                          other,
                          apart,
                          lookup-delete key k old,
                          lookup-insert run.run_id k new (delete key old),
                        )),
                    of_job,
                  );
            }
      ]

  pub delete-Slots :
      (t : Traffic) (run : String) (p : Orchestrator)
      → Slots t
      → has run t.creating ≡ false
      → p.active_runs ≡ delete run t.service.active_runs
      → Slots (record t { service = p })
  unfolding count_active_runs_for_job
  delete-Slots t run p inv h placed = record {
    limited = λ job l. rw placed (
        ground (
          arith,
          inv.limited job l,
          tally-delete_le (λ r. str_eq r.job_id job) run t.service.active_runs,
        ));
    kept =
        keeps t p run inv h
          (λ k other. rw placed (ground (arith, other, lookup-delete run k t.service.active_runs)));
  }
