-- ===== src/Orchestrator/System/Runs.antt =====
-- What holds throughout a run (internal/server/orchestrator/dag_runner.go, orchestrator.go): of the
-- runner that CreateRun builds, and of the one that a retry or a repair rebuilds.
use claude_plane.Orchestrator.System.{System, Reach, fresh, here, next}
use claude_plane.Orchestrator.System.Declared.{DeclaredInv, Transition-DeclaredInv}
use claude_plane.Orchestrator.Runner.Moves.Quiet.{declared}
use claude_plane.Orchestrator.Runner.{Runner, Collaborators, new_dag_runner, index_steps}
use claude_plane.Orchestrator.Rebuild.{
  rebuild_runner, resume_steps, count_down_dependents, resume_step,
}
use claude_plane.Orchestrator.Types.{RunStep, StepDependency, is_completed, JobMeta, running}
use claude_plane.Base.{
  List, String, Bool, Map, ◌≡◌, ◌&&◌, ◌+◌, not, ◌∷◌, arith, lookup, some, [], refl, ◌≢◌, length,
  ◌==◌, unit_of, Bool-cases, inl, inr, All, tally, ap, ◌<◌, get_or, none, false, suc, true, subst,
  tally-le-length, tally_full, sym,
}
use claude_plane.Orchestrator.System.Initial.{
  count_rows, NoneRuns, idle-SystemInv, DistinctIds, tally-index_steps-le, tally-index_steps,
  length-index_steps-le,
}
use claude_plane.Orchestrator.System.Account.{
  is_over, IsBalanced, over_count, Reach-IsBalanced, Balance,
}
use claude_plane.Orchestrator.System.Invariant.{SystemInv, Reach-SystemInv}
use claude_plane.Orchestrator.Runner.Moves.{core_of, Core}
use claude_plane.Orchestrator.Runner.Events.{is_cancelled}
use claude_plane.Orchestrator.System.Waits.{Waiting, Distinct}

-- A stored step that is over but not completed.
abbrev pub is_stale : RunStep → Bool
is_stale rs = is_over rs && not (is_completed rs.status)

count_rows-split :
    (rows : List RunStep)
    → count_rows (λ rs. is_completed rs.status) rows + count_rows is_stale rows
      ≡ count_rows is_over rows
count_rows-split [] = refl
count_rows-split (rs ∷ rest) = ground (arith, count_rows-split rest)

count_down_dependents-core :
    (deps : List String) (r : Runner) → core_of (count_down_dependents deps r) ≡ core_of r
unfolding count_down_dependents
count_down_dependents-core [] r = refl
count_down_dependents-core (d ∷ rest) r = count_down_dependents-core rest _

-- The loop over the stored rows counts the completed ones and changes nothing else of the core.
resume_steps-core :
    (rows : List RunStep) (r : Runner)
    → core_of (resume_steps rows r) ≡ record (core_of r) {
      settled = r.completed + count_rows (λ rs. is_completed rs.status) rows;
    }
unfolding resume_steps resume_step
resume_steps-core [] r = ground arith
resume_steps-core (rs ∷ rest) r = ground (
  arith,
  resume_steps-core rest (resume_step rs r),
  count_down_dependents-core (get_or [] rs.step_id r.dependents)
      (record r { completed = suc r.completed }),
)

length_zero {ℓ} : {A : Type ℓ} (xs : List A) → length xs ≡ 0 → xs ≡ []
length_zero [] h = refl
length_zero (x ∷ xs) h = absurd (omega arith)

none_known : (rows : List RunStep) → All (λ rs. lookup {V = RunStep} rs.step_id [] ≡ none) rows
unfolding lookup
none_known [] = tt
none_known (rs ∷ rest) = (refl, none_known rest)

module _ (run_id job_id : String) (rows : List RunStep) (deps : List StepDependency)
    (calls : Collaborators) (params : Map String) (meta : JobMeta) (names : Map String) where
  abbrev pub built : System
  built = fresh (new_dag_runner run_id job_id rows deps calls params meta names)

  abbrev pub rebuilt : System
  rebuilt = fresh (rebuild_runner run_id job_id rows deps calls params meta names)

  built-SystemInv : NoneRuns rows → SystemInv built
  unfolding new_dag_runner
  built-SystemInv idle = idle-SystemInv rows built.runner idle refl

  -- In every state of a run whose rows were not running, two different steps that run at once have
  -- different session keys, if the first has one.
  pub session_keys_exclusive :
      {t : System} (i j : String) (a b : RunStep)
      → NoneRuns rows
      → Reach built t
      → i ≢ j
      → lookup i t.runner.steps ≡ some a
      → lookup j t.runner.steps ≡ some b
      → a.status ≡ running
      → b.status ≡ running
      → a.session_key_snapshot ≢ ""
      → a.session_key_snapshot ≢ b.session_key_snapshot
  session_keys_exclusive i j a b idle reach apart found_a found_b run_a run_b keyed same =
      let inv = Reach-SystemInv reach (built-SystemInv idle) in
      apart (
        inv.keys.exclusive i j (ground (arith, found_a, run_a))
          (ground (arith, found_a, found_b, run_a, run_b, same)))

  -- In every such state, a step that waits for its retry is failed, so it is neither running nor
  -- pending, and no step waits twice.
  pub retries_are_failed :
      {t : System}
      → NoneRuns rows
      → Reach built t
      → All (Waiting t.runner.steps) t.retries × Distinct t.retries
  retries_are_failed idle reach =
      let inv = Reach-SystemInv reach (built-SystemInv idle) in
      (inv.waits.waiting, inv.waits.distinct)

  built-IsBalanced : count_rows is_over rows ≡ 0 → IsBalanced 0 built
  unfolding new_dag_runner tally
  built-IsBalanced none_over _ = record {
    balance = omega (arith, tally-index_steps-le is_over rows []);
    room = omega (arith, length-index_steps-le rows []);
  }

  -- While a run that began with no step over is live, the runner's count of completed steps, with the
  -- steps that wait for a retry, is the number of steps that are neither pending nor running.
  pub completed_count :
      {t : System}
      → NoneRuns rows
      → count_rows is_over rows ≡ 0
      → Reach built t
      → is_cancelled t.runner.ctx ≡ false
      → t.runner.completed + length t.retries ≡ over_count t.runner.steps
  completed_count {t} idle none_over reach live = omega (
    arith,
    (Reach-IsBalanced 0 reach (built-SystemInv idle) (built-IsBalanced none_over) live).balance,
  )

  -- When the count of such a live run reaches the total, no retry waits and every step is over.
  full_count_over :
      {t : System}
      → NoneRuns rows
      → count_rows is_over rows ≡ 0
      → Reach built t
      → is_cancelled t.runner.ctx ≡ false
      → t.runner.completed ≡ t.runner.total
      → (t.retries ≡ [])
        × ((id : String) (rs : RunStep) → lookup id t.runner.steps ≡ some rs → is_over rs ≡ true)
  full_count_over {t} idle none_over reach live all_done =
      let b = Reach-IsBalanced 0 reach (built-SystemInv idle) (built-IsBalanced none_over) live in
      let bound = tally-le-length is_over t.runner.steps in
      (
        length_zero t.retries (omega (arith, b.balance, b.room)),
        λ id rs found.
            tally_full is_over id rs t.runner.steps (omega (arith, b.balance, b.room)) found,
      )

  built-DeclaredInv : 0 < length rows → DeclaredInv built
  unfolding new_dag_runner
  built-DeclaredInv some_rows alive = ground (arith, some_rows)

  Reach-DeclaredInv :
      {t : System}
      → NoneRuns rows
      → count_rows is_over rows ≡ 0
      → 0 < length rows
      → Reach built t
      → DeclaredInv t
  Reach-DeclaredInv idle none_over some_rows here = built-DeclaredInv some_rows
  Reach-DeclaredInv idle none_over some_rows (next {t} {u} reach move) =
      Transition-DeclaredInv t u move
        (λ id rs live found runs. elim (Bool-cases (t.runner.completed == t.runner.total)) [
          | inr below ↦ below
          | inl full ↦
              let over =
                (full_count_over idle none_over reach live (ground (arith, full))).1 id rs found in
              absurd (ground (arith, over, runs))
        ])
        (Reach-DeclaredInv idle none_over some_rows reach)

  -- In every state of a run with steps, none of which ran or was over at the beginning, until its context is
  -- cancelled (by Cancel, or by a step that fails the run): the callback of the run's end has been called
  -- exactly once if there is one and the count of completed steps is the total, and has not been called
  -- otherwise. Once it has been called, no retry waits and every step is over.
  pub complete_run_is_over :
      {t : System}
      → NoneRuns rows
      → count_rows is_over rows ≡ 0
      → 0 < length rows
      → Reach built t
      → is_cancelled t.runner.ctx ≡ false
      → (declared t.runner
          ≡ unit_of (t.runner.has_on_complete && t.runner.completed == t.runner.total))
        × (0 < declared t.runner
            → (t.retries ≡ [])
              × ((id : String) (rs : RunStep)
                  → lookup id t.runner.steps ≡ some rs
                  → is_over rs ≡ true))
  complete_run_is_over {t} idle none_over some_rows reach live =
      let inv = Reach-DeclaredInv idle none_over some_rows reach live in
      (inv, λ h. full_count_over idle none_over reach live (ground (arith, h, inv)))

  rebuilt-core : core_of rebuilt.runner ≡ record {
    steps = index_steps rows [];
    keys = [];
    settled = count_rows (λ rs. is_completed rs.status) rows;
    total = length rows;
  }
  unfolding new_dag_runner rebuild_runner
  rebuilt-core = ground (
    arith,
    resume_steps-core rows (new_dag_runner run_id job_id rows deps calls params meta names),
  )

  rebuilt-SystemInv : NoneRuns rows → SystemInv rebuilt
  rebuilt-SystemInv idle =
      idle-SystemInv rows rebuilt.runner idle (ap (λ (c : Core). c.steps) rebuilt-core)

  rebuilt-IsBalanced : DistinctIds rows → IsBalanced (count_rows is_stale rows) rebuilt
  unfolding tally
  rebuilt-IsBalanced distinct _ =
      subst (Balance (0 + count_rows is_stale rows)) (sym rebuilt-core) (record {
        balance = omega (
          arith,
          tally-index_steps is_over rows [] distinct (none_known rows),
          count_rows-split rows,
        );
        room = omega (arith, length-index_steps-le rows []);
      })

  -- A run that is rebuilt while some stored step is failed, skipped or cancelled (as a retry of one
  -- step leaves the others) never completes: as long as it is live, its count stays below its total.
  pub rebuilt_run_never_completes :
      {t : System}
      → NoneRuns rows
      → DistinctIds rows
      → 0 < count_rows is_stale rows
      → Reach rebuilt t
      → is_cancelled t.runner.ctx ≡ false
      → t.runner.completed < t.runner.total
  rebuilt_run_never_completes {t} idle distinct stale reach live =
      let b =
        Reach-IsBalanced (count_rows is_stale rows) reach (rebuilt-SystemInv idle)
          (rebuilt-IsBalanced distinct) live in
      omega (arith, b.balance, b.room, tally-le-length is_over t.runner.steps)
