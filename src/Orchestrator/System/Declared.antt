-- ===== src/Orchestrator/System/Declared.antt =====
-- The calls of onRunComplete in a run, beside its count of completed steps
-- (internal/server/orchestrator/dag_runner.go).
use claude_plane.Base.{
  ◌≡◌, refl, ◌∙◌, inl, inr, String, some, lookup, is_zero, pos, arith, ℤ, if_rule, str_eq, true,
  false, ◌+◌, unit_of, Bool-cases, ◌==◌, increment,
}
use claude_plane.Orchestrator.Types.{RunStep, Status, failed, is_running, completed}
use claude_plane.Orchestrator.Effects.{wrote_status, wrote_attempt, published, step_failed}
use claude_plane.Orchestrator.Runner.{
  Runner, update_run_step_in_db, set_step_values, release_session_key, update_run_step_attempt,
  close_done,
}
use claude_plane.Orchestrator.Runner.Events.{
  is_cancelled, run_retry, finish_step, schedule_retry, fail_step, complete_step, on_step_completed,
  publish_step_event, fail_run, cancel, complete_run, record_result, Completion, settle_step,
  can_retry,
}
use claude_plane.Orchestrator.Runner.Moves.Quiet.{
  quiet_call, Unmoved, declared, is_declared, settle_step-declared,
}
use claude_plane.Orchestrator.System.{
  System, Transition, starts, completes, retries, sets_values, cancels,
}
use claude_plane.Orchestrator.System.Unmoved.{Unmoved-trans, start-Unmoved, run_retry-Unmoved}

-- A completion cancels the run, or ends with the test of the count, or leaves the counts as they are.
data Ends (r : Runner) (s : Runner) : Type 0 where
  dies : is_cancelled s.ctx ≡ true → Ends r s
  tests : declared s ≡ declared r + unit_of (is_declared s) → Ends r s
  goes_on : Unmoved r s → Ends r s

finish_step-declared :
    (id : String) (rs : RunStep) (status : Status) (exit_code : ℤ) (r : Runner)
    → declared (finish_step id rs status exit_code r) ≡ declared r
unfolding finish_step update_run_step_in_db
finish_step-declared id rs status exit_code r =
    quiet_call r.has_store r.effects (wrote_status rs.run_step_id status exit_code) refl

schedule_retry-Unmoved :
    (id : String) (rs : RunStep) (exit_code : ℤ) (r : Runner)
    → Unmoved r (schedule_retry id rs exit_code r).runner
unfolding schedule_retry publish_step_event update_run_step_attempt
schedule_retry-Unmoved id rs exit_code r = record {
  quiet =
      quiet_call r.has_publisher _ (published step_failed rs.run_step_id id failed) refl
      ∙ quiet_call r.has_store r.effects (wrote_attempt rs.run_step_id (increment rs.attempt)) refl;
  completed = refl;
  total = refl;
  callback = refl;
}

fail_step-Ends : (id : String) (rs : RunStep) (r : Runner) → Ends r (fail_step id rs r)
unfolding fail_step fail_run complete_run publish_step_event close_done
fail_step-Ends id rs r =
    if_rule (Ends r) (str_eq rs.on_failure "fail_run") _ _ (λ e. dies refl)
      (λ e. tests (settle_step-declared id rs true (record r { failed = true })))

Ends-after :
    (r s t : Runner)
    → declared s ≡ declared r
    → s.completed ≡ r.completed
    → s.total ≡ r.total
    → s.has_on_complete ≡ r.has_on_complete
    → Ends s t
    → Ends r t
Ends-after r s t q c n b (dies e) = dies e
Ends-after r s t q c n b (tests e) = tests (ground (arith, e, q))
Ends-after r s t q c n b (goes_on u) =
    goes_on (Unmoved-trans r s t (record { quiet = q; completed = c; total = n; callback = b }) u)

complete_step-Ends :
    (id : String) (rs : RunStep) (exit_code : ℤ) (r : Runner)
    → Ends r (complete_step id rs exit_code r).runner
unfolding complete_step finish_step update_run_step_in_db release_session_key record_result
complete_step-Ends id rs exit_code r =
    let r' = release_session_key rs (record_result id exit_code r) in
    if_rule (λ (c : Completion). Ends r c.runner) (is_zero exit_code) _ _
      (λ e.
        let s = finish_step id rs completed (pos 0) r' in
        Ends-after r s (settle_step id rs false s) (finish_step-declared id rs completed (pos 0) r')
          refl refl refl (tests (settle_step-declared id rs false s)))
      (λ e.
        let s = finish_step id rs failed exit_code r' in
        let q = finish_step-declared id rs failed exit_code r' in
        if_rule (λ (c : Completion). Ends r c.runner) (can_retry rs) _ _
          (λ f.
            Ends-after r s (schedule_retry id rs exit_code s).runner q refl refl refl
              (goes_on (schedule_retry-Unmoved id rs exit_code s)))
          (λ f. Ends-after r s (fail_step id rs s) q refl refl refl (fail_step-Ends id rs s)))

on_step_completed-Ends :
    (id : String) (rs : RunStep) (exit_code : ℤ) (r : Runner)
    → is_cancelled r.ctx ≡ false
    → lookup id r.steps ≡ some rs
    → Ends r (on_step_completed id exit_code r).runner
unfolding on_step_completed
on_step_completed-Ends id rs exit_code r live found =
    rw (on_step_completed, live, found) (complete_step-Ends id rs exit_code r)

-- In a live run with steps, the callback has been called once if there is one and the count is the total,
-- and not at all otherwise.
abbrev pub DeclaredInv : System → Type 0
DeclaredInv s =
    is_cancelled s.runner.ctx ≡ false → declared s.runner ≡ unit_of (is_declared s.runner)

Unmoved-Inv :
    (r s : Runner)
    → Unmoved r s
    → declared r ≡ unit_of (is_declared r)
    → declared s ≡ unit_of (is_declared s)
Unmoved-Inv r s u h = ground (arith, u.quiet, u.completed, u.total, u.callback, h)

Ends-Inv :
    (r s : Runner)
    → Ends r s
    → is_declared r ≡ false
    → declared r ≡ unit_of (is_declared r)
    → is_cancelled s.ctx ≡ false
    → declared s ≡ unit_of (is_declared s)
Ends-Inv r s (dies e) unlike h live = absurd (ground (arith, e, live))
Ends-Inv r s (tests e) unlike h live = ground (arith, e, h, unlike)
Ends-Inv r s (goes_on u) unlike h live = Unmoved-Inv r s u h

retry_live :
    (copy : RunStep) (r : Runner)
    → is_cancelled (run_retry copy r).ctx ≡ false
    → is_cancelled r.ctx ≡ false
unfolding run_retry
retry_live copy r alive = elim (Bool-cases (is_cancelled r.ctx)) [
  | inl dead ↦ let still : is_cancelled r.ctx ≡ false = rw dead at alive in still
  | inr live ↦ live
]

stopped_completion :
    (id : String) (exit_code : ℤ) (r : Runner)
    → is_cancelled r.ctx ≡ true
    → is_cancelled (on_step_completed id exit_code r).runner.ctx ≡ true
unfolding on_step_completed
stopped_completion id exit_code r dead = rw (on_step_completed, dead) dead

-- A step that runs keeps the count below the total; `running_below` is what the count of the steps shows.
pub Transition-DeclaredInv :
    (s t : System)
    → Transition s t
    → ((id : String) (rs : RunStep)
        → is_cancelled s.runner.ctx ≡ false
        → lookup id s.runner.steps ≡ some rs
        → is_running rs.status ≡ true
        → (s.runner.completed == s.runner.total) ≡ false)
    → DeclaredInv s
    → DeclaredInv t
unfolding set_step_values cancel close_done
Transition-DeclaredInv s t (starts r unset e) below inv alive =
    Unmoved-Inv s.runner r (start-Unmoved s.runner r e) (inv (rw unset refl))
Transition-DeclaredInv s t (completes id rs exit_code found runs) below inv alive =
    elim (Bool-cases (is_cancelled s.runner.ctx)) [
      | inl dead ↦
          let same = stopped_completion id exit_code s.runner dead in
          absurd (ground (arith, alive, same, dead))
      | inr live ↦
          Ends-Inv s.runner (on_step_completed id exit_code s.runner).runner
            (on_step_completed-Ends id rs exit_code s.runner live found)
            (ground (arith, below id rs live found runs)) (inv live) alive
    ]
Transition-DeclaredInv s t (retries before copy after e) below inv alive =
    Unmoved-Inv s.runner (run_retry copy s.runner) (run_retry-Unmoved copy s.runner)
      (inv (retry_live copy s.runner alive))
Transition-DeclaredInv s t (sets_values name values) below inv alive = inv alive
Transition-DeclaredInv s t cancels below inv alive = inv (ground arith)
