-- ===== src/Orchestrator/Runner/Moves/Completion.antt =====
-- The three ways in which a completion can go on (internal/server/orchestrator/dag_runner.go): the
-- step settles, the run fails with it, or a retry is scheduled.
use claude_plane.Orchestrator.Runner.Moves.Whole.{abandon_steps-Drops, settle_step-Moves}
use claude_plane.Orchestrator.Runner.Moves.{Core, core_of, Moves, Drops, Runner}
use claude_plane.Orchestrator.Types.{completed, failed, RunStep}
use claude_plane.Base.{
  some, delete, suc, none, false, lookup, increment, Bool-cases, inl, true, inr, refl, String, ℤ,
  Map, insert, if◌then◌else◌, Bool, is_zero, str_eq, ◌≡◌,
}
use claude_plane.Orchestrator.Runner.Events.{
  complete_step, fail_step, Completion, on_step_completed, fail_run, schedule_retry, is_cancelled,
  can_retry, finish_step, record_result, publish_step_event, complete_run,
}
use claude_plane.Base.Int.{pos}
use claude_plane.Orchestrator.Runner.{
  RunContext, release_session_key, update_run_step_attempt, close_done,
}

-- The step as a completion with this exit code leaves it.
abbrev pub finished_as : RunStep → ℤ → RunStep
finished_as rs exit_code =
    if is_zero exit_code
    then record rs { status = completed; exit_code = some (pos 0) }
    else if can_retry rs
    then record rs { status = failed; exit_code = some exit_code; attempt = increment rs.attempt }
    else record rs { status = failed; exit_code = some exit_code }

-- releaseSessionKey's effect on the set of keys.
abbrev pub released : RunStep → Map Bool → Map Bool
released rs keys =
    if str_eq rs.session_key_snapshot "" then keys else delete rs.session_key_snapshot keys

-- The fields once the step is written as `x` and its key is given back.
abbrev pub stopped : String → RunStep → RunStep → Core → Core
stopped id rs x c = record c { steps = insert id x c.steps; keys = released rs c.keys }

pub data Completes (id : String) (rs : RunStep) (exit_code : ℤ) (r : Runner) (c : Completion)
    : Type 0 where
  settles :
      (x : RunStep)
      → x ≡ finished_as rs exit_code
      → Moves
          (record (stopped id rs x (core_of r)) { settled = suc r.completed })
          (core_of c.runner)
      → c.retry ≡ none
      → Completes id rs exit_code r c
  fails_run :
      (x : RunStep)
      → x ≡ finished_as rs exit_code
      → Drops (stopped id rs x (core_of r)) (core_of c.runner)
      → c.runner.ctx ≡ RunContext.cancelled
      → c.retry ≡ none
      → Completes id rs exit_code r c
  waits :
      (x y : RunStep)
      → x.status ≡ failed
      → y ≡ finished_as rs exit_code
      → y.status ≡ failed
      → core_of c.runner
        ≡ record (stopped id rs x (core_of r)) { steps = insert id y (insert id x r.steps) }
      → c.retry ≡ some y
      → Completes id rs exit_code r c

fail_step-Completes :
    (id : String) (rs : RunStep) (exit_code : ℤ) (r : Runner)
    → is_zero exit_code ≡ false
    → can_retry rs ≡ false
    → let x = record rs { status = failed; exit_code = some exit_code } in
      Completes id rs exit_code r (record {
        runner = fail_step id rs (
            finish_step id rs failed exit_code
              (release_session_key rs (record_result id exit_code r)));
        retry = none;
      })
unfolding fail_step fail_run finish_step release_session_key record_result publish_step_event
    close_done complete_run
fail_step-Completes id rs exit_code r bad last =
    let x = record rs { status = failed; exit_code = some exit_code } in
    let r' =
      finish_step id rs failed exit_code (release_session_key rs (record_result id exit_code r)) in
    let x_final : x ≡ finished_as rs exit_code = rw (bad, last) in
    elim (Bool-cases (str_eq rs.on_failure "fail_run")) [
      | inl fatal ↦ rw fatal (
          fails_run x x_final (abandon_steps-Drops id r'.steps (record r' { failed = true })) refl
            refl)
      | inr mild ↦
          rw mild
            (settles x x_final (settle_step-Moves id rs true (record r' { failed = true })) refl)
    ]

pub complete_step-Completes :
    (id : String) (rs : RunStep) (exit_code : ℤ) (r : Runner)
    → Completes id rs exit_code r (complete_step id rs exit_code r)
unfolding complete_step schedule_retry finish_step release_session_key record_result
    update_run_step_attempt publish_step_event
complete_step-Completes id rs exit_code r = elim (Bool-cases (is_zero exit_code)) [
  | inl good ↦ rw good (
      settles (record rs { status = completed; exit_code = some (pos 0) }) (rw good)
        (settle_step-Moves id rs false (
          finish_step id rs completed (pos 0)
            (release_session_key rs (record_result id exit_code r))))
        refl)
  | inr bad ↦ rw bad (elim (Bool-cases (can_retry rs)) [
    | inl again ↦ rw again (
        waits (record rs { status = failed; exit_code = some exit_code }) _ refl (rw (bad, again))
          refl refl refl)
    | inr last ↦ rw last (fail_step-Completes id rs exit_code r bad last)
  ])
]

pub on_step_completed-Completes :
    (id : String) (rs : RunStep) (exit_code : ℤ) (r : Runner)
    → is_cancelled r.ctx ≡ false
    → lookup id r.steps ≡ some rs
    → Completes id rs exit_code r (on_step_completed id exit_code r)
unfolding on_step_completed
on_step_completed-Completes id rs exit_code r alive found =
    rw (alive, found) (complete_step-Completes id rs exit_code r)
