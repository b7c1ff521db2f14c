-- ===== src/Orchestrator/Runner/Progress/Completion.antt =====
-- What a completion does to the statuses (internal/server/orchestrator/dag_runner.go).
use claude_plane.Base.{
  none, some, ◌≢◌, ap, ◌≡◌, inl, inr, String, true, false, some, arith, Map, lookup, insert,
  lookup-insert, Bool-cases, is_zero, ℤ, pos, str_eq, text_cases, Option, lookup-insert_self,
  str_eq-false,
}
use claude_plane.Orchestrator.Types.{RunStep, running, completed, failed, skipped}
use claude_plane.Orchestrator.Runner.{
  Runner, release_session_key, close_done, update_run_step_attempt,
}
use claude_plane.Orchestrator.Runner.Events.{
  can_retry, complete_step, fail_step, fail_run, finish_step, record_result, publish_step_event,
  schedule_retry, complete_run, on_step_completed, is_cancelled,
}
use claude_plane.Orchestrator.Runner.Moves.{
  Core, Move, skips, launches, Drop, drops, Moves, Drops, Many_rule,
}
use claude_plane.Orchestrator.Runner.Moves.Whole.{abandon_steps-Drops, settle_step-Moves}
use claude_plane.Orchestrator.Runner.Progress.{
  Later, Evolves, Evolves-refl, Evolves-trans, Evolves-insert, LaterEntry-refl, LaterEntry,
}
use claude_plane.Orchestrator.Runner.Moves.Completion.{finished_as}

Move-Evolves : (c d : Core) → Move c d → Evolves c.steps d.steps
Move-Evolves c d (skips id rs found waiting) =
    Evolves-insert c.steps id rs skipped found (ground arith)
Move-Evolves c d (launches id rs found waiting free) =
    Evolves-insert c.steps id rs running found (ground arith)

Drop-Evolves : (c d : Core) → Drop c d → Evolves c.steps d.steps
Drop-Evolves c d (drops id rs s found why) = Evolves-insert c.steps id rs s found (ground arith)

pub Moves-Evolves : {c d : Core} → Moves c d → Evolves c.steps d.steps
Moves-Evolves {c} {d} moves =
    Many_rule (λ e. Evolves c.steps e.steps)
      (λ e f m p. Evolves-trans c.steps e.steps f.steps p (Move-Evolves e f m)) moves
      (Evolves-refl c.steps)

pub Drops-Evolves : {c d : Core} → Drops c d → Evolves c.steps d.steps
Drops-Evolves {c} {d} moves =
    Many_rule (λ e. Evolves c.steps e.steps)
      (λ e f m p. Evolves-trans c.steps e.steps f.steps p (Drop-Evolves e f m)) moves
      (Evolves-refl c.steps)

fail_step-Evolves :
    (id : String) (rs : RunStep) (r : Runner) → Evolves r.steps (fail_step id rs r).steps
unfolding fail_step fail_run publish_step_event close_done complete_run
fail_step-Evolves id rs r = elim (Bool-cases (str_eq rs.on_failure "fail_run")) [
  | inl fatal ↦
      rw fatal (Drops-Evolves (abandon_steps-Drops id r.steps (record r { failed = true })))
  | inr mild ↦ rw mild (Moves-Evolves (settle_step-Moves id rs true (record r { failed = true })))
]

Evolves-insert_twice :
    (id : String) (a b : RunStep) (m : Map RunStep)
    → Evolves (insert id b m) (insert id b (insert id a m))
Evolves-insert_twice id a b m j =
    rw (lookup-insert id j b (insert id a m), lookup-insert id j a m, lookup-insert id j b m)
      (elim (text_cases id j) [
        | inl (t, _) ↦ rw t (LaterEntry-refl (some b))
        | inr (t, _) ↦ rw t (LaterEntry-refl (lookup j m))
      ])

complete_step-Evolves :
    (id : String) (rs : RunStep) (exit_code : ℤ) (r : Runner)
    → Evolves
        (insert id (finished_as rs exit_code) r.steps)
        (complete_step id rs exit_code r).runner.steps
unfolding complete_step schedule_retry finish_step release_session_key record_result
    update_run_step_attempt publish_step_event
complete_step-Evolves id rs exit_code r = elim (Bool-cases (is_zero exit_code)) [
  | inl good ↦ rw good (
      Moves-Evolves (
        settle_step-Moves id rs false (
          finish_step id rs completed (pos 0)
            (release_session_key rs (record_result id exit_code r)))))
  | inr bad ↦ rw bad (elim (Bool-cases (can_retry rs)) [
    | inl again ↦ rw again (Evolves-insert_twice id _ _ r.steps)
    | inr last ↦ rw last (
        fail_step-Evolves id rs (
          finish_step id rs failed exit_code
            (release_session_key rs (record_result id exit_code r))))
  ])
]

-- A finished step does not move on.
Later-finished :
    (rs : RunStep) (exit_code : ℤ) (b : RunStep)
    → Later (finished_as rs exit_code) b
    → b ≡ finished_as rs exit_code
Later-finished rs exit_code b h = ground (arith, h.moved, h.kept)

-- A completion in a live run gives the step its final status and exit code (with one more attempt if
-- it is to be retried), whatever follows in the same call; every other step keeps all its fields but
-- the status, and its status at most moves from pending to running, skipped or cancelled, or from
-- running to cancelled.
pub on_step_completed_statuses :
    (id : String) (rs : RunStep) (exit_code : ℤ) (r : Runner)
    → is_cancelled r.ctx ≡ false
    → lookup id r.steps ≡ some rs
    → (lookup id (on_step_completed id exit_code r).runner.steps ≡ some (finished_as rs exit_code))
      × ((j : String)
          → id ≢ j
          → LaterEntry
              (lookup j r.steps)
              (lookup j (on_step_completed id exit_code r).runner.steps))
unfolding on_step_completed
on_step_completed_statuses id rs exit_code r alive found =
    rw (alive, found)
      (
        final (lookup id after)
            (rw (lookup-insert_self id (finished_as rs exit_code) r.steps) at (grown id)),
        λ j other.
            rw (lookup-insert id j (finished_as rs exit_code) r.steps, str_eq-false id j other) at
              (grown j),
      )
  where
    after : Map RunStep
    after = (complete_step id rs exit_code r).runner.steps

    grown : Evolves (insert id (finished_as rs exit_code) r.steps) after
    grown = complete_step-Evolves id rs exit_code r

    final :
        (o : Option RunStep)
        → LaterEntry (some (finished_as rs exit_code)) o
        → o ≡ some (finished_as rs exit_code)
    final none h = absurd h
    final (some b) h = ap some (Later-finished rs exit_code b h)
