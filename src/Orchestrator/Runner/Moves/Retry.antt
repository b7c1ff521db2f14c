-- ===== src/Orchestrator/Runner/Moves/Retry.antt =====
-- The three ends of a retry goroutine (internal/server/orchestrator/dag_runner.go): the run is over,
-- the step waits for its session key, or it is launched once more.
use claude_plane.Orchestrator.Runner.Moves.{Core, core_of, key_free, claim}
use claude_plane.Orchestrator.Runner.{Runner, can_launch}
use claude_plane.Orchestrator.Types.{RunStep, Status, pending, running}
use claude_plane.Orchestrator.Runner.Events.{run_retry, is_cancelled, overwrite_status}
use claude_plane.Base.{
  lookup, insert, ◌≡◌, true, some, Bool-cases, inl, inr, not, str_eq, ◌&&◌, arith, refl,
}

abbrev pub with_status : RunStep → RunStep → Status → Core → Core
with_status copy entry status c = record c {
  steps = insert copy.step_id (record entry { status = status }) c.steps;
}

pub data Retried (copy entry : RunStep) (r r' : Runner) : Type 0 where
  ignored : is_cancelled r.ctx ≡ true → r' ≡ r → Retried copy entry r r'
  deferred : core_of r' ≡ with_status copy entry pending (core_of r) → Retried copy entry r r'
  relaunched :
      key_free copy r.active_session_keys ≡ true
      → core_of r' ≡ record (with_status copy entry running (core_of r)) {
        keys = claim copy r.active_session_keys;
      }
      → Retried copy entry r r'

pub run_retry-Retried :
    (copy entry : RunStep) (r : Runner)
    → lookup copy.step_id r.steps ≡ some entry
    → Retried copy entry r (run_retry copy r)
unfolding run_retry
run_retry-Retried copy entry r found = elim (Bool-cases (is_cancelled r.ctx)) [
  | inl dead ↦ rw dead (ignored dead refl)
  | inr alive ↦
      rw alive
        (elim (Bool-cases (not (str_eq copy.session_key_snapshot "") && not (can_launch copy r))) [
          | inl held ↦ rw held (deferred (rw (found, overwrite_status)))
          | inr free ↦ rw free (relaunched (ground arith) (rw (found, overwrite_status)))
        ])
]
