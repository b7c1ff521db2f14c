-- ===== src/Orchestrator/System/Invariant.antt =====
-- What holds of the steps, the session keys and the waiting retries in every state that a run can
-- reach (internal/server/orchestrator/dag_runner.go).
use claude_plane.Orchestrator.System.{
  cancels, System, add_retry, after_completion, Reach, starts, next, completes, here, retries,
  sets_values, Transition,
}
use claude_plane.Orchestrator.System.Waits.{
  IsKeyed, WaitInv, WaitInv-Evolves, Waiting, Differs, WaitInv-except, All-remove, Distinct-remove,
  running_apart,
}
use claude_plane.Orchestrator.Runner.Moves.Completion.{
  Completes, settles, fails_run, waits, finished_as, released, on_step_completed-Completes,
}
use claude_plane.Orchestrator.Runner.{Runner, set_step_values}
use claude_plane.Base.{
  String, ℤ, ◌≡◌, some, lookup, true, false, arith, List, All, ◌≢◌, subst, All-map, sym, refl,
  insert, Bool-cases, Map, inl, lookup-insert_self, lookup-insert, inr, str_eq-false, ◌++◌,
}
use claude_plane.Orchestrator.Runner.Keys.{
  KeyInv, Moves-KeyInv, KeyInv-release, Drops-KeyInv, KeyInvCore, KeyInv-idle, KeyInv-launch,
}
use claude_plane.Orchestrator.Runner.Events.{
  start, Completion, is_cancelled, on_step_completed, run_retry, cancel,
}
use claude_plane.Orchestrator.Types.{RunStep, is_running, Status, pending, running}
use claude_plane.Orchestrator.Runner.Moves.Whole.{start-Moves}
use claude_plane.Orchestrator.Runner.Progress.Completion.{Moves-Evolves, on_step_completed_statuses}
use claude_plane.Orchestrator.Runner.Moves.Retry.{
  Retried, ignored, deferred, relaunched, with_status, run_retry-Retried,
}
use claude_plane.Orchestrator.Runner.Progress.{LaterEntry-refl}
use claude_plane.Orchestrator.Runner.Moves.{core_of}

pub record SystemInv (s : System) : Type 0 where
  pub waits : WaitInv s.runner.steps s.retries
  pub keys : KeyInv s.runner.steps s.runner.active_session_keys

start-SystemInv :
    (s : System) (r : Runner)
    → start s.runner ≡ some r
    → SystemInv s
    → SystemInv (record s { runner = r })
start-SystemInv s r e inv =
    let moves = start-Moves s.runner r e in
    record {
      waits = WaitInv-Evolves s.runner.steps r.steps s.retries (Moves-Evolves moves) inv.waits;
      keys = Moves-KeyInv moves inv.keys;
    }

module _ (id : String) (rs : RunStep) (exit_code : ℤ) (r : Runner)
    (found : lookup id r.steps ≡ some rs) (runs : is_running rs.status ≡ true) where
  finished_idle : is_running (finished_as rs exit_code).status ≡ false
  finished_idle = ground arith

  finished_own : IsKeyed r.steps → (finished_as rs exit_code).step_id ≡ id
  finished_own keyed = ground (arith, keyed id rs found)

  Completes-KeyInv :
      (c : Completion)
      → Completes id rs exit_code r c
      → KeyInv r.steps r.active_session_keys
      → KeyInv c.runner.steps c.runner.active_session_keys
  Completes-KeyInv c (settles x e moves _) inv = Moves-KeyInv moves (
      KeyInv-release id rs x r.steps r.active_session_keys found runs
        (ground (arith, finished_idle)) inv)
  Completes-KeyInv c (fails_run x e drops _ _) inv = Drops-KeyInv drops (
      KeyInv-release id rs x r.steps r.active_session_keys found runs
        (ground (arith, finished_idle)) inv)
  Completes-KeyInv c (waits x y xf e yf same _) inv = subst KeyInvCore (sym same) (
      KeyInv-idle id y (insert id x r.steps) (released rs r.active_session_keys) (ground arith)
        (KeyInv-release id rs x r.steps r.active_session_keys found runs (ground arith) inv))

  -- A retry that starts to wait belongs to the step that has just failed.
  add_retry-WaitInv :
      (c : Completion) (cs : List RunStep)
      → Completes id rs exit_code r c
      → lookup id c.runner.steps ≡ some (finished_as rs exit_code)
      → (finished_as rs exit_code).step_id ≡ id
      → All (λ d. id ≢ d.step_id) cs
      → WaitInv c.runner.steps cs
      → WaitInv c.runner.steps (add_retry c.retry cs)
  add_retry-WaitInv c cs (settles x e moves none_waits) found' own others inv = rw none_waits inv
  add_retry-WaitInv c cs (fails_run x e drops dead none_waits) found' own others inv =
      rw none_waits inv
  add_retry-WaitInv c cs (waits x y xf e yf same waiting) found' own others inv =
      rw waiting (record {
        keyed = inv.keyed;
        waiting = (
          record {
            entry = y;
            found = ground (arith, e, found', own);
            has_failed = yf;
            same_key = refl;
          },
          inv.waiting,
        );
        distinct =
            (All-map _ _ (λ d apart p. apart (ground (arith, e, own))) cs others, inv.distinct);
      })

completes-SystemInv :
    (id : String) (rs : RunStep) (exit_code : ℤ) (s : System)
    → lookup id s.runner.steps ≡ some rs
    → is_running rs.status ≡ true
    → SystemInv s
    → SystemInv (after_completion id exit_code s)
unfolding on_step_completed
completes-SystemInv id rs exit_code s found runs inv =
    elim (Bool-cases (is_cancelled s.runner.ctx)) [
      | inl dead ↦ rw dead inv
      | inr alive ↦
          let c : Completion = on_step_completed id exit_code s.runner in
          let how = on_step_completed-Completes id rs exit_code s.runner alive found in
          let (found', later) = on_step_completed_statuses id rs exit_code s.runner alive found in
          let own = finished_own id rs exit_code s.runner found runs inv.waits.keyed in
          let others = running_apart id rs s.runner.steps s.retries found runs inv.waits.waiting in
          record {
            waits =
                add_retry-WaitInv id rs exit_code s.runner found runs c s.retries how found' own
                  others
                  (WaitInv-except id (finished_as rs exit_code) s.runner.steps c.runner.steps
                    s.retries own found' others later inv.waits);
            keys = Completes-KeyInv id rs exit_code s.runner found runs c how inv.keys;
          }
    ]

-- The entry of a retried step gets another status; no other entry changes.
with_status-WaitInv :
    (copy entry : RunStep) (status : Status) (m : Map RunStep) (cs : List RunStep)
    → lookup copy.step_id m ≡ some entry
    → All (Differs copy) cs
    → WaitInv m cs
    → WaitInv (insert copy.step_id (record entry { status = status }) m) cs
with_status-WaitInv copy entry status m cs found others inv =
    let x : RunStep = record entry { status = status } in
    WaitInv-except copy.step_id x m (insert copy.step_id x m) cs
      (inv.keyed copy.step_id entry found) (lookup-insert_self copy.step_id x m) others
      (λ j apart.
        rw (lookup-insert copy.step_id j x m, str_eq-false copy.step_id j apart)
          (LaterEntry-refl (lookup j m)))
      inv

retries-SystemInv :
    (copy : RunStep) (cs : List RunStep) (r r' : Runner) (w : Waiting r.steps copy)
    → All (Differs copy) cs
    → Retried copy w.entry r r'
    → WaitInv r.steps cs
    → KeyInv r.steps r.active_session_keys
    → SystemInv (record { runner = r'; retries = cs })
retries-SystemInv copy cs r r' w others (ignored dead e) inv keys =
    rw e (record { waits = inv; keys = keys })
retries-SystemInv copy cs r r' w others (deferred e) inv keys = record {
  waits =
      subst (λ c. WaitInv c.steps cs) (sym e)
        (with_status-WaitInv copy w.entry pending r.steps cs w.found others inv);
  keys = subst KeyInvCore (sym e) (
      KeyInv-idle copy.step_id (record (w.entry) { status = pending }) r.steps r.active_session_keys
        refl keys);
}
retries-SystemInv copy cs r r' w others (relaunched free e) inv keys = record {
  waits =
      subst (λ c. WaitInv c.steps cs) (sym e)
        (with_status-WaitInv copy w.entry running r.steps cs w.found others inv);
  keys = subst KeyInvCore (sym e) (
      subst (λ k. KeyInv (with_status copy w.entry running (core_of r)).steps k) (rw w.same_key)
        (KeyInv-launch copy.step_id (record (w.entry) { status = running }) r.steps
          r.active_session_keys (rw w.same_key free) refl keys));
}

pub Transition-SystemInv : (s t : System) → Transition s t → SystemInv s → SystemInv t
unfolding set_step_values cancel
Transition-SystemInv s t (starts r unset e) inv = start-SystemInv s r e inv
Transition-SystemInv s t (completes id rs exit_code found runs) inv =
    completes-SystemInv id rs exit_code s found runs inv
Transition-SystemInv s t (retries before copy after e) inv =
    let (w, waiting) =
      All-remove (Waiting s.runner.steps) before copy after (rw e at inv.waits.waiting) in
    let (others, distinct) = Distinct-remove before copy after (rw e at inv.waits.distinct) in
    retries-SystemInv copy (before ++ after) s.runner (run_retry copy s.runner) w others
      (run_retry-Retried copy w.entry s.runner w.found)
      (record { keyed = inv.waits.keyed; waiting = waiting; distinct = distinct }) inv.keys
Transition-SystemInv s t (sets_values name values) inv = record {
  waits = inv.waits;
  keys = inv.keys;
}
Transition-SystemInv s t cancels inv = record { waits = inv.waits; keys = inv.keys }

pub Reach-SystemInv : {s t : System} → Reach s t → SystemInv s → SystemInv t
Reach-SystemInv here inv = inv
Reach-SystemInv (next {t} {u} r m) inv = Transition-SystemInv t u m (Reach-SystemInv r inv)
