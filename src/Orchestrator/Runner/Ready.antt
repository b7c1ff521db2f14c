-- ===== src/Orchestrator/Runner/Ready.antt =====
-- processReadyDependents (internal/server/orchestrator/dag_runner.go): the work queue that counts a
-- settled step down from its dependents, skips those that cannot run, and launches the others.
pub mod Ends
use claude_plane.Base.{
  ℕ, zero, suc, ◌++◌, String, Bool, true, none, some, List, [], ◌∷◌, pos, decrement, is_zero,
  if◌then◌else◌, lookup, get_or, insert, length,
}
use claude_plane.Orchestrator.Types.{RunStep, running, is_pending}
use claude_plane.Orchestrator.Runner.{Runner, can_launch, must_skip, skip_step, mark_running}

pub record WorkItem : Type 0 where
  pub step_id : String
  pub failed : Bool

-- The variables of the loop: the runner, `queue` and `toLaunch`.
pub record Work : Type 0 where
  pub runner : Runner
  pub queue : List WorkItem
  pub to_launch : List RunStep

-- hasFailedUpstream[dep_id] = true if the item failed, and inDegree[dep_id]--.
unfoldable pub count_down : Bool → String → Runner → Runner
count_down item_failed dep_id r = record r {
  has_failed_upstream =
      if item_failed then insert dep_id true r.has_failed_upstream else r.has_failed_upstream;
  in_degree = insert dep_id (decrement (get_or (pos 0) dep_id r.in_degree)) r.in_degree;
}

-- A pending dependent whose last dependency has settled: skip it, launch it, or defer it.
unfoldable pub ready_step : String → RunStep → Work → Work
unfolding must_skip can_launch skip_step mark_running
ready_step dep_id rs w =
    if must_skip dep_id rs w.runner
    then record w {
      runner = skip_step dep_id rs w.runner;
      queue = w.queue ++ record { step_id = dep_id; failed = true } ∷ [];
    }
    else if can_launch rs w.runner
    then record w {
      runner = mark_running dep_id rs w.runner;
      to_launch = w.to_launch ++ record rs { status = running } ∷ [];
    }
    else record w {
      runner = record (w.runner) { deferred_steps = w.runner.deferred_steps ++ dep_id ∷ [] };
    }

-- `depRS != nil && depRS.Status == StatusPending`.
unfoldable pub ready_dependent : String → Work → Work
unfolding ready_step
ready_dependent dep_id w = elim (lookup dep_id w.runner.steps) [
  | none ↦ w
  | some rs ↦ if is_pending rs.status then ready_step dep_id rs w else w
]

-- The body of the inner loop.
unfoldable pub visit_dependent : Bool → String → Work → Work
unfolding count_down ready_dependent
visit_dependent item_failed dep_id w =
    let w' = record w { runner = count_down item_failed dep_id w.runner } in
    if is_zero (get_or (pos 0) dep_id w'.runner.in_degree) then ready_dependent dep_id w' else w'

unfoldable pub visit_dependents : Bool → List String → Work → Work
visit_dependents item_failed [] w = w
visit_dependents item_failed (dep_id ∷ rest) w =
    visit_dependents item_failed rest (visit_dependent item_failed dep_id w)

-- One round of the outer loop, with `item` off the head of the queue and `rest` behind it.
unfoldable pub process_item : WorkItem → List WorkItem → Work → Work
unfolding visit_dependents
process_item item rest w =
    visit_dependents item.failed (get_or [] item.step_id w.runner.dependents)
      (record w { queue = rest })

-- `for len(queue) > 0`, with fuel; the theorems of Ready/Ends show that the queue is always emptied.
unfoldable pub ready_loop : ℕ → Work → Work
ready_loop zero w = w
ready_loop (suc fuel) w = elim w.queue [
  | [] ↦ w
  | item ∷ rest ↦ ready_loop fuel (process_item item rest w)
]

-- Every round but the first takes an item of a step that was pending, so one round for each entry of
-- the map of steps, and one more, are enough.
abbrev pub ready_fuel : Runner → ℕ
ready_fuel r = suc (length r.steps)

unfoldable pub process_ready_dependents : String → Bool → Runner → List RunStep → Work
unfolding ready_loop process_item
process_ready_dependents step_id step_failed r to_launch = ready_loop (ready_fuel r) (record {
  runner = r;
  queue = record { step_id = step_id; failed = step_failed } ∷ [];
  to_launch = to_launch;
})
