-- ===== src/Orchestrator/Runner/Ready/Ends.antt =====
-- The work queue of processReadyDependents always runs empty.
use claude_plane.Base.{
  ℕ, zero, suc, ◌+◌, ◌≤◌, ◌<◌, ◌≡◌, ap, Option-cases, inl, inr, String, Bool, true, some, List, [],
  ◌∷◌, arith, length, length-append, tally, tally-insert, lookup, get_or, List-cases, Map,
  tally-le-length,
}
use claude_plane.Orchestrator.Types.{RunStep, is_pending, running, skipped}
use claude_plane.Orchestrator.Runner.{Runner}
use claude_plane.Orchestrator.Runner.Ready.{
  WorkItem, Work, ready_step, ready_dependent, visit_dependent, visit_dependents, process_item,
  ready_loop, process_ready_dependents, count_down, ready_fuel,
}

-- The number of steps that are still pending.
abbrev pub pending_count : Map RunStep → ℕ
pending_count = tally (λ rs. is_pending rs.status)

-- What one round uses up: items in the queue, and steps that can still be put there.
abbrev pub work_left : Work → ℕ
work_left w = length w.queue + pending_count w.runner.steps

ready_step-work_left :
    (dep_id : String) (rs : RunStep) (w : Work)
    → lookup dep_id w.runner.steps ≡ some rs
    → is_pending rs.status ≡ true
    → work_left (ready_step dep_id rs w) ≤ work_left w
unfolding ready_step
ready_step-work_left dep_id rs w found waiting = ground (
  arith,
  tally-insert (λ (s : RunStep). is_pending s.status) dep_id (record rs { status = skipped }) rs
      w.runner.steps,
  tally-insert (λ (s : RunStep). is_pending s.status) dep_id (record rs { status = running }) rs
      w.runner.steps,
  length-append w.queue (record { step_id = dep_id; failed = true } ∷ []),
)

ready_dependent-work_left :
    (dep_id : String) (w : Work) → work_left (ready_dependent dep_id w) ≤ work_left w
unfolding ready_dependent
ready_dependent-work_left dep_id w = elim (Option-cases (lookup dep_id w.runner.steps)) [
  | inl e ↦ rw (e, ready_dependent) (omega arith)
  | inr (rs, e) ↦ rw (e, ready_dependent) (ground (arith, ready_step-work_left dep_id rs w))
]

visit_dependent-work_left :
    (item_failed : Bool) (dep_id : String) (w : Work)
    → work_left (visit_dependent item_failed dep_id w) ≤ work_left w
unfolding visit_dependent count_down
visit_dependent-work_left item_failed dep_id w = ground (
  arith,
  ready_dependent-work_left dep_id (record w { runner = count_down item_failed dep_id w.runner }),
)

visit_dependents-work_left :
    (item_failed : Bool) (deps : List String) (w : Work)
    → work_left (visit_dependents item_failed deps w) ≤ work_left w
unfolding visit_dependents
visit_dependents-work_left item_failed [] w = omega arith
visit_dependents-work_left item_failed (dep_id ∷ rest) w = omega (
  arith,
  visit_dependent-work_left item_failed dep_id w,
  visit_dependents-work_left item_failed rest (visit_dependent item_failed dep_id w),
)

-- A round uses up its item, and puts an item into the queue only for a step that stops pending.
process_item-work_left :
    (item : WorkItem) (rest : List WorkItem) (w : Work)
    → w.queue ≡ item ∷ rest
    → work_left (process_item item rest w) < work_left w
unfolding process_item
process_item-work_left item rest w e = omega (
  arith,
  ap length e,
  visit_dependents-work_left item.failed (get_or [] item.step_id w.runner.dependents)
      (record w { queue = rest }),
)

-- An invariant that one round keeps holds when the loop stops, and with enough fuel the queue is
-- then empty.
pub ready_loop_rule {ℓ} :
    (P : Work → Type ℓ)
    → ((item : WorkItem) (rest : List WorkItem) (w : Work)
        → w.queue ≡ item ∷ rest
        → P w
        → P (process_item item rest w))
    → (fuel : ℕ) (w : Work) → work_left w ≤ fuel
    → P w
    → P (ready_loop fuel w) × ((ready_loop fuel w).queue ≡ [])
unfolding ready_loop
ready_loop_rule P keep zero w h p = elim (List-cases w.queue) [
  | inl e ↦ (p, e)
  | inr (item, rest, e) ↦ absurd (omega (arith, ap length e))
]
ready_loop_rule P keep (suc fuel) w h p = elim (List-cases w.queue) [
  | inl e ↦ rw (e, ready_loop) (p, e)
  | inr (item, rest, e) ↦
      rw (e, ready_loop)
        (ready_loop_rule P keep fuel (process_item item rest w)
          (omega (arith, process_item-work_left item rest w e)) (keep item rest w e p))
]

abbrev pub first_work : String → Bool → Runner → List RunStep → Work
first_work step_id step_failed r to_launch = record {
  runner = r;
  queue = record { step_id = step_id; failed = step_failed } ∷ [];
  to_launch = to_launch;
}

-- The rule for the whole call, whose fuel is always enough.
pub process_ready_dependents_rule {ℓ} :
    (P : Work → Type ℓ)
    → ((item : WorkItem) (rest : List WorkItem) (w : Work)
        → w.queue ≡ item ∷ rest
        → P w
        → P (process_item item rest w))
    → (step_id : String) (step_failed : Bool) (r : Runner) (to_launch : List RunStep)
    → P (first_work step_id step_failed r to_launch)
    → P (process_ready_dependents step_id step_failed r to_launch)
unfolding process_ready_dependents
process_ready_dependents_rule P keep step_id step_failed r to_launch p =
    (ready_loop_rule P keep (ready_fuel r) (first_work step_id step_failed r to_launch)
      (omega (arith, tally-le-length (λ (rs : RunStep). is_pending rs.status) r.steps)) p).0

-- processReadyDependents always empties its work queue, whatever the graph (also one with cycles):
-- the number of rounds is at most one more than the number of entries of the map of steps.
pub process_ready_dependents_ends :
    (step_id : String) (step_failed : Bool) (r : Runner) (to_launch : List RunStep)
    → (process_ready_dependents step_id step_failed r to_launch).queue ≡ []
unfolding process_ready_dependents
process_ready_dependents_ends step_id step_failed r to_launch =
    (ready_loop_rule (λ _. Unit {0}) (λ _ _ _ _ _. tt) (ready_fuel r)
      (first_work step_id step_failed r to_launch)
      (omega (arith, tally-le-length (λ (rs : RunStep). is_pending rs.status) r.steps)) tt).1
