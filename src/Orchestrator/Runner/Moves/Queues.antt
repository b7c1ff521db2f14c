-- ===== src/Orchestrator/Runner/Moves/Queues.antt =====
-- processDeferredSteps and processReadyDependents make moves only
-- (internal/server/orchestrator/dag_runner.go).
use claude_plane.Base.{
  ◌≡◌, inl, inr, String, Bool, true, some, List, [], ◌∷◌, lookup, get_or, Option-cases, Bool-cases,
  is_zero, pos,
}
use claude_plane.Orchestrator.Types.{RunStep, is_pending}
use claude_plane.Orchestrator.Runner.{
  Runner, DeferredScan, can_launch, must_skip, deferred_step, deferred_scan, process_deferred_steps,
}
use claude_plane.Orchestrator.Runner.Ready.{
  WorkItem, Work, ready_step, ready_dependent, visit_dependent, visit_dependents, process_item,
  process_ready_dependents, count_down,
}
use claude_plane.Orchestrator.Runner.Ready.Ends.{process_ready_dependents_rule}
use claude_plane.Orchestrator.Runner.Moves.{core_of, skips, launches, stay, next, Moves, Many-trans}

pub deferred_step-Moves :
    (id : String) (rs : RunStep) (s : DeferredScan)
    → lookup id s.runner.steps ≡ some rs
    → Moves (core_of s.runner) (core_of (deferred_step id rs s).runner)
unfolding deferred_step
deferred_step-Moves id rs s found = elim (Bool-cases (is_pending rs.status)) [
  | inr busy ↦ rw busy stay
  | inl waiting ↦ rw waiting (elim (Bool-cases (must_skip id rs s.runner)) [
    | inl skip ↦ rw skip (next stay (skips id rs found waiting))
    | inr run ↦ rw run (elim (Bool-cases (can_launch rs s.runner)) [
      | inl free ↦ rw free (next stay (launches id rs found waiting free))
      | inr held ↦ rw held stay
    ])
  ])
]

deferred_scan-Moves :
    (ids : List String) (s : DeferredScan)
    → Moves (core_of s.runner) (core_of (deferred_scan ids s).runner)
unfolding deferred_scan
deferred_scan-Moves [] s = stay
deferred_scan-Moves (id ∷ rest) s = elim (Option-cases (lookup id s.runner.steps)) [
  | inl e ↦ rw (e, deferred_scan) (deferred_scan-Moves rest s)
  | inr (rs, e) ↦
      rw (e, deferred_scan)
        (Many-trans (deferred_step-Moves id rs s e)
          (deferred_scan-Moves rest (deferred_step id rs s)))
]

pub process_deferred_steps-Moves :
    (r : Runner) (to_launch : List RunStep)
    → Moves (core_of r) (core_of (process_deferred_steps r to_launch).0)
unfolding process_deferred_steps
process_deferred_steps-Moves r to_launch =
    deferred_scan-Moves r.deferred_steps
      (record { runner = r; remaining = []; to_launch = to_launch })

ready_step-Moves :
    (id : String) (rs : RunStep) (w : Work)
    → lookup id w.runner.steps ≡ some rs
    → is_pending rs.status ≡ true
    → Moves (core_of w.runner) (core_of (ready_step id rs w).runner)
unfolding ready_step
ready_step-Moves id rs w found waiting = elim (Bool-cases (must_skip id rs w.runner)) [
  | inl skip ↦ rw skip (next stay (skips id rs found waiting))
  | inr run ↦ rw run (elim (Bool-cases (can_launch rs w.runner)) [
    | inl free ↦ rw free (next stay (launches id rs found waiting free))
    | inr held ↦ rw held stay
  ])
]

ready_dependent-Moves :
    (id : String) (w : Work) → Moves (core_of w.runner) (core_of (ready_dependent id w).runner)
unfolding ready_dependent
ready_dependent-Moves id w = elim (Option-cases (lookup id w.runner.steps)) [
  | inl e ↦ rw (e, ready_dependent) stay
  | inr (rs, e) ↦
      rw (e, ready_dependent)
        (elim (Bool-cases (is_pending rs.status)) [
          | inl waiting ↦ rw waiting (ready_step-Moves id rs w e waiting)
          | inr busy ↦ rw busy stay
        ])
]

visit_dependent-Moves :
    (item_failed : Bool) (id : String) (w : Work)
    → Moves (core_of w.runner) (core_of (visit_dependent item_failed id w).runner)
unfolding visit_dependent count_down
visit_dependent-Moves item_failed id w =
    let w' : Work = record w { runner = count_down item_failed id w.runner } in
    elim (Bool-cases (is_zero (get_or (pos 0) id w'.runner.in_degree))) [
      | inl due ↦ rw due (ready_dependent-Moves id w')
      | inr early ↦ rw early stay
    ]

visit_dependents-Moves :
    (item_failed : Bool) (deps : List String) (w : Work)
    → Moves (core_of w.runner) (core_of (visit_dependents item_failed deps w).runner)
unfolding visit_dependents
visit_dependents-Moves item_failed [] w = stay
visit_dependents-Moves item_failed (id ∷ rest) w =
    Many-trans (visit_dependent-Moves item_failed id w)
      (visit_dependents-Moves item_failed rest (visit_dependent item_failed id w))

process_item-Moves :
    (item : WorkItem) (rest : List WorkItem) (w : Work)
    → Moves (core_of w.runner) (core_of (process_item item rest w).runner)
unfolding process_item
process_item-Moves item rest w =
    visit_dependents-Moves item.failed (get_or [] item.step_id w.runner.dependents)
      (record w { queue = rest })

pub process_ready_dependents-Moves :
    (id : String) (has_failed : Bool) (r : Runner) (to_launch : List RunStep)
    → Moves (core_of r) (core_of (process_ready_dependents id has_failed r to_launch).runner)
process_ready_dependents-Moves id has_failed r to_launch =
    process_ready_dependents_rule (λ w. Moves (core_of r) (core_of w.runner))
      (λ item rest w _ p. Many-trans p (process_item-Moves item rest w)) id has_failed r to_launch
      stay
