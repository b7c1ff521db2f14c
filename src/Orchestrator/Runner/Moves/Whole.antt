-- ===== src/Orchestrator/Runner/Moves/Whole.antt =====
-- Start, the end of a completion and the loop of `fail_run`, as moves
-- (internal/server/orchestrator/dag_runner.go).
use claude_plane.Base.{
  suc, ◌≡◌, refl, subst, sym, ◌==◌, inl, inr, String, Bool, not, ◌&&◌, arith, none, some, List, [],
  ◌∷◌, lookup, str_eq, Option-cases, Bool-cases, ℤ, is_zero,
}
use claude_plane.Orchestrator.Types.{RunStep, skipped, cancelled, is_pending, is_running}
use claude_plane.Orchestrator.Runner.{
  Runner, RunContext, can_launch, process_deferred_steps, close_done,
}
use claude_plane.Orchestrator.Runner.Ready.{Work, process_ready_dependents}
use claude_plane.Orchestrator.Runner.Events.{
  StartScan, scanning, panicked, start_root, start_entry, start_scan, start, launch_step,
  launch_steps, publish_step_event, outcome_event, outcome_status, abandon_step, abandon_steps,
  settle_step, complete_run,
}
use claude_plane.Orchestrator.Runner.Moves.{
  Core, core_of, launches, drops, stay, next, Moves, Drops, Many-trans,
}
use claude_plane.Orchestrator.Runner.Moves.Queues.{
  process_deferred_steps-Moves, process_ready_dependents-Moves,
}

-- Where the scan of Start has come to, unless it panicked.
abbrev pub ScanMoves : Core → StartScan → Type 0
ScanMoves c (scanning r to_launch) = Moves c (core_of r)
ScanMoves c panicked = Unit

start_root-Moves :
    (id : String) (rs : RunStep) (r : Runner) (to_launch : List RunStep)
    → lookup id r.steps ≡ some rs
    → ScanMoves (core_of r) (start_root id rs r to_launch)
unfolding start_root
start_root-Moves id rs r to_launch found = elim (Bool-cases (is_pending rs.status)) [
  | inr busy ↦ rw busy stay
  | inl waiting ↦ rw waiting (elim (Bool-cases (can_launch rs r)) [
    | inl free ↦ rw free (next stay (launches id rs found waiting free))
    | inr held ↦ rw held stay
  ])
]

start_entry-Moves :
    (id : String) (deg : ℤ) (r : Runner) (to_launch : List RunStep)
    → ScanMoves (core_of r) (start_entry id deg r to_launch)
unfolding start_entry
start_entry-Moves id deg r to_launch = elim (Bool-cases (is_zero deg)) [
  | inr inner ↦ rw inner stay
  | inl root ↦ rw root (elim (Option-cases (lookup id r.steps)) [
    | inl e ↦ rw e tt
    | inr (rs, e) ↦ rw e (start_root-Moves id rs r to_launch e)
  ])
]

ScanMoves-trans : (c d : Core) (s : StartScan) → Moves c d → ScanMoves d s → ScanMoves c s
ScanMoves-trans c d (scanning r to_launch) p q = Many-trans p q
ScanMoves-trans c d panicked p q = tt

pub start_scan-Moves :
    (entries : List (String × ℤ)) (c : Core) (s : StartScan)
    → ScanMoves c s
    → ScanMoves c (start_scan entries s)
unfolding start_scan
start_scan-Moves entries c panicked p = tt
start_scan-Moves [] c (scanning r to_launch) p = p
start_scan-Moves ((id, deg) ∷ rest) c (scanning r to_launch) p =
    start_scan-Moves rest c (start_entry id deg r to_launch) (
      ScanMoves-trans c (core_of r) (start_entry id deg r to_launch) p
        (start_entry-Moves id deg r to_launch))

abandon_step-Drops :
    (failed_id id : String) (rs : RunStep) (r : Runner)
    → lookup id r.steps ≡ some rs
    → Drops (core_of r) (core_of (abandon_step failed_id id rs r))
unfolding abandon_step
abandon_step-Drops failed_id id rs r found = elim (Bool-cases (is_pending rs.status)) [
  | inl waiting ↦ rw waiting (next stay (drops id rs skipped found (inl (waiting, refl))))
  | inr busy ↦
      rw busy (elim (Bool-cases (is_running rs.status && not (str_eq rs.step_id failed_id))) [
        | inl runs ↦ rw runs (next stay (drops id rs cancelled found (inr (ground arith, refl))))
        | inr other ↦ rw other stay
      ])
]

pub abandon_steps-Drops :
    (failed_id : String) (entries : List (String × RunStep)) (r : Runner)
    → Drops (core_of r) (core_of (abandon_steps failed_id entries r))
unfolding abandon_steps
abandon_steps-Drops failed_id [] r = stay
abandon_steps-Drops failed_id ((id, _) ∷ rest) r = elim (Option-cases (lookup id r.steps)) [
  | inl e ↦ rw (e, abandon_steps) (abandon_steps-Drops failed_id rest r)
  | inr (rs, e) ↦
      rw (e, abandon_steps)
        (Many-trans (abandon_step-Drops failed_id id rs r e)
          (abandon_steps-Drops failed_id rest (abandon_step failed_id id rs r)))
]

launch_steps-core : (rss : List RunStep) (r : Runner) → core_of (launch_steps rss r) ≡ core_of r
unfolding launch_steps launch_step
launch_steps-core [] r = refl
launch_steps-core (rs ∷ rest) r = launch_steps-core rest (launch_step rs r)

-- Start only launches: its moves begin at the runner as it was built.
pub start-Moves : (r r' : Runner) → start r ≡ some r' → Moves (core_of r) (core_of r')
unfolding start
start-Moves r r' e =
    from (start_scan r.in_degree (scanning (record r { ctx = RunContext.live }) [])) scanned e
  where
    scanned :
        ScanMoves
          (core_of r)
          (start_scan r.in_degree (scanning (record r { ctx = RunContext.live }) []))
    scanned =
        start_scan-Moves r.in_degree (core_of r) (scanning (record r { ctx = RunContext.live }) [])
          stay

    from :
        (s : StartScan)
        → ScanMoves (core_of r) s
        → elim s [ scanning r'' to_launch ↦ some (launch_steps to_launch r'') | panicked ↦ none ]
          ≡ some r'
        → Moves (core_of r) (core_of r')
    from (scanning r'' to_launch) p h =
        let same : launch_steps to_launch r'' ≡ r' = cc in
        subst (λ t. Moves (core_of r) (core_of t)) same
          (subst (Moves (core_of r)) (sym (launch_steps-core to_launch r'')) p)
    from panicked p h = cc

-- From `d.completed++` on, a completion makes moves only.
pub settle_step-Moves :
    (id : String) (rs : RunStep) (has_failed : Bool) (r : Runner)
    → Moves
        (record (core_of r) { settled = suc r.completed })
        (core_of (settle_step id rs has_failed r))
unfolding settle_step publish_step_event close_done complete_run
settle_step-Moves id rs has_failed r = elim (Bool-cases (q.0.completed == q.0.total)) [
  | inl last ↦ rw last made
  | inr more ↦ rw more (
      subst (Moves (core_of counted))
        (sym (
          launch_steps-core q.1 (
            publish_step_event (outcome_event has_failed) rs.run_step_id id
              (outcome_status has_failed) q.0)))
        made)
]
  where
    counted : Runner
    counted = record r { completed = suc r.completed }

    w : Work
    w = process_ready_dependents id has_failed counted []

    q : Runner × List RunStep
    q = process_deferred_steps w.runner w.to_launch

    made : Moves (core_of counted) (core_of q.0)
    made =
        Many-trans (process_ready_dependents-Moves id has_failed counted [])
          (process_deferred_steps-Moves w.runner w.to_launch)
