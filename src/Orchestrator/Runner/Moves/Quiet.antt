-- ===== src/Orchestrator/Runner/Moves/Quiet.antt =====
-- The calls of onRunComplete in the parts of a completion (internal/server/orchestrator/dag_runner.go).
use claude_plane.Base.{
  ℕ, suc, ◌+◌, ◌≡◌, refl, ◌∙◌, inl, inr, String, Bool, true, false, ◌&&◌, ◌++◌, List, [], ◌∷◌,
  lookup, get_or, Option-cases, is_zero, pos, unit_of, arith, if◌then◌else◌, ◌==◌, if_rule, not,
  ◌||◌,
}
use claude_plane.Orchestrator.Types.{RunStep, Status, is_pending, skipped, running}
use claude_plane.Orchestrator.Effects.{
  Effect, run_completed, wrote_status, published, executed, step_started,
}
use claude_plane.Orchestrator.Runner.{
  Runner, DeferredScan, can_launch, must_skip, deferred_step, deferred_scan, process_deferred_steps,
  skip_step, mark_running, update_run_step_in_db, claim_session_key, put_status, close_done,
  build_resolve_context,
}
use claude_plane.Orchestrator.Runner.Ready.{
  WorkItem, Work, ready_step, ready_dependent, visit_dependent, visit_dependents, process_item,
  process_ready_dependents, count_down,
}
use claude_plane.Orchestrator.Runner.Ready.Ends.{process_ready_dependents_rule}
use claude_plane.Orchestrator.Runner.Events.{
  launch_step, launch_steps, publish_step_event, settle_step, complete_run, outcome_event,
  outcome_status,
}

abbrev pub is_declaration : Effect → Bool
is_declaration (run_completed run_id status) = true
is_declaration _ = false

-- How often the callback at the end of the run was called.
abbrev pub declarations : List Effect → ℕ
declarations [] = 0
declarations (e ∷ es) = unit_of (is_declaration e) + declarations es

abbrev pub declared : Runner → ℕ
declared r = declarations r.effects

pub declarations-append :
    (es : List Effect) (e : Effect)
    → declarations (es ++ e ∷ []) ≡ declarations es + unit_of (is_declaration e)
declarations-append [] e = omega arith
declarations-append (d ∷ es) e = omega (arith, declarations-append es e)

pub quiet_call :
    (on : Bool) (es : List Effect) (e : Effect)
    → is_declaration e ≡ false
    → declarations (if on then es ++ e ∷ [] else es) ≡ declarations es
quiet_call true es e h = ground (arith, h, declarations-append es e)
quiet_call false es e h = refl

declaration_call :
    (on : Bool) (es : List Effect) (run_id : String) (status : Status)
    → declarations (if on then es ++ run_completed run_id status ∷ [] else es)
      ≡ declarations es + unit_of on
declaration_call true es run_id status = declarations-append es (run_completed run_id status)
declaration_call false es run_id status = omega arith

deferred_step-declared :
    (id : String) (rs : RunStep) (s : DeferredScan)
    → declared (deferred_step id rs s).runner ≡ declared s.runner
unfolding deferred_step skip_step mark_running update_run_step_in_db claim_session_key put_status
deferred_step-declared id rs s =
    let wrote = λ (status : Status).
      quiet_call s.runner.has_store s.runner.effects (wrote_status rs.run_step_id status (pos 0))
        refl in
    if_rule (λ (t : DeferredScan). declared t.runner ≡ declared s.runner)
      (not (is_pending rs.status)) _ _ (λ e. refl)
      (λ e.
        if_rule (λ (t : DeferredScan). declared t.runner ≡ declared s.runner)
          (must_skip id rs s.runner) _ _ (λ k. wrote skipped)
          (λ k.
            if_rule (λ (t : DeferredScan). declared t.runner ≡ declared s.runner)
              (can_launch rs s.runner) _ _ (λ f. wrote running) (λ f. refl)))

deferred_scan-declared :
    (ids : List String) (s : DeferredScan)
    → declared (deferred_scan ids s).runner ≡ declared s.runner
unfolding deferred_scan
deferred_scan-declared [] s = refl
deferred_scan-declared (id ∷ rest) s = elim (Option-cases (lookup id s.runner.steps)) [
  | inl e ↦ rw (e, deferred_scan) (deferred_scan-declared rest s)
  | inr (rs, e) ↦
      rw (e, deferred_scan)
        (deferred_scan-declared rest (deferred_step id rs s) ∙ deferred_step-declared id rs s)
]

ready_step-declared :
    (id : String) (rs : RunStep) (w : Work)
    → declared (ready_step id rs w).runner ≡ declared w.runner
unfolding ready_step skip_step mark_running update_run_step_in_db claim_session_key put_status
ready_step-declared id rs w =
    let wrote = λ (status : Status).
      quiet_call w.runner.has_store w.runner.effects (wrote_status rs.run_step_id status (pos 0))
        refl in
    if_rule (λ (v : Work). declared v.runner ≡ declared w.runner) (must_skip id rs w.runner) _ _
      (λ k. wrote skipped)
      (λ k.
        if_rule (λ (v : Work). declared v.runner ≡ declared w.runner) (can_launch rs w.runner) _ _
          (λ f. wrote running) (λ f. refl))

ready_dependent-declared :
    (id : String) (w : Work) → declared (ready_dependent id w).runner ≡ declared w.runner
unfolding ready_dependent
ready_dependent-declared id w = elim (Option-cases (lookup id w.runner.steps)) [
  | inl e ↦ rw (e, ready_dependent) refl
  | inr (rs, e) ↦
      rw (e, ready_dependent)
        (if_rule (λ (v : Work). declared v.runner ≡ declared w.runner) (is_pending rs.status) _ _
          (λ k. ready_step-declared id rs w) (λ k. refl))
]

visit_dependent-declared :
    (item_failed : Bool) (id : String) (w : Work)
    → declared (visit_dependent item_failed id w).runner ≡ declared w.runner
unfolding visit_dependent count_down
visit_dependent-declared item_failed id w =
    let w' : Work = record w { runner = count_down item_failed id w.runner } in
    if_rule (λ (v : Work). declared v.runner ≡ declared w.runner)
      (is_zero (get_or (pos 0) id w'.runner.in_degree)) _ _ (λ k. ready_dependent-declared id w')
      (λ k. refl)

visit_dependents-declared :
    (item_failed : Bool) (deps : List String) (w : Work)
    → declared (visit_dependents item_failed deps w).runner ≡ declared w.runner
unfolding visit_dependents
visit_dependents-declared item_failed [] w = refl
visit_dependents-declared item_failed (id ∷ rest) w =
    visit_dependents-declared item_failed rest (visit_dependent item_failed id w)
    ∙ visit_dependent-declared item_failed id w

process_item-declared :
    (item : WorkItem) (rest : List WorkItem) (w : Work)
    → declared (process_item item rest w).runner ≡ declared w.runner
unfolding process_item
process_item-declared item rest w =
    visit_dependents-declared item.failed (get_or [] item.step_id w.runner.dependents)
      (record w { queue = rest })

process_ready_dependents-declared :
    (id : String) (has_failed : Bool) (r : Runner) (to_launch : List RunStep)
    → declared (process_ready_dependents id has_failed r to_launch).runner ≡ declared r
process_ready_dependents-declared id has_failed r to_launch =
    process_ready_dependents_rule (λ w. declared w.runner ≡ declared r)
      (λ item rest w _ p. process_item-declared item rest w ∙ p) id has_failed r to_launch refl

-- The launches change the log only, and do not call the callback.
pub record Unmoved (r s : Runner) : Type 0 where
  pub quiet : declared s ≡ declared r
  pub completed : s.completed ≡ r.completed
  pub total : s.total ≡ r.total
  pub callback : s.has_on_complete ≡ r.has_on_complete

launch_step-Unmoved : (rs : RunStep) (r : Runner) → Unmoved r (launch_step rs r)
unfolding launch_step publish_step_event
launch_step-Unmoved rs r = record {
  quiet =
      declarations-append _ (executed rs (build_resolve_context r))
      ∙ ground (
        arith,
        quiet_call r.has_publisher r.effects
            (published step_started rs.run_step_id rs.step_id running) refl,
      );
  completed = refl;
  total = refl;
  callback = refl;
}

pub launch_steps-Unmoved : (list : List RunStep) (r : Runner) → Unmoved r (launch_steps list r)
unfolding launch_steps
launch_steps-Unmoved [] r = record { quiet = refl; completed = refl; total = refl; callback = refl }
launch_steps-Unmoved (rs ∷ rest) r =
    let a = launch_step-Unmoved rs r in
    let b = launch_steps-Unmoved rest (launch_step rs r) in
    record {
      quiet = b.quiet ∙ a.quiet;
      completed = b.completed ∙ a.completed;
      total = b.total ∙ a.total;
      callback = b.callback ∙ a.callback;
    }

-- Whether the callback is called when the count is the total.
abbrev pub is_declared : Runner → Bool
is_declared r = r.has_on_complete && r.completed == r.total

abbrev Settled : ℕ → Runner → Type 0
Settled n s = declared s ≡ n + unit_of (is_declared s)

pub settle_step-declared :
    (id : String) (rs : RunStep) (has_failed : Bool) (r : Runner)
    → declared (settle_step id rs has_failed r)
      ≡ declared r + unit_of (is_declared (settle_step id rs has_failed r))
unfolding settle_step process_deferred_steps publish_step_event close_done complete_run
settle_step-declared id rs has_failed r =
    let r1 : Runner = record r { completed = suc r.completed } in
    let w = process_ready_dependents id has_failed r1 [] in
    let r' : Runner = (process_deferred_steps w.runner w.to_launch).0 in
    let same : declared r' ≡ declared r =
      deferred_scan-declared w.runner.deferred_steps
        (record { runner = w.runner; remaining = []; to_launch = w.to_launch })
      ∙ process_ready_dependents-declared id has_failed r1 [] in
    let event =
      quiet_call r'.has_publisher r'.effects
        (published (outcome_event has_failed) rs.run_step_id id (outcome_status has_failed)) refl in
    let l = launch_steps-Unmoved (process_deferred_steps w.runner w.to_launch).1 (
      publish_step_event (outcome_event has_failed) rs.run_step_id id (outcome_status has_failed)
        r') in
    if_rule (Settled (declared r)) (r'.completed == r'.total) _ _
      (λ e.
        declaration_call r'.has_on_complete _ r'.run_id (outcome_status (r'.failed || has_failed))
        ∙ ground (arith, e, same, event))
      (λ e. ground (arith, e, same, event, l.quiet, l.completed, l.total, l.callback))
