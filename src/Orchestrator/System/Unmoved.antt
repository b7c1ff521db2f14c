-- ===== src/Orchestrator/System/Unmoved.antt =====
-- Start, the retries, and the calls of onRunComplete (internal/server/orchestrator/dag_runner.go).
use claude_plane.Base.{
  ◌≡◌, refl, ◌∙◌, inl, inr, String, ◌&&◌, some, none, List, [], ◌∷◌, lookup, Option-cases, is_zero,
  pos, arith, ℤ, if_rule, not, str_eq, subst,
}
use claude_plane.Orchestrator.Types.{RunStep, Status, is_pending, pending, running}
use claude_plane.Orchestrator.Effects.{wrote_status}
use claude_plane.Orchestrator.Runner.{
  Runner, RunContext, can_launch, mark_running, update_run_step_in_db, claim_session_key,
  put_status,
}
use claude_plane.Orchestrator.Runner.Events.{
  StartScan, scanning, panicked, start_root, start_entry, start_scan, start, launch_steps,
  is_cancelled, run_retry, overwrite_status,
}
use claude_plane.Orchestrator.Runner.Moves.Quiet.{
  declarations-append, quiet_call, Unmoved, launch_steps-Unmoved,
}

pub Unmoved-refl : (r : Runner) → Unmoved r r
Unmoved-refl r = record { quiet = refl; completed = refl; total = refl; callback = refl }

pub Unmoved-trans : (r s t : Runner) → Unmoved r s → Unmoved s t → Unmoved r t
Unmoved-trans r s t a b = record {
  quiet = b.quiet ∙ a.quiet;
  completed = b.completed ∙ a.completed;
  total = b.total ∙ a.total;
  callback = b.callback ∙ a.callback;
}

abbrev pub ScanUnmoved : Runner → StartScan → Type 0
ScanUnmoved r (scanning s to_launch) = Unmoved r s
ScanUnmoved r panicked = Unit {0}

pub start_root-Unmoved :
    (id : String) (rs : RunStep) (r : Runner) (to_launch : List RunStep)
    → ScanUnmoved r (start_root id rs r to_launch)
unfolding start_root mark_running update_run_step_in_db claim_session_key put_status
start_root-Unmoved id rs r to_launch =
    if_rule (ScanUnmoved r) (is_pending rs.status) _ _
      (λ e.
        if_rule (ScanUnmoved r) (can_launch rs r) _ _
          (λ f. record {
            quiet =
                quiet_call r.has_store r.effects (wrote_status rs.run_step_id running (pos 0)) refl;
            completed = refl;
            total = refl;
            callback = refl;
          })
          (λ f. record { quiet = refl; completed = refl; total = refl; callback = refl }))
      (λ e. Unmoved-refl r)

pub start_entry-Unmoved :
    (id : String) (deg : ℤ) (r : Runner) (to_launch : List RunStep)
    → ScanUnmoved r (start_entry id deg r to_launch)
unfolding start_entry
start_entry-Unmoved id deg r to_launch =
    if_rule (ScanUnmoved r) (is_zero deg) _ _
      (λ e. elim (Option-cases (lookup id r.steps)) [
        | inl f ↦ rw f tt
        | inr (rs, f) ↦ rw f (start_root-Unmoved id rs r to_launch)
      ])
      (λ e. Unmoved-refl r)

pub ScanUnmoved-trans :
    (r s : Runner) (t : StartScan) → Unmoved r s → ScanUnmoved s t → ScanUnmoved r t
ScanUnmoved-trans r s (scanning t to_launch) a b = Unmoved-trans r s t a b
ScanUnmoved-trans r s panicked a b = tt

pub start_scan-Unmoved :
    (entries : List (String × ℤ)) (r : Runner) (t : StartScan)
    → ScanUnmoved r t
    → ScanUnmoved r (start_scan entries t)
unfolding start_scan
start_scan-Unmoved entries r panicked p = tt
start_scan-Unmoved [] r (scanning s to_launch) p = p
start_scan-Unmoved ((id, deg) ∷ rest) r (scanning s to_launch) p =
    start_scan-Unmoved rest r (start_entry id deg s to_launch) (
      ScanUnmoved-trans r s (start_entry id deg s to_launch) p
        (start_entry-Unmoved id deg s to_launch))

pub launched :
    (r r' : Runner) (t : StartScan)
    → ScanUnmoved r t
    → elim t [ scanning s to_launch ↦ some (launch_steps to_launch s) | panicked ↦ none ] ≡ some r'
    → Unmoved r r'
launched r r' (scanning s to_launch) p h =
    let same : launch_steps to_launch s ≡ r' = cc in
    subst (Unmoved r) same
      (Unmoved-trans r s (launch_steps to_launch s) p (launch_steps-Unmoved to_launch s))
launched r r' panicked p h = cc

pub start-Unmoved : (r r' : Runner) → start r ≡ some r' → Unmoved r r'
unfolding start
start-Unmoved r r' e =
    launched r r' (start_scan r.in_degree (scanning (record r { ctx = RunContext.live }) []))
      (start_scan-Unmoved r.in_degree r (scanning (record r { ctx = RunContext.live }) [])
        (record { quiet = refl; completed = refl; total = refl; callback = refl }))
      e

pub overwrite_status-Unmoved :
    (id : String) (status : Status) (r : Runner) → Unmoved r (overwrite_status id status r)
unfolding overwrite_status put_status
overwrite_status-Unmoved id status r = elim (Option-cases (lookup id r.steps)) [
  | inl e ↦ rw (e, overwrite_status) (Unmoved-refl r)
  | inr (rs, e) ↦
      rw (e, overwrite_status)
        (record { quiet = refl; completed = refl; total = refl; callback = refl })
]

pub run_retry-Unmoved : (copy : RunStep) (r : Runner) → Unmoved r (run_retry copy r)
unfolding run_retry update_run_step_in_db claim_session_key
run_retry-Unmoved copy r =
    if_rule (Unmoved r) (is_cancelled r.ctx) _ _ (λ e. Unmoved-refl r)
      (λ e.
        if_rule (Unmoved r) (not (str_eq copy.session_key_snapshot "") && not (can_launch copy r)) _
          _
          (λ f.
            let a = overwrite_status-Unmoved copy.step_id pending r in
            record {
              quiet = a.quiet;
              completed = a.completed;
              total = a.total;
              callback = a.callback;
            })
          (λ f.
            let b = overwrite_status copy.step_id running (claim_session_key copy r) in
            let a = overwrite_status-Unmoved copy.step_id running (claim_session_key copy r) in
            record {
              quiet =
                  declarations-append _ _
                  ∙ ground (
                    arith,
                    quiet_call b.has_store b.effects (wrote_status copy.run_step_id running (pos 0))
                        refl,
                    a.quiet,
                  );
              completed = a.completed;
              total = a.total;
              callback = a.callback;
            }))
