-- ===== src/Orchestrator/System/Account.antt =====
-- How the runner counts (internal/server/orchestrator/dag_runner.go): while a run is live, the count
-- of completed steps is the number of steps that are over, but for those that wait for a retry and
-- those that were over before the run was built.
use claude_plane.Orchestrator.System.{
  System, add_retry, Transition, starts, completes, retries, sets_values, Reach, cancels, next,
  here,
}
use claude_plane.Orchestrator.Runner.Moves.{
  Core, core_of, Move, skips, launches, Moves, Many_rule, claim,
}
use claude_plane.Orchestrator.Types.{RunStep, skipped, is_pending, running, is_running, pending}
use claude_plane.Base.{
  Map, ℕ, ◌+◌, Bool, tally, String, suc, ℤ, ◌+◌, not, lookup, ◌≡◌, some, arith, true, false, ◌&&◌,
  unit_of, length, ◌&&◌, ◌≤◌, insert, tally-insert, length-insert, ◌∷◌, subst, sym,
  lookup-insert_self, List, ◌++◌, [], refl, Bool-cases, inl, inr, ap, ◌∙◌,
}
use claude_plane.Orchestrator.Runner.Events.{
  is_cancelled, Completion, run_retry, cancel, on_step_completed,
}
use claude_plane.Orchestrator.Runner.Moves.Completion.{
  finished_as, Completes, settles, fails_run, waits, released, stopped, on_step_completed-Completes,
}
use claude_plane.Orchestrator.Runner.{Runner, set_step_values}
use claude_plane.Orchestrator.System.Waits.{Waiting, All-remove}
use claude_plane.Orchestrator.Runner.Moves.Retry.{
  Retried, ignored, deferred, relaunched, run_retry-Retried,
}
use claude_plane.Orchestrator.System.Invariant.{SystemInv, Reach-SystemInv}
use claude_plane.Orchestrator.Runner.Moves.Whole.{start-Moves}

-- Neither pending nor running.
abbrev pub is_over : RunStep → Bool
is_over rs = not (is_pending rs.status) && not (is_running rs.status)

abbrev pub over_count : Map RunStep → ℕ
over_count = tally is_over

-- `extra` steps are over without being counted.
pub record Balance (extra : ℕ) (c : Core) : Type 0 where
  pub balance : c.settled + extra ≡ over_count c.steps
  pub room : length c.steps ≤ c.total

Balance-insert :
    (extra extra' settled : ℕ) (id : String) (rs x : RunStep) (c : Core) (keys : Map Bool)
    → lookup id c.steps ≡ some rs
    → settled + extra' + unit_of (is_over rs) ≡ c.settled + extra + unit_of (is_over x)
    → Balance extra c
    → Balance extra'
        (record { steps = insert id x c.steps; keys = keys; settled = settled; total = c.total })
Balance-insert extra extra' settled id rs x c keys found counted b = record {
  balance = omega (arith, b.balance, tally-insert is_over id x rs c.steps found);
  room = omega (arith, b.room, length-insert id x rs c.steps found);
}

Move-Balance : (extra : ℕ) (c d : Core) → Move c d → Balance extra c → Balance extra d
Move-Balance extra c d (skips id rs found waiting) b =
    Balance-insert extra extra (suc c.settled) id rs (record rs { status = skipped }) c c.keys found
      (ground arith) b
Move-Balance extra c d (launches id rs found waiting free) b =
    Balance-insert extra extra c.settled id rs (record rs { status = running }) c (claim rs c.keys)
      found (ground arith) b

Moves-Balance : (extra : ℕ) {c d : Core} → Moves c d → Balance extra c → Balance extra d
Moves-Balance extra moves = Many_rule (Balance extra) (Move-Balance extra) moves

is_over-finished_as : (rs : RunStep) (exit_code : ℤ) → is_over (finished_as rs exit_code) ≡ true
is_over-finished_as rs exit_code = ground arith

-- In a live run.
abbrev pub IsBalanced : ℕ → System → Type 0
IsBalanced stale s =
    is_cancelled s.runner.ctx ≡ false → Balance (length s.retries + stale) (core_of s.runner)

Completes-IsBalanced :
    (stale : ℕ) (id : String) (rs : RunStep) (exit_code : ℤ) (s : System) (c : Completion)
    → lookup id s.runner.steps ≡ some rs
    → is_running rs.status ≡ true
    → Completes id rs exit_code s.runner c
    → Balance (length s.retries + stale) (core_of s.runner)
    → IsBalanced stale (record { runner = c.runner; retries = add_retry c.retry s.retries })
Completes-IsBalanced stale id rs exit_code s c found runs (settles x e moves none_waits) b alive =
    let extra : ℕ = length s.retries + stale in
    rw none_waits (
      Moves-Balance extra moves (
        Balance-insert extra extra (suc s.runner.completed) id rs x (core_of s.runner)
          (released rs s.runner.active_session_keys) found
          (ground (arith, is_over-finished_as rs exit_code)) b))
Completes-IsBalanced stale id rs exit_code s c found runs (fails_run x e drops dead none_waits) b
      alive =
    cc
Completes-IsBalanced stale id rs exit_code s c found runs (waits x y xf e yf same waiting) b alive =
    let extra : ℕ = length s.retries + stale in
    let extra' : ℕ = length (y ∷ s.retries) + stale in
    let keys : Map Bool = released rs s.runner.active_session_keys in
    let written : Core = stopped id rs x (core_of s.runner) in
    let first : Balance extra' written =
      Balance-insert extra extra' s.runner.completed id rs x (core_of s.runner) keys found
        (ground arith) b in
    rw waiting (
      subst (Balance extra') (sym same) (
        Balance-insert extra' extra' s.runner.completed id x y written keys
          (lookup-insert_self id x s.runner.steps) (ground arith) first))

retries-IsBalanced :
    (stale : ℕ) (copy : RunStep) (cs : List RunStep) (r r' : Runner) (w : Waiting r.steps copy)
    → Retried copy w.entry r r'
    → (is_cancelled r.ctx ≡ false → Balance (suc (length cs) + stale) (core_of r))
    → (is_cancelled r'.ctx ≡ false → is_cancelled r.ctx ≡ false)
    → IsBalanced stale (record { runner = r'; retries = cs })
retries-IsBalanced stale copy cs r r' w (ignored dead e) b back alive = cc (back alive)
retries-IsBalanced stale copy cs r r' w (deferred e) b back alive =
    subst (Balance (length cs + stale)) (sym e) (
      Balance-insert (suc (length cs) + stale) (length cs + stale) r.completed copy.step_id w.entry
        (record (w.entry) { status = pending }) (core_of r) r.active_session_keys w.found
        (ground (arith, w.has_failed)) (b (back alive)))
retries-IsBalanced stale copy cs r r' w (relaunched free e) b back alive =
    subst (Balance (length cs + stale)) (sym e) (
      Balance-insert (suc (length cs) + stale) (length cs + stale) r.completed copy.step_id w.entry
        (record (w.entry) { status = running }) (core_of r) (claim copy r.active_session_keys)
        w.found (ground (arith, w.has_failed)) (b (back alive)))

length_remove :
    (before : List RunStep) (c : RunStep) (after : List RunStep)
    → length (before ++ (c ∷ after)) ≡ suc (length (before ++ after))
length_remove [] c after = refl
length_remove (b ∷ before) c after = omega (arith, length_remove before c after)

retry_stays_live :
    (copy : RunStep) (r : Runner)
    → is_cancelled (run_retry copy r).ctx ≡ false
    → is_cancelled r.ctx ≡ false
unfolding run_retry
retry_stays_live copy r alive = elim (Bool-cases (is_cancelled r.ctx)) [
  | inl dead ↦ let still : is_cancelled r.ctx ≡ false = rw dead at alive in still
  | inr live ↦ live
]

pub Transition-IsBalanced :
    (stale : ℕ) (s t : System)
    → Transition s t
    → SystemInv s
    → IsBalanced stale s
    → IsBalanced stale t
unfolding set_step_values cancel on_step_completed
Transition-IsBalanced stale s t (starts r unset e) inv b alive =
    Moves-Balance (length s.retries + stale) (start-Moves s.runner r e) (b (rw unset))
Transition-IsBalanced stale s t (completes id rs exit_code found runs) inv b alive =
    elim (Bool-cases (is_cancelled s.runner.ctx)) [
      | inl dead ↦ cc
      | inr live ↦
          Completes-IsBalanced stale id rs exit_code s _ found runs
            (on_step_completed-Completes id rs exit_code s.runner live found) (b live) alive
    ]
Transition-IsBalanced stale s t (retries before copy after e) inv b alive =
    let (w, _) =
      All-remove (Waiting s.runner.steps) before copy after (rw e at inv.waits.waiting) in
    retries-IsBalanced stale copy (before ++ after) s.runner (run_retry copy s.runner) w
      (run_retry-Retried copy w.entry s.runner w.found)
      (λ live.
        subst (λ n. Balance (n + stale) (core_of s.runner))
          (ap length e ∙ length_remove before copy after) (b live))
      (retry_stays_live copy s.runner) alive
Transition-IsBalanced stale s t (sets_values name values) inv b alive = b alive
Transition-IsBalanced stale s t cancels inv b alive = b (ground arith)

pub Reach-IsBalanced :
    (stale : ℕ) {s t : System} → Reach s t → SystemInv s → IsBalanced stale s → IsBalanced stale t
Reach-IsBalanced stale here inv b = b
Reach-IsBalanced stale (next {t} {u} r m) inv b =
    Transition-IsBalanced stale t u m (Reach-SystemInv r inv) (Reach-IsBalanced stale r inv b)
