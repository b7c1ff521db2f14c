-- ===== src/Orchestrator/Runner/Moves.antt =====
-- The runner's work between two completions, as moves on four of its fields: the steps, the session
-- keys in use, and the counts of settled and of all steps (internal/server/orchestrator/dag_runner.go). Whatever
-- the queues do, the runner only skips pending steps and launches pending steps whose key is free.
pub mod Queues
pub mod Whole
pub mod Completion
pub mod Retry
pub mod Quiet
use claude_plane.Base.{
  ℕ, suc, ◌≡◌, refl, subst, sym, ◌==◌, inl, inr, String, Bool, true, false, not, ◌&&◌, ◌⊎◌, Option,
  arith, none, some, List, [], ◌∷◌, Map, lookup, insert, get_or, str_eq, if◌then◌else◌,
  Option-cases, Bool-cases, if_rule, ℤ, is_zero, pos,
}
use claude_plane.Orchestrator.Types.{
  Status, RunStep, running, skipped, cancelled, is_pending, is_running,
}
use claude_plane.Orchestrator.Runner.{
  Runner, RunContext, DeferredScan, can_launch, must_skip, deferred_step, deferred_scan,
  process_deferred_steps,
}
use claude_plane.Orchestrator.Runner.Ready.{
  WorkItem, Work, ready_step, ready_dependent, visit_dependent, visit_dependents, process_item,
  process_ready_dependents, count_down,
}
use claude_plane.Orchestrator.Runner.Ready.Ends.{process_ready_dependents_rule, first_work}
use claude_plane.Orchestrator.Runner.Events.{
  StartScan, scanning, panicked, start_root, start_entry, start_scan, start, launch_step,
  launch_steps, publish_step_event, outcome_event, outcome_status, abandon_step, abandon_steps,
  settle_step,
}

pub record Core : Type 0 where
  pub steps : Map RunStep
  pub keys : Map Bool
  pub settled : ℕ
  pub total : ℕ

abbrev pub core_of : Runner → Core
core_of r = record {
  steps = r.steps;
  keys = r.active_session_keys;
  settled = r.completed;
  total = r.total;
}

-- No step holds the session key, or there is none.
abbrev pub key_free : RunStep → Map Bool → Bool
key_free rs keys =
    if str_eq rs.session_key_snapshot ""
    then true
    else not (get_or false rs.session_key_snapshot keys)

abbrev pub claim : RunStep → Map Bool → Map Bool
claim rs keys =
    if str_eq rs.session_key_snapshot "" then keys else insert rs.session_key_snapshot true keys

pub data Move (c : Core) : Core → Type 0 where
  skips :
      (id : String) (rs : RunStep)
      → lookup id c.steps ≡ some rs
      → is_pending rs.status ≡ true
      → Move c (record c {
        steps = insert id (record rs { status = skipped }) c.steps;
        settled = suc c.settled;
      })
  launches :
      (id : String) (rs : RunStep)
      → lookup id c.steps ≡ some rs
      → is_pending rs.status ≡ true
      → key_free rs c.keys ≡ true
      → Move c (record c {
        steps = insert id (record rs { status = running }) c.steps;
        keys = claim rs c.keys;
      })

-- What the loop of `fail_run` does to one step; it counts nothing and releases no key.
pub data Drop (c : Core) : Core → Type 0 where
  drops :
      (id : String) (rs : RunStep) (s : Status)
      → lookup id c.steps ≡ some rs
      → ((is_pending rs.status ≡ true) × (s ≡ skipped))
        ⊎ ((is_running rs.status ≡ true) × (s ≡ cancelled))
      → Drop c (record c { steps = insert id (record rs { status = s }) c.steps })

pub data Many (R : Core → Core → Type 0) (c : Core) : Core → Type 0 where
  stay : Many R c c
  next : {d e : Core} → Many R c d → R d e → Many R c e

abbrev pub Moves : Core → Core → Type 0
Moves = Many Move

abbrev pub Drops : Core → Core → Type 0
Drops = Many Drop

pub Many-trans : {R : Core → Core → Type 0} {c d e : Core} → Many R c d → Many R d e → Many R c e
Many-trans p stay = p
Many-trans p (next q m) = next (Many-trans p q) m

-- A predicate that each step keeps holds along many.
pub Many_rule {ℓ} :
    {R : Core → Core → Type 0} (P : Core → Type ℓ)
    → ((c d : Core) → R c d → P c → P d)
    → {c d : Core} → Many R c d
    → P c
    → P d
Many_rule P keep stay p = p
Many_rule P keep (next {d} {e} q m) p = keep d e m (Many_rule P keep q p)
