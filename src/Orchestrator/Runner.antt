-- ===== src/Orchestrator/Runner.antt =====
-- DAGRunner (internal/server/orchestrator/dag_runner.go): its state, its construction and the small
-- methods that run with the mutex held. A method that mutates `*DAGRunner` returns the new record.
-- A pointer `rs := d.steps[id]` that is written through is an overwrite of the entry `id`.
pub mod Ready
pub mod Events
pub mod Moves
pub mod Progress
pub mod Keys
use claude_plane.Base.{
  ℕ, suc, ◌++◌, String, Bool, true, false, not, ◌&&◌, Option, none, some, List, [], ◌∷◌, map, Map,
  ℤ, pos, increment, str_eq, if◌then◌else◌, lookup, get_or, insert, delete, length,
}
use claude_plane.Orchestrator.Types.{
  Status, RunStep, StepDependency, StepResult, JobMeta, ResolveContext, running, skipped,
  is_pending,
}
use claude_plane.Orchestrator.Effects.{Effect, wrote_status, wrote_attempt}

-- The context of a run: none before Start, and cancelled by Cancel or by a step with `fail_run`.
pub data RunContext : Type 0 where
  unset live cancelled : RunContext

pub record Runner : Type 0 where
  pub ctx : RunContext
  pub run_id : String
  pub job_id : String
  pub steps : Map RunStep
  pub step_names : Map String
  pub dependents : Map (List String)
  pub in_degree : Map ℤ
  pub has_store : Bool
  pub has_publisher : Bool
  pub has_on_complete : Bool
  pub completed : ℕ
  pub total : ℕ
  pub failed : Bool
  pub done_closed : Bool
  pub run_params : Map String
  pub job_meta : JobMeta
  pub step_values : Map (Map String)
  pub step_results : Map StepResult
  pub active_session_keys : Map Bool
  pub deferred_steps : List String
  pub has_failed_upstream : Map Bool
  pub effects : List Effect

-- The first loop of NewDAGRunner.
unfoldable pub index_steps : List RunStep → Map RunStep → Map RunStep
index_steps [] m = m
index_steps (rs ∷ rest) m = index_steps rest (insert rs.step_id rs m)

unfoldable pub zero_degrees : List RunStep → Map ℤ → Map ℤ
zero_degrees [] m = m
zero_degrees (rs ∷ rest) m = zero_degrees rest (insert rs.step_id (pos 0) m)

-- The second loop of NewDAGRunner, for each of the two maps that it fills.
unfoldable pub index_dependents : List StepDependency → Map (List String) → Map (List String)
index_dependents [] m = m
index_dependents (d ∷ rest) m =
    index_dependents rest (insert d.depends_on (get_or [] d.depends_on m ++ d.step_id ∷ []) m)

unfoldable pub count_degrees : List StepDependency → Map ℤ → Map ℤ
count_degrees [] m = m
count_degrees (d ∷ rest) m =
    count_degrees rest (insert d.step_id (increment (get_or (pos 0) d.step_id m)) m)

-- Which collaborators the caller supplies; a nil store or publisher makes its calls no-ops.
pub record Collaborators : Type 0 where
  pub store : Bool
  pub publisher : Bool
  pub on_complete : Bool

unfoldable pub new_dag_runner :
    String
    → String
    → List RunStep
    → List StepDependency
    → Collaborators
    → Map String
    → JobMeta
    → Map String
    → Runner
unfolding index_steps zero_degrees index_dependents count_degrees
new_dag_runner run_id job_id run_steps deps with_calls run_params job_meta step_names = record {
  ctx = unset;
  run_id = run_id;
  job_id = job_id;
  steps = index_steps run_steps [];
  step_names = step_names;
  dependents = index_dependents deps [];
  in_degree = count_degrees deps (zero_degrees run_steps []);
  has_store = with_calls.store;
  has_publisher = with_calls.publisher;
  has_on_complete = with_calls.on_complete;
  completed = 0;
  total = length run_steps;
  failed = false;
  done_closed = false;
  run_params = run_params;
  job_meta = job_meta;
  step_values = [];
  step_results = [];
  active_session_keys = [];
  deferred_steps = [];
  has_failed_upstream = [];
  effects = [];
}

unfoldable pub set_step_values : String → Map String → Runner → Runner
set_step_values step_name values r = record r {
  step_values = insert step_name values r.step_values;
}

-- canLaunch: a step with no session key, or one whose key nobody holds.
unfoldable pub can_launch : RunStep → Runner → Bool
can_launch rs r =
    if str_eq rs.session_key_snapshot ""
    then true
    else not (get_or false rs.session_key_snapshot r.active_session_keys)

unfoldable pub claim_session_key : RunStep → Runner → Runner
claim_session_key rs r = record r {
  active_session_keys =
      if str_eq rs.session_key_snapshot ""
      then r.active_session_keys
      else insert rs.session_key_snapshot true r.active_session_keys;
}

unfoldable pub release_session_key : RunStep → Runner → Runner
release_session_key rs r = record r {
  active_session_keys =
      if str_eq rs.session_key_snapshot ""
      then r.active_session_keys
      else delete rs.session_key_snapshot r.active_session_keys;
}

-- closeDone: closing twice is harmless.
unfoldable pub close_done : Runner → Runner
close_done r = record r { done_closed = true }

unfoldable pub update_run_step_in_db : String → Status → ℤ → Runner → Runner
update_run_step_in_db run_step_id status exit_code r = record r {
  effects =
      if r.has_store
      then r.effects ++ wrote_status run_step_id status exit_code ∷ []
      else r.effects;
}

unfoldable pub update_run_step_attempt : String → ℤ → Runner → Runner
update_run_step_attempt run_step_id attempt r = record r {
  effects = if r.has_store then r.effects ++ wrote_attempt run_step_id attempt ∷ [] else r.effects;
}

-- buildResolveContext, with its three copies.
unfoldable pub build_resolve_context : Runner → ResolveContext
build_resolve_context r = record {
  run_params = r.run_params;
  job_meta = r.job_meta;
  step_values = r.step_values;
  step_results = r.step_results;
}

-- rs.Status = status, through the pointer that the map holds under `id`.
unfoldable pub put_status : String → RunStep → Status → Runner → Runner
put_status id rs status r = record r { steps = insert id (record rs { status = status }) r.steps }

-- Whether the failure of an upstream step forbids this one to run.
unfoldable pub must_skip : String → RunStep → Runner → Bool
must_skip id rs r =
    get_or false id r.has_failed_upstream && not (str_eq rs.run_if_snapshot "all_done")

-- The four lines that skip a pending step.
unfoldable pub skip_step : String → RunStep → Runner → Runner
unfolding put_status update_run_step_in_db
skip_step id rs r =
    let r' = update_run_step_in_db rs.run_step_id skipped (pos 0) (put_status id rs skipped r) in
    record r' { completed = suc r'.completed }

-- The three lines that claim a step's key and mark it as running.
unfoldable pub mark_running : String → RunStep → Runner → Runner
unfolding claim_session_key put_status update_run_step_in_db
mark_running id rs r =
    update_run_step_in_db rs.run_step_id running (pos 0)
      (put_status id rs running (claim_session_key rs r))

-- The loop state of processDeferredSteps: the runner, the steps that stay deferred, the launches.
pub record DeferredScan : Type 0 where
  pub runner : Runner
  pub remaining : List String
  pub to_launch : List RunStep

unfoldable pub deferred_step : String → RunStep → DeferredScan → DeferredScan
unfolding can_launch must_skip skip_step mark_running
deferred_step id rs s =
    if not (is_pending rs.status)
    then s
    else if must_skip id rs s.runner
    then record s { runner = skip_step id rs s.runner }
    else if can_launch rs s.runner
    then record s {
      runner = mark_running id rs s.runner;
      to_launch = s.to_launch ++ record rs { status = running } ∷ [];
    }
    else record s { remaining = s.remaining ++ id ∷ [] }

unfoldable pub deferred_scan : List String → DeferredScan → DeferredScan
deferred_scan [] s = s
deferred_scan (id ∷ rest) s =
    deferred_scan rest
      (elim (lookup id s.runner.steps) [ none ↦ s | some rs ↦ deferred_step id rs s ])

unfoldable pub process_deferred_steps : Runner → List RunStep → Runner × List RunStep
unfolding deferred_scan
process_deferred_steps r to_launch =
    let s =
      deferred_scan r.deferred_steps
        (record { runner = r; remaining = []; to_launch = to_launch }) in
    (record (s.runner) { deferred_steps = s.remaining }, s.to_launch)
