-- ===== src/Orchestrator/Rebuild.antt =====
-- rebuildAndStartRun (internal/server/orchestrator/orchestrator.go): the runner of a retried or
-- repaired run is built from the stored steps, and the completed ones are counted in advance.
use claude_plane.Orchestrator.Runner.{Runner, Collaborators, new_dag_runner}
use claude_plane.Base.{String, List, if◌then◌else◌, ◌∷◌, insert, Map, [], decrement, get_or, suc}
use claude_plane.Orchestrator.Types.{RunStep, StepDependency, is_completed, JobMeta}
use claude_plane.Base.Int.{pos}

-- inDegree[dep]-- for each dependent of a completed step.
unfoldable pub count_down_dependents : List String → Runner → Runner
count_down_dependents [] r = r
count_down_dependents (dep ∷ rest) r =
    count_down_dependents rest
      (record r { in_degree = insert dep (decrement (get_or (pos 0) dep r.in_degree)) r.in_degree })

-- The body of the loop over the stored steps.
unfoldable pub resume_step : RunStep → Runner → Runner
resume_step rs r =
    if is_completed rs.status
    then count_down_dependents (get_or [] rs.step_id r.dependents)
        (record r { completed = suc r.completed })
    else r

unfoldable pub resume_steps : List RunStep → Runner → Runner
resume_steps [] r = r
resume_steps (rs ∷ rest) r = resume_steps rest (resume_step rs r)

-- The runner that is started.
unfoldable pub rebuild_runner :
    String
    → String
    → List RunStep
    → List StepDependency
    → Collaborators
    → Map String
    → JobMeta
    → Map String
    → Runner
rebuild_runner run_id job_id run_steps deps with_calls run_params job_meta step_names =
    resume_steps run_steps
      (new_dag_runner run_id job_id run_steps deps with_calls run_params job_meta step_names)
