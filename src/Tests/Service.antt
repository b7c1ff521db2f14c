-- ===== src/Tests/Service.antt =====
-- The requests on jobs at concrete inputs (internal/server/orchestrator).
use claude_plane.Base.{
  ◌<◌, ℕ, String, Bool, List, [], ◌∷◌, ◌≡◌, ◌≤◌, ◌+◌, ◌↔◌, true, false, some, none, refl, Map, pos,
  lookup, insert, delete, eq_iff, arith, All, has, count, tally, str_eq, HasOwnKeys-insert, subst,
}
use claude_plane.Orchestrator.Types.{Step, StepDependency, RunStep, Status, failed, skipped}
use claude_plane.Orchestrator.Runner.{Collaborators}
use claude_plane.Orchestrator.Dag.{validate_dag, run_kahn}
use claude_plane.Orchestrator.Dag.Acyclic.{validate_dag_iff, validate_dag_ends, IsRanked}
use claude_plane.Orchestrator.Config.{validate_job_steps}
use claude_plane.Orchestrator.Config.Valid.{validate_job_steps_iff, IsConfigured, OnMachine}
use claude_plane.Orchestrator.Service.{
  ServiceCall, JobRow, RunRow, CreateAnswers, CreateRequest, resolve_parameters,
  count_active_runs_for_job, reserve_run, create_reserved_run, new_orchestrator,
}
use claude_plane.Orchestrator.Service.Requests.{
  retry_step, is_resettable, replace_runner, RebuildAnswers,
}
use claude_plane.Orchestrator.Service.Parameters.{resolve_parameters_lem}
use claude_plane.Orchestrator.Service.Reset.{Downstream}
use claude_plane.Orchestrator.Service.Retried.{retry_step-resets_iff, resets, Any}
use claude_plane.Orchestrator.Service.Slots.{Traffic}
use claude_plane.Orchestrator.Service.Served.{
  Served, opened, reserve, finish, rebuild, active_runs_limited,
}

abbrev sample_step : String → Step
sample_step id = record {
  step_id = id;
  name = id;
  machine_id = "host";
  command = "make";
  task_type = "shell";
  session_key = "";
  run_if = "all_success";
  max_retries = pos 1;
  retry_delay_seconds = pos 30;
  target_job_id = "";
}

abbrev sample_edge : String → String → StepDependency
sample_edge a b = record { step_id = a; depends_on = b }

abbrev build_steps : List Step
build_steps = sample_step "build" ∷ sample_step "test" ∷ []

abbrev build_deps : List StepDependency
build_deps = sample_edge "test" "build" ∷ []

each_once : (a b y : String) → str_eq a b ≡ false → count y (a ∷ b ∷ []) ≤ 1
each_once a b y h = ground (arith, h, eq_iff a b, eq_iff a y, eq_iff b y)

validate_dag_iff_example :
    (validate_dag build_steps build_deps ≡ true) ↔ ((r : String → ℕ) × IsRanked r build_deps)
validate_dag_iff_example =
    validate_dag_iff build_steps build_deps (λ y. each_once "build" "test" y refl)
      ((ground arith, ground arith), tt)

-- Two steps that wait for each other.
validate_dag_ends_example :
    (run_kahn build_steps (sample_edge "build" "test" ∷ build_deps)).queue ≡ []
validate_dag_ends_example = validate_dag_ends build_steps (sample_edge "build" "test" ∷ build_deps)

validate_job_steps_iff_example : (validate_job_steps build_steps ≡ []) ↔ (
    All IsConfigured build_steps
    × ((machine_of : String → String) × All (OnMachine machine_of) build_steps))
validate_job_steps_iff_example = validate_job_steps_iff build_steps

-- Parameters with the keys "a" and "b"; an override of "b" and one of an unknown key.
abbrev decode_two : String → Map String × Bool
decode_two json = (("a", "1") ∷ ("b", "2") ∷ [], false)

resolve_parameters_lem_example :
    lookup "b" (resolve_parameters decode_two "{}" (("b", "3") ∷ ("c", "4") ∷ [])) ≡ some "3"
unfolding lookup insert
resolve_parameters_lem_example =
    resolve_parameters_lem decode_two "{}" "b" (("b", "3") ∷ ("c", "4") ∷ [])
      (HasOwnKeys-insert "c" "4" (("b", "3") ∷ []) (HasOwnKeys-insert "b" "3" [] (λ y. refl)))

abbrev nothing_fails : ServiceCall → Bool
nothing_fails c = false

abbrev no_collaborators : Collaborators
no_collaborators = record { store = true; publisher = false; on_complete = true }

-- A job that may run once at a time; one run is created, and then a run is retried.
abbrev build_job : JobRow
build_job = record { name = "ci"; max_concurrent_runs = pos 1; parameters = "" }

abbrev build_run : RunRow
build_run = record {
  run_id = "run-1";
  job_id = "job";
  status = failed;
  trigger_type = "manual";
  parameters = "";
  created_at = "";
}

abbrev build_request : CreateRequest
build_request = record {
  job_id = "job";
  trigger_type = "manual";
  trigger_detail = "";
  overrides = [];
}

abbrev build_answers : CreateAnswers
build_answers = record {
  steps_with_deps = some (build_steps, build_deps);
  params_json = some "{}";
  run = some build_run;
  steps_inserted = true;
  run_steps = some [];
  run_number = some 1;
}

abbrev rebuild_answers : RebuildAnswers
rebuild_answers = record {
  run = some (build_run, []);
  steps_with_deps = some (build_steps, build_deps);
  job = some build_job;
  steps = some build_steps;
  run_number = none;
}

abbrev row_of : String → String → Status → RunStep
row_of id step_id status = record {
  run_step_id = id;
  step_id = step_id;
  status = status;
  exit_code = none;
  delay_seconds_snapshot = pos 0;
  session_key_snapshot = "";
  run_if_snapshot = "all_success";
  max_retries_snapshot = pos 0;
  retry_delay_seconds_snapshot = pos 0;
  attempt = pos 1;
  on_failure = "";
}

-- "build" has failed, "test" depends on it and was skipped, and "lint" has failed too.
abbrev ended_rows : List RunStep
ended_rows =
    row_of "r1" "build" failed ∷ row_of "r2" "test" skipped ∷ row_of "r3" "lint" failed ∷ []

retry_step-resets_iff_example :
    (0
      < resets "r2"
          (retry_step decode_two no_collaborators
            (λ c. false)
            "run-1"
            "build"
            (some ended_rows)
            (some build_deps)
            rebuild_answers
            new_orchestrator).1.calls)
    ↔ Any
        (λ rs.
          (rs.run_step_id ≡ "r2")
          × Downstream build_deps "build" rs.step_id
          × (is_resettable rs.status ≡ true))
        ended_rows
unfolding new_orchestrator
retry_step-resets_iff_example =
    retry_step-resets_iff decode_two no_collaborators "r2" "run-1" "build" ended_rows build_deps
      rebuild_answers new_orchestrator refl

abbrev reserved_traffic : Traffic
reserved_traffic = record {
  service = record {
    active_runs = ("pending-1", record { job_id = "job"; runner = none }) ∷ [];
    has_publisher = false;
    calls = [];
  };
  creating = ("pending-1", "job") ∷ [];
  rebuilt = [];
}

abbrev created_traffic : Traffic
created_traffic = record reserved_traffic {
  service =
      (create_reserved_run decode_two no_collaborators build_request build_job "pending-1"
        build_answers reserved_traffic.service).1;
  creating = delete "pending-1" reserved_traffic.creating;
}

abbrev retried_run : RunRow
retried_run = record build_run { run_id = "run-2" }

abbrev retried_traffic : Traffic
retried_traffic = record created_traffic {
  service =
      replace_runner decode_two no_collaborators nothing_fails "run-2" rebuild_answers retried_run
        [] build_deps created_traffic.service;
  rebuilt = "job" ∷ [];
}

retried_traffic-Served : Served decode_two no_collaborators nothing_fails (λ job. 1) retried_traffic
unfolding reserve_run new_orchestrator count_active_runs_for_job tally lookup insert delete
retried_traffic-Served =
    rebuild
      (finish
        (reserve opened build_job "job" "pending-1" reserved_traffic.service refl refl refl refl)
        build_request build_job "pending-1" build_answers refl
        (λ run e.
          let same : build_run ≡ run = cc in
          subst (λ (r : RunRow). has r.run_id reserved_traffic.creating ≡ false) same refl))
      rebuild_answers retried_run [] build_deps refl

active_runs_limited_example :
    count_active_runs_for_job "job" retried_traffic.service.active_runs
    ≤ 1 + count "job" ("job" ∷ [])
active_runs_limited_example =
    active_runs_limited decode_two no_collaborators nothing_fails (λ job. 1) retried_traffic-Served
      "job" (omega arith)
