-- ===== src/Orchestrator/Config.antt =====
-- ValidateJobSteps (internal/server/orchestrator/dag_runner.go): the configuration of a job's steps. An
-- error keeps what its message names.
pub mod Valid
use claude_plane.Base.{
  String, Bool, true, false, ◌||◌, ◌&&◌, not, none, some, List, [], ◌∷◌, ◌++◌, Map, pos, int_leb,
  int_ltb, lookup, insert, str_eq, if◌then◌else◌,
}
use claude_plane.Orchestrator.Types.{Step}

pub data ConfigError : Type 0 where
  unknown_task_type : String → ConfigError
  shell_shares_session : String → ConfigError
  shell_without_command : String → ConfigError
  run_job_without_target : String → ConfigError
  run_job_with_machine : String → ConfigError
  run_job_shares_session : String → ConfigError
  session_on_two_machines : String → ConfigError
  unknown_run_if : String → ConfigError
  retries_out_of_range : String → ConfigError
  delay_out_of_range : String → ConfigError

-- if test { errs = append(errs, err) }
unfoldable pub error_if : Bool → ConfigError → List ConfigError
error_if true e = e ∷ []
error_if false e = []

unfoldable pub task_type_errors : Step → List ConfigError
unfolding error_if
task_type_errors s =
    error_if
      (not (str_eq s.task_type "claude_session")
        && not (str_eq s.task_type "shell")
        && not (str_eq s.task_type "run_job"))
      (unknown_task_type s.name)

unfoldable pub shell_errors : Step → List ConfigError
unfolding error_if
shell_errors s =
    error_if (str_eq s.task_type "shell" && not (str_eq s.session_key ""))
      (shell_shares_session s.name)
    ++ error_if (str_eq s.task_type "shell" && str_eq s.command "") (shell_without_command s.name)

unfoldable pub run_job_errors : Step → List ConfigError
unfolding error_if
run_job_errors s =
    if str_eq s.task_type "run_job"
    then (error_if (str_eq s.target_job_id "") (run_job_without_target s.name)
        ++ (error_if (not (str_eq s.machine_id "")) (run_job_with_machine s.name)
            ++ error_if (not (str_eq s.session_key "")) (run_job_shares_session s.name)))
    else []

unfoldable pub range_errors : Step → List ConfigError
unfolding error_if
range_errors s =
    error_if (not (str_eq s.run_if "all_success") && not (str_eq s.run_if "all_done"))
      (unknown_run_if s.name)
    ++ (error_if (int_ltb s.max_retries (pos 0) || int_ltb (pos 5) s.max_retries)
          (retries_out_of_range s.name)
        ++ error_if
            (int_ltb s.retry_delay_seconds (pos 0) || int_ltb (pos 3600) s.retry_delay_seconds)
            (delay_out_of_range s.name))

-- The entries of sessionKeyMachines that a step checks or adds.
unfoldable pub session_errors : Step → Map String → List ConfigError
unfolding error_if
session_errors s machines =
    if str_eq s.session_key "" then [] else elim (lookup s.session_key machines) [
      | none ↦ []
      | some existing ↦
          error_if (not (str_eq existing s.machine_id)) (session_on_two_machines s.session_key)
    ]

unfoldable pub session_machines : Step → Map String → Map String
session_machines s machines =
    if str_eq s.session_key "" then machines else elim (lookup s.session_key machines) [
      | none ↦ insert s.session_key s.machine_id machines
      | some existing ↦ machines
    ]

-- The body of the loop, for its errors.
unfoldable pub step_errors : Step → Map String → List ConfigError
unfolding task_type_errors shell_errors run_job_errors session_errors range_errors
step_errors s machines =
    task_type_errors s
    ++ (shell_errors s ++ (run_job_errors s ++ (session_errors s machines ++ range_errors s)))

unfoldable pub check_steps : List Step → Map String → List ConfigError
unfolding step_errors session_machines
check_steps [] machines = []
check_steps (s ∷ rest) machines =
    step_errors s machines ++ check_steps rest (session_machines s machines)

unfoldable pub validate_job_steps : List Step → List ConfigError
unfolding check_steps
validate_job_steps steps = check_steps steps []
