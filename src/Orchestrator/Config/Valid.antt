-- ===== src/Orchestrator/Config/Valid.antt =====
-- What ValidateJobSteps accepts (internal/server/orchestrator/dag_runner.go).
use claude_plane.Base.{
  ℕ, ◌≤◌, ◌≡◌, ◌≢◌, ◌↔◌, ◌⊎◌, inl, inr, refl, String, false, some, List, [], ◌∷◌, ◌++◌, Map, ℤ, pos,
  negsuc, get_or, lookup, str_eq, eq_iff, arith, All, Option-cases, lookup-insert, int_ltb, ◌||◌,
  str_eq-false, lookup-insert_self, ◌∙◌, ap,
}
use claude_plane.Orchestrator.Types.{Step}
use claude_plane.Orchestrator.Config.{
  ConfigError, error_if, task_type_errors, shell_errors, run_job_errors, range_errors,
  session_errors, session_machines, step_errors, check_steps, validate_job_steps,
}

-- A number from 0 to a limit.
abbrev pub Within : ℕ → ℤ → Type 0
Within limit (pos n) = n ≤ limit
Within limit (negsuc n) = ⊥

-- The requirements on one step.
pub record IsConfigured (s : Step) : Type 0 where
  pub task :
      (s.task_type ≡ "claude_session")
      ⊎ ((s.task_type ≡ "shell") × (s.session_key ≡ "") × (s.command ≢ ""))
      ⊎ ((s.task_type ≡ "run_job")
          × (s.target_job_id ≢ "")
          × (s.machine_id ≡ "")
          × (s.session_key ≡ ""))
  pub runs : (s.run_if ≡ "all_success") ⊎ (s.run_if ≡ "all_done")
  pub retries : Within 5 s.max_retries
  pub delay : Within 3600 s.retry_delay_seconds

append-nil_iff : (xs ys : List ConfigError) → (xs ++ ys ≡ []) ↔ ((xs ≡ []) × (ys ≡ []))
append-nil_iff [] ys = (λ h. (refl, h), λ h. h.1)
append-nil_iff (x ∷ xs) ys = (λ h. cc, λ h. cc)

Within-test :
    (limit : ℕ) (i : ℤ) → (int_ltb i (pos 0) || int_ltb (pos limit) i ≡ false) ↔ Within limit i
Within-test limit (pos n) = (λ h. ground (arith, h), λ h. ground (arith, h))
Within-test limit (negsuc n) = (λ h. ground (arith, h), λ h. ground (arith, h))

range_errors_iff :
    (s : Step)
    → (range_errors s ≡ []) ↔ (
        ((s.run_if ≡ "all_success") ⊎ (s.run_if ≡ "all_done"))
        × Within 5 s.max_retries
        × Within 3600 s.retry_delay_seconds)
unfolding range_errors error_if
range_errors_iff s =
    let a = eq_iff s.run_if "all_success" in
    let b = eq_iff s.run_if "all_done" in
    let c = Within-test 5 s.max_retries in
    let d = Within-test 3600 s.retry_delay_seconds in
    (
      λ h. (ground (arith, a, b, h), c.0 (ground (arith, h)), d.0 (ground (arith, h))),
      λ (x, y, z). ground (arith, a, b, x, c.1 y, d.1 z),
    )

-- One step's own errors, without the session map.
not_both : (t a b : String) → str_eq a b ≡ false → t ≡ a → str_eq t b ≡ false
not_both t a b h e = rw e h

-- One step's own errors, without the session map.
own_errors_iff :
    (s : Step)
    → ((task_type_errors s ≡ [])
        × (shell_errors s ≡ [])
        × (run_job_errors s ≡ [])
        × (range_errors s ≡ []))
      ↔ IsConfigured s
unfolding task_type_errors shell_errors run_job_errors error_if
own_errors_iff s =
    let a = eq_iff s.task_type "claude_session" in
    let b = eq_iff s.task_type "shell" in
    let c = eq_iff s.task_type "run_job" in
    let d = eq_iff s.session_key "" in
    let e = eq_iff s.command "" in
    let f = eq_iff s.target_job_id "" in
    let g = eq_iff s.machine_id "" in
    let r = range_errors_iff s in
    (
      λ (h1, h2, h3, h4). record {
        task = ground (arith, a, b, c, d, e, f, g, h1, h2, h3);
        runs = (r.0 h4).0;
        retries = (r.0 h4).1;
        delay = (r.0 h4).2;
      },
      λ v. (
        ground (arith, a, b, c, v.task),
        ground (
          arith,
          b,
          d,
          e,
          v.task,
          not_both s.task_type "claude_session" "shell" refl,
          not_both s.task_type "run_job" "shell" refl,
        ),
        ground (
          arith,
          c,
          d,
          f,
          g,
          v.task,
          not_both s.task_type "claude_session" "run_job" refl,
          not_both s.task_type "shell" "run_job" refl,
        ),
        r.1 (v.runs, v.retries, v.delay),
      ),
    )

-- Steps with a session key run on the machine of the key.
abbrev pub OnMachine : (String → String) → Step → Type 0
OnMachine machine_of s = s.session_key ≢ "" → s.machine_id ≡ machine_of s.session_key

-- The machines that the loop has recorded agree with an assignment of machines to keys.
abbrev Agrees : (String → String) → Map String → Type 0
Agrees machine_of machines = (key v : String) → lookup key machines ≡ some v → v ≡ machine_of key

-- An entry stays.
session_machines-keeps :
    (s : Step) (machines : Map String) (key v : String)
    → lookup key machines ≡ some v
    → lookup key (session_machines s machines) ≡ some v
unfolding session_machines
session_machines-keeps s machines key v h =
    ground
      (arith, h, lookup-insert s.session_key key s.machine_id machines, eq_iff s.session_key key)

recorded : List Step → Map String → Map String
recorded [] machines = machines
recorded (s ∷ steps) machines = recorded steps (session_machines s machines)

recorded-keeps :
    (steps : List Step) (machines : Map String) (key v : String)
    → lookup key machines ≡ some v
    → lookup key (recorded steps machines) ≡ some v
unfolding recorded
recorded-keeps [] machines key v h = h
recorded-keeps (s ∷ steps) machines key v h =
    recorded-keeps steps (session_machines s machines) key v
      (session_machines-keeps s machines key v h)

-- Without an error, the step's machine is the recorded one.
session_errors-recorded :
    (s : Step) (machines : Map String)
    → session_errors s machines ≡ []
    → s.session_key ≢ ""
    → lookup s.session_key (session_machines s machines) ≡ some s.machine_id
unfolding session_errors session_machines error_if
session_errors-recorded s machines h k =
    let nonempty = str_eq-false s.session_key "" k in
    elim (Option-cases (lookup s.session_key machines)) [
      | inl e ↦
          rw (session_machines, nonempty, e)
            (lookup-insert_self s.session_key s.machine_id machines)
      | inr (v, e) ↦
          let same : v ≡ s.machine_id =
            ground (arith, session_errors, error_if, h, nonempty, e, eq_iff v s.machine_id) in
          rw (session_machines, nonempty, e) (e ∙ ap some same)
    ]

session_errors-Agrees :
    (machine_of : String → String) (s : Step) (machines : Map String)
    → OnMachine machine_of s
    → Agrees machine_of machines
    → (session_errors s machines ≡ []) × Agrees machine_of (session_machines s machines)
unfolding session_errors session_machines error_if
session_errors-Agrees machine_of s machines on agree = (
  ground (
    arith,
    eq_iff s.session_key "",
    agree s.session_key (get_or "" s.session_key machines),
    on,
    eq_iff (get_or "" s.session_key machines) s.machine_id,
  ),
  λ key v h. ground (
    arith,
    h,
    agree key v,
    on,
    eq_iff s.session_key "",
    eq_iff s.session_key key,
    lookup-insert s.session_key key s.machine_id machines,
  ),
)

step_errors_iff :
    (s : Step) (machines : Map String)
    → (step_errors s machines ≡ []) ↔ (IsConfigured s × (session_errors s machines ≡ []))
unfolding step_errors
step_errors_iff s machines =
    let a =
      append-nil_iff (task_type_errors s)
        (shell_errors s ++ (run_job_errors s ++ (session_errors s machines ++ range_errors s))) in
    let b =
      append-nil_iff (shell_errors s)
        (run_job_errors s ++ (session_errors s machines ++ range_errors s)) in
    let c = append-nil_iff (run_job_errors s) (session_errors s machines ++ range_errors s) in
    let d = append-nil_iff (session_errors s machines) (range_errors s) in
    let own = own_errors_iff s in
    (
      λ h.
          let (x, h') = a.0 h in
          let (y, h2) = b.0 h' in
          let (z, h3) = c.0 h2 in let (w, r) = d.0 h3 in (own.0 (x, y, z, r), w),
      λ (v, w). let (x, y, z, r) = own.1 v in a.1 (x, b.1 (y, c.1 (z, d.1 (w, r)))),
    )

check_steps-IsConfigured :
    (steps : List Step) (machines : Map String)
    → check_steps steps machines ≡ []
    → All IsConfigured steps
      × All (OnMachine (λ key. get_or "" key (recorded steps machines))) steps
unfolding check_steps recorded
check_steps-IsConfigured [] machines h = (tt, tt)
check_steps-IsConfigured (s ∷ steps) machines h =
    let (first, rest) =
      (append-nil_iff (step_errors s machines) (check_steps steps (session_machines s machines))).0
        h in
    let (configured, quiet) = (step_errors_iff s machines).0 first in
    let (others, on) = check_steps-IsConfigured steps (session_machines s machines) rest in
    (
      (configured, others),
      (
        λ k. ground (
          arith,
          recorded-keeps steps (session_machines s machines) s.session_key s.machine_id
              (session_errors-recorded s machines quiet k),
        ),
        on,
      ),
    )

check_steps-nil :
    (machine_of : String → String) (steps : List Step) (machines : Map String)
    → Agrees machine_of machines
    → All IsConfigured steps
    → All (OnMachine machine_of) steps
    → check_steps steps machines ≡ []
unfolding check_steps
check_steps-nil machine_of [] machines agree configured on = refl
check_steps-nil machine_of (s ∷ steps) machines agree configured on =
    let (quiet, agree') = session_errors-Agrees machine_of s machines on.0 agree in
    (append-nil_iff (step_errors s machines) (check_steps steps (session_machines s machines))).1 (
      (step_errors_iff s machines).1 (configured.0, quiet),
      check_steps-nil machine_of steps (session_machines s machines) agree' configured.1 on.1,
    )

-- ValidateJobSteps reports no error exactly when each step is well configured (a known kind of task with
-- the fields that it needs, a known run_if, at most 5 retries and a delay of at most 3600 seconds) and
-- each session key has one machine, on which all steps with that key run.
pub validate_job_steps_iff :
    (steps : List Step)
    → (validate_job_steps steps ≡ []) ↔ (
        All IsConfigured steps
        × ((machine_of : String → String) × All (OnMachine machine_of) steps))
unfolding validate_job_steps lookup
validate_job_steps_iff steps = (
  λ h.
      let (configured, on) = check_steps-IsConfigured steps [] h in
      (configured, ((λ key. get_or "" key (recorded steps [])), on)),
  λ (configured, (machine_of, on)).
      check_steps-nil machine_of steps [] (λ key v h. cc) configured on,
)
