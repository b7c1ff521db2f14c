-- ===== src/Orchestrator/Service/Retried.antt =====
-- The rows that RetryStep resets (internal/server/orchestrator/orchestrator.go).
use claude_plane.Base.{
  ◌+◌, ◌<◌, ◌≡◌, ◌⊎◌, String, Bool, true, false, ◌&&◌, some, List, [], ◌∷◌, ◌++◌, arith, eq_iff,
  unit_of, Bool-cases, Option-cases, inl, inr, ◌↔◌, ℕ, refl, str_eq, Map, if_rule, has,
}
use claude_plane.Orchestrator.Types.{StepDependency, RunStep, pending, running}
use claude_plane.Orchestrator.Runner.{Collaborators}
use claude_plane.Orchestrator.Service.{
  ServiceCall, wrote_step_status, Orchestrator, record_call, RunRow, cancelled_runner,
  wrote_step_attempt, wrote_run_status,
}
use claude_plane.Orchestrator.Service.Requests.{
  steps_to_reset, is_resettable, reset_row, reset_rows, write_call, replace_runner,
  rebuild_and_start_run, retry_step, RebuildAnswers,
}
use claude_plane.Orchestrator.Service.Reset.{Downstream, marked, steps_to_reset_iff}

-- Whether a call sets the status of a run step to pending.
abbrev pub sets_pending : String → ServiceCall → Bool
sets_pending x (wrote_step_status y pending) = str_eq y x
sets_pending x _ = false

abbrev pub resets : String → List ServiceCall → ℕ
resets x [] = 0
resets x (c ∷ cs) = unit_of (sets_pending x c) + resets x cs

abbrev pub Any : {A : Type 0} → (A → Type 0) → List A → Type 0
Any P [] = ⊥
Any P (x ∷ xs) = P x ⊎ Any P xs

resets-append :
    (x : String) (c : ServiceCall) (cs : List ServiceCall)
    → resets x (cs ++ c ∷ []) ≡ resets x cs + unit_of (sets_pending x c)
resets-append x c [] = omega arith
resets-append x c (d ∷ cs) = omega (arith, resets-append x c cs)

-- The rows that are selected and have an identifier.
abbrev picked : String → (RunStep → Bool) → List RunStep → ℕ
picked x select [] = 0
picked x select (rs ∷ rest) = unit_of (select rs && str_eq rs.run_step_id x) + picked x select rest

reset_row-resets :
    (x : String) (rs : RunStep) (o : Orchestrator)
    → ((reset_row (λ c. false) false rs o).0 ≡ true)
      × (resets x (reset_row (λ c. false) false rs o).1.calls
          ≡ resets x o.calls + unit_of (str_eq rs.run_step_id x))
unfolding reset_row write_call record_call
reset_row-resets x rs o = (
  refl,
  omega (
    arith,
    resets-append x (wrote_step_attempt rs.run_step_id 1)
        (o.calls ++ wrote_step_status rs.run_step_id pending ∷ []),
    resets-append x (wrote_step_status rs.run_step_id pending) o.calls,
  ),
)

reset_rows-resets :
    (x : String) (select : RunStep → Bool) (rows : List RunStep) (o : Orchestrator)
    → ((reset_rows (λ c. false) false select rows o).0 ≡ true)
      × (resets x (reset_rows (λ c. false) false select rows o).1.calls
          ≡ resets x o.calls + picked x select rows)
unfolding reset_rows
reset_rows-resets x select [] o = (refl, omega arith)
reset_rows-resets x select (rs ∷ rows) o =
    if_rule
      (λ (w : Bool × Orchestrator).
        let v : Bool × Orchestrator = elim w.0 [
          | true ↦ reset_rows (λ c. false) false select rows w.1
          | false ↦ (false, w.1)
        ] in
        (v.0 ≡ true) × (resets x v.1.calls ≡ resets x o.calls + picked x select (rs ∷ rows)))
      (select rs) (reset_row (λ c. false) false rs o) (true, o)
      (λ e.
        let (ok, one) = reset_row-resets x rs o in
        let (all, more) = reset_rows-resets x select rows (reset_row (λ c. false) false rs o).1 in
        (all, ground (arith, one, more, e)))
      (λ e. let (all, more) = reset_rows-resets x select rows o in (all, ground (arith, more, e)))

picked_iff :
    (x : String) (select : RunStep → Bool) (rows : List RunStep)
    → (0 < picked x select rows) ↔ Any (λ rs. (rs.run_step_id ≡ x) × (select rs ≡ true)) rows
picked_iff x select [] = (λ h. absurd (omega (arith, h)), λ h. absurd h)
picked_iff x select (rs ∷ rows) = (
  λ h. elim (Bool-cases (select rs && str_eq rs.run_step_id x)) [
    | inl e ↦ inl (ground (arith, e, eq_iff rs.run_step_id x), ground (arith, e))
    | inr e ↦ inr ((picked_iff x select rows).0 (ground (arith, h, e)))
  ],
  λ h. elim h [
    | inl (same, on) ↦ ground (arith, same, on, eq_iff rs.run_step_id x)
    | inr later ↦ omega (arith, (picked_iff x select rows).1 later)
  ],
)

Any-iff :
    {A : Type 0} (P Q : A → Type 0) (xs : List A) → ((a : A) → P a ↔ Q a) → Any P xs ↔ Any Q xs
Any-iff P Q [] f = (λ h. h, λ h. h)
Any-iff P Q (x ∷ xs) f = (
  λ h. elim h [ inl p ↦ inl ((f x).0 p) | inr r ↦ inr ((Any-iff P Q xs f).0 r) ],
  λ h. elim h [ inl p ↦ inl ((f x).1 p) | inr r ↦ inr ((Any-iff P Q xs f).1 r) ],
)

module _ (decode : String → Map String × Bool) (with_calls : Collaborators) where
  replace_runner-resets :
      (x run_id : String) (a : RebuildAnswers) (run : RunRow) (rows : List RunStep)
      → (deps : List StepDependency) (o : Orchestrator)
      → resets x (replace_runner decode with_calls (λ c. false) run_id a run rows deps o).calls
        ≡ resets x o.calls
  unfolding replace_runner record_call
  replace_runner-resets x run_id a run rows deps o =
      if_rule (λ (p : Orchestrator). resets x p.calls ≡ resets x o.calls) (has run_id o.active_runs)
        (record o { calls = o.calls ++ (cancelled_runner run_id ∷ []) }) o
        (λ e. omega (arith, resets-append x (cancelled_runner run_id) o.calls)) (λ e. refl)

  rebuild_and_start_run-resets :
      (x run_id : String) (a : RebuildAnswers) (o : Orchestrator)
      → resets x (rebuild_and_start_run decode with_calls (λ c. false) run_id a o).1.calls
        ≡ resets x o.calls
  unfolding rebuild_and_start_run write_call record_call
  rebuild_and_start_run-resets x run_id a o =
      let more = resets-append x (wrote_run_status run_id running) o.calls in
      elim (Option-cases a.run) [
        | inl e ↦ rw (rebuild_and_start_run, e) (omega (arith, more))
        | inr ((run, rows), e) ↦ elim (Option-cases a.steps_with_deps) [
          | inl f ↦ rw (rebuild_and_start_run, e, f) (omega (arith, more))
          | inr ((steps, deps), f) ↦
              rw (rebuild_and_start_run, e, f)
                (omega (
                  arith,
                  more,
                  replace_runner-resets x run_id a run rows deps
                      (record o { calls = o.calls ++ (wrote_run_status run_id running ∷ []) }),
                ))
        ]
      ]

  -- When RetryStep reads the run's rows and the job's dependencies and every write of the store succeeds, a
  -- run step is set to pending exactly if it is a row of the run that is failed, skipped or cancelled, and
  -- whose step is the step of the request or depends on it, directly or through other steps; edges may
  -- form cycles. Calls made before are not counted: there are none that set this run step to pending.
  pub retry_step-resets_iff :
      (x run_id from : String) (rows : List RunStep) (deps : List StepDependency)
      → (a : RebuildAnswers) (o : Orchestrator) → resets x o.calls ≡ 0
      → (0
          < resets x
              (retry_step decode with_calls
                (λ c. false)
                run_id
                from
                (some rows)
                (some deps)
                a
                o).1.calls)
        ↔ Any
            (λ rs.
              (rs.run_step_id ≡ x)
              × Downstream deps from rs.step_id
              × (is_resettable rs.status ≡ true))
            rows
  unfolding retry_step
  retry_step-resets_iff x run_id from rows deps a o none_yet =
      let select : RunStep → Bool =
        λ rs. marked (steps_to_reset from deps) rs.step_id && is_resettable rs.status in
      let (ok, more) = reset_rows-resets x select rows o in
      let p = (reset_rows (λ c. false) false select rows o).1 in
      let same = rebuild_and_start_run-resets x run_id a p in
      let (_, found) = steps_to_reset_iff deps from in
      let rows_iff =
        Any-iff (λ rs. (rs.run_step_id ≡ x) × (select rs ≡ true))
          (λ rs.
            (rs.run_step_id ≡ x)
            × Downstream deps from rs.step_id
            × (is_resettable rs.status ≡ true))
          rows
          (λ rs. (
            λ h. (h.0, (found rs.step_id).0 (ground (arith, h.1)), ground (arith, h.1)),
            λ h. (h.0, ground (arith, (found rs.step_id).1 h.1, h.2)),
          )) in
      rw (retry_step, ok)
        (
          λ h. rows_iff.0 ((picked_iff x select rows).0 (omega (arith, h, same, more, none_yet))),
          λ h. omega (arith, (picked_iff x select rows).1 (rows_iff.1 h), same, more, none_yet),
        )
