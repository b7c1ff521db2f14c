-- ===== src/Orchestrator/Dag/Acyclic.antt =====
-- ValidateDAG accepts the graphs without cycles (internal/server/orchestrator/dag_runner.go). A graph has
-- no cycle when its nodes can be ranked so that every edge goes up.
use claude_plane.Base.{
  ℕ, zero, suc, ◌≤◌, ◌<◌, ◌≡◌, ◌↔◌, refl, String, true, List, [], ◌∷◌, keys, length, count, arith,
  eq_iff, length-keys, length-le_of_count, count-le_of_length, All, All-map, All-both, All-of,
  unit_of, ==→eq,
}
use claude_plane.Orchestrator.Types.{Step, StepDependency}
use claude_plane.Orchestrator.Dag.{in_degrees, roots, run_kahn, validate_dag}
use claude_plane.Orchestrator.Dag.Counts.{
  ids, is_node, open_into, in_degrees-keys, has-in_degrees, in_degrees_lem, count-roots,
  open_into-eq_zero,
}
use claude_plane.Orchestrator.Dag.Rounds.{Inv, rank, kahn_loop-Inv}

-- Every edge goes up.
abbrev pub IsRanked : (String → ℕ) → List StepDependency → Type 0
IsRanked r = All (λ d. r d.depends_on < r d.step_id)

-- Every edge joins two of the steps.
abbrev pub EdgesKnown : List Step → List StepDependency → Type 0
EdgesKnown steps =
    All (λ d. (0 < count d.step_id (ids steps)) × (0 < count d.depends_on (ids steps)))

-- No two steps have one identifier.
abbrev pub DistinctIds : List Step → Type 0
DistinctIds steps = (y : String) → count y (ids steps) ≤ 1

length-ids : (steps : List Step) → length (ids steps) ≡ length steps
length-ids [] = refl
length-ids (s ∷ steps) = omega (arith, length-ids steps)

ends_known :
    (steps : List Step) (y : String) (deps : List StepDependency)
    → EdgesKnown steps deps
    → 0 < open_into [] y deps
    → 0 < count y (ids steps)
ends_known steps y [] known h = ground (arith, h)
ends_known steps y (d ∷ deps) known h =
    ground (arith, ends_known steps y deps known.1, known.0, h, eq_iff d.step_id y)

module _ (steps : List Step) (deps : List StepDependency) where
  nodes : List String
  nodes = keys (in_degrees steps deps)

  first-Inv : Inv steps deps [] (record {
    in_degree = in_degrees steps deps;
    queue = roots (in_degrees steps deps);
    visited = 0;
  })
  first-Inv = record {
    degrees = in_degrees_lem steps deps;
    settled = λ y. ground (
      arith,
      in_degrees-keys steps deps y,
      has-in_degrees steps deps y,
      in_degrees_lem steps deps y,
      count-roots y (in_degrees steps deps),
    );
    counted = refl;
    ordered = All-of (λ d h. absurd (omega (arith, h))) deps;
  }

  count-nodes : (y : String) → count y nodes ≡ unit_of (is_node steps deps y)
  unfolding nodes
  count-nodes y = ground (arith, in_degrees-keys steps deps y, has-in_degrees steps deps y)

  run_kahn-Inv :
      (after : List String) × Inv steps deps after (run_kahn steps deps)
      × ((run_kahn steps deps).queue ≡ [])
  unfolding run_kahn nodes
  run_kahn-Inv =
      kahn_loop-Inv steps deps nodes count-nodes (suc (length (in_degrees steps deps))) [] _
        (omega (arith, length-keys (in_degrees steps deps))) first-Inv

  -- ValidateDAG's loop ends with an empty queue on every list of steps and edges, also where edges name
  -- unknown steps or form cycles.
  pub validate_dag_ends : (run_kahn steps deps).queue ≡ []
  validate_dag_ends = run_kahn-Inv.2

  module _ (known : EdgesKnown steps deps) where
    -- The nodes are the steps.
    node_is_step : (y : String) → unit_of (is_node steps deps y) ≤ count y (ids steps)
    node_is_step y = ground (arith, ends_known steps y deps known)

    validate_dag-IsRanked : validate_dag steps deps ≡ true → (r : String → ℕ) × IsRanked r deps
    unfolding validate_dag
    validate_dag-IsRanked ok =
        let (after, inv, empty) = run_kahn-Inv in
        let all_after =
          count-le_of_length after nodes (λ y. ground (arith, inv.settled y, count-nodes y))
            (omega (
              arith,
              ==→eq _ _ ok,
              inv.counted,
              length-ids steps,
              length-le_of_count nodes (ids steps)
                  (λ y. ground (arith, count-nodes y, node_is_step y)),
            )) in
        (
          rank after,
          All-map _ _
              (λ d h. (h.0 (ground (arith, all_after d.step_id, count-nodes d.step_id, h.1.0))).1)
              deps (All-both _ _ deps inv.ordered known),
        )

    module _ (r : String → ℕ) (ranked : IsRanked r deps) where
      -- Every node of a ranked graph is visited: by induction on its rank.
      visited_below :
          (n : ℕ) (after : List String)
          → Inv steps deps after (run_kahn steps deps)
          → (y : String) → r y < n
          → is_node steps deps y ≡ true
          → 0 < count y after
      visited_below zero after inv y h node = absurd (omega (arith, h))
      visited_below (suc n) after inv y h node =
          let closed = open_into-eq_zero y after deps (
            All-map _ _
              (λ d k e.
                visited_below n after inv d.depends_on (ground (arith, k.0, h, e))
                  (ground (arith, k.1.1)))
              deps (All-both _ _ deps ranked known)) in
          ground (arith, validate_dag_ends, inv.settled y, closed, node)

      IsRanked-validate_dag : DistinctIds steps → validate_dag steps deps ≡ true
      unfolding validate_dag
      IsRanked-validate_dag distinct =
          let (after, inv, empty) = run_kahn-Inv in
          let enough = length-le_of_count (ids steps) after (λ y.
            ground (arith, distinct y, visited_below (suc (r y)) after inv y (omega arith))) in
          let few =
            length-le_of_count after (ids steps)
              (λ y. ground (arith, inv.settled y, node_is_step y)) in
          ground (arith, enough, few, length-ids steps, inv.counted)

-- For steps with distinct identifiers and edges between them, ValidateDAG returns no error exactly when
-- the steps can be ranked so that each one's dependencies have smaller ranks: when there is no cycle.
pub validate_dag_iff :
    (steps : List Step) (deps : List StepDependency)
    → DistinctIds steps
    → EdgesKnown steps deps
    → (validate_dag steps deps ≡ true) ↔ ((r : String → ℕ) × IsRanked r deps)
validate_dag_iff steps deps distinct known = (
  validate_dag-IsRanked steps deps known,
  λ (r, ranked). IsRanked-validate_dag steps deps known r ranked distinct,
)
