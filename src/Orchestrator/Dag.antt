-- ===== src/Orchestrator/Dag.antt =====
-- ValidateDAG (internal/server/orchestrator/dag_runner.go): Kahn's algorithm on the steps of a job. The
-- two maps are filled as NewDAGRunner fills its own; a queue entry is a node whose count has just
-- reached zero. The loop's fuel is one more than the number of entries of `inDegree`.
pub mod Counts
pub mod Rounds
pub mod Acyclic
use claude_plane.Base.{
  ℕ, zero, suc, String, Bool, List, [], ◌∷◌, ◌++◌, Map, ℤ, pos, decrement, is_zero, get_or, insert,
  if◌then◌else◌, ◌==◌, length,
}
use claude_plane.Orchestrator.Types.{Step, StepDependency}
use claude_plane.Orchestrator.Runner.{index_dependents, count_degrees}

-- inDegree[s.StepID] = 0
unfoldable pub zero_steps : List Step → Map ℤ → Map ℤ
zero_steps [] m = m
zero_steps (s ∷ rest) m = zero_steps rest (insert s.step_id (pos 0) m)

-- inDegree, once both loops have filled it
unfoldable pub in_degrees : List Step → List StepDependency → Map ℤ
unfolding zero_steps count_degrees
in_degrees steps deps = count_degrees deps (zero_steps steps [])

-- The loop that fills the queue.
unfoldable pub roots : Map ℤ → List String
roots [] = []
roots ((id, degree) ∷ rest) = if is_zero degree then id ∷ roots rest else roots rest

-- The variables of the loop.
pub record Kahn : Type 0 where
  pub in_degree : Map ℤ
  pub queue : List String
  pub visited : ℕ

unfoldable pub visit_next : String → Kahn → Kahn
visit_next next k =
    let degree = decrement (get_or (pos 0) next k.in_degree) in
    record k {
      in_degree = insert next degree k.in_degree;
      queue = if is_zero degree then k.queue ++ (next ∷ []) else k.queue;
    }

unfoldable pub visit_nexts : List String → Kahn → Kahn
unfolding visit_next
visit_nexts [] k = k
visit_nexts (next ∷ rest) k = visit_nexts rest (visit_next next k)

-- One round, for a node that has left the queue.
unfoldable pub visit_node : Map (List String) → String → Kahn → Kahn
unfolding visit_nexts
visit_node adj node k = visit_nexts (get_or [] node adj) (record k { visited = suc k.visited })

unfoldable pub kahn_loop : Map (List String) → ℕ → Kahn → Kahn
unfolding visit_node
kahn_loop adj zero k = k
kahn_loop adj (suc fuel) k = elim k.queue [
  | [] ↦ k
  | node ∷ rest ↦ kahn_loop adj fuel (visit_node adj node (record k { queue = rest }))
]

unfoldable pub run_kahn : List Step → List StepDependency → Kahn
unfolding kahn_loop in_degrees roots index_dependents
run_kahn steps deps =
    let degrees = in_degrees steps deps in
    kahn_loop (index_dependents deps []) (suc (length degrees))
      (record { in_degree = degrees; queue = roots degrees; visited = 0 })

-- Whether ValidateDAG returns no error.
unfoldable pub validate_dag : List Step → List StepDependency → Bool
unfolding run_kahn
validate_dag steps deps = (run_kahn steps deps).visited == length steps
