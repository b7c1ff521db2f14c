-- ===== src/Orchestrator/Dag/Counts.antt =====
-- Counting the edges of a job's graph (internal/server/orchestrator/dag_runner.go): what `adj` and
-- `inDegree` hold, and how the count of open edges falls when a node has been visited.
use claude_plane.Base.{
  keys, ℕ, suc, ◌+◌, ◌<◌, ◌≡◌, refl, String, ◌&&◌, List, [], ◌∷◌, ◌++◌, Map, ℤ, pos, increment,
  get_or, insert, ◌==◌, count, arith, eq_iff, str_eq, unit_of, lookup-insert, count-append, All,
  Bool-cases, inl, inr, has, HasOwnKeys, Bool, ◌||◌, ◌≤◌, HasOwnKeys-insert, lookup, ltb,
  has-insert, is_zero,
}
use claude_plane.Orchestrator.Types.{Step, StepDependency}
use claude_plane.Orchestrator.Runner.{index_dependents, count_degrees}
use claude_plane.Orchestrator.Dag.{zero_steps, roots, in_degrees}

abbrev pub ids : List Step → List String
ids [] = []
ids (s ∷ steps) = s.step_id ∷ ids steps

-- The edges into a node whose source has not been visited.
abbrev pub open_into : List String → String → List StepDependency → ℕ
open_into visited y [] = 0
open_into visited y (d ∷ deps) =
    unit_of (str_eq d.step_id y && (count d.depends_on visited == 0)) + open_into visited y deps

-- The edges from one node to another.
abbrev pub edges : String → String → List StepDependency → ℕ
edges x y [] = 0
edges x y (d ∷ deps) = unit_of (str_eq d.depends_on x && str_eq d.step_id y) + edges x y deps

-- Visiting a node closes its edges.
pub open_into-visit :
    (x y : String) (visited : List String) (deps : List StepDependency)
    → count x visited ≡ 0
    → open_into (x ∷ visited) y deps + edges x y deps ≡ open_into visited y deps
open_into-visit x y visited [] h = refl
open_into-visit x y visited (d ∷ deps) h =
    ground (arith, open_into-visit x y visited deps h, eq_iff d.depends_on x, eq_iff x d.depends_on)

-- A node with no open edge has all of its sources visited.
pub sources_visited :
    (y : String) (visited : List String) (deps : List StepDependency)
    → open_into visited y deps ≡ 0
    → All (λ d. d.step_id ≡ y → 0 < count d.depends_on visited) deps
sources_visited y visited [] h = tt
sources_visited y visited (d ∷ deps) h = (
  λ e. ground (arith, h, e, eq_iff d.step_id y),
  sources_visited y visited deps (ground (arith, h)),
)

-- The converse.
pub open_into-eq_zero :
    (y : String) (visited : List String) (deps : List StepDependency)
    → All (λ d. d.step_id ≡ y → 0 < count d.depends_on visited) deps
    → open_into visited y deps ≡ 0
open_into-eq_zero y visited [] h = refl
open_into-eq_zero y visited (d ∷ deps) (h, rest) =
    ground (arith, open_into-eq_zero y visited deps rest, h, eq_iff d.step_id y)

-- adj
count-index_dependents :
    (x y : String) (deps : List StepDependency) (m : Map (List String))
    → count y (get_or [] x (index_dependents deps m)) ≡ count y (get_or [] x m) + edges x y deps
unfolding index_dependents
count-index_dependents x y [] m = omega arith
count-index_dependents x y (d ∷ deps) m =
    let old = get_or [] d.depends_on m in
    ground (
      arith,
      count-index_dependents x y deps (insert d.depends_on (old ++ d.step_id ∷ []) m),
      lookup-insert d.depends_on x (old ++ d.step_id ∷ []) m,
      count-append y old (d.step_id ∷ []),
      eq_iff d.depends_on x,
    )

pub count-adjacent :
    (x y : String) (deps : List StepDependency)
    → count y (get_or [] x (index_dependents deps [])) ≡ edges x y deps
unfolding lookup
count-adjacent x y deps = ground (arith, count-index_dependents x y deps [])

-- inDegree
pub get_or-count_degrees :
    (y : String) (n : ℕ) (deps : List StepDependency) (m : Map ℤ)
    → get_or (pos 0) y m ≡ pos n
    → get_or (pos 0) y (count_degrees deps m) ≡ pos (n + open_into [] y deps)
unfolding count_degrees
get_or-count_degrees y n [] m h = ground (arith, h)
get_or-count_degrees y n (d ∷ deps) m h = elim (Bool-cases (str_eq d.step_id y)) [
  | inl e ↦ ground (
    arith,
    get_or-count_degrees y (suc n) deps
        (insert d.step_id (increment (get_or (pos 0) d.step_id m)) m),
    lookup-insert d.step_id y (increment (get_or (pos 0) d.step_id m)) m,
    eq_iff d.step_id y,
    h,
  )
  | inr e ↦ ground (
    arith,
    get_or-count_degrees y n deps (insert d.step_id (increment (get_or (pos 0) d.step_id m)) m),
    lookup-insert d.step_id y (increment (get_or (pos 0) d.step_id m)) m,
    h,
  )
]

pub get_or-zero_steps :
    (y : String) (steps : List Step) (m : Map ℤ)
    → get_or (pos 0) y m ≡ pos 0
    → get_or (pos 0) y (zero_steps steps m) ≡ pos 0
unfolding zero_steps
get_or-zero_steps y [] m h = h
get_or-zero_steps y (s ∷ steps) m h =
    get_or-zero_steps y steps (insert s.step_id (pos 0) m)
      (ground (arith, lookup-insert s.step_id y (pos 0) m, h))

-- Which nodes have an entry in inDegree: the steps, and the ends of the edges.
pub has-count_degrees :
    (y : String) (deps : List StepDependency) (m : Map ℤ)
    → has y (count_degrees deps m) ≡ (has y m || ltb 0 (open_into [] y deps))
unfolding count_degrees
has-count_degrees y [] m = ground arith
has-count_degrees y (d ∷ deps) m =
    let v = increment (get_or (pos 0) d.step_id m) in
    ground (arith, has-count_degrees y deps (insert d.step_id v m), has-insert d.step_id y v m)

pub has-zero_steps :
    (y : String) (steps : List Step) (m : Map ℤ)
    → has y (zero_steps steps m) ≡ (has y m || ltb 0 (count y (ids steps)))
unfolding zero_steps
has-zero_steps y [] m = ground arith
has-zero_steps y (s ∷ steps) m =
    ground
      (arith, has-zero_steps y steps (insert s.step_id (pos 0) m), has-insert s.step_id y (pos 0) m)

HasOwnKeys-count_degrees :
    (deps : List StepDependency) (m : Map ℤ) → HasOwnKeys m → HasOwnKeys (count_degrees deps m)
unfolding count_degrees
HasOwnKeys-count_degrees [] m own = own
HasOwnKeys-count_degrees (d ∷ deps) m own =
    HasOwnKeys-count_degrees deps _ (HasOwnKeys-insert d.step_id _ m own)

HasOwnKeys-zero_steps :
    (steps : List Step) (m : Map ℤ) → HasOwnKeys m → HasOwnKeys (zero_steps steps m)
unfolding zero_steps
HasOwnKeys-zero_steps [] m own = own
HasOwnKeys-zero_steps (s ∷ steps) m own =
    HasOwnKeys-zero_steps steps _ (HasOwnKeys-insert s.step_id (pos 0) m own)

count-roots_le : (y : String) (m : Map ℤ) → count y (roots m) ≤ count y (keys m)
unfolding roots
count-roots_le y [] = omega arith
count-roots_le y ((j, v) ∷ m) = ground (arith, count-roots_le y m)

-- The initial queue has each node without open edges once.
pub count-roots :
    (y : String) (m : Map ℤ)
    → count y (keys m) ≤ 1
    → count y (roots m) ≡ unit_of (has y m && is_zero (get_or (pos 0) y m))
unfolding roots lookup
count-roots y [] h = refl
count-roots y ((j, v) ∷ m) h = ground (arith, h, count-roots y m, count-roots_le y m, eq_iff j y)

module _ (steps : List Step) (deps : List StepDependency) where
  -- The nodes that ValidateDAG counts.
  abbrev pub is_node : String → Bool
  is_node y = ltb 0 (count y (ids steps)) || ltb 0 (open_into [] y deps)

  pub in_degrees-keys : HasOwnKeys (in_degrees steps deps)
  unfolding in_degrees lookup
  in_degrees-keys =
      HasOwnKeys-count_degrees deps (zero_steps steps [])
        (HasOwnKeys-zero_steps steps [] (λ y. refl))

  pub has-in_degrees : (y : String) → has y (in_degrees steps deps) ≡ is_node y
  unfolding in_degrees lookup
  has-in_degrees y =
      ground (arith, has-count_degrees y deps (zero_steps steps []), has-zero_steps y steps [])

  pub in_degrees_lem :
      (y : String) → get_or (pos 0) y (in_degrees steps deps) ≡ pos (open_into [] y deps)
  unfolding in_degrees lookup
  in_degrees_lem y = ground (
    arith,
    get_or-count_degrees y 0 deps (zero_steps steps []) (get_or-zero_steps y steps [] refl),
  )
