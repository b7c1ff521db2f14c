-- ===== src/Orchestrator/Dag/Rounds.antt =====
-- The rounds of ValidateDAG's loop (internal/server/orchestrator/dag_runner.go). `visited` is the list of
-- nodes that have left the queue, the last one first.
use claude_plane.Base.{
  ℕ, suc, ◌+◌, ◌≤◌, ◌<◌, ◌≡◌, refl, String, ◌&&◌, List, [], ◌∷◌, pos, decrement, get_or,
  if◌then◌else◌, ◌==◌, length, count, arith, eq_iff, str_eq, unit_of, lookup-insert, count-append,
  All, ltb, All-map, All-both, true, length-append, length-le_of_count, List-cases, inl, ◌++◌, inr,
  zero,
}
use claude_plane.Orchestrator.Types.{Step, StepDependency}
use claude_plane.Orchestrator.Dag.{Kahn, visit_next, visit_nexts, visit_node, kahn_loop}
use claude_plane.Orchestrator.Dag.Counts.{
  is_node, open_into, edges, sources_visited, count-adjacent, open_into-visit,
}
use claude_plane.Orchestrator.Runner.{index_dependents}

-- How early a node was visited; later nodes have larger ranks.
abbrev pub rank : List String → String → ℕ
rank [] y = 0
rank (x ∷ visited) y = if str_eq x y then suc (length visited) else rank visited y

pub rank-le-length : (visited : List String) (y : String) → rank visited y ≤ length visited
rank-le-length [] y = omega arith
rank-le-length (x ∷ visited) y = ground (arith, rank-le-length visited y)

-- The inner loop takes each count down by the number of times that the node stands in the list, and
-- queues the nodes whose count it takes to zero.
record Nexts (degree : String → ℕ) (nexts : List String) (k r : Kahn) : Type 0 where
  degrees : (y : String) → get_or (pos 0) y r.in_degree ≡ pos (degree y)
  queued :
      (y : String)
      → count y r.queue ≡ count y k.queue + unit_of (ltb 0 (count y nexts) && (degree y == 0))
  same_visited : r.visited ≡ k.visited

visit_nexts-Nexts :
    (degree : String → ℕ) (nexts : List String) (k : Kahn)
    → ((y : String) → get_or (pos 0) y k.in_degree ≡ pos (degree y + count y nexts))
    → Nexts degree nexts k (visit_nexts nexts k)
unfolding visit_nexts visit_next
visit_nexts-Nexts degree [] k h = record {
  degrees = λ y. ground (arith, h y);
  queued = λ y. ground arith;
  same_visited = refl;
}
visit_nexts-Nexts degree (z ∷ nexts) k h =
    let d = decrement (get_or (pos 0) z k.in_degree) in
    let ih =
      visit_nexts-Nexts degree nexts (visit_next z k)
        (λ y. ground (arith, h y, h z, lookup-insert z y d k.in_degree, eq_iff z y, eq_iff z z)) in
    record {
      degrees = ih.degrees;
      queued = λ y.
          ground (arith, h z, ih.queued y, count-append y k.queue (z ∷ []), eq_iff z y, eq_iff z z);
      same_visited = ih.same_visited;
    }

edges-le : (x y : String) (deps : List StepDependency) → edges x y deps ≤ open_into [] y deps
edges-le x y [] = omega arith
edges-le x y (d ∷ deps) = ground (arith, edges-le x y deps)

module _ (steps : List Step) (deps : List StepDependency) where
  -- An edge into a visited node comes from a node that was visited before.
  abbrev pub Ordered : List String → StepDependency → Type 0
  Ordered visited d =
      0 < count d.step_id visited
      → (0 < count d.depends_on visited) × (rank visited d.depends_on < rank visited d.step_id)

  -- The state between two rounds.
  pub record Inv (visited : List String) (k : Kahn) : Type 0 where
    pub degrees : (y : String) → get_or (pos 0) y k.in_degree ≡ pos (open_into visited y deps)
    -- each node with no open edge has been visited or waits, once
    pub settled :
        (y : String)
        → count y visited + count y k.queue
          ≡ unit_of (is_node steps deps y && (open_into visited y deps == 0))
    pub counted : k.visited ≡ length visited
    pub ordered : All (Ordered visited) deps

  -- One more node: the edges into it come from visited nodes, and no other rank changes.
  Ordered-visit :
      (x : String) (visited : List String)
      → count x visited ≡ 0
      → open_into visited x deps ≡ 0
      → All (Ordered visited) deps
      → All (Ordered (x ∷ visited)) deps
  Ordered-visit x visited new closed old =
      All-map _ _
        (λ d h seen. (
          ground (arith, h.0, h.1, seen, eq_iff d.step_id x, eq_iff x d.step_id),
          ground (
            arith,
            h.0,
            h.1,
            seen,
            new,
            eq_iff d.step_id x,
            eq_iff x d.step_id,
            eq_iff x d.depends_on,
            rank-le-length visited d.depends_on,
          ),
        ))
        deps (All-both _ _ deps old (sources_visited x visited deps closed))

  -- An edge ends in a node.
  edges-is_node : (x y : String) → 0 < edges x y deps → is_node steps deps y ≡ true
  edges-is_node x y h = ground (arith, h, edges-le x y deps)

  visit_node-Inv :
      (x : String) (rest visited : List String) (k : Kahn)
      → k.queue ≡ x ∷ rest
      → Inv visited k
      → Inv (x ∷ visited) (visit_node (index_dependents deps []) x (record k { queue = rest }))
  unfolding visit_node
  visit_node-Inv x rest visited k e inv =
      let new : count x visited ≡ 0 = ground (arith, e, inv.settled x, eq_iff x x) in
      let closed : open_into visited x deps ≡ 0 = ground (arith, e, inv.settled x, eq_iff x x) in
      let nexts = get_or [] x (index_dependents deps []) in
      let found = λ (y : String). count-adjacent x y deps in
      let after =
        visit_nexts-Nexts (λ y. open_into (x ∷ visited) y deps) nexts
          (record k { queue = rest; visited = suc k.visited })
          (λ y. ground (arith, inv.degrees y, found y, open_into-visit x y visited deps new)) in
      record {
        degrees = after.degrees;
        settled = λ y. ground (
          arith,
          after.queued y,
          e,
          inv.settled y,
          found y,
          open_into-visit x y visited deps new,
          edges-is_node x y,
        );
        counted = ground (arith, after.same_visited, inv.counted);
        ordered = Ordered-visit x visited new closed inv.ordered;
      }

  -- The loop has fuel for every node.
  module _ (nodes : List String)
      (unique : (y : String) → count y nodes ≡ unit_of (is_node steps deps y)) where
    length-Inv :
        (visited : List String) (k : Kahn)
        → Inv visited k
        → length visited + length k.queue ≤ length nodes
    length-Inv visited k inv = omega (
      arith,
      length-append visited k.queue,
      length-le_of_count (visited ++ k.queue) nodes
          (λ y. ground (arith, count-append y visited k.queue, inv.settled y, unique y)),
    )

    pub kahn_loop-Inv :
        (fuel : ℕ) (visited : List String) (k : Kahn)
        → length nodes < fuel + length visited
        → Inv visited k
        → (after : List String) × Inv after (kahn_loop (index_dependents deps []) fuel k)
          × ((kahn_loop (index_dependents deps []) fuel k).queue ≡ [])
    unfolding kahn_loop
    kahn_loop-Inv zero visited k h inv = absurd (omega (arith, h, length-Inv visited k inv))
    kahn_loop-Inv (suc fuel) visited k h inv = elim (List-cases k.queue) [
      | inl e ↦ rw (e, kahn_loop) (visited, inv, e)
      | inr (x, rest, e) ↦
          rw (e, kahn_loop)
            (kahn_loop-Inv fuel (x ∷ visited) _ (omega (arith, h))
              (visit_node-Inv x rest visited k e inv))
    ]
