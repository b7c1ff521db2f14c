-- ===== src/Orchestrator/Service/Reset.antt =====
-- The steps that RetryStep resets (internal/server/orchestrator/orchestrator.go).
use claude_plane.Base.{
  ◌+◌, ◌<◌, ◌≡◌, String, Bool, true, false, not, ◌&&◌, ◌||◌, List, [], ◌∷◌, ◌++◌, get_or, insert,
  count, arith, eq_iff, unit_of, ltb, lookup-insert, count-append, Bool-cases, inl, inr, ◌≤◌,
  length, lookup, ◌↔◌, ℕ, subst, suc, refl, length-le_of_count, List-cases, zero,
}
use claude_plane.Orchestrator.Types.{StepDependency}
use claude_plane.Orchestrator.Runner.{index_dependents}
use claude_plane.Orchestrator.Dag.Counts.{edges, count-adjacent}
use claude_plane.Orchestrator.Service.Requests.{
  Search, reach_dependents, search_loop, steps_to_reset,
}

-- A step, and the steps that depend on it directly or through others.
pub data Downstream (deps : List StepDependency) (from : String) : String → Type 0 where
  itself : Downstream deps from from
  through : {x y : String} → Downstream deps from x → 0 < edges x y deps → Downstream deps from y

abbrev pub marked : Search → String → Bool
marked s y = get_or false y s.to_reset

-- Marking a node's dependents.
record Marks (deps_of : List String) (s t : Search) : Type 0 where
  marks : (y : String) → marked t y ≡ (marked s y || ltb 0 (count y deps_of))
  queued :
      (y : String)
      → count y t.queue ≡ count y s.queue + unit_of (ltb 0 (count y deps_of) && not (marked s y))

reach_dependents-Marks :
    (deps_of : List String) (s : Search) → Marks deps_of s (reach_dependents deps_of s)
unfolding reach_dependents
reach_dependents-Marks [] s = record { marks = λ y. ground arith; queued = λ y. ground arith }
reach_dependents-Marks (z ∷ deps_of) s = elim (Bool-cases (marked s z)) [
  | inl old ↦
      let ih = reach_dependents-Marks deps_of s in
      rw (reach_dependents, old)
        (record {
          marks = λ y. ground (arith, ih.marks y, old, eq_iff z y);
          queued = λ y. ground (arith, ih.queued y, old, eq_iff z y);
        })
  | inr new ↦
      let ih =
        reach_dependents-Marks deps_of
          (record { to_reset = insert z true s.to_reset; queue = s.queue ++ (z ∷ []) }) in
      rw (reach_dependents, new)
        (record {
          marks = λ y. ground (arith, ih.marks y, lookup-insert z y true s.to_reset, eq_iff z y);
          queued = λ y. ground (
            arith,
            ih.queued y,
            lookup-insert z y true s.to_reset,
            count-append y s.queue (z ∷ []),
            new,
            eq_iff z y,
          );
        })
]

-- The steps at the ends of the edges.
abbrev step_ids : List StepDependency → List String
step_ids [] = []
step_ids (d ∷ deps) = d.step_id ∷ step_ids deps

length-step_ids : (deps : List StepDependency) → length (step_ids deps) ≡ length deps
length-step_ids [] = refl
length-step_ids (d ∷ deps) = omega (arith, length-step_ids deps)

count-step_ids :
    (x y : String) (deps : List StepDependency) → 0 < edges x y deps → 0 < count y (step_ids deps)
count-step_ids x y [] h = ground (arith, h)
count-step_ids x y (d ∷ deps) h = ground (arith, h, count-step_ids x y deps, eq_iff d.step_id y)

count-ends :
    (deps : List StepDependency) {from : String} (y : String)
    → Downstream deps from y
    → 0 < count y (from ∷ step_ids deps)
count-ends deps y itself = ground (arith, eq_iff y y)
count-ends deps y (through {x} d h) = ground (arith, count-step_ids x y deps h)

module _ (deps : List StepDependency) (from : String) where
  -- Between two rounds; `finished` is the list of nodes that have left the queue.
  record SearchInv (finished : List String) (s : Search) : Type 0 where
    marks_count : (y : String) → count y finished + count y s.queue ≡ unit_of (marked s y)
    closed : (x y : String) → 0 < count x finished → 0 < edges x y deps → marked s y ≡ true
    sound : (y : String) → marked s y ≡ true → Downstream deps from y
    start : marked s from ≡ true

  round-SearchInv :
      (x : String) (rest finished : List String) (s : Search)
      → s.queue ≡ x ∷ rest
      → SearchInv finished s
      → SearchInv
          (x ∷ finished)
          (reach_dependents (get_or [] x (index_dependents deps [])) (record s { queue = rest }))
  round-SearchInv x rest finished s e inv =
      let m =
        reach_dependents-Marks (get_or [] x (index_dependents deps []))
          (record s { queue = rest }) in
      let x_marked : marked s x ≡ true = ground (arith, inv.marks_count x, e, eq_iff x x) in
      record {
        marks_count = λ y. ground (arith, inv.marks_count y, e, m.marks y, m.queued y);
        closed = λ z y h k.
            ground (arith, h, k, inv.closed z y, m.marks y, count-adjacent x y deps, eq_iff x z);
        sound = λ y h. elim (Bool-cases (marked s y)) [
          | inl old ↦ inv.sound y old
          | inr new ↦
              through (inv.sound x x_marked)
                (ground (arith, h, new, m.marks y, count-adjacent x y deps))
        ];
        start = ground (arith, m.marks from, inv.start);
      }

  marked_ends :
      (finished : List String) (s : Search)
      → SearchInv finished s
      → (y : String) → count y finished ≤ count y (from ∷ step_ids deps)
  marked_ends finished s inv y = elim (Bool-cases (marked s y)) [
    | inl on ↦
        ground (arith, inv.marks_count y, on, count-ends deps y (inv.sound y on), eq_iff from y)
    | inr off ↦ ground (arith, inv.marks_count y, off)
  ]

  search_loop-SearchInv :
      (fuel : ℕ) (finished : List String) (s : Search)
      → suc (suc (length deps)) ≤ length finished + fuel
      → SearchInv finished s
      → (after : List String) × SearchInv after (search_loop (index_dependents deps []) fuel s)
        × ((search_loop (index_dependents deps []) fuel s).queue ≡ [])
  unfolding search_loop
  search_loop-SearchInv zero finished s enough inv = absurd (
      omega (
        arith,
        enough,
        length-le_of_count finished (from ∷ step_ids deps) (marked_ends finished s inv),
        length-step_ids deps,
      ))
  search_loop-SearchInv (suc fuel) finished s enough inv = elim (List-cases s.queue) [
    | inl e ↦ rw (search_loop, e) (finished, inv, e)
    | inr (x, rest, e) ↦
        rw (search_loop, e)
          (search_loop-SearchInv fuel (x ∷ finished) _ (omega (arith, enough))
            (round-SearchInv x rest finished s e inv))
  ]

  first-SearchInv : SearchInv [] (record { to_reset = (from, true) ∷ []; queue = from ∷ [] })
  unfolding lookup
  first-SearchInv = record {
    marks_count = λ y. ground arith;
    closed = λ x y h k. absurd (omega (arith, h));
    sound = λ y h. subst (Downstream deps from) (ground (arith, h, eq_iff from y)) itself;
    start = ground (arith, eq_iff from from);
  }

  searched :
      (after : List String) × SearchInv after (steps_to_reset from deps)
      × ((steps_to_reset from deps).queue ≡ [])
  unfolding steps_to_reset
  searched = search_loop-SearchInv (suc (suc (length deps))) [] _ (omega arith) first-SearchInv

  Downstream-marked :
      (y : String) → Downstream deps from y → marked (steps_to_reset from deps) y ≡ true
  Downstream-marked y itself = searched.1.start
  Downstream-marked y (through {x} d h) =
      searched.1.closed x y
        (ground (arith, searched.1.marks_count x, searched.2, Downstream-marked x d)) h

  -- RetryStep's search ends with an empty queue, and the steps that it has marked are the step of the
  -- request and those that depend on it, directly or through other steps; edges may form cycles.
  pub steps_to_reset_iff :
      ((steps_to_reset from deps).queue ≡ [])
      × ((y : String) → (marked (steps_to_reset from deps) y ≡ true) ↔ Downstream deps from y)
  steps_to_reset_iff = (searched.2, λ y. (searched.1.sound y, Downstream-marked y))
