-- ===== src/Orchestrator/System/Initial.antt =====
-- The runner as it is built (internal/server/orchestrator/dag_runner.go, orchestrator.go).
use claude_plane.Orchestrator.Runner.{Runner, index_steps}
use claude_plane.Orchestrator.Rebuild.{resume_steps, resume_step, count_down_dependents}
use claude_plane.Base.{
  Option, String, lookup, List, ◌≡◌, Map, All, [], some, ◌∷◌, ◌∙◌, insert, false, All-map, refl,
  text_cases, arith, inl, get_or, none, lookup-insert, suc, subst, inr, ◌≢◌, Bool, length, ◌≤◌, ℕ,
  tally, ◌+◌, unit_of, tally-insert-le, length-insert-le, str_eq-false, tally-insert_new,
}
use claude_plane.Orchestrator.Types.{RunStep, is_running}
use claude_plane.Orchestrator.System.Invariant.{SystemInv}
use claude_plane.Orchestrator.System.{fresh}
use claude_plane.Orchestrator.Runner.Keys.{held_key}

-- An invariant of the entries holds of the map that NewDAGRunner fills.
index_steps_rule {ℓ} :
    (P : String → RunStep → Type ℓ) (steps : List RunStep) (m : Map RunStep)
    → All (λ rs. P rs.step_id rs) steps
    → ((id : String) (rs : RunStep) → lookup id m ≡ some rs → P id rs)
    → (id : String) (rs : RunStep) → lookup id (index_steps steps m) ≡ some rs
    → P id rs
unfolding index_steps
index_steps_rule P [] m h k id rs e = k id rs e
index_steps_rule P (s ∷ rest) m h k id rs e =
    index_steps_rule P rest (insert s.step_id s m) h.1
      (λ j r' e'. elim (text_cases s.step_id j) [
        | inl (t, p) ↦
            let same : s ≡ r' = ground (arith, lookup-insert s.step_id j s m) in
            subst (P j) same (subst (λ x. P x s) p h.0)
        | inr (t, p) ↦ k j r' (ground (arith, lookup-insert s.step_id j s m))
      ])
      id rs e

abbrev pub NoneRuns : List RunStep → Type 0
NoneRuns = All (λ rs. is_running rs.status ≡ false)

abbrev OwnIdle : String → RunStep → Type 0
OwnIdle id rs = (rs.step_id ≡ id) × (is_running rs.status ≡ false)

index_steps-OwnIdle :
    (steps : List RunStep)
    → NoneRuns steps
    → (id : String) (rs : RunStep) → lookup id (index_steps steps []) ≡ some rs
    → OwnIdle id rs
unfolding lookup
index_steps-OwnIdle steps idle =
    index_steps_rule OwnIdle steps []
      (All-map (λ rs. is_running rs.status ≡ false) (λ rs. OwnIdle rs.step_id rs)
        (λ rs h. (refl, h)) steps idle)
      (λ id rs e. cc)

held_key-idle :
    (o : Option RunStep)
    → ((rs : RunStep) → o ≡ some rs → is_running rs.status ≡ false)
    → held_key o ≡ ""
held_key-idle none h = refl
held_key-idle (some rs) h = rw (h rs refl)

pub idle-SystemInv :
    (steps : List RunStep) (r : Runner)
    → NoneRuns steps
    → r.steps ≡ index_steps steps []
    → SystemInv (fresh r)
idle-SystemInv steps r idle e =
    let own = index_steps-OwnIdle steps idle in
    let nothing =
      λ (id : String). held_key-idle (lookup id r.steps) (λ rs p. (own id rs (rw e at p)).1) in
    record {
      waits = record { keyed = λ id rs p. (own id rs (rw e at p)).0; waiting = tt; distinct = tt };
      keys = record {
        held = λ i h. absurd (h (nothing i));
        exclusive = λ i j h p. absurd (h (nothing i));
      };
    }

count_down_dependents-steps :
    (deps : List String) (r : Runner) → (count_down_dependents deps r).steps ≡ r.steps
unfolding count_down_dependents
count_down_dependents-steps [] r = refl
count_down_dependents-steps (d ∷ rest) r = count_down_dependents-steps rest _

pub resume_steps-steps : (rss : List RunStep) (r : Runner) → (resume_steps rss r).steps ≡ r.steps
unfolding resume_steps resume_step
resume_steps-steps [] r = refl
resume_steps-steps (rs ∷ rest) r =
    resume_steps-steps rest (resume_step rs r)
    ∙ ground (
      arith,
      count_down_dependents-steps (get_or [] rs.step_id r.dependents)
          (record r { completed = suc r.completed }),
    )

-- The number of stored steps that pass a test.
abbrev pub count_rows : (RunStep → Bool) → List RunStep → ℕ
count_rows p [] = 0
count_rows p (rs ∷ rest) = count_rows p rest + unit_of (p rs)

pub tally-index_steps-le :
    (p : RunStep → Bool) (rss : List RunStep) (m : Map RunStep)
    → tally p (index_steps rss m) ≤ tally p m + count_rows p rss
unfolding index_steps
tally-index_steps-le p [] m = omega arith
tally-index_steps-le p (rs ∷ rest) m =
    omega (
      arith,
      tally-index_steps-le p rest (insert rs.step_id rs m),
      tally-insert-le p rs.step_id rs m,
    )

pub length-index_steps-le :
    (rss : List RunStep) (m : Map RunStep) → length (index_steps rss m) ≤ length m + length rss
unfolding index_steps
length-index_steps-le [] m = omega arith
length-index_steps-le (rs ∷ rest) m =
    omega
      (arith, length-index_steps-le rest (insert rs.step_id rs m), length-insert-le rs.step_id rs m)

-- No two rows are of one step.
abbrev pub DistinctIds : List RunStep → Type 0
DistinctIds [] = Unit
DistinctIds (rs ∷ rest) = All (λ s. rs.step_id ≢ s.step_id) rest × DistinctIds rest

pub tally-index_steps :
    (p : RunStep → Bool) (rss : List RunStep) (m : Map RunStep)
    → DistinctIds rss
    → All (λ rs. lookup rs.step_id m ≡ none) rss
    → tally p (index_steps rss m) ≡ tally p m + count_rows p rss
unfolding index_steps
tally-index_steps p [] m d new = omega arith
tally-index_steps p (rs ∷ rest) m d new = omega (
  arith,
  tally-index_steps p rest (insert rs.step_id rs m) d.1 (still_new rest d.0 new.1),
  tally-insert_new p rs.step_id rs m new.0,
)
  where
    still_new :
        (ss : List RunStep)
        → All (λ s. rs.step_id ≢ s.step_id) ss
        → All (λ s. lookup s.step_id m ≡ none) ss
        → All (λ s. lookup s.step_id (insert rs.step_id rs m) ≡ none) ss
    still_new [] apart n = tt
    still_new (s ∷ ss) apart n = (
      rw (lookup-insert rs.step_id s.step_id rs m, str_eq-false rs.step_id s.step_id apart.0) n.0,
      still_new ss apart.1 n.1,
    )
