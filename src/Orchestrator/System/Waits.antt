-- ===== src/Orchestrator/System/Waits.antt =====
-- The steps that wait for a retry (internal/server/orchestrator/dag_runner.go): each is failed, and
-- none waits twice.
use claude_plane.Base.{
  List, Map, String, ◌≢◌, ◌≡◌, ◌++◌, lookup, ◌∷◌, All, some, Option, All-map, sym, arith,
  text_cases, inl, true, inr, none, refl, [],
}
use claude_plane.Orchestrator.Types.{RunStep, failed, is_running}
use claude_plane.Orchestrator.Runner.Progress.{Evolves, LaterEntry}

-- Each step stands under its own id.
abbrev pub IsKeyed : Map RunStep → Type 0
IsKeyed steps = (id : String) (rs : RunStep) → lookup id steps ≡ some rs → rs.step_id ≡ id

-- The copy that a retry goroutine holds belongs to a failed step.
pub record Waiting (steps : Map RunStep) (copy : RunStep) : Type 0 where
  pub entry : RunStep
  pub found : lookup copy.step_id steps ≡ some entry
  pub has_failed : entry.status ≡ failed
  pub same_key : entry.session_key_snapshot ≡ copy.session_key_snapshot

abbrev pub Differs : RunStep → RunStep → Type 0
Differs c d = c.step_id ≢ d.step_id

abbrev pub Distinct : List RunStep → Type 0
Distinct [] = Unit
Distinct (c ∷ cs) = All (Differs c) cs × Distinct cs

pub record WaitInv (steps : Map RunStep) (retries : List RunStep) : Type 0 where
  pub keyed : IsKeyed steps
  pub waiting : All (Waiting steps) retries
  pub distinct : Distinct retries

Waiting-Later :
    (m n : Map RunStep) (copy : RunStep)
    → LaterEntry (lookup copy.step_id m) (lookup copy.step_id n)
    → Waiting m copy
    → Waiting n copy
Waiting-Later m n copy later w = go (lookup copy.step_id n) refl (rw w.found at later)
  where
    go :
        (o : Option RunStep)
        → lookup copy.step_id n ≡ o
        → LaterEntry (some w.entry) o
        → Waiting n copy
    go none e h = absurd h
    go (some b) e h = record {
      entry = b;
      found = e;
      has_failed = ground (arith, h.moved, w.has_failed);
      same_key = ground (arith, h.kept, w.same_key);
    }

keyed-Later :
    (id : String) (m n : Map RunStep)
    → LaterEntry (lookup id m) (lookup id n)
    → ((rs : RunStep) → lookup id m ≡ some rs → rs.step_id ≡ id)
    → (rs : RunStep) → lookup id n ≡ some rs
    → rs.step_id ≡ id
keyed-Later id m n later keyed rs e = go (lookup id m) refl (rw e at later)
  where
    go : (o : Option RunStep) → lookup id m ≡ o → LaterEntry o (some rs) → rs.step_id ≡ id
    go none p h = absurd h
    go (some a) p h = ground (arith, h.kept, keyed a p)

pub WaitInv-Evolves :
    (m n : Map RunStep) (cs : List RunStep) → Evolves m n → WaitInv m cs → WaitInv n cs
WaitInv-Evolves m n cs evolves inv = record {
  keyed = λ id. keyed-Later id m n (evolves id) (inv.keyed id);
  waiting =
      All-map (Waiting m) (Waiting n) (λ c. Waiting-Later m n c (evolves c.step_id)) cs inv.waiting;
  distinct = inv.distinct;
}

-- One step is written, with its id kept; every other one moves on at most.
pub WaitInv-except :
    (id : String) (x : RunStep) (m n : Map RunStep) (cs : List RunStep)
    → x.step_id ≡ id
    → lookup id n ≡ some x
    → All (λ c. id ≢ c.step_id) cs
    → ((j : String) → id ≢ j → LaterEntry (lookup j m) (lookup j n))
    → WaitInv m cs
    → WaitInv n cs
WaitInv-except id x m n cs own found others later inv = record {
  keyed = λ j rs e. elim (text_cases id j) [
    | inl (_, p) ↦ ground arith
    | inr (_, p) ↦ keyed-Later j m n (later j p) (inv.keyed j) rs e
  ];
  waiting = moved cs others inv.waiting;
  distinct = inv.distinct;
}
  where
    moved :
        (ds : List RunStep) → All (λ c. id ≢ c.step_id) ds → All (Waiting m) ds → All (Waiting n) ds
    moved [] o w = tt
    moved (d ∷ ds) o w = (Waiting-Later m n d (later d.step_id o.0) w.0, moved ds o.1 w.1)

-- A running step is not among those that wait.
pub running_apart :
    (id : String) (rs : RunStep) (m : Map RunStep) (cs : List RunStep)
    → lookup id m ≡ some rs
    → is_running rs.status ≡ true
    → All (Waiting m) cs
    → All (λ c. id ≢ c.step_id) cs
running_apart id rs m [] found runs w = tt
running_apart id rs m (c ∷ cs) found runs w =
    (λ e. ground (arith, w.0.found, w.0.has_failed), running_apart id rs m cs found runs w.1)

pub All-remove {ℓ} :
    (P : RunStep → Type ℓ) (before : List RunStep) (c : RunStep) (after : List RunStep)
    → All P (before ++ (c ∷ after))
    → P c × All P (before ++ after)
All-remove P [] c after h = h
All-remove P (b ∷ before) c after h =
    let (p, rest) = All-remove P before c after h.1 in (p, (h.0, rest))

pub Distinct-remove :
    (before : List RunStep) (c : RunStep) (after : List RunStep)
    → Distinct (before ++ (c ∷ after))
    → All (Differs c) (before ++ after) × Distinct (before ++ after)
Distinct-remove [] c after h = h
Distinct-remove (b ∷ before) c after h =
    let (apart, rest) = All-remove (Differs b) before c after h.0 in
    let (others, distinct) = Distinct-remove before c after h.1 in
    ((λ e. apart (sym e), others), (rest, distinct))
