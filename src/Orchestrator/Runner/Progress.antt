-- ===== src/Orchestrator/Runner/Progress.antt =====
-- How the statuses of the steps move (internal/server/orchestrator/dag_runner.go): the parts of the
-- runner other than a completion and a retry only launch, skip or cancel, and change nothing else of
-- a step.
pub mod Completion
use claude_plane.Base.{
  ◌≡◌, refl, ◌≢◌, inl, inr, String, Bool, true, false, Option, none, some, arith, Map, str_eq,
  eq_iff, lookup, insert, lookup-insert, if◌then◌else◌, text_cases,
}
use claude_plane.Orchestrator.Types.{
  Status, RunStep, pending, running, completed, failed, skipped, cancelled,
}

-- The moves of a status that need no completion and no retry.
abbrev pub forward : Status → Status → Bool
forward pending pending = true
forward pending running = true
forward pending skipped = true
forward pending cancelled = true
forward running running = true
forward running cancelled = true
forward completed completed = true
forward failed failed = true
forward skipped skipped = true
forward cancelled cancelled = true
forward _ _ = false

-- The same step later: only the status differs, by such a move.
pub record Later (a b : RunStep) : Type 0 where
  pub moved : forward a.status b.status ≡ true
  pub kept : b ≡ record a { status = b.status }

abbrev pub LaterEntry : Option RunStep → Option RunStep → Type 0
LaterEntry none none = Unit
LaterEntry none (some b) = ⊥
LaterEntry (some a) none = ⊥
LaterEntry (some a) (some b) = Later a b

abbrev pub Evolves : Map RunStep → Map RunStep → Type 0
Evolves m n = (id : String) → LaterEntry (lookup id m) (lookup id n)

forward_refl : (s : Status) → forward s s ≡ true
forward_refl pending = refl
forward_refl running = refl
forward_refl completed = refl
forward_refl failed = refl
forward_refl skipped = refl
forward_refl cancelled = refl

pub forward_trans : (a b c : Status) → forward a b ≡ true → forward b c ≡ true → forward a c ≡ true
forward_trans a b c p q = ground arith

pub Later-refl : (a : RunStep) → Later a a
Later-refl a = record { moved = forward_refl a.status; kept = refl }

pub Later-trans : (a b c : RunStep) → Later a b → Later b c → Later a c
Later-trans a b c p q = record {
  moved = forward_trans a.status b.status c.status p.moved q.moved;
  kept = ground (arith, p.kept, q.kept);
}

pub LaterEntry-refl : (o : Option RunStep) → LaterEntry o o
LaterEntry-refl none = tt
LaterEntry-refl (some a) = Later-refl a

LaterEntry-trans : (o p q : Option RunStep) → LaterEntry o p → LaterEntry p q → LaterEntry o q
LaterEntry-trans none none none h k = tt
LaterEntry-trans none none (some c) h k = k
LaterEntry-trans none (some b) q h k = absurd h
LaterEntry-trans (some a) none q h k = absurd h
LaterEntry-trans (some a) (some b) none h k = k
LaterEntry-trans (some a) (some b) (some c) h k = Later-trans a b c h k

pub Evolves-refl : (m : Map RunStep) → Evolves m m
Evolves-refl m id = LaterEntry-refl (lookup id m)

pub Evolves-trans : (m n o : Map RunStep) → Evolves m n → Evolves n o → Evolves m o
Evolves-trans m n o h k id =
    LaterEntry-trans (lookup id m) (lookup id n) (lookup id o) (h id) (k id)

-- Overwriting the status of one entry, by a move that is allowed.
pub Evolves-insert :
    (m : Map RunStep) (id : String) (rs : RunStep) (s : Status)
    → lookup id m ≡ some rs
    → forward rs.status s ≡ true
    → Evolves m (insert id (record rs { status = s }) m)
Evolves-insert m id rs s found move j =
    rw (lookup-insert id j (record rs { status = s }) m) (elim (text_cases id j) [
      | inl (t, e) ↦ rw (t, ← e, found) (record { moved = move; kept = refl })
      | inr (t, _) ↦ rw t (LaterEntry-refl (lookup j m))
    ])
