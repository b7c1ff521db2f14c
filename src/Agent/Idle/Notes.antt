-- ===== src/Agent/Idle/Notes.antt =====
-- The notifications of an idle detector, as a list (internal/agent/idle_detector.go).
use claude_plane.Base.{◌≡◌, refl, true, false, List, [], ◌∷◌, ◌++◌, arith, none, some, Option, Bool}
use claude_plane.Agent.Idle.{Note, went_idle, went_active}

-- Whether the session is idle after a list of notes that alternate, beginning with onIdle; none for
-- other lists.
abbrev pub play : Bool → List Note → Option Bool
play idle [] = some idle
play false (went_idle ∷ rest) = play true rest
play true (went_active ∷ rest) = play false rest
play true (went_idle ∷ rest) = none
play false (went_active ∷ rest) = none

pub play-idle :
    (s : Bool) (xs : List Note) → play s xs ≡ some false → play s (xs ++ went_idle ∷ []) ≡ some true
play-idle false [] h = refl
play-idle true [] h = absurd (ground (arith, h))
play-idle false (went_idle ∷ xs) h = play-idle true xs h
play-idle true (went_active ∷ xs) h = play-idle false xs h
play-idle true (went_idle ∷ xs) h = absurd (ground (arith, h))
play-idle false (went_active ∷ xs) h = absurd (ground (arith, h))

pub play-active :
    (s : Bool) (xs : List Note)
    → play s xs ≡ some true
    → play s (xs ++ went_active ∷ []) ≡ some false
play-active true [] h = refl
play-active false [] h = absurd (ground (arith, h))
play-active false (went_idle ∷ xs) h = play-active true xs h
play-active true (went_active ∷ xs) h = play-active false xs h
play-active true (went_idle ∷ xs) h = absurd (ground (arith, h))
play-active false (went_active ∷ xs) h = absurd (ground (arith, h))
