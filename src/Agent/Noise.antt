-- ===== src/Agent/Noise.antt =====
-- isRepositioningNoise (internal/agent/idle_detector.go): whether terminal output moves the cursor. Bytes
-- are numbers: 27 is ESC, 91 is "[". The loop keeps data[idx:] in place of idx; its fuel is the length.
pub mod Sequences
use claude_plane.Base.{
  ℕ, zero, suc, Bool, true, false, ◌&&◌, ◌||◌, Option, none, some, List, [], ◌∷◌, ◌==◌, leb, length,
  if◌then◌else◌,
}

-- bytes.Contains for two bytes
unfoldable pub contains_pair : ℕ → ℕ → List ℕ → Bool
contains_pair a b [] = false
contains_pair a b (x ∷ []) = false
contains_pair a b (x ∷ (y ∷ rest)) = (x == a && y == b) || contains_pair a b (y ∷ rest)

-- What follows the first csiPrefix; none if bytes.Index is negative.
unfoldable pub after_csi : List ℕ → Option (List ℕ)
after_csi [] = none
after_csi (x ∷ []) = none
after_csi (x ∷ (y ∷ rest)) =
    let later = after_csi (y ∷ rest) in if x == 27 && y == 91 then some rest else later

-- Digits and semicolons
unfoldable pub is_parameter : ℕ → Bool
is_parameter b = (leb 48 b && leb b 57) || b == 59

unfoldable pub skip_parameters : List ℕ → List ℕ
unfolding is_parameter
skip_parameters [] = []
skip_parameters (b ∷ rest) =
    let skipped = skip_parameters rest in if is_parameter b then skipped else b ∷ rest

-- The cases of the switch: A, B, C, D, H, f, J, K
unfoldable pub is_movement : ℕ → Bool
is_movement b =
    b == 65
    || (b == 66 || (b == 67 || (b == 68 || (b == 72 || (b == 102 || (b == 74 || b == 75))))))

-- The command byte of a sequence, if there is one, is a movement.
unfoldable pub moves_cursor : List ℕ → Bool
unfolding is_movement
moves_cursor [] = false
moves_cursor (cmd ∷ rest) = is_movement cmd

unfoldable pub csi_loop : ℕ → List ℕ → Bool
unfolding after_csi skip_parameters moves_cursor
csi_loop zero left = false
csi_loop (suc fuel) left = elim (after_csi left) [
  | none ↦ false
  | some sequence ↦
      let later = csi_loop fuel sequence in
      if moves_cursor (skip_parameters sequence) then true else later
]

unfoldable pub is_repositioning_noise : List ℕ → Bool
unfolding contains_pair csi_loop
is_repositioning_noise bytes =
    if contains_pair 27 55 bytes || contains_pair 27 56 bytes
    then true
    else csi_loop (length bytes) bytes
