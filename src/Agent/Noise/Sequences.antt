-- ===== src/Agent/Noise/Sequences.antt =====
-- The outputs that count as cursor movements (internal/agent/idle_detector.go).
use claude_plane.Base.{
  ℕ, zero, suc, ◌≤◌, ◌<◌, ◌≡◌, ◌↔◌, ◌⊎◌, inl, inr, refl, Bool, true, false, ◌&&◌, ◌||◌, List, [],
  ◌∷◌, ◌++◌, ◌==◌, arith, length, Option-cases, Bool-cases, some, none, ap, All, sym,
}
use claude_plane.Agent.Noise.{
  contains_pair, after_csi, is_parameter, skip_parameters, is_movement, moves_cursor, csi_loop,
  is_repositioning_noise,
}

-- A sequence at the start of a text: save the cursor, restore it, or a movement with its parameters.
pub data Sequence : List ℕ → Type 0 where
  saves : {rest : List ℕ} → Sequence (27 ∷ 55 ∷ rest)
  restores : {rest : List ℕ} → Sequence (27 ∷ 56 ∷ rest)
  moves :
      {sequence : List ℕ} (parameters rest : List ℕ) (command : ℕ)
      → sequence ≡ parameters ++ command ∷ rest
      → All (λ b. is_parameter b ≡ true) parameters
      → is_movement command ≡ true
      → Sequence (27 ∷ 91 ∷ sequence)

-- A sequence somewhere in a text.
pub data Draws : List ℕ → Type 0 where
  starts : {text : List ℕ} → Sequence text → Draws text
  later : {text : List ℕ} {b : ℕ} → Draws text → Draws (b ∷ text)

-- Where a test for a pair succeeds.
contains_pair-Draws :
    (a b : ℕ) (text : List ℕ)
    → ((rest : List ℕ) → Sequence (a ∷ b ∷ rest))
    → contains_pair a b text ≡ true
    → Draws text
unfolding contains_pair
contains_pair-Draws a b [] s h = absurd (ground (arith, h))
contains_pair-Draws a b (x ∷ []) s h = absurd (ground (arith, h))
contains_pair-Draws a b (x ∷ (y ∷ rest)) s h = elim (Bool-cases (x == a && y == b)) [
  | inl e ↦
      let first : x ≡ a = ground (arith, e) in
      let second : y ≡ b = ground (arith, e) in rw (first, second) (starts (s rest))
  | inr e ↦ later (contains_pair-Draws a b (y ∷ rest) s (ground (arith, e, h)))
]

moves_cursor-parameters :
    (sequence : List ℕ)
    → moves_cursor (skip_parameters sequence) ≡ true
    → (parameters rest : List ℕ) × (command : ℕ) × (sequence ≡ parameters ++ command ∷ rest)
      × All (λ b. is_parameter b ≡ true) parameters
      × (is_movement command ≡ true)
unfolding moves_cursor skip_parameters
moves_cursor-parameters [] h = absurd (ground (arith, h))
moves_cursor-parameters (b ∷ rest) h = elim (Bool-cases (is_parameter b)) [
  | inl e ↦
      let (parameters, after, command, same, params, m) =
        moves_cursor-parameters rest (ground (arith, e, h)) in
      (b ∷ parameters, after, command, ap (b ∷◌) same, (e, params), m)
  | inr e ↦ ([], rest, b, refl, tt, ground (arith, e, h))
]

is_movement-parameter : (b : ℕ) → is_movement b ≡ true → is_parameter b ≡ false
unfolding is_movement is_parameter
is_movement-parameter b h = ground (arith, h)

skip_parameters-append :
    (parameters rest : List ℕ) (command : ℕ)
    → All (λ b. is_parameter b ≡ true) parameters
    → is_movement command ≡ true
    → skip_parameters (parameters ++ command ∷ rest) ≡ command ∷ rest
unfolding skip_parameters
skip_parameters-append [] rest command h m = ground (arith, is_movement-parameter command m)
skip_parameters-append (b ∷ parameters) rest command h m =
    ground (arith, h.0, skip_parameters-append parameters rest command h.1 m)

-- A movement somewhere in a text, byte by byte.
moved : List ℕ → Bool
moved [] = false
moved (x ∷ []) = false
moved (x ∷ (y ∷ rest)) =
    (x == 27 && (y == 91 && moves_cursor (skip_parameters rest))) || moved (y ∷ rest)

moved-after_csi-none : (text : List ℕ) → after_csi text ≡ none → moved text ≡ false
unfolding moved after_csi
moved-after_csi-none [] h = refl
moved-after_csi-none (x ∷ []) h = refl
moved-after_csi-none (x ∷ (y ∷ rest)) h = ground (arith, h, moved-after_csi-none (y ∷ rest))

moved-open : (rest : List ℕ) → moved (91 ∷ rest) ≡ moved rest
unfolding moved
moved-open [] = refl
moved-open (x ∷ rest) = ground arith

moved-after_csi :
    (text sequence : List ℕ)
    → after_csi text ≡ some sequence
    → moved text ≡ (moves_cursor (skip_parameters sequence) || moved sequence)
unfolding moved after_csi
moved-after_csi [] sequence h = absurd (ground (arith, h))
moved-after_csi (x ∷ []) sequence h = absurd (ground (arith, h))
moved-after_csi (x ∷ (y ∷ rest)) sequence h = elim (Bool-cases (x == 27 && y == 91)) [
  | inl e ↦
      let chosen : some rest ≡ some sequence = ground (arith, e, h) in
      let same : rest ≡ sequence = cc in
      let opened : y ≡ 91 = ground (arith, e) in
      rw (sym same) (ground (arith, e, ap (λ b. moved (b ∷ rest)) opened, moved-open rest))
  | inr e ↦ ground (arith, e, moved-after_csi (y ∷ rest) sequence (ground (arith, e, h)))
]

after_csi-length :
    (text sequence : List ℕ) → after_csi text ≡ some sequence → length sequence < length text
unfolding after_csi
after_csi-length [] sequence h = absurd (ground (arith, h))
after_csi-length (x ∷ []) sequence h = absurd (ground (arith, h))
after_csi-length (x ∷ (y ∷ rest)) sequence h = elim (Bool-cases (x == 27 && y == 91)) [
  | inl e ↦
      let same : some rest ≡ some sequence = ground (arith, e, h) in
      let eq : rest ≡ sequence = cc in rw eq (omega arith)
  | inr e ↦ omega (arith, after_csi-length (y ∷ rest) sequence (ground (arith, e, h)))
]

csi_loop-moved : (fuel : ℕ) (text : List ℕ) → length text ≤ fuel → csi_loop fuel text ≡ moved text
unfolding csi_loop moved
csi_loop-moved zero [] h = refl
csi_loop-moved zero (x ∷ text) h = absurd (omega (arith, h))
csi_loop-moved (suc fuel) text h = elim (Option-cases (after_csi text)) [
  | inl e ↦ rw (csi_loop, e) (sym (moved-after_csi-none text e))
  | inr (sequence, e) ↦
      let ih = csi_loop-moved fuel sequence (omega (arith, h, after_csi-length text sequence e)) in
      rw (csi_loop, e) (ground (arith, ih, moved-after_csi text sequence e))
]

moved-Draws : (text : List ℕ) → moved text ≡ true → Draws text
unfolding moved
moved-Draws [] h = absurd (ground (arith, h))
moved-Draws (x ∷ []) h = absurd (ground (arith, h))
moved-Draws (x ∷ (y ∷ rest)) h =
    elim (Bool-cases (x == 27 && (y == 91 && moves_cursor (skip_parameters rest)))) [
      | inl e ↦
          let (parameters, after, command, same, params, m) =
            moves_cursor-parameters rest (ground (arith, e)) in
          let escape : x ≡ 27 = ground (arith, e) in
          let bracket : y ≡ 91 = ground (arith, e) in
          rw (escape, bracket) (starts (moves parameters after command same params m))
      | inr e ↦ later (moved-Draws (y ∷ rest) (ground (arith, e, h)))
    ]

-- Which of the three tests succeeds.
abbrev Found : List ℕ → Type 0
Found text =
    (contains_pair 27 55 text ≡ true) ⊎ ((contains_pair 27 56 text ≡ true) ⊎ (moved text ≡ true))

Found-later : (b : ℕ) (text : List ℕ) → Found text → Found (b ∷ text)
unfolding contains_pair moved
Found-later b [] found = ground (arith, found)
Found-later b (x ∷ text) (inl e) = inl (ground (arith, e))
Found-later b (x ∷ text) (inr (inl e)) = inr (inl (ground (arith, e)))
Found-later b (x ∷ text) (inr (inr e)) = inr (inr (ground (arith, e)))

Draws-Found : {text : List ℕ} → Draws text → Found text
unfolding contains_pair moved moves_cursor
Draws-Found (starts saves) = inl (ground arith)
Draws-Found (starts restores) = inr (inl (ground arith))
Draws-Found (starts (moves parameters rest command same params m)) =
    inr (inr (ground (arith, same, skip_parameters-append parameters rest command params m, m)))
Draws-Found (later {text} {b} d) = Found-later b text (Draws-Found d)

-- isRepositioningNoise is true exactly for the outputs that have, somewhere, a sequence that saves or
-- restores the cursor, or ESC [ with digits and semicolons and then one of A B C D H f J K.
pub is_repositioning_noise_iff : (text : List ℕ) → (is_repositioning_noise text ≡ true) ↔ Draws text
unfolding is_repositioning_noise
is_repositioning_noise_iff text = (
  λ h. elim (Bool-cases (contains_pair 27 55 text)) [
    | inl e ↦ contains_pair-Draws 27 55 text (λ rest. saves) e
    | inr e ↦ elim (Bool-cases (contains_pair 27 56 text)) [
      | inl k ↦ contains_pair-Draws 27 56 text (λ rest. restores) k
      | inr k ↦
          moved-Draws text
            (ground (arith, h, e, k, csi_loop-moved (length text) text (omega arith)))
    ]
  ],
  λ d. elim (Draws-Found d) [
    | inl e ↦ ground (arith, e)
    | inr (inl e) ↦ ground (arith, e)
    | inr (inr e) ↦ ground (arith, e, csi_loop-moved (length text) text (omega arith))
  ],
)
