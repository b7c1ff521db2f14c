-- ===== src/Agent/Idle/Made.antt =====
-- The calls that one step of the detector decides on (internal/agent/idle_detector.go).
use claude_plane.Base.{
  ◌&&◌, ℕ, ◌≡◌, refl, true, List, [], ◌∷◌, ◌++◌, arith, Bool-cases, if_rule, inl, ltb, inr, length,
  any, sym, ◌∙◌, ◌==◌, ◌||◌, filter, not, ◌≤◌, append_nil,
}
use claude_plane.Agent.Idle.{
  after_func, take_activity, expire, Timer, IdleDetector, feed, expire, run_function, take_activity,
  after_func, fire, make_call, Note, went_active, went_idle,
}
use claude_plane.Agent.Noise.{is_repositioning_noise}

-- Every call that was decided on is made.
abbrev pub AllMade : IdleDetector → Type 0
AllMade d = (d.to_call ≡ []) × (d.calls ≡ d.notes)

-- The call that one step decides on is made next.
pub one-AllMade :
    (d e : IdleDetector) (xs : List Note)
    → AllMade d
    → length xs ≤ 1
    → e.calls ≡ d.calls
    → e.to_call ≡ d.to_call ++ xs
    → e.notes ≡ d.notes ++ xs
    → AllMade (make_call 0 e)
unfolding make_call
one-AllMade d e [] (t, c) few k h n =
    let none_left : e.to_call ≡ [] = ground (arith, t, h) in
    ground (arith, c, k, n, none_left, append_nil e.calls, append_nil d.notes)
one-AllMade d e (x ∷ []) (t, c) few k h n =
    let one_left : e.to_call ≡ x ∷ [] = ground (arith, t, h) in ground (arith, c, k, n, one_left)
one-AllMade d e (x ∷ (y ∷ xs)) m few k h n = absurd (ground (arith, few))

-- What one step decides on.
abbrev pub OneMore : IdleDetector → IdleDetector → Type 0
OneMore d e =
    (xs : List Note) × ((length xs ≤ 1)
      × (e.calls ≡ d.calls)
      × (e.to_call ≡ d.to_call ++ xs)
      × (e.notes ≡ d.notes ++ xs))

pub no_more :
    (d e : IdleDetector)
    → e.calls ≡ d.calls
    → e.to_call ≡ d.to_call
    → e.notes ≡ d.notes
    → OneMore d e
no_more d e k h n =
    ([], (ground arith, k, h ∙ sym (append_nil d.to_call), n ∙ sym (append_nil d.notes)))

pub feed-OneMore : (bytes : List ℕ) (d : IdleDetector) → OneMore d (feed bytes d)
unfolding feed take_activity after_func
feed-OneMore bytes d =
    let same = no_more d d refl refl refl in
    if_rule (OneMore d) d.stopped _ _ (λ e. same)
      (λ e.
        if_rule (OneMore d) (ltb (length bytes) d.min_activity_bytes) _ _ (λ k. same)
          (λ k.
            if_rule (OneMore d) (is_repositioning_noise bytes) _ _
              (λ n. no_more d (record d { noise_logged = true }) refl refl refl)
              (λ n. elim (Bool-cases (d.is_idle && d.has_on_active)) [
                | inl b ↦
                    (went_active ∷ [], (ground arith, refl, ground (arith, b), ground (arith, b)))
                | inr b ↦ no_more d (take_activity d) refl (ground (arith, b)) (ground (arith, b))
              ])))

pub fire-OneMore : (t : Timer) (d : IdleDetector) → OneMore d (fire t d)
unfolding fire
fire-OneMore t d =
    if_rule (OneMore d) (d.stopped || (t.is_startup && d.output_seen)) _ _
      (λ e. no_more d d refl refl refl) (λ e. (went_idle ∷ [], (ground arith, refl, refl, refl)))

pub run_function-OneMore :
    (t : Timer) (d : IdleDetector) → OneMore d (run_function t (expire t.number d))
unfolding run_function expire
run_function-OneMore t d =
    if_rule (OneMore d) (any (λ u. u.number == t.number) (expire t.number d).waiting) _ _
      (λ e. fire-OneMore t (record d {
        armed = filter (λ u. not (u.number == t.number)) d.armed;
        waiting =
            filter (λ u. not (u.number == t.number))
              (filter (λ u. u.number == t.number) d.armed ++ d.waiting);
      }))
      (λ e. no_more d d refl refl refl)

pub made_next : (d e : IdleDetector) → AllMade d → OneMore d e → AllMade (make_call 0 e)
made_next d e m (xs, (few, k, h, n)) = one-AllMade d e xs m few k h n
