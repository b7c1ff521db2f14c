-- ===== src/Agent/Idle/Stale.antt =====
-- The functions of old timers (internal/agent/idle_detector.go).
use claude_plane.Base.{
  ℕ, ◌≤◌, ◌≡◌, refl, true, false, List, [], ◌∷◌, ◌++◌, arith, any, length, ◌==◌, ◌∙◌,
}
use claude_plane.Agent.Noise.{is_repositioning_noise}
use claude_plane.Agent.Idle.{
  went_idle, Timer, IdleDetector, feed, expire, run_function, fire, take_activity, after_func,
  stop_detector,
}

-- What other goroutines do while the detector is not started again.
pub data Action : Type 0 where
  do_feed : List ℕ → Action
  do_expire : ℕ → Action
  do_run : Timer → Action

unfoldable pub act : Action → IdleDetector → IdleDetector
unfolding feed expire run_function
act (do_feed bytes) d = feed bytes d
act (do_expire n) d = expire n d
act (do_run t) d = run_function t d

unfoldable pub acts : List Action → IdleDetector → IdleDetector
unfolding act
acts [] d = d
acts (a ∷ rest) d = acts rest (act a d)

act-stopped :
    (a : Action) (d : IdleDetector)
    → d.stopped ≡ true
    → ((act a d).stopped ≡ true) × ((act a d).notes ≡ d.notes) × ((act a d).is_idle ≡ d.is_idle)
unfolding act feed expire run_function fire
act-stopped (do_feed bytes) d h = ground (arith, h)
act-stopped (do_expire n) d h = (h, refl, refl)
act-stopped (do_run t) d h = ground (arith, h)

acts-stopped :
    (xs : List Action) (d : IdleDetector)
    → d.stopped ≡ true
    → ((acts xs d).notes ≡ d.notes) × ((acts xs d).is_idle ≡ d.is_idle)
unfolding acts
acts-stopped [] d h = (refl, refl)
acts-stopped (a ∷ xs) d h =
    let (s, n, i) = act-stopped a d h in
    let (n', i') = acts-stopped xs (act a d) s in (n' ∙ n, i' ∙ i)

-- After Stop, and until the next Start, no call of onIdle or onActive is decided on and the detector's
-- state does not change, whatever is fed and whichever timers expire or get the mutex.
pub stopped_is_silent :
    (xs : List Action) (d : IdleDetector)
    → ((acts xs (stop_detector d)).notes ≡ d.notes)
      × ((acts xs (stop_detector d)).is_idle ≡ d.is_idle)
unfolding stop_detector
stopped_is_silent xs d = acts-stopped xs (stop_detector d) refl

take_activity-armed :
    (d : IdleDetector) → any (λ u. u.number == d.next_number) (take_activity d).armed ≡ true
unfolding take_activity after_func
take_activity-armed d = ground arith

-- Output that Feed takes as activity makes the detector active and starts a new silence timer. If the
-- function of an older silence timer is already waiting for the mutex, it then reports the session as
-- idle, while the new timer is still running.
pub stale_timer_reports_idle :
    (d : IdleDetector) (t : Timer) (bytes : List ℕ)
    → d.stopped ≡ false
    → t.is_startup ≡ false
    → any (λ u. u.number == t.number) d.waiting ≡ true
    → d.min_activity_bytes ≤ length bytes
    → is_repositioning_noise bytes ≡ false
    → ((feed bytes d).is_idle ≡ false)
      × ((run_function t (feed bytes d)).is_idle ≡ true)
      × ((run_function t (feed bytes d)).notes ≡ (feed bytes d).notes ++ went_idle ∷ [])
      × (any (λ u. u.number == d.next_number) (run_function t (feed bytes d)).armed ≡ true)
unfolding feed run_function fire take_activity after_func
stale_timer_reports_idle d t bytes h k w long plain =
    let fed : feed bytes d ≡ take_activity d = ground (arith, h, long, plain) in
    rw (fed, w, k)
      (refl, ground (arith, h), ground (arith, h), ground (arith, h, take_activity-armed d))
