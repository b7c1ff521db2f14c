-- ===== src/Agent/Idle/Prompt.antt =====
-- The detector when the function of a timer gets the mutex as soon as the timer expires, and a call that is
-- decided on is made before anything else happens (internal/agent/idle_detector.go).
use claude_plane.Base.{
  ◌&&◌, ℕ, ◌≡◌, refl, true, false, List, [], ◌∷◌, ◌++◌, arith, some, Option, Option-cases,
  Bool-cases, if_rule, inl, ltb, inr, length, any, sym, ◌∙◌, ◌==◌, ◌||◌, filter, not, ap,
}
use claude_plane.Agent.Idle.{
  without_timer, after_func, take_activity, expire, Timer, IdleDetector, feed, expire, run_function,
  stop_detector, start_detector, new_idle_detector, take_activity, after_func, fire, make_call,
}
use claude_plane.Agent.Noise.{is_repositioning_noise}
use claude_plane.Agent.Idle.Notes.{play, play-idle, play-active}
use claude_plane.Agent.Idle.Made.{AllMade, feed-OneMore, run_function-OneMore, made_next}

-- A detector with both callbacks, from its Start on.
pub data Watched : IdleDetector → Type 0 where
  begun : (min_bytes : Option ℕ) → Watched (start_detector (new_idle_detector true min_bytes))
  fed : {d : IdleDetector} → Watched d → (bytes : List ℕ) → Watched (make_call 0 (feed bytes d))
  lapsed :
      {d : IdleDetector}
      → Watched d
      → (t : Timer) (before after : List Timer) → d.armed ≡ before ++ t ∷ after
      → Watched (make_call 0 (run_function t (expire t.number d)))
  halted : {d : IdleDetector} → Watched d → Watched (stop_detector d)

-- The timers: none is running, or Start's before any output, or Feed's.
data Timers (d : IdleDetector) : Type 0 where
  none_armed : d.armed ≡ [] → Timers d
  startup_armed :
      (n : ℕ)
      → d.armed ≡ record { number = n; is_startup = true } ∷ []
      → d.startup_timer ≡ some n
      → d.output_seen ≡ false
      → d.is_idle ≡ false
      → Timers d
  silence_armed :
      (n : ℕ)
      → d.armed ≡ record { number = n; is_startup = false } ∷ []
      → d.timer ≡ some n
      → d.output_seen ≡ true
      → d.is_idle ≡ false
      → Timers d

record Prompt (d : IdleDetector) : Type 0 where
  timers : Timers d
  nothing_waits : d.waiting ≡ []
  both : d.has_on_active ≡ true
  alternates : play false d.notes ≡ some d.is_idle

-- Feed's activity leaves one timer running, its own.
take_activity-armed :
    (d : IdleDetector)
    → Timers d
    → (take_activity d).armed ≡ record { number = d.next_number; is_startup = false } ∷ []
unfolding take_activity after_func without_timer
take_activity-armed d (none_armed e) = elim (Option-cases d.timer) [
  | inl b ↦ elim (Option-cases d.startup_timer) [
    | inl a ↦ ground (arith, e, a, b)
    | inr (m, a) ↦ ground (arith, e, a, b)
  ]
  | inr (n, b) ↦ elim (Option-cases d.startup_timer) [
    | inl a ↦ ground (arith, e, a, b)
    | inr (m, a) ↦ ground (arith, e, a, b)
  ]
]
take_activity-armed d (startup_armed n e a s i) = elim (Option-cases d.timer) [
  | inl b ↦ ground (arith, e, a, b, s)
  | inr (m, b) ↦ ground (arith, e, a, b, s)
]
take_activity-armed d (silence_armed n e a s i) = ground (arith, e, a, s)

take_activity-Prompt : (d : IdleDetector) → Prompt d → Prompt (take_activity d)
unfolding take_activity after_func
take_activity-Prompt d p = record {
  timers = silence_armed d.next_number (take_activity-armed d p.timers) refl refl refl;
  nothing_waits = p.nothing_waits;
  both = p.both;
  alternates = elim (Bool-cases d.is_idle) [
    | inl e ↦ ground (arith, e, p.both, p.alternates, play-active false d.notes)
    | inr e ↦ ground (arith, e, p.alternates)
  ];
}

feed-Prompt : (bytes : List ℕ) (d : IdleDetector) → Prompt d → Prompt (feed bytes d)
unfolding feed
feed-Prompt bytes d p =
    if_rule Prompt d.stopped _ _ (λ e. p)
      (λ e.
        if_rule Prompt (ltb (length bytes) d.min_activity_bytes) _ _ (λ k. p)
          (λ k.
            if_rule Prompt (is_repositioning_noise bytes) _ _
              (λ n. record {
                timers = elim p.timers [
                  | none_armed e ↦ none_armed e
                  | startup_armed n e a s i ↦ startup_armed n e a s i
                  | silence_armed n e a s i ↦ silence_armed n e a s i
                ];
                nothing_waits = p.nothing_waits;
                both = p.both;
                alternates = p.alternates;
              })
              (λ n. take_activity-Prompt d p)))

stop_detector-armed : (d : IdleDetector) → Timers d → (stop_detector d).armed ≡ []
unfolding stop_detector without_timer
stop_detector-armed d (none_armed e) = elim (Option-cases d.timer) [
  | inl b ↦ elim (Option-cases d.startup_timer) [
    | inl a ↦ ground (arith, e, a, b)
    | inr (m, a) ↦ ground (arith, e, a, b)
  ]
  | inr (n, b) ↦ elim (Option-cases d.startup_timer) [
    | inl a ↦ ground (arith, e, a, b)
    | inr (m, a) ↦ ground (arith, e, a, b)
  ]
]
stop_detector-armed d (startup_armed n e a s i) = elim (Option-cases d.timer) [
  | inl b ↦ ground (arith, e, a, b)
  | inr (m, b) ↦ ground (arith, e, a, b)
]
stop_detector-armed d (silence_armed n e a s i) = elim (Option-cases d.startup_timer) [
  | inl b ↦ ground (arith, e, a, b)
  | inr (m, b) ↦ ground (arith, e, a, b)
]

halted-Prompt : (d : IdleDetector) → Prompt d → Prompt (stop_detector d)
unfolding stop_detector
halted-Prompt d p = record {
  timers = none_armed (stop_detector-armed d p.timers);
  nothing_waits = p.nothing_waits;
  both = p.both;
  alternates = p.alternates;
}

first_Timers :
    (d : IdleDetector) (t : Timer) (before after : List Timer)
    → d.armed ≡ before ++ t ∷ after
    → d.armed ≡ []
    → ⊥
first_Timers d t [] after h e = ground (arith, h, e)
first_Timers d t (u ∷ before) after h e = ground (arith, h, e)

only_timer : (u t : Timer) (before after : List Timer) → u ∷ [] ≡ before ++ t ∷ after → t ≡ u
only_timer u t [] after h = ground (arith, h)
only_timer u t (v ∷ []) after h = absurd (ground (arith, h))
only_timer u t (v ∷ (w ∷ before)) after h = absurd (ground (arith, h))

-- Running the function of the only timer.
fire-Prompt :
    (d e : IdleDetector) (t : Timer)
    → Prompt d
    → e.armed ≡ []
    → e.waiting ≡ []
    → e.has_on_active ≡ d.has_on_active
    → e.notes ≡ d.notes
    → e.is_idle ≡ d.is_idle
    → d.is_idle ≡ false
    → Prompt (fire t e)
unfolding fire
fire-Prompt d e t p a w b n i idle =
    if_rule Prompt (e.stopped || (t.is_startup && e.output_seen)) _ _
      (λ k. record {
        timers = none_armed a;
        nothing_waits = w;
        both = b ∙ p.both;
        alternates = ground (arith, n, i, p.alternates);
      })
      (λ k. record {
        timers = none_armed a;
        nothing_waits = w;
        both = b ∙ p.both;
        alternates = ground (arith, n, i, idle, p.alternates, play-idle false d.notes);
      })

lapsed-Prompt :
    (d : IdleDetector) (t : Timer)
    → Prompt d
    → d.armed ≡ t ∷ []
    → d.is_idle ≡ false
    → Prompt (run_function t (expire t.number d))
unfolding run_function expire
lapsed-Prompt d t p h idle =
    if_rule Prompt (any (λ u. u.number == t.number) (expire t.number d).waiting) _ _
      (λ e.
        fire-Prompt d
          (record d {
            armed = filter (λ u. not (u.number == t.number)) d.armed;
            waiting =
                filter (λ u. not (u.number == t.number))
                  (filter (λ u. u.number == t.number) d.armed ++ d.waiting);
          })
          t p (ground (arith, h)) (ground (arith, h, p.nothing_waits)) refl refl refl idle)
      (λ e. absurd (ground (arith, h, e)))

make_call-Timers : (n : ℕ) (d : IdleDetector) → Timers d → Timers (make_call n d)
unfolding make_call
make_call-Timers n d (none_armed e) = none_armed e
make_call-Timers n d (startup_armed m e a s i) = startup_armed m e a s i
make_call-Timers n d (silence_armed m e a s i) = silence_armed m e a s i

make_call-Prompt : (n : ℕ) (d : IdleDetector) → Prompt d → Prompt (make_call n d)
unfolding make_call
make_call-Prompt n d p = record {
  timers = make_call-Timers n d p.timers;
  nothing_waits = p.nothing_waits;
  both = p.both;
  alternates = p.alternates;
}

Watched-AllMade : {d : IdleDetector} → Watched d → AllMade d
unfolding start_detector new_idle_detector after_func stop_detector
Watched-AllMade (begun min_bytes) = (refl, refl)
Watched-AllMade (fed {d} w bytes) =
    made_next d (feed bytes d) (Watched-AllMade w) (feed-OneMore bytes d)
Watched-AllMade (lapsed {d} w t before after h) =
    made_next d (run_function t (expire t.number d)) (Watched-AllMade w) (run_function-OneMore t d)
Watched-AllMade (halted {d} w) = Watched-AllMade w

Watched-Prompt : {d : IdleDetector} → Watched d → Prompt d
unfolding start_detector new_idle_detector after_func
Watched-Prompt (begun min_bytes) = record {
  timers = startup_armed 0 refl refl refl refl;
  nothing_waits = refl;
  both = refl;
  alternates = refl;
}
Watched-Prompt (fed {d} w bytes) =
    make_call-Prompt 0 (feed bytes d) (feed-Prompt bytes d (Watched-Prompt w))
Watched-Prompt (lapsed {d} w t before after h) =
    let p = Watched-Prompt w in
    elim p.timers [
      | none_armed e ↦ absurd (first_Timers d t before after h e)
      | startup_armed n e a s i ↦
          let same =
            only_timer (record { number = n; is_startup = true }) t before after (sym e ∙ h) in
          make_call-Prompt 0 (run_function t (expire t.number d))
            (lapsed-Prompt d t p (rw same e) i)
      | silence_armed n e a s i ↦
          let same =
            only_timer (record { number = n; is_startup = false }) t before after (sym e ∙ h) in
          make_call-Prompt 0 (run_function t (expire t.number d))
            (lapsed-Prompt d t p (rw same e) i)
    ]
Watched-Prompt (halted {d} w) = halted-Prompt d (Watched-Prompt w)

-- Suppose that after Start of a new detector with both callbacks, the function of a timer gets the mutex as
-- soon as the timer expires, and a call of onIdle or onActive that Feed or a timer's function decides on
-- under the mutex is made, after the mutex is released, before the next Feed, expiry or Stop. Then the
-- calls made alternate, beginning with onIdle, the last one tells the detector's state, no call is left
-- to be made, and while the session is idle no timer is running.
pub notes_alternate :
    {d : IdleDetector}
    → Watched d
    → (play false d.calls ≡ some d.is_idle) × (d.to_call ≡ []) × (d.is_idle ≡ true → d.armed ≡ [])
notes_alternate {d} w =
    let p = Watched-Prompt w in
    let m = Watched-AllMade w in
    (
      ap (play false) m.1 ∙ p.alternates,
      m.0,
      λ h. elim p.timers [
        | none_armed e ↦ e
        | startup_armed n e a s i ↦ absurd (ground (arith, h, i))
        | silence_armed n e a s i ↦ absurd (ground (arith, h, i))
      ],
    )
