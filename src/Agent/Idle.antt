-- ===== src/Agent/Idle.antt =====
-- IdleDetector (internal/agent/idle_detector.go). A timer has a number; its function runs in two steps,
-- as in the code: it starts, and from then on Timer.Stop does not prevent it, and later it gets the mutex.
-- `notes` holds the calls of onIdle and onActive in the order in which they are decided on under the mutex.
-- A call is made after the mutex is released: until then it is in `to_call`, and afterwards in `calls`.
pub mod Notes
pub mod Prompt
pub mod Made
pub mod Stale
use claude_plane.Base.{
  ℕ, suc, Bool, true, false, ◌&&◌, ◌||◌, not, Option, none, some, List, [], ◌∷◌, ◌++◌, ◌==◌, ltb,
  length, filter, any, if◌then◌else◌, zero,
}
use claude_plane.Agent.Noise.{is_repositioning_noise}

pub data Note : Type 0 where
  went_idle : Note
  went_active : Note

pub record Timer : Type 0 where
  pub number : ℕ
  pub is_startup : Bool

-- `armed` are the timers that have not expired and are not stopped, `waiting` those whose function waits
-- for the mutex; `timer` and `startup_timer` are the numbers in the fields of that name.
pub record IdleDetector : Type 0 where
  pub min_activity_bytes : ℕ
  pub has_on_active : Bool
  pub timer : Option ℕ
  pub startup_timer : Option ℕ
  pub is_idle : Bool
  pub output_seen : Bool
  pub stopped : Bool
  pub noise_logged : Bool
  pub armed : List Timer
  pub waiting : List Timer
  pub next_number : ℕ
  pub notes : List Note
  pub to_call : List Note
  pub calls : List Note

-- NewIdleDetector with its options; WithMinActivityBytes takes a positive number only.
unfoldable pub new_idle_detector : (has_on_active : Bool) → Option ℕ → IdleDetector
new_idle_detector has_on_active min_bytes = record {
  min_activity_bytes = elim min_bytes [ none ↦ 10 | some n ↦ if n == 0 then 10 else n ];
  has_on_active = has_on_active;
  timer = none;
  startup_timer = none;
  is_idle = false;
  output_seen = false;
  stopped = false;
  noise_logged = false;
  armed = [];
  waiting = [];
  next_number = 0;
  notes = [];
  to_call = [];
  calls = [];
}

-- time.AfterFunc
unfoldable pub after_func : Bool → IdleDetector → IdleDetector
after_func is_startup d = record d {
  armed = record { number = d.next_number; is_startup = is_startup } ∷ d.armed;
  next_number = suc d.next_number;
}

-- Timer.Stop, on a field that may be nil
unfoldable pub without_timer : Option ℕ → List Timer → List Timer
without_timer none armed = armed
without_timer (some n) armed = filter (λ t. not (t.number == n)) armed

unfoldable pub start_detector : IdleDetector → IdleDetector
unfolding after_func
start_detector d = after_func true (record d {
  stopped = false;
  is_idle = false;
  output_seen = false;
  noise_logged = false;
  startup_timer = some d.next_number;
})

unfoldable pub stop_detector : IdleDetector → IdleDetector
unfolding without_timer
stop_detector d = record d {
  stopped = true;
  armed = without_timer d.startup_timer (without_timer d.timer d.armed);
}

-- Feed, from the first meaningful output on: Start's timer is stopped at the first one, Feed's is replaced,
-- and an idle session becomes active.
unfoldable pub take_activity : IdleDetector → IdleDetector
unfolding after_func without_timer
take_activity d = after_func false (record d {
  output_seen = true;
  armed =
      without_timer d.timer
        (if d.output_seen then d.armed else without_timer d.startup_timer d.armed);
  timer = some d.next_number;
  is_idle = false;
  noise_logged = if d.is_idle then false else d.noise_logged;
  notes = if d.is_idle && d.has_on_active then d.notes ++ (went_active ∷ []) else d.notes;
  to_call = if d.is_idle && d.has_on_active then d.to_call ++ (went_active ∷ []) else d.to_call;
})

unfoldable pub feed : List ℕ → IdleDetector → IdleDetector
unfolding is_repositioning_noise take_activity
feed bytes d =
    if d.stopped
    then d
    else if ltb (length bytes) d.min_activity_bytes
    then d
    else if is_repositioning_noise bytes
    then record d { noise_logged = true }
    else take_activity d

-- A timer expires: its function starts, and waits for the mutex.
unfoldable pub expire : ℕ → IdleDetector → IdleDetector
expire n d = record d {
  armed = filter (λ t. not (t.number == n)) d.armed;
  waiting = filter (λ t. t.number == n) d.armed ++ d.waiting;
}

-- The function of Start's timer, and that of Feed's, once it has the mutex.
unfoldable pub fire : Timer → IdleDetector → IdleDetector
fire t d = if d.stopped || (t.is_startup && d.output_seen) then d else record d {
  is_idle = true;
  noise_logged = if t.is_startup then d.noise_logged else false;
  notes = d.notes ++ went_idle ∷ [];
  to_call = d.to_call ++ went_idle ∷ [];
}

-- A function that waits for the mutex gets it.
unfoldable pub run_function : Timer → IdleDetector → IdleDetector
unfolding fire
run_function t d =
    if any (λ u. u.number == t.number) d.waiting
    then fire t (record d { waiting = filter (λ u. not (u.number == t.number)) d.waiting })
    else d

-- The call at a place of a list, as a list of at most one, and the others.
abbrev pub call_at : ℕ → List Note → List Note
call_at n [] = []
call_at zero (x ∷ xs) = x ∷ []
call_at (suc n) (x ∷ xs) = call_at n xs

abbrev pub without_call : ℕ → List Note → List Note
without_call n [] = []
without_call zero (x ∷ xs) = xs
without_call (suc n) (x ∷ xs) = x ∷ without_call n xs

-- A goroutine that has released the mutex makes the call that it decided on. Which one comes first is up to
-- the scheduler, so that any place of `to_call` is possible.
unfoldable pub make_call : ℕ → IdleDetector → IdleDetector
make_call n d = record d {
  to_call = without_call n d.to_call;
  calls = d.calls ++ call_at n d.to_call;
}
