-- ===== src/Gates/RateLimit.antt =====
-- The notification rate limiter (internal/server/notify/ratelimit.go). A time is a number; the text
-- channelID + ":" + eventType is one argument, `key`.
use claude_plane.Base.{
  ℕ, ◌+◌, String, Bool, true, false, some, none, List, [], ◌∷◌, Map, lookup, insert, if◌then◌else◌,
  ltb, leb, arith, eq_iff, lookup-insert, lookup-insert_self, ◌≡◌, ◌≤◌, ◌⊎◌, inl, inr, Bool-cases,
  length, ◌∙◌, Option-cases, refl, text_cases,
}

pub record RateLimiter : Type 0 where
  pub sent : Map ℕ
  pub interval : ℕ

unfoldable pub new_rate_limiter : ℕ → RateLimiter
new_rate_limiter interval = record { sent = []; interval = interval }

-- now.Sub(t) >= interval
abbrev pub is_past : ℕ → ℕ → ℕ → Bool
is_past now interval t = leb (t + interval) now

-- Allow's loop over the entries
unfoldable pub evict : ℕ → ℕ → Map ℕ → Map ℕ
evict now interval [] = []
evict now interval ((k, t) ∷ rest) =
    if is_past now interval t then evict now interval rest else (k, t) ∷ evict now interval rest

unfoldable pub clean_up : ℕ → RateLimiter → RateLimiter
unfolding evict
clean_up now rl =
    if ltb 100 (length rl.sent) then record rl { sent = evict now rl.interval rl.sent } else rl

-- Allow, after the clean-up
unfoldable pub check_last : String → ℕ → RateLimiter → Bool × RateLimiter
check_last key now rl =
    let allowed : Bool × RateLimiter = (true, record rl { sent = insert key now rl.sent }) in
    elim (lookup key rl.sent) [
      | none ↦ allowed
      | some last ↦ if is_past now rl.interval last then allowed else (false, rl)
    ]

unfoldable pub allow : String → ℕ → RateLimiter → Bool × RateLimiter
unfolding clean_up check_last
allow key now rl = check_last key now (clean_up now rl)

-- Calls of Allow, each with its key and its time.
unfoldable pub allows : List (String × ℕ) → RateLimiter → RateLimiter
unfolding allow
allows [] rl = rl
allows ((key, now) ∷ calls) rl = allows calls (allow key now rl).1

-- The times of calls do not go back, from one time to another.
abbrev pub Ordered : ℕ → List (String × ℕ) → ℕ → Type 0
Ordered from [] to = from ≤ to
Ordered from ((key, now) ∷ calls) to = (from ≤ now) × Ordered now calls to

-- The entry of the key is no older than t, or t is an interval ago.
abbrev Remembers : String → ℕ → ℕ → RateLimiter → Type 0
Remembers key t clock rl =
    (t + rl.interval ≤ clock) ⊎ ((u : ℕ) × (lookup key rl.sent ≡ some u) × (t ≤ u))

lookup-evict :
    (key : String) (now interval u : ℕ) (m : Map ℕ)
    → lookup key m ≡ some u
    → is_past now interval u ≡ false
    → lookup key (evict now interval m) ≡ some u
unfolding lookup evict
lookup-evict key now interval u [] h k = cc
lookup-evict key now interval u ((i, t) ∷ m) h k =
    ground (arith, lookup-evict key now interval u m, eq_iff i key)

interval-clean_up : (now : ℕ) (rl : RateLimiter) → (clean_up now rl).interval ≡ rl.interval
unfolding clean_up
interval-clean_up now rl = ground arith

interval-check_last :
    (key : String) (now : ℕ) (rl : RateLimiter) → (check_last key now rl).1.interval ≡ rl.interval
unfolding check_last
interval-check_last key now rl = elim (Option-cases (lookup key rl.sent)) [
  | inl e ↦ rw (e, check_last) refl
  | inr (u, e) ↦ rw (e, check_last) (ground arith)
]

interval-allow :
    (key : String) (now : ℕ) (rl : RateLimiter) → (allow key now rl).1.interval ≡ rl.interval
unfolding allow
interval-allow key now rl = interval-check_last key now (clean_up now rl) ∙ interval-clean_up now rl

-- The clean-up forgets only what is an interval old.
clean_up-Remembers :
    (key : String) (t now : ℕ) (rl : RateLimiter)
    → Remembers key t now rl
    → Remembers key t now (clean_up now rl)
unfolding clean_up
clean_up-Remembers key t now rl (inl past) = inl (rw (interval-clean_up now rl) past)
clean_up-Remembers key t now rl (inr (u, here, newer)) =
    elim (Bool-cases (is_past now rl.interval u)) [
      | inl e ↦ inl (rw (interval-clean_up now rl) (ground (arith, e, newer)))
      | inr e ↦
          inr (u, ground (arith, here, lookup-evict key now rl.interval u rl.sent here e), newer)
    ]

sent-check_last :
    (key : String) (now : ℕ) (rl : RateLimiter)
    → ((check_last key now rl).1.sent ≡ insert key now rl.sent)
      ⊎ ((check_last key now rl).1.sent ≡ rl.sent)
unfolding check_last
sent-check_last key now rl = elim (Option-cases (lookup key rl.sent)) [
  | inl e ↦ inl (rw (e, check_last) refl)
  | inr (u, e) ↦ elim (Bool-cases (is_past now rl.interval u)) [
    | inl f ↦ inl (rw (e, check_last, f) refl)
    | inr f ↦ inr (rw (e, check_last, f) refl)
  ]
]

check_last-Remembers :
    (key other : String) (t now : ℕ) (rl : RateLimiter)
    → t ≤ now
    → Remembers key t now rl
    → Remembers key t now (check_last other now rl).1
check_last-Remembers key other t now rl young (inl past) =
    inl (rw (interval-check_last other now rl) past)
check_last-Remembers key other t now rl young (inr (u, here, newer)) =
    elim (sent-check_last other now rl) [
      | inr e ↦ inr (u, rw e here, newer)
      | inl e ↦ elim (text_cases other key) [
        | inl (s, same) ↦
            inr (now, rw e (ground (arith, lookup-insert other key now rl.sent, s)), young)
        | inr (s, differ) ↦
            inr (u, rw e (ground (arith, lookup-insert other key now rl.sent, s, here)), newer)
      ]
    ]

-- Time goes on.
later-Remembers :
    (key : String) (t clock now : ℕ) (rl : RateLimiter)
    → clock ≤ now
    → Remembers key t clock rl
    → Remembers key t now rl
later-Remembers key t clock now rl on (inl past) = inl (omega (arith, past, on))
later-Remembers key t clock now rl on (inr entry) = inr entry

allows-Remembers :
    (key : String) (t clock now : ℕ) (calls : List (String × ℕ)) (rl : RateLimiter)
    → t ≤ clock
    → Ordered clock calls now
    → Remembers key t clock rl
    → Remembers key t now (allows calls rl) × ((allows calls rl).interval ≡ rl.interval)
unfolding allows allow
allows-Remembers key t clock now [] rl young order mem =
    (later-Remembers key t clock now rl order mem, refl)
allows-Remembers key t clock now ((k, time) ∷ calls) rl young order mem =
    let next =
      check_last-Remembers key k t time (clean_up time rl) (omega (arith, young, order.0))
        (clean_up-Remembers key t time rl (later-Remembers key t clock time rl order.0 mem)) in
    let (m, same) =
      allows-Remembers key t time now calls (allow k time rl).1 (omega (arith, young, order.0))
        order.1 next in
    (m, same ∙ interval-allow k time rl)

check_last-spaced :
    (key : String) (t now : ℕ) (rl : RateLimiter)
    → Remembers key t now rl
    → (check_last key now rl).0 ≡ true
    → t + rl.interval ≤ now
unfolding check_last
check_last-spaced key t now rl (inl past) h = past
check_last-spaced key t now rl (inr (u, here, newer)) h = ground (arith, check_last, here, newer, h)

check_last-entry :
    (key : String) (now : ℕ) (rl : RateLimiter)
    → (check_last key now rl).0 ≡ true
    → lookup key (check_last key now rl).1.sent ≡ some now
unfolding check_last
check_last-entry key now rl h = elim (Option-cases (lookup key rl.sent)) [
  | inl e ↦ rw (e, check_last) (lookup-insert_self key now rl.sent)
  | inr (u, e) ↦ elim (Bool-cases (is_past now rl.interval u)) [
    | inl f ↦ rw (e, check_last, f) (lookup-insert_self key now rl.sent)
    | inr f ↦ ground (arith, check_last, h, e, f)
  ]
]

-- Two notifications with one channel and event type that both get through are at least an interval
-- apart, whatever calls with other keys or the same key come between them, if the clock does not go back.
pub allowed_spaced :
    (key : String) (t now : ℕ) (calls : List (String × ℕ)) (rl : RateLimiter)
    → Ordered t calls now
    → (allow key t rl).0 ≡ true
    → (allow key now (allows calls (allow key t rl).1)).0 ≡ true
    → t + rl.interval ≤ now
unfolding allow
allowed_spaced key t now calls rl order first second =
    let here = check_last-entry key t (clean_up t rl) first in
    let (mem, same) =
      allows-Remembers key t t now calls (allow key t rl).1 (omega arith) order
        (inr (t, here, omega arith)) in
    let spaced =
      check_last-spaced key t now (clean_up now (allows calls (allow key t rl).1))
        (clean_up-Remembers key t now (allows calls (allow key t rl).1) mem) second in
    omega (
      arith,
      spaced,
      same,
      interval-clean_up now (allows calls (allow key t rl).1),
      interval-allow key t rl,
    )
