-- ===== src/Webhooks/Schedule.antt =====
-- The polls of the retry loop, for one delivery, and their times (internal/server/event/webhook_delivery.go).
use claude_plane.Base.{
  ℕ, suc, ◌+◌, ◌≤◌, ◌≡◌, inl, inr, String, true, false, List, [], ◌∷◌, some, none, Option, lookup,
  leb, arith, Bool-cases, if◌then◌else◌, ◌&&◌, ◌==◌, if_rule, ltb,
}
use claude_plane.Webhooks.{
  WebhookDelivery, Deliverer, RetryAnswers, retry_delivery, deliver, is_due, retry_backoff,
  record_failure, backoff_base, next_retry_time, Clock, Attempt, broke, answered,
}

-- A poll: the time of PendingDeliveries, and the answers for the row.
pub record Poll : Type 0 where
  pub listed_at : ℕ
  pub answers : RetryAnswers

-- retryPending, for one row: it is served if it is listed.
unfoldable pub poll : String → Poll → Deliverer → Deliverer
unfolding retry_delivery is_due
poll k p s = elim (lookup k s.rows) [
  | none ↦ s
  | some d ↦ if is_due p.listed_at d then retry_delivery p.answers d s else s
]

unfoldable pub polls : String → List Poll → Deliverer → Deliverer
unfolding poll
polls k [] s = s
polls k (p ∷ rest) s = polls k rest (poll k p s)

-- A poll that finds the webhook and the event, and whose update succeeds.
abbrev pub Serves : Poll → Type 0
Serves p =
    (p.answers.webhook_listed ≡ true)
    × (p.answers.event_found ≡ true)
    × (p.answers.update_fails ≡ false)

-- The polls of one loop: each one lists its rows when the one before is over.
abbrev pub InOrder : ℕ → List Poll → Type 0
InOrder last [] = Unit {0}
InOrder last (p ∷ rest) =
    (last ≤ p.listed_at) × (p.listed_at ≤ p.answers.clock.now) × InOrder p.answers.clock.now rest

-- The polls that come 45 seconds after the one that is counted before, beginning at a time.
abbrev pub spaced : ℕ → List Poll → ℕ
spaced from [] = 0
spaced from (p ∷ rest) =
    if leb (from + 45000000000) p.listed_at
    then suc (spaced p.answers.clock.now rest)
    else spaced from rest

-- The next retry is at most 45 seconds after a time.
abbrev pub DueWithin : ℕ → Option ℕ → Type 0
DueWithin last none = Unit {0}
DueWithin last (some t) = t ≤ last + 45000000000

pub retry_backoff_bounded : (random attempt : ℕ) → retry_backoff random attempt ≤ 45000000000
unfolding retry_backoff backoff_base
retry_backoff_bounded random attempt = elim (Bool-cases (attempt == 1)) [
  | inl e ↦ rw (retry_backoff, backoff_base, e) (omega arith)
  | inr e ↦ elim (Bool-cases (attempt == 2)) [
    | inl f ↦ rw (retry_backoff, backoff_base, e, f) (omega arith)
    | inr f ↦ rw (retry_backoff, backoff_base, e, f) (omega arith)
  ]
]

pub deliver-DueWithin :
    (c : Clock) (a : Attempt) (d : WebhookDelivery)
    → DueWithin c.now (deliver c a d).1.next_retry_at
unfolding deliver record_failure next_retry_time
deliver-DueWithin c (broke posted message) d =
    if_rule (DueWithin c.now) (leb 3 (suc d.attempts)) _ _ (λ e. tt)
      (λ e. omega (arith, retry_backoff_bounded c.random (suc d.attempts)))
deliver-DueWithin c (answered code message) d =
    if_rule (DueWithin c.now) (leb 200 code && ltb code 300) _ _ (λ e. tt)
      (λ e. omega (arith, retry_backoff_bounded c.random (suc d.attempts)))

pub DueWithin-later : (last m : ℕ) (t : Option ℕ) → last ≤ m → DueWithin last t → DueWithin m t
DueWithin-later last m none h d = tt
DueWithin-later last m (some t) h d = omega (arith, h, d)

pub InOrder-sooner : (last m : ℕ) (xs : List Poll) → last ≤ m → InOrder m xs → InOrder last xs
InOrder-sooner last m [] h o = tt
InOrder-sooner last m (p ∷ xs) h (a, b, c) = (omega (arith, h, a), b, c)
