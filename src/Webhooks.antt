-- ===== src/Webhooks.antt =====
-- WebhookDeliverer (internal/server/event/webhook_delivery.go). A delivery keeps the fields that decide
-- what happens to it; times are in nanoseconds. The clock, the random numbers, and what the store, the
-- encoder and the HTTP client answer, are arguments. The POSTs of one event go to different rows, so that
-- their order does not matter.
pub mod Budget
pub mod Spending
pub mod Polls
pub mod Schedule
pub mod Settled
use claude_plane.Base.{
  ◌==◌, ℕ, suc, String, Bool, true, false, ◌&&◌, not, Option, none, some, List, [], ◌∷◌, ◌++◌, Map,
  filter, ◌+◌, ◌%◌, ◌/◌, lookup, insert, any, leb, ltb, if◌then◌else◌,
}
use claude_plane.Events.{match_pattern}

pub record Webhook : Type 0 where
  pub webhook_id : String
  pub enabled : Bool
  pub events : List String

pub data DeliveryStatus : Type 0 where
  pending success failed : DeliveryStatus

pub record WebhookDelivery : Type 0 where
  pub delivery_id : String
  pub webhook_id : String
  pub event_id : String
  pub status : DeliveryStatus
  pub attempts : ℕ
  pub response_code : ℕ
  pub last_error : String
  pub next_retry_at : Option ℕ

-- What an attempt reads: the time after it, and a random number.
pub record Clock : Type 0 where
  pub now : ℕ
  pub random : ℕ

unfoldable pub backoff_base : ℕ → ℕ
backoff_base attempt =
    if attempt == 1 then 1000000000 else if attempt == 2 then 5000000000 else 30000000000

-- retryBackoff: the base, and up to half of it at random
unfoldable pub retry_backoff : ℕ → ℕ → ℕ
unfolding backoff_base
retry_backoff random attempt = backoff_base attempt + random % (backoff_base attempt / 2)

unfoldable pub next_retry_time : Clock → ℕ → ℕ
unfolding retry_backoff
next_retry_time c attempt = c.now + retry_backoff c.random attempt

-- How an attempt goes: an error before there is a response, with its text, or the response's code, with
-- the text that a code outside 200 to 299 is recorded as.
pub data Attempt : Type 0 where
  broke : (posted : Bool) → String → Attempt
  answered : ℕ → String → Attempt

-- recordFailure, up to the update of the row
unfoldable pub record_failure : Clock → ℕ → String → WebhookDelivery → WebhookDelivery
unfolding next_retry_time
record_failure c code message d =
    let gave_up = leb 3 d.attempts in
    record d {
      response_code = code;
      last_error = message;
      status = if gave_up then failed else pending;
      next_retry_at = if gave_up then none else some (next_retry_time c d.attempts);
    }

-- deliver, up to the update of the row; the result tells also whether a request was sent.
unfoldable pub deliver : Clock → Attempt → WebhookDelivery → Bool × WebhookDelivery
unfolding record_failure next_retry_time
deliver c (broke posted message) d =
    (posted, record_failure c 0 message (record d { attempts = suc d.attempts }))
deliver c (answered code message) d =
    let ok = leb 200 code && ltb code 300 in
    (
      true,
      record d {
        attempts = suc d.attempts;
        response_code = code;
        status = if ok then success else pending;
        next_retry_at = if ok then none else some (next_retry_time c (suc d.attempts));
        last_error = if ok then d.last_error else message;
      },
    )

-- The rows, by their identifiers, and the identifiers of the rows for which a request was sent.
pub record Deliverer : Type 0 where
  pub rows : Map WebhookDelivery
  pub posts : List String

-- UpdateDelivery; an error is only logged.
unfoldable pub update_delivery : (fails : Bool) → WebhookDelivery → Deliverer → Deliverer
update_delivery true d s = s
update_delivery false d s = record s { rows = insert d.delivery_id d s.rows }

unfoldable pub send_delivery :
    Clock → Attempt → (fails : Bool) → WebhookDelivery → Deliverer → Deliverer
unfolding deliver update_delivery
send_delivery c a fails d s =
    let (posted, after) = deliver c a d in
    update_delivery fails after
      (record s { posts = if posted then s.posts ++ (d.delivery_id ∷ []) else s.posts })

unfoldable pub webhook_matches_event : (String → List ℕ) → List String → String → Bool
unfolding match_pattern
webhook_matches_event bytes [] event_type = false
webhook_matches_event bytes (p ∷ patterns) event_type =
    let rest = webhook_matches_event bytes patterns event_type in
    if match_pattern (bytes p) (bytes event_type) then true else rest

-- The answers for one webhook: the new identifier, whether CreateDelivery fails, the clock, the attempt, and whether
-- UpdateDelivery fails.
pub record SendAnswers : Type 0 where
  pub new_id : String
  pub create_fails : Bool
  pub clock : Clock
  pub attempt : Attempt
  pub update_fails : Bool

-- Handler, once the webhooks are listed.
unfoldable pub handle_event :
    (bytes : String → List ℕ)
    → (event_type event_id : String) → List (Webhook × SendAnswers)
    → Deliverer
    → Deliverer
unfolding webhook_matches_event send_delivery
handle_event bytes event_type event_id [] s = s
handle_event bytes event_type event_id ((wh, a) ∷ rest) s =
    let d : WebhookDelivery = record {
      delivery_id = a.new_id;
      webhook_id = wh.webhook_id;
      event_id = event_id;
      status = pending;
      attempts = 0;
      response_code = 0;
      last_error = "";
      next_retry_at = none;
    } in
    handle_event bytes event_type event_id rest (
      if not wh.enabled
      then s
      else if not (webhook_matches_event bytes wh.events event_type)
      then s
      else if a.create_fails
      then s
      else send_delivery a.clock a.attempt a.update_fails d
          (record s { rows = insert a.new_id d s.rows }))

-- The answers for one pending row: whether its webhook is listed, whether its event is found, the clock, the attempt,
-- and whether UpdateDelivery fails.
pub record RetryAnswers : Type 0 where
  pub webhook_listed : Bool
  pub event_found : Bool
  pub clock : Clock
  pub attempt : Attempt
  pub update_fails : Bool

abbrev pub is_pending : DeliveryStatus → Bool
is_pending pending = true
is_pending _ = false

-- The rows that PendingDeliveries selects at a time.
unfoldable pub is_due : ℕ → WebhookDelivery → Bool
is_due now d = is_pending d.status && elim d.next_retry_at [ none ↦ true | some t ↦ leb t now ]

-- The body of retryPending's loop, up to the update of the row: none if the row is left as it is, and
-- otherwise whether a request was sent, and the row.
unfoldable pub retry_row : RetryAnswers → WebhookDelivery → Option (Bool × WebhookDelivery)
unfolding deliver
retry_row a d =
    if leb 3 d.attempts
    then some (false, record d { status = failed })
    else if not a.webhook_listed
    then none
    else if not a.event_found
    then none
    else some (deliver a.clock a.attempt d)

unfoldable pub retry_delivery : RetryAnswers → WebhookDelivery → Deliverer → Deliverer
unfolding update_delivery retry_row
retry_delivery a d s = elim (retry_row a d) [
  | none ↦ s
  | some (posted, after) ↦
      update_delivery a.update_fails after
        (record s { posts = if posted then s.posts ++ (d.delivery_id ∷ []) else s.posts })
]

-- The rows of a list that are due.
unfoldable pub pending_deliveries :
    ℕ → List (WebhookDelivery × RetryAnswers) → List (WebhookDelivery × RetryAnswers)
unfolding is_due
pending_deliveries now rows = filter (λ x. is_due now x.0) rows

-- retryPending's loop, over the rows that PendingDeliveries lists.
unfoldable pub retry_pending : List (WebhookDelivery × RetryAnswers) → Deliverer → Deliverer
unfolding retry_delivery
retry_pending [] s = s
retry_pending ((d, a) ∷ rest) s = retry_pending rest (retry_delivery a d s)
