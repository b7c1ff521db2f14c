-- ===== src/Webhooks/Polls.antt =====
-- The requests for one delivery under Handler and retryPending (internal/server/event/webhook_delivery.go).
-- Handler's goroutine works on its own copy of the row, from CreateDelivery on, and retryPending on the
-- copy that PendingDeliveries lists: the steps below are cut where another goroutine can come between.
use claude_plane.Base.{
  ℕ, suc, ◌+◌, Bool, true, false, List, [], ◌∷◌, none, some, if◌then◌else◌, unit_of,
}
use claude_plane.Webhooks.{
  WebhookDelivery, Clock, RetryAnswers, Attempt, retry_row, deliver, is_due,
}

-- Where a goroutine is: it has no copy of the row, it has one, or it has yet to store one.
pub data Phase : Type 0 where
  resting : Phase
  holds : WebhookDelivery → Phase
  writes : WebhookDelivery → Phase

-- One row, the goroutine of Handler and that of the retry loop, the requests sent for the row, and the
-- calls of UpdateDelivery that failed.
pub record Sending : Type 0 where
  pub row : WebhookDelivery
  pub handler : Phase
  pub retry : Phase
  pub posts : ℕ
  pub failed_updates : ℕ

pub data SendAction : Type 0 where
  handler_sends : Clock → Attempt → SendAction
  handler_updates : (fails : Bool) → SendAction
  lists_pending : (now : ℕ) → SendAction
  retries_row : RetryAnswers → SendAction
  retry_updates : (fails : Bool) → SendAction

-- UpdateDelivery of a copy.
unfoldable pub store_row : (fails : Bool) → WebhookDelivery → Sending → Sending
store_row true d s = record s { failed_updates = suc s.failed_updates }
store_row false d s = record s { row = d }

unfoldable pub handler_send : Phase → Clock → Attempt → Sending → Sending
unfolding deliver
handler_send (holds d) c a s =
    let (posted, after) = deliver c a d in
    record s { handler = writes after; posts = s.posts + unit_of posted }
handler_send _ c a s = s

unfoldable pub handler_update : Phase → (fails : Bool) → Sending → Sending
unfolding store_row
handler_update (writes d) fails s = store_row fails d (record s { handler = resting })
handler_update _ fails s = s

-- PendingDeliveries, which runs between two loops over its rows.
unfoldable pub list_row : Phase → ℕ → Sending → Sending
unfolding is_due
list_row resting now s = if is_due now s.row then record s { retry = holds s.row } else s
list_row _ now s = s

unfoldable pub retry_send : Phase → RetryAnswers → Sending → Sending
unfolding retry_row
retry_send (holds d) a s = elim (retry_row a d) [
  | none ↦ record s { retry = resting }
  | some (posted, after) ↦ record s { retry = writes after; posts = s.posts + unit_of posted }
]
retry_send _ a s = s

unfoldable pub retry_update : Phase → (fails : Bool) → Sending → Sending
unfolding store_row
retry_update (writes d) fails s = store_row fails d (record s { retry = resting })
retry_update _ fails s = s

unfoldable pub send_act : SendAction → Sending → Sending
unfolding handler_send handler_update list_row retry_send retry_update
send_act (handler_sends c a) s = handler_send s.handler c a s
send_act (handler_updates fails) s = handler_update s.handler fails s
send_act (lists_pending now) s = list_row s.retry now s
send_act (retries_row a) s = retry_send s.retry a s
send_act (retry_updates fails) s = retry_update s.retry fails s

unfoldable pub send_acts : List SendAction → Sending → Sending
unfolding send_act
send_acts [] s = s
send_acts (a ∷ rest) s = send_acts rest (send_act a s)

-- The state after CreateDelivery of a row.
abbrev pub created : WebhookDelivery → Sending
created d = record { row = d; handler = holds d; retry = resting; posts = 0; failed_updates = 0 }
