-- ===== src/Webhooks/Budget.antt =====
-- How the requests for one delivery are counted (internal/server/event/webhook_delivery.go).
use claude_plane.Base.{
  ℕ, suc, ◌+◌, ◌≤◌, ◌≡◌, Bool, true, false, List, [], ◌∷◌, some, arith, unit_of, Option-cases, inl,
  inr,
}
use claude_plane.Webhooks.{WebhookDelivery, RetryAnswers, retry_row}
use claude_plane.Webhooks.Polls.{
  Phase, resting, holds, writes, Sending, SendAction, handler_sends, handler_updates, lists_pending,
  retries_row, retry_updates, store_row, retry_send, retry_update, send_act, send_acts, created,
}
use claude_plane.Webhooks.Spending.{
  left, Handling, spare, Retrying, Budget, deliver_lem, sending, handler_send-Budget,
  handler_update-Budget, list_row-Budget, to_send, one_row, stored_next, to_store, no_row, over,
}

-- The credit without its spare part.
spent : Phase → ℕ → ℕ
spent resting credit = 0
spent _ credit = credit

spent-Handling :
    (p : Phase) (own credit : ℕ) → Handling p own credit → Handling p own (spent p credit)
unfolding spent
spent-Handling p own credit (to_send e zero_ k two) = to_send e zero_ credit two
spent-Handling p own credit (to_store e one k two) = to_store e one credit two
spent-Handling p own credit (over k) = over 0

spent_lem : (p : Phase) (credit : ℕ) → spent p credit + spare p credit ≡ credit
unfolding spent
spent_lem resting credit = omega arith
spent_lem (holds d) credit = omega arith
spent_lem (writes d) credit = omega arith

-- What the body of the loop does to the attempts that are left.
retry_row_lem :
    (a : RetryAnswers) (d : WebhookDelivery) (posted : Bool) (after : WebhookDelivery)
    → retry_row a d ≡ some (posted, after)
    → (unit_of posted + left after ≤ left d) × (left d ≤ suc (left after))
unfolding retry_row
retry_row_lem a d posted after h = ground (arith, h, deliver_lem a.clock a.attempt d)

retry_send-Budget :
    (p r : Phase) (a : RetryAnswers) (d : WebhookDelivery) (n f own credit spend : ℕ)
    → Handling p own credit
    → Retrying d (spare p credit) r spend
    → n + spend + credit + own ≤ 6 + f
    → Budget (retry_send r a (sending d p r n f))
unfolding retry_send
retry_send-Budget p r a d n f own credit spend h (one_row e few) enough =
    elim (Option-cases (retry_row a e)) [
      | inl none_ ↦
          rw (retry_send, none_)
            (record {
              own = own;
              credit = spent p credit;
              spend = left d;
              handling = spent-Handling p own credit h;
              retrying = no_row;
              enough = omega (arith, enough, few, spent_lem p credit);
            })
      | inr ((posted, after), some_) ↦
          let (less, near) = retry_row_lem a e posted after some_ in
          rw (retry_send, some_)
            (record {
              own = own;
              credit = credit;
              spend = left after;
              handling = h;
              retrying = stored_next after (omega (arith, few, near));
              enough = omega (arith, enough, less);
            })
    ]
retry_send-Budget p r a d n f own credit spend h no_row enough = record {
  own = own;
  credit = credit;
  spend = left d;
  handling = h;
  retrying = no_row;
  enough = enough;
}
retry_send-Budget p r a d n f own credit spend h (stored_next e few) enough = record {
  own = own;
  credit = credit;
  spend = left e;
  handling = h;
  retrying = stored_next e few;
  enough = enough;
}

retry_update-Budget :
    (p r : Phase) (fails : Bool) (d : WebhookDelivery) (n f own credit spend : ℕ)
    → Handling p own credit
    → Retrying d (spare p credit) r spend
    → n + spend + credit + own ≤ 6 + f
    → Budget (retry_update r fails (sending d p r n f))
unfolding retry_update store_row
retry_update-Budget p r true d n f own credit spend h (stored_next e few) enough = record {
  own = own;
  credit = spent p credit;
  spend = left d;
  handling = spent-Handling p own credit h;
  retrying = no_row;
  enough = omega (arith, enough, few, spent_lem p credit);
}
retry_update-Budget p r false d n f own credit spend h (stored_next e few) enough = record {
  own = own;
  credit = credit;
  spend = left e;
  handling = h;
  retrying = no_row;
  enough = enough;
}
retry_update-Budget p r fails d n f own credit spend h no_row enough = record {
  own = own;
  credit = credit;
  spend = left d;
  handling = h;
  retrying = no_row;
  enough = enough;
}
retry_update-Budget p r fails d n f own credit spend h (one_row e few) enough = record {
  own = own;
  credit = credit;
  spend = left e;
  handling = h;
  retrying = one_row e few;
  enough = enough;
}

send_act-Budget : (a : SendAction) (s : Sending) → Budget s → Budget (send_act a s)
unfolding send_act
send_act-Budget (handler_sends c a) s b =
    handler_send-Budget s.handler s.retry c a s.row s.posts s.failed_updates b.own b.credit b.spend
      b.handling b.retrying b.enough
send_act-Budget (handler_updates fails) s b =
    handler_update-Budget s.handler s.retry fails s.row s.posts s.failed_updates b.own b.credit
      b.spend b.handling b.retrying b.enough
send_act-Budget (lists_pending now) s b =
    list_row-Budget s.handler s.retry now s.row s.posts s.failed_updates b.own b.credit b.spend
      b.handling b.retrying b.enough
send_act-Budget (retries_row a) s b =
    retry_send-Budget s.handler s.retry a s.row s.posts s.failed_updates b.own b.credit b.spend
      b.handling b.retrying b.enough
send_act-Budget (retry_updates fails) s b =
    retry_update-Budget s.handler s.retry fails s.row s.posts s.failed_updates b.own b.credit
      b.spend b.handling b.retrying b.enough

send_acts-Budget : (xs : List SendAction) (s : Sending) → Budget s → Budget (send_acts xs s)
unfolding send_acts
send_acts-Budget [] s b = b
send_acts-Budget (a ∷ xs) s b = send_acts-Budget xs (send_act a s) (send_act-Budget a s b)

-- From the CreateDelivery of a new row on, whatever the interleaving of Handler's goroutine with the retry
-- loop, whatever the servers answer and at whatever times the loop polls, at most 6 requests are sent for
-- the row, and at most one more for each call of UpdateDelivery that fails.
pub posts_bounded :
    (xs : List SendAction) (d : WebhookDelivery)
    → d.attempts ≡ 0
    → (send_acts xs (created d)).posts ≤ 6 + (send_acts xs (created d)).failed_updates
posts_bounded xs d zero_ =
    let b = send_acts-Budget xs (created d) (record {
      own = 1;
      credit = 2;
      spend = left d;
      handling = to_send d zero_ 2 (omega arith);
      retrying = no_row;
      enough = omega (arith, zero_);
    }) in
    omega (arith, b.enough)
