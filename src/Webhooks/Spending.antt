-- ===== src/Webhooks/Spending.antt =====
-- What the steps of Handler, and the listing of the pending rows, leave of the attempts for one delivery
-- (internal/server/event/webhook_delivery.go).
use claude_plane.Base.{ℕ, suc, ◌+◌, ◌-◌, ◌≤◌, ◌≡◌, refl, Bool, true, false, arith, if_rule}
use claude_plane.Webhooks.{
  WebhookDelivery, Attempt, broke, answered, Clock, deliver, record_failure, is_due,
}
use claude_plane.Webhooks.Polls.{
  Phase, resting, holds, writes, Sending, store_row, handler_send, handler_update, list_row,
}

-- The attempts that are left.
abbrev pub left : WebhookDelivery → ℕ
left d = 3 - d.attempts

-- Handler's goroutine: its request, and what its update gives back to the row.
pub data Handling : Phase → (own credit : ℕ) → Type 0 where
  to_send :
      (d : WebhookDelivery)
      → d.attempts ≡ 0
      → (credit : ℕ) → 2 ≤ credit
      → Handling (holds d) 1 credit
  to_store :
      (d : WebhookDelivery)
      → d.attempts ≡ 1
      → (credit : ℕ) → 2 ≤ credit
      → Handling (writes d) 0 credit
  over : (credit : ℕ) → Handling resting 0 credit

-- What of the credit may be used up by the retry loop.
abbrev pub spare : Phase → ℕ → ℕ
spare resting credit = credit
spare _ credit = 0

-- The retry loop's goroutine: the attempts it may still make.
pub data Retrying (row : WebhookDelivery) (spare : ℕ) : Phase → (spend : ℕ) → Type 0 where
  no_row : Retrying row spare resting (left row)
  one_row :
      (d : WebhookDelivery) → left row ≤ left d + spare → Retrying row spare (holds d) (left d)
  stored_next :
      (d : WebhookDelivery)
      → left row ≤ suc (left d + spare)
      → Retrying row spare (writes d) (left d)

pub record Budget (s : Sending) : Type 0 where
  pub own : ℕ
  pub credit : ℕ
  pub spend : ℕ
  pub handling : Handling s.handler own credit
  pub retrying : Retrying s.row (spare s.handler credit) s.retry spend
  pub enough : s.posts + spend + credit + own ≤ 6 + s.failed_updates

pub deliver_lem :
    (c : Clock) (a : Attempt) (d : WebhookDelivery) → (deliver c a d).1.attempts ≡ suc d.attempts
unfolding deliver record_failure
deliver_lem c (broke posted message) d = refl
deliver_lem c (answered code message) d = refl

-- The states of one row, by their parts.
abbrev pub sending : WebhookDelivery → Phase → Phase → ℕ → ℕ → Sending
sending d p r n f = record { row = d; handler = p; retry = r; posts = n; failed_updates = f }

pub handler_send-Budget :
    (p r : Phase) (c : Clock) (a : Attempt) (d : WebhookDelivery) (n f own credit spend : ℕ)
    → Handling p own credit
    → Retrying d (spare p credit) r spend
    → n + spend + credit + own ≤ 6 + f
    → Budget (
        handler_send p c a
          (record { row = d; handler = p; retry = r; posts = n; failed_updates = f }))
unfolding handler_send
handler_send-Budget p r c a d n f own credit spend (to_send e zero_ k two) t enough = record {
  own = 0;
  credit = credit;
  spend = spend;
  handling = to_store (deliver c a e).1 (ground (arith, deliver_lem c a e, zero_)) credit two;
  retrying = t;
  enough = ground (arith, enough);
}
handler_send-Budget p r c a d n f own credit spend (to_store e one k two) t enough = record {
  own = 0;
  credit = credit;
  spend = spend;
  handling = to_store e one credit two;
  retrying = t;
  enough = enough;
}
handler_send-Budget p r c a d n f own credit spend (over k) t enough = record {
  own = 0;
  credit = credit;
  spend = spend;
  handling = over credit;
  retrying = t;
  enough = enough;
}

-- A spare credit, once Handler's goroutine is over.
pub spare-Retrying :
    (d : WebhookDelivery) (r : Phase) (spend credit : ℕ)
    → Retrying d 0 r spend
    → Retrying d credit r spend
spare-Retrying d r spend credit no_row = no_row
spare-Retrying d r spend credit (one_row e few) = one_row e (omega (arith, few))
spare-Retrying d r spend credit (stored_next e few) = stored_next e (omega (arith, few))

pub handler_update-Budget :
    (p r : Phase) (fails : Bool) (d : WebhookDelivery) (n f own credit spend : ℕ)
    → Handling p own credit
    → Retrying d (spare p credit) r spend
    → n + spend + credit + own ≤ 6 + f
    → Budget (handler_update p fails (sending d p r n f))
unfolding handler_update store_row
handler_update-Budget p r fails d n f own credit spend (to_send e zero_ k two) t enough = record {
  own = 1;
  credit = credit;
  spend = spend;
  handling = to_send e zero_ credit two;
  retrying = t;
  enough = enough;
}
handler_update-Budget p r fails d n f own credit spend (over k) t enough = record {
  own = 0;
  credit = credit;
  spend = spend;
  handling = over credit;
  retrying = t;
  enough = enough;
}
handler_update-Budget p r true d n f own credit spend (to_store e one k two) t enough = record {
  own = 0;
  credit = credit;
  spend = spend;
  handling = over credit;
  retrying = spare-Retrying d r spend credit t;
  enough = omega (arith, enough);
}
handler_update-Budget p r false d n f own credit spend (to_store e one k two) no_row enough =
    record {
      own = 0;
      credit = 0;
      spend = left e;
      handling = over 0;
      retrying = no_row;
      enough = omega (arith, enough, two, one);
    }
handler_update-Budget p r false d n f own credit spend (to_store e one k two) (one_row g few)
      enough =
    record {
      own = 0;
      credit = credit;
      spend = left g;
      handling = over credit;
      retrying = one_row g (omega (arith, two, one));
      enough = enough;
    }
handler_update-Budget p r false d n f own credit spend (to_store e one k two) (stored_next g few)
      enough =
    record {
      own = 0;
      credit = credit;
      spend = left g;
      handling = over credit;
      retrying = stored_next g (omega (arith, two, one));
      enough = enough;
    }

pub list_row-Budget :
    (p r : Phase) (now : ℕ) (d : WebhookDelivery) (n f own credit spend : ℕ)
    → Handling p own credit
    → Retrying d (spare p credit) r spend
    → n + spend + credit + own ≤ 6 + f
    → Budget (list_row r now (sending d p r n f))
unfolding list_row
list_row-Budget p r now d n f own credit spend h no_row enough =
    if_rule Budget (is_due now d) _ _
      (λ e. record {
        own = own;
        credit = credit;
        spend = left d;
        handling = h;
        retrying = one_row d (omega arith);
        enough = enough;
      })
      (λ e. record {
        own = own;
        credit = credit;
        spend = left d;
        handling = h;
        retrying = no_row;
        enough = enough;
      })
list_row-Budget p r now d n f own credit spend h (one_row e few) enough = record {
  own = own;
  credit = credit;
  spend = left e;
  handling = h;
  retrying = one_row e few;
  enough = enough;
}
list_row-Budget p r now d n f own credit spend h (stored_next e few) enough = record {
  own = own;
  credit = credit;
  spend = left e;
  handling = h;
  retrying = stored_next e few;
  enough = enough;
}
