-- ===== src/Webhooks/Settled.antt =====
-- The end of one delivery under retryPending (internal/server/event/webhook_delivery.go).
use claude_plane.Base.{
  ℕ, suc, ◌+◌, ◌≤◌, ◌≡◌, ◌⊎◌, inl, inr, refl, ◌∙◌, String, true, false, List, [], ◌∷◌, some, lookup,
  insert, leb, arith, All, Bool-cases, lookup-insert_self, subst, sym, ap, Option-cases,
}
use claude_plane.Webhooks.{
  WebhookDelivery, failed, Deliverer, retry_delivery, deliver, retry_row, update_delivery,
  is_pending, is_due, record_failure, Clock, Attempt, broke, answered,
}
use claude_plane.Webhooks.Schedule.{
  Poll, poll, polls, Serves, InOrder, spaced, DueWithin, deliver-DueWithin, DueWithin-later,
  InOrder-sooner,
}

deliver_lem :
    (c : Clock) (a : Attempt) (d : WebhookDelivery)
    → ((deliver c a d).1.delivery_id ≡ d.delivery_id)
      × ((deliver c a d).1.attempts ≡ suc d.attempts)
unfolding deliver record_failure
deliver_lem c (broke posted message) d = (refl, refl)
deliver_lem c (answered code message) d = (refl, refl)

module _ (k : String) where
  -- The row stands under its identifier, with at most 3 attempts.
  record Kept (d : WebhookDelivery) (s : Deliverer) : Type 0 where
    found : lookup k s.rows ≡ some d
    keyed : d.delivery_id ≡ k
    few : d.attempts ≤ 3

  -- A row that is due is settled, or has one attempt more and a new time.
  record Advanced (now : ℕ) (d : WebhookDelivery) (t : Deliverer) : Type 0 where
    after : WebhookDelivery
    kept : Kept after t
    closer :
        (is_pending after.status ≡ false)
        ⊎ ((after.attempts ≡ suc d.attempts) × DueWithin now after.next_retry_at)

  stored :
      (e : WebhookDelivery) (t : Deliverer)
      → e.delivery_id ≡ k
      → e.attempts ≤ 3
      → Kept e (update_delivery false e t)
  unfolding update_delivery
  stored e t keyed few = record {
    found =
        subst (λ j. lookup k (insert j e t.rows) ≡ some e) (sym keyed)
          (lookup-insert_self k e t.rows);
    keyed = keyed;
    few = few;
  }

  retry_delivery-Advanced :
      (p : Poll) (d : WebhookDelivery) (s : Deliverer)
      → Serves p
      → Kept d s
      → Advanced p.answers.clock.now d (retry_delivery p.answers d s)
  unfolding retry_delivery retry_row
  retry_delivery-Advanced p d s (listed, event, works) r = elim (Bool-cases (leb 3 d.attempts)) [
    | inl e ↦
        rw (retry_delivery, retry_row, e, works)
          (record {
            after = record d { status = failed };
            kept = stored (record d { status = failed }) s r.keyed r.few;
            closer = inl refl;
          })
    | inr e ↦
        let (same, more) = deliver_lem p.answers.clock p.answers.attempt d in
        rw (retry_delivery, retry_row, e, listed, event, works)
          (record {
            after = (deliver p.answers.clock p.answers.attempt d).1;
            kept =
                stored (deliver p.answers.clock p.answers.attempt d).1 _ (same ∙ r.keyed)
                  (ground (arith, more, e));
            closer = inr (more, deliver-DueWithin p.answers.clock p.answers.attempt d);
          })
  ]

  poll-rests :
      (p : Poll) (d : WebhookDelivery) (s : Deliverer)
      → Kept d s
      → is_due p.listed_at d ≡ false
      → poll k p s ≡ s
  unfolding poll
  poll-rests p d s r h = rw (poll, r.found, h) refl

  poll-Advanced :
      (p : Poll) (d : WebhookDelivery) (s : Deliverer)
      → Serves p
      → Kept d s
      → is_due p.listed_at d ≡ true
      → Advanced p.answers.clock.now d (poll k p s)
  unfolding poll
  poll-Advanced p d s serves r h = rw (poll, r.found, h) (retry_delivery-Advanced p d s serves r)

  settled_not_due :
      (now : ℕ) (d : WebhookDelivery) → is_pending d.status ≡ false → is_due now d ≡ false
  unfolding is_due
  settled_not_due now d h = rw (is_due, h) refl

  polls-settled :
      (xs : List Poll) (d : WebhookDelivery) (s : Deliverer)
      → Kept d s
      → is_pending d.status ≡ false
      → polls k xs s ≡ s
  unfolding polls
  polls-settled [] d s r h = refl
  polls-settled (p ∷ xs) d s r h =
      ap (polls k xs) (poll-rests p d s r (settled_not_due p.listed_at d h))
      ∙ polls-settled xs d s r h

  abbrev Settles : List Poll → Deliverer → Type 0
  Settles xs s =
      (after : WebhookDelivery) × (lookup k (polls k xs s).rows ≡ some after)
      × (is_pending after.status ≡ false)

  settled-Settles :
      (xs : List Poll) (d : WebhookDelivery) (s : Deliverer)
      → Kept d s
      → is_pending d.status ≡ false
      → Settles xs s
  settled-Settles xs d s r h = (d, rw (polls-settled xs d s r h) r.found, h)

  -- A pending row whose time has come is due.
  time_due :
      (last now : ℕ) (d : WebhookDelivery)
      → is_pending d.status ≡ true
      → DueWithin last d.next_retry_at
      → last + 45000000000 ≤ now
      → is_due now d ≡ true
  unfolding is_due
  time_due last now d h due late = elim (Option-cases d.next_retry_at) [
    | inl e ↦ rw (is_due, h, e) refl
    | inr (t, e) ↦
        let soon : t ≤ last + 45000000000 = subst (DueWithin last) e due in
        rw (is_due, h, e) (ground (arith, soon, late))
  ]

  enough-Settles :
      (xs : List Poll) (from last : ℕ) (d : WebhookDelivery) (s : Deliverer)
      → Kept d s
      → All Serves xs
      → InOrder last xs
      → DueWithin last d.next_retry_at
      → from ≤ last
      → (last ≡ from) ⊎ (5 ≤ d.attempts + spaced from xs)
      → 4 ≤ d.attempts + spaced from xs
      → Settles xs s
  unfolding polls
  enough-Settles [] from last d s r serve order due later ahead enough =
      absurd (omega (arith, enough, r.few))
  enough-Settles (p ∷ xs) from last d s r serve (o, q, order) due later ahead enough =
      let now = p.answers.clock.now in
      elim (Bool-cases (is_pending d.status)) [
        | inr settled ↦ settled-Settles (p ∷ xs) d s r settled
        | inl h ↦ elim (Bool-cases (is_due p.listed_at d)) [
          | inl ready ↦
              let a = poll-Advanced p d s serve.0 r ready in
              elim a.closer [
                | inl settled ↦ settled-Settles xs a.after (poll k p s) a.kept settled
                | inr (more, next) ↦ elim (Bool-cases (leb (from + 45000000000) p.listed_at)) [
                  | inl e ↦
                      enough-Settles xs now now a.after (poll k p s) a.kept serve.1 order next
                        (omega arith) (inl refl) (ground (arith, more, e, enough))
                  | inr e ↦
                      enough-Settles xs from now a.after (poll k p s) a.kept serve.1 order next
                        (omega (arith, later, o, q)) (inr (ground (arith, more, e, enough)))
                        (ground (arith, more, e, enough))
                ]
              ]
          | inr waits ↦
              subst (Settles xs) (sym (poll-rests p d s r waits))
                (elim (Bool-cases (leb (from + 45000000000) p.listed_at)) [
                  | inl e ↦ elim ahead [
                    | inl same ↦ absurd (
                        ground (
                          arith,
                          waits,
                          time_due last p.listed_at d h due (ground (arith, same, e)),
                        ))
                    | inr five ↦
                        enough-Settles xs now now d s r serve.1 order
                          (DueWithin-later last now d.next_retry_at (omega (arith, o, q)) due)
                          (omega arith) (inl refl) (ground (arith, e, five))
                  ]
                  | inr e ↦
                      enough-Settles xs from last d s r serve.1
                        (InOrder-sooner last now xs (omega (arith, o, q)) order) due later
                        (elim ahead [
                          | inl same ↦ inl same
                          | inr five ↦ inr (ground (arith, e, five))
                        ])
                        (ground (arith, e, enough))
                ])
        ]
      ]

  -- Suppose that Handler's own attempt, if there is one, is recorded, that a pending row is under its
  -- identifier with at most 3 attempts and a next retry at most 45 seconds after a time `from`, and that
  -- from then on the polls of the one retry loop, in their order, find the row's webhook and event and
  -- update the row without an error. If the polls go on long enough that 4 of them can be counted, each
  -- of which lists its rows 45 seconds or more after the one counted before is over, and the first one 45
  -- seconds or more after `from`, the delivery is settled: its status is not pending any more, however the
  -- attempts go. The other polls may come at any times.
  pub delivery_settles :
      (xs : List Poll) (from : ℕ) (d : WebhookDelivery) (s : Deliverer)
      → lookup k s.rows ≡ some d
      → d.delivery_id ≡ k
      → d.attempts ≤ 3
      → DueWithin from d.next_retry_at
      → All Serves xs
      → InOrder from xs
      → 4 ≤ spaced from xs
      → (after : WebhookDelivery) × (lookup k (polls k xs s).rows ≡ some after)
        × (is_pending after.status ≡ false)
  delivery_settles xs from d s found keyed few due serve order four =
      enough-Settles xs from from d s (record { found = found; keyed = keyed; few = few }) serve
        order due (omega arith) (inl refl) (omega (arith, four))
