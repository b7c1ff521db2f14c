-- ===== src/Logs/Broadcaster/Safe.antt =====
-- The channels of the log subscribers (internal/server/logging/tee_handler.go).
use claude_plane.Base.{
  ℕ, ◌+◌, ◌≤◌, ◌<◌, ◌≡◌, refl, String, Bool, true, false, not, ◌&&◌, List, [], ◌∷◌, length,
  length-append, length-filter-le, leb, ltb, ◌==◌, any, filter, arith, All, unit_of, Bool-cases,
  List-cases, inl, inr, if_rule, if◌then◌else◌,
}
use claude_plane.Logs.Broadcaster.{
  LogRecord, LogFilter, LogSubscriber, LogBroadcaster, new_log_broadcaster, matches, subscribe_logs,
  unsubscribe_logs, offer_log, offer_logs, broadcast, update_filters, update_filter, drain_logs,
}

pub data BroadcastAction : Type 0 where
  subscribes : LogFilter → BroadcastAction
  unsubscribes : ℕ → BroadcastAction
  broadcasts : LogRecord → BroadcastAction
  updates : ℕ → LogFilter → BroadcastAction
  drains : ℕ → BroadcastAction

-- How often a channel stands in a list of closed ones, and among the subscribers.
abbrev pub count_number : ℕ → List ℕ → ℕ
count_number p [] = 0
count_number p (x ∷ xs) = unit_of (x == p) + count_number p xs

abbrev pub count_pointer : ℕ → List LogSubscriber → ℕ
count_pointer p [] = 0
count_pointer p (s ∷ rest) = unit_of (s.pointer == p) + count_pointer p rest

abbrev pub WithinBuffer : LogSubscriber → Type 0
WithinBuffer s = length s.ch ≤ 256

pub record Safe (b : LogBroadcaster) : Type 0 where
  pub few : length b.subscribers ≤ 100
  pub bounded : All WithinBuffer b.subscribers
  pub once : (p : ℕ) → count_number p b.closes + count_pointer p b.subscribers ≤ 1
  pub fresh :
      (p : ℕ) → b.next_pointer ≤ p → count_number p b.closes + count_pointer p b.subscribers ≡ 0

both_true : (a : Bool) {b : Bool} → a && b ≡ true → b ≡ true
both_true true h = h
both_true false h = absurd (ground (arith, h))

module _ (to_upper : String → String) where
  unfoldable pub broadcast_act : BroadcastAction → LogBroadcaster → LogBroadcaster
  unfolding subscribe_logs unsubscribe_logs broadcast update_filter drain_logs
  broadcast_act (subscribes f) b = (subscribe_logs f b).1
  broadcast_act (unsubscribes p) b = unsubscribe_logs p b
  broadcast_act (broadcasts r) b = broadcast to_upper r b
  broadcast_act (updates p f) b = update_filter p f b
  broadcast_act (drains p) b = record b { subscribers = drain_logs p b.subscribers }

  unfoldable pub broadcast_acts : List BroadcastAction → LogBroadcaster → LogBroadcaster
  unfolding broadcast_act
  broadcast_acts [] b = b
  broadcast_acts (a ∷ rest) b = broadcast_acts rest (broadcast_act a b)

  -- An operation that keeps the pointers.
  record Same (xs ys : List LogSubscriber) : Type 0 where
    long : length ys ≡ length xs
    within : All WithinBuffer xs → All WithinBuffer ys
    pointers : (p : ℕ) → count_pointer p ys ≡ count_pointer p xs

  offer_log-WithinBuffer :
      (r : LogRecord) (s : LogSubscriber) → WithinBuffer s → WithinBuffer (offer_log to_upper r s)
  unfolding offer_log
  offer_log-WithinBuffer r s h =
      if_rule WithinBuffer (matches to_upper s.filter_ r && ltb (length s.ch) 256) _ _
        (λ e.
          let room : ltb (length s.ch) 256 ≡ true = both_true (matches to_upper s.filter_ r) e in
          ground (arith, room, length-append s.ch (r ∷ [])))
        (λ e. h)

  offer_log-pointer :
      (r : LogRecord) (s : LogSubscriber) → (offer_log to_upper r s).pointer ≡ s.pointer
  unfolding offer_log
  offer_log-pointer r s =
      if_rule (λ (t : LogSubscriber). t.pointer ≡ s.pointer)
        (matches to_upper s.filter_ r && ltb (length s.ch) 256) _ _ (λ e. refl) (λ e. refl)

  offer_logs-Same : (r : LogRecord) (xs : List LogSubscriber) → Same xs (offer_logs to_upper r xs)
  unfolding offer_logs
  offer_logs-Same r [] = record { long = refl; within = λ h. tt; pointers = λ p. refl }
  offer_logs-Same r (s ∷ xs) =
      let same = offer_logs-Same r xs in
      record {
        long = omega (arith, same.long);
        within = λ h. (offer_log-WithinBuffer r s h.0, same.within h.1);
        pointers = λ p. rw (offer_log-pointer r s, same.pointers p) refl;
      }

  update_filters-Same :
      (q : ℕ) (f : LogFilter) (xs : List LogSubscriber) → Same xs (update_filters q f xs)
  unfolding update_filters
  update_filters-Same q f [] = record { long = refl; within = λ h. tt; pointers = λ p. refl }
  update_filters-Same q f (s ∷ xs) =
      let same = update_filters-Same q f xs in
      record {
        long = omega (arith, same.long);
        within = λ h. (ground (arith, h.0), same.within h.1);
        pointers = λ p. ground (arith, same.pointers p);
      }

  drain_logs-Same : (q : ℕ) (xs : List LogSubscriber) → Same xs (drain_logs q xs)
  unfolding drain_logs
  drain_logs-Same q [] = record { long = refl; within = λ h. tt; pointers = λ p. refl }
  drain_logs-Same q (s ∷ xs) =
      let same = drain_logs-Same q xs in
      record {
        long = omega (arith, same.long);
        within = λ h. (
          elim (List-cases s.ch) [
            | inl e ↦ ground (arith, h.0, e)
            | inr (r, left, e) ↦ ground (arith, h.0, e)
          ],
          same.within h.1,
        );
        pointers = λ p. ground (arith, same.pointers p);
      }

  Same-Safe :
      (b : LogBroadcaster) (ys : List LogSubscriber)
      → Safe b
      → Same b.subscribers ys
      → Safe (record b { subscribers = ys })
  Same-Safe b ys safe same = record {
    few = omega (arith, safe.few, same.long);
    bounded = same.within safe.bounded;
    once = λ p. omega (arith, safe.once p, same.pointers p);
    fresh = λ p h. omega (arith, safe.fresh p h, same.pointers p);
  }

  subscribe_logs-Safe : (f : LogFilter) (b : LogBroadcaster) → Safe b → Safe (subscribe_logs f b).1
  unfolding subscribe_logs
  subscribe_logs-Safe f b safe = elim (Bool-cases (leb 100 (length b.subscribers))) [
    | inl e ↦ rw (subscribe_logs, e) safe
    | inr e ↦
        rw (subscribe_logs, e)
          (record {
            few = ground (arith, e);
            bounded = (omega arith, safe.bounded);
            once = λ p. ground (arith, safe.once p, safe.fresh p);
            fresh = λ p h. ground (arith, safe.fresh p, h);
          })
  ]

  count_pointer-filter :
      (q p : ℕ) (xs : List LogSubscriber)
      → count_pointer p (filter (λ s. not (s.pointer == q)) xs)
        ≡ (if p == q then 0 else count_pointer p xs)
  count_pointer-filter q p [] = ground arith
  count_pointer-filter q p (s ∷ xs) = ground (arith, count_pointer-filter q p xs)

  count_pointer-any :
      (q : ℕ) (xs : List LogSubscriber)
      → any (λ s. s.pointer == q) xs ≡ true
      → 0 < count_pointer q xs
  count_pointer-any q [] h = absurd (ground (arith, h))
  count_pointer-any q (s ∷ xs) h = ground (arith, h, count_pointer-any q xs)

  All-filter :
      (t : LogSubscriber → Bool) (xs : List LogSubscriber)
      → All WithinBuffer xs
      → All WithinBuffer (filter t xs)
  All-filter t [] h = tt
  All-filter t (s ∷ xs) h =
      if_rule (All WithinBuffer) (t s) _ _ (λ e. (h.0, All-filter t xs h.1))
        (λ e. All-filter t xs h.1)

  unsubscribe_logs-Safe : (q : ℕ) (b : LogBroadcaster) → Safe b → Safe (unsubscribe_logs q b)
  unfolding unsubscribe_logs
  unsubscribe_logs-Safe q b safe = elim (Bool-cases (any (λ s. s.pointer == q) b.subscribers)) [
    | inr e ↦ rw (unsubscribe_logs, e) safe
    | inl e ↦
        let present = count_pointer-any q b.subscribers e in
        rw (unsubscribe_logs, e)
          (record {
            few =
                omega (arith, safe.few, length-filter-le (λ s. not (s.pointer == q)) b.subscribers);
            bounded = All-filter (λ s. not (s.pointer == q)) b.subscribers safe.bounded;
            once = λ p.
                ground (
                  arith,
                  safe.once p,
                  safe.once q,
                  present,
                  count_pointer-filter q p b.subscribers,
                );
            fresh = λ p h. ground (
              arith,
              safe.fresh p h,
              safe.fresh q,
              present,
              h,
              count_pointer-filter q p b.subscribers,
            );
          })
  ]

  broadcast_act-Safe :
      (a : BroadcastAction) (b : LogBroadcaster) → Safe b → Safe (broadcast_act a b)
  unfolding broadcast_act broadcast update_filter
  broadcast_act-Safe (subscribes f) b safe = subscribe_logs-Safe f b safe
  broadcast_act-Safe (unsubscribes p) b safe = unsubscribe_logs-Safe p b safe
  broadcast_act-Safe (broadcasts r) b safe =
      Same-Safe b (offer_logs to_upper r b.subscribers) safe (offer_logs-Same r b.subscribers)
  broadcast_act-Safe (updates p f) b safe =
      Same-Safe b (update_filters p f b.subscribers) safe (update_filters-Same p f b.subscribers)
  broadcast_act-Safe (drains p) b safe =
      Same-Safe b (drain_logs p b.subscribers) safe (drain_logs-Same p b.subscribers)

  broadcast_acts-Safe :
      (xs : List BroadcastAction) (b : LogBroadcaster) → Safe b → Safe (broadcast_acts xs b)
  unfolding broadcast_acts
  broadcast_acts-Safe [] b safe = safe
  broadcast_acts-Safe (a ∷ xs) b safe =
      broadcast_acts-Safe xs (broadcast_act a b) (broadcast_act-Safe a b safe)

  -- In any order of subscriptions, unsubscriptions, broadcasts, changes of filters and receives there are at
  -- most 100 subscribers, no channel holds more than 256 records, no channel is closed twice, and no channel
  -- that is closed has a subscriber, so that Broadcast never sends into one.
  pub broadcaster_is_safe :
      (xs : List BroadcastAction)
      → let b = broadcast_acts xs new_log_broadcaster in
        (length b.subscribers ≤ 100)
        × All WithinBuffer b.subscribers
        × ((p : ℕ) → count_number p b.closes + count_pointer p b.subscribers ≤ 1)
  unfolding new_log_broadcaster
  broadcaster_is_safe xs =
      let safe = broadcast_acts-Safe xs new_log_broadcaster (record {
        few = omega arith;
        bounded = tt;
        once = λ p. omega arith;
        fresh = λ p h. omega arith;
      }) in
      (safe.few, safe.bounded, safe.once)
