-- ===== src/Events/Channels.antt =====
-- Publishers, subscribers and Close together (internal/server/event/bus.go): a send never meets a closed
-- channel, although channels are closed outside the lock.
use claude_plane.Events.{
  Bus, Subscriber, subscribe, try_send, fan_out, publish_deliver, without_subscriber,
  remove_subscriber, subscriber_ids, close_begin, close_channel, drain_one, set_channel,
  match_pattern,
}
use claude_plane.Base.{
  ℕ, String, arith, inl, inr, true, false, List, [], ◌∷◌, ◌++◌, All, All-map, ◌≢◌, ◌≡◌, ◌<◌, ◌≤◌,
  Bool, if◌then◌else◌, List-cases, Bool-cases, ◌==◌, any, length, length-append, refl, ltb, ◌∙◌,
  ◌⊎◌, subst, ==→eq, sym, if_rule,
}

-- The bus, and the channels that an unsubscribe function or Close has still to close.
pub record BusSystem {ℓ} (Event : Type ℓ) : Type ℓ where
  pub bus : Bus Event
  pub closing : List ℕ

module _ {ℓ} (Event : Type ℓ) where
  pub data BusAction : Type ℓ where
    do_subscribe : String → ℕ → BusAction
    do_deliver : String → Event → BusAction
    do_unsubscribe : ℕ → BusAction
    do_close : BusAction
    do_close_channel : ℕ → BusAction
    do_drain : ℕ → BusAction

abbrev pub listed : ℕ → List ℕ → Bool
listed c = any (λ x. x == c)

All-without_subscriber :
    (P : Subscriber → Type 0) (c : ℕ) (subs : List Subscriber)
    → All P subs
    → All (λ u. P u × (u.id ≢ c)) (without_subscriber c subs)
unfolding without_subscriber
All-without_subscriber P c [] h = tt
All-without_subscriber P c (s ∷ subs) h = elim (Bool-cases (s.id == c)) [
  | inl e ↦ rw (without_subscriber, e) (All-without_subscriber P c subs h.1)
  | inr e ↦
      rw (without_subscriber, e) ((h.0, ground (arith, e)), All-without_subscriber P c subs h.1)
]

listed-append :
    (c : ℕ) (xs ys : List ℕ)
    → listed c (xs ++ ys) ≡ true
    → (listed c xs ≡ true) ⊎ (listed c ys ≡ true)
listed-append c [] ys h = inr h
listed-append c (x ∷ xs) ys h = ground (arith, listed-append c xs ys)

module _ {ℓ} {Event : Type ℓ} where
  -- An unsubscribe function stands for a subscriber that was made, and a channel is closed when it
  -- waits for that.
  unfoldable pub bus_act : (String → List ℕ) → BusAction Event → BusSystem Event → BusSystem Event
  unfolding subscribe publish_deliver remove_subscriber close_begin close_channel drain_one
  bus_act bytes (do_subscribe pattern size) s = record s { bus = (subscribe pattern size s.bus).1 }
  bus_act bytes (do_deliver type event) s = record s {
    bus = publish_deliver bytes type event s.bus;
  }
  bus_act bytes (do_unsubscribe c) s =
      if ltb c s.bus.next_id
      then record { bus = remove_subscriber c s.bus; closing = c ∷ s.closing }
      else s
  bus_act bytes do_close s =
      let (ids, b) = close_begin s.bus in record { bus = b; closing = ids ++ s.closing }
  bus_act bytes (do_close_channel c) s =
      if listed c s.closing then record s { bus = close_channel c s.bus } else s
  bus_act bytes (do_drain c) s = record s { bus = (drain_one c s.bus).1 }

  unfoldable pub bus_acts :
      (String → List ℕ) → List (BusAction Event) → BusSystem Event → BusSystem Event
  unfolding bus_act
  bus_acts bytes [] s = s
  bus_acts bytes (a ∷ xs) s = bus_acts bytes xs (bus_act bytes a s)

  -- A subscriber in the list: its channel is open and nobody is about to close it.
  abbrev pub Live : Bus Event → List ℕ → Subscriber → Type 0
  Live b closing s =
      (s.id < b.next_id) × ((b.channels s.id).is_closed ≡ false) × (listed s.id closing ≡ false)

  pub record BusInv (s : BusSystem Event) : Type ℓ where
    pub live : All (Live s.bus s.closing) s.bus.subscribers
    pub made : (c : ℕ) → listed c s.closing ≡ true → c < s.bus.next_id
    pub bounded : (c : ℕ) → length (s.bus.channels c).buffered ≤ (s.bus.channels c).capacity
    pub calm : s.bus.panicked ≡ false

  -- What a delivery leaves alone.
  pub record Delivered (b d : Bus Event) : Type ℓ where
    pub same_subscribers : d.subscribers ≡ b.subscribers
    pub same_next : d.next_id ≡ b.next_id
    pub same_closed : (c : ℕ) → (d.channels c).is_closed ≡ (b.channels c).is_closed
    pub still_bounded :
        ((c : ℕ) → length (b.channels c).buffered ≤ (b.channels c).capacity)
        → (c : ℕ) → length (d.channels c).buffered ≤ (d.channels c).capacity
    pub still_calm : b.panicked ≡ false → d.panicked ≡ false

  Delivered-refl : (b : Bus Event) → Delivered b b
  Delivered-refl b = record {
    same_subscribers = refl;
    same_next = refl;
    same_closed = λ c. refl;
    still_bounded = λ h. h;
    still_calm = λ h. h;
  }

  try_send-Delivered :
      (c : ℕ) (event : Event) (b : Bus Event)
      → (b.channels c).is_closed ≡ false
      → Delivered b (try_send c event b)
  unfolding try_send set_channel
  try_send-Delivered c event b opened =
      elim (Bool-cases (ltb (length (b.channels c).buffered) (b.channels c).capacity)) [
        | inr full ↦ rw (try_send, opened, full) (Delivered-refl b)
        | inl room ↦
            rw (try_send, opened, room)
              (record {
                same_subscribers = refl;
                same_next = refl;
                same_closed = λ d. ground (arith, opened);
                still_bounded =
                    λ h d. ground (arith, h d, length-append (b.channels c).buffered (event ∷ []));
                still_calm = λ h. h;
              })
      ]

  Delivered-trans : (a b c : Bus Event) → Delivered a b → Delivered b c → Delivered a c
  Delivered-trans a b c f g = record {
    same_subscribers = g.same_subscribers ∙ f.same_subscribers;
    same_next = g.same_next ∙ f.same_next;
    same_closed = λ d. g.same_closed d ∙ f.same_closed d;
    still_bounded = λ h. g.still_bounded (f.still_bounded h);
    still_calm = λ h. g.still_calm (f.still_calm h);
  }

  fan_out-Delivered :
      (bytes : String → List ℕ) (type : String) (event : Event) (subs : List Subscriber)
      (b : Bus Event)
      → All (λ s. (b.channels s.id).is_closed ≡ false) subs
      → Delivered b (fan_out bytes type event subs b)
  unfolding fan_out
  fan_out-Delivered bytes type event [] b opened = Delivered-refl b
  fan_out-Delivered bytes type event (s ∷ subs) b opened =
      elim (Bool-cases (match_pattern (bytes s.pattern) (bytes type))) [
        | inr e ↦ rw (fan_out, e) (fan_out-Delivered bytes type event subs b opened.1)
        | inl e ↦
            rw (fan_out, e)
              (let first = try_send-Delivered s.id event b opened.0 in
                Delivered-trans b (try_send s.id event b) _ first (
                  fan_out-Delivered bytes type event subs (try_send s.id event b)
                    (All-map _ _ (λ u h. first.same_closed u.id ∙ h) subs opened.1)))
      ]

  pub publish_deliver-BusInv :
      (bytes : String → List ℕ) (type : String) (event : Event) (s : BusSystem Event)
      → BusInv s
      → BusInv (record s { bus = publish_deliver bytes type event s.bus })
  unfolding publish_deliver
  publish_deliver-BusInv bytes type event s inv =
      if_rule (λ b. BusInv (record s { bus = b })) s.bus.closed s.bus _ (λ e. inv)
        (λ e.
          let d =
            fan_out-Delivered bytes type event s.bus.subscribers s.bus
              (All-map _ _ (λ u h. h.1) s.bus.subscribers inv.live) in
          record {
            live = rw d.same_subscribers (
                All-map (Live s.bus s.closing) _
                  (λ u h. (rw d.same_next h.0, d.same_closed u.id ∙ h.1, h.2)) s.bus.subscribers
                  inv.live);
            made = λ c h. rw d.same_next (inv.made c h);
            bounded = d.still_bounded inv.bounded;
            calm = d.still_calm inv.calm;
          })

  pub remove_subscriber-BusInv :
      (c : ℕ) (s : BusSystem Event)
      → c < s.bus.next_id
      → BusInv s
      → BusInv (record { bus = remove_subscriber c s.bus; closing = c ∷ s.closing })
  unfolding remove_subscriber
  remove_subscriber-BusInv c s young inv = record {
    live =
        All-map _ _ (λ u h. (h.0.0, h.0.1, ground (arith, h.0.2, h.1)))
          (without_subscriber c s.bus.subscribers)
          (All-without_subscriber (Live s.bus s.closing) c s.bus.subscribers inv.live);
    made = λ d h. ground (arith, inv.made d);
    bounded = inv.bounded;
    calm = inv.calm;
  }

  subscriber_ids-made :
      (b : Bus Event) (closing : List ℕ) (c : ℕ) (subs : List Subscriber)
      → All (Live b closing) subs
      → listed c (subscriber_ids subs) ≡ true
      → c < b.next_id
  unfolding subscriber_ids
  subscriber_ids-made b closing c [] h e = ground arith
  subscriber_ids-made b closing c (s ∷ subs) h e =
      ground (arith, h.0.0, subscriber_ids-made b closing c subs h.1)

  pub close_begin-BusInv :
      (s : BusSystem Event)
      → BusInv s
      → BusInv
          (record { bus = (close_begin s.bus).1; closing = (close_begin s.bus).0 ++ s.closing })
  unfolding close_begin
  close_begin-BusInv s inv =
      if_rule
        (λ (p : List ℕ × Bus Event). BusInv (record { bus = p.1; closing = p.0 ++ s.closing }))
        s.bus.closed ([], s.bus) _ (λ e. inv)
        (λ e. record {
          live = tt;
          made = λ c h. elim (listed-append c (subscriber_ids s.bus.subscribers) s.closing h) [
            | inl k ↦ subscriber_ids-made s.bus s.closing c s.bus.subscribers inv.live k
            | inr k ↦ inv.made c k
          ];
          bounded = inv.bounded;
          calm = inv.calm;
        })

  pub close_channel-BusInv :
      (c : ℕ) (s : BusSystem Event)
      → listed c s.closing ≡ true
      → BusInv s
      → BusInv (record s { bus = close_channel c s.bus })
  unfolding close_channel set_channel
  close_channel-BusInv c s waits inv = record {
    live =
        All-map (Live s.bus s.closing) _
          (λ u h. (
            h.0,
            elim (Bool-cases (u.id == c)) [
              | inl e ↦
                  ground (
                    arith,
                    subst (λ d. listed d s.closing ≡ true) (sym (==→eq u.id c e)) waits,
                    h.2,
                  )
              | inr e ↦ rw e h.1
            ],
            h.2,
          ))
          s.bus.subscribers inv.live;
    made = inv.made;
    bounded = λ d. ground (arith, inv.bounded d, inv.bounded c);
    calm = inv.calm;
  }

  pub drain_one-BusInv :
      (c : ℕ) (s : BusSystem Event) → BusInv s → BusInv (record s { bus = (drain_one c s.bus).1 })
  unfolding drain_one set_channel
  drain_one-BusInv c s inv = elim (List-cases (s.bus.channels c).buffered) [
    | inl e ↦ rw (drain_one, e) inv
    | inr (x, rest, e) ↦
        rw (drain_one, e)
          (record {
            live =
                All-map (Live s.bus s.closing) _
                  (λ u h. (h.0, ground (arith, h.1, ==→eq u.id c), h.2)) s.bus.subscribers inv.live;
            made = inv.made;
            bounded = λ d. ground (arith, inv.bounded d, inv.bounded c, e);
            calm = inv.calm;
          })
  ]
