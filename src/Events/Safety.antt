-- ===== src/Events/Safety.antt =====
-- Every sequence of calls on the event bus (internal/server/event/bus.go).
use claude_plane.Events.Channels.{
  BusSystem, BusAction, BusInv, Live, do_subscribe, do_deliver, do_unsubscribe, do_close,
  do_close_channel, do_drain, bus_act, bus_acts, publish_deliver-BusInv, remove_subscriber-BusInv,
  close_begin-BusInv, close_channel-BusInv, drain_one-BusInv, listed,
}
use claude_plane.Events.{
  Bus, subscribe, make_subscriber, register_subscriber, close_channel, set_channel, new_bus,
}
use claude_plane.Base.{
  ℕ, String, arith, false, List, [], ◌∷◌, All, All-map, All-append, ◌≢◌, ◌≡◌, ◌≤◌, if_rule, length,
  refl, ltb, All-both, ltb→lt,
}

module _ {ℓ} {Event : Type ℓ} where
  unfoldable pub start_bus : BusSystem Event
  start_bus = record { bus = new_bus; closing = [] }

  start_bus-BusInv : BusInv start_bus
  unfolding start_bus new_bus
  start_bus-BusInv = record {
    live = tt;
    made = λ c h. ground (arith, h);
    bounded = λ c. omega arith;
    calm = refl;
  }

  -- A subscriber stays live when the channel with the next number is made.
  make_subscriber-Live :
      (size : ℕ) (s : BusSystem Event)
      → BusInv s
      → BusInv (record s { bus = (make_subscriber size s.bus).1 })
        × (Live
            (make_subscriber size s.bus).1
            s.closing
            (record { id = s.bus.next_id; pattern = "" }))
  unfolding make_subscriber set_channel
  make_subscriber-Live size s inv = (
    record {
      live =
          All-map (Live s.bus s.closing) _
            (λ u h. (omega (arith, h.0), ground (arith, h.1, h.0), h.2)) s.bus.subscribers inv.live;
      made = λ c h. omega (arith, inv.made c h);
      bounded = λ c. ground (arith, inv.bounded c);
      calm = inv.calm;
    },
    (omega arith, ground arith, ground (arith, inv.made s.bus.next_id)),
  )

  register_subscriber-BusInv :
      (c : ℕ) (pattern : String) (s : BusSystem Event)
      → Live s.bus s.closing (record { id = c; pattern = "" })
      → All (λ u. u.id ≢ c) s.bus.subscribers
      → BusInv s
      → BusInv (record s { bus = register_subscriber c pattern s.bus })
  unfolding register_subscriber close_channel set_channel
  register_subscriber-BusInv c pattern s new others inv =
      if_rule (λ (b : Bus Event). BusInv (record s { bus = b })) s.bus.closed _ _
        (λ e. record {
          live =
              All-map _ _ (λ u h. (h.0.0, ground (arith, h.0.1, h.1), h.0.2)) s.bus.subscribers
                (All-both _ _ s.bus.subscribers inv.live others);
          made = inv.made;
          bounded = λ d. ground (arith, inv.bounded d, inv.bounded c);
          calm = inv.calm;
        })
        (λ e. record {
          live =
              All-append (Live s.bus s.closing) s.bus.subscribers
                (record { id = c; pattern = pattern } ∷ []) inv.live (new, tt);
          made = inv.made;
          bounded = inv.bounded;
          calm = inv.calm;
        })

  subscribe-BusInv :
      (pattern : String) (size : ℕ) (s : BusSystem Event)
      → BusInv s
      → BusInv (record s { bus = (subscribe pattern size s.bus).1 })
  unfolding subscribe make_subscriber set_channel
  subscribe-BusInv pattern size s inv =
      let (made, new) = make_subscriber-Live size s inv in
      register_subscriber-BusInv s.bus.next_id pattern
        (record s { bus = (make_subscriber size s.bus).1 }) new
        (All-map (Live s.bus s.closing) _ (λ u h. omega (arith, h.0)) s.bus.subscribers inv.live)
        made

  bus_act-BusInv :
      (bytes : String → List ℕ) (a : BusAction Event) (s : BusSystem Event)
      → BusInv s
      → BusInv (bus_act bytes a s)
  unfolding bus_act
  bus_act-BusInv bytes (do_subscribe pattern size) s inv = subscribe-BusInv pattern size s inv
  bus_act-BusInv bytes (do_deliver type event) s inv = publish_deliver-BusInv bytes type event s inv
  bus_act-BusInv bytes (do_unsubscribe c) s inv =
      if_rule BusInv (ltb c s.bus.next_id) _ s
        (λ e. remove_subscriber-BusInv c s (ltb→lt c s.bus.next_id e) inv) (λ e. inv)
  bus_act-BusInv bytes do_close s inv = close_begin-BusInv s inv
  bus_act-BusInv bytes (do_close_channel c) s inv =
      if_rule BusInv (listed c s.closing) _ s (λ e. close_channel-BusInv c s e inv) (λ e. inv)
  bus_act-BusInv bytes (do_drain c) s inv = drain_one-BusInv c s inv

  bus_acts-BusInv :
      (bytes : String → List ℕ) (xs : List (BusAction Event)) (s : BusSystem Event)
      → BusInv s
      → BusInv (bus_acts bytes xs s)
  unfolding bus_acts
  bus_acts-BusInv bytes [] s inv = inv
  bus_acts-BusInv bytes (a ∷ xs) s inv =
      bus_acts-BusInv bytes xs (bus_act bytes a s) (bus_act-BusInv bytes a s inv)

  -- In every interleaving of subscriptions, deliveries, unsubscriptions, receives and closes from a new
  -- bus, no send meets a closed channel (which would panic), the channel of every listed subscriber
  -- is open, and no buffer holds more events than its capacity.
  pub never_sends_on_closed :
      (bytes : String → List ℕ) (xs : List (BusAction Event))
      → ((bus_acts bytes xs start_bus).bus.panicked ≡ false)
        × All
            (λ u. ((bus_acts bytes xs start_bus).bus.channels u.id).is_closed ≡ false)
            (bus_acts bytes xs start_bus).bus.subscribers
        × ((c : ℕ)
            → length ((bus_acts bytes xs start_bus).bus.channels c).buffered
              ≤ ((bus_acts bytes xs start_bus).bus.channels c).capacity)
  never_sends_on_closed bytes xs =
      let inv = bus_acts-BusInv bytes xs start_bus start_bus-BusInv in
      (
        inv.calm,
        All-map _ _ (λ u h. h.1) (bus_acts bytes xs start_bus).bus.subscribers inv.live,
        inv.bounded,
      )
