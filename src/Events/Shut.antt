-- ===== src/Events/Shut.antt =====
-- A closed bus (internal/server/event/bus.go).
use claude_plane.Events.{
  Bus, close_bus, close_begin, close_channels, close_channel, set_channel, subscribe,
  make_subscriber, register_subscriber, publish_bus, publish_begin,
}
use claude_plane.Base.{ℕ, String, List, [], ◌∷◌, true, ◌≡◌, refl, arith, ◌∙◌}

module _ {ℓ} {Event : Type ℓ} where
  closed-close_channels : (cs : List ℕ) (b : Bus Event) → (close_channels cs b).closed ≡ b.closed
  unfolding close_channels close_channel set_channel
  closed-close_channels [] b = refl
  closed-close_channels (c ∷ cs) b = closed-close_channels cs (close_channel c b)

  closed-close_begin : (b : Bus Event) → (close_begin b).1.closed ≡ true
  unfolding close_begin
  closed-close_begin b = ground arith

  closed-close_bus : (b : Bus Event) → (close_bus b).closed ≡ true
  unfolding close_bus
  closed-close_bus b =
      closed-close_channels (close_begin b).0 (close_begin b).1 ∙ closed-close_begin b

  publish_bus-closed :
      (bytes : String → List ℕ) (type : String) (event : Event) (b : Bus Event)
      → b.closed ≡ true
      → publish_bus bytes type event b ≡ b
  unfolding publish_bus publish_begin
  publish_bus-closed bytes type event b e = ground (arith, e)

  -- Once Close has run, Publish changes nothing (it does not even persist the event), and a
  -- subscription leaves the list of subscribers as it is and its own channel closed.
  pub closed_bus_is_shut :
      (bytes : String → List ℕ) (type pattern : String) (event : Event) (size : ℕ) (b : Bus Event)
      → (publish_bus bytes type event (close_bus b) ≡ close_bus b)
        × ((subscribe pattern size (close_bus b)).1.subscribers ≡ (close_bus b).subscribers)
        × (((subscribe pattern size (close_bus b)).1.channels
              (subscribe pattern size (close_bus b)).0).is_closed
            ≡ true)
  unfolding subscribe make_subscriber register_subscriber set_channel close_channel
  closed_bus_is_shut bytes type pattern event size b =
      let e = closed-close_bus b in
      (publish_bus-closed bytes type event (close_bus b) e, ground (arith, e), ground (arith, e))
