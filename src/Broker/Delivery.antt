-- ===== src/Broker/Delivery.antt =====
-- A response goes into a channel once at most (internal/server/broker/broker.go), so that the send into
-- the buffered channel of size one, which is made outside the lock, never blocks.
use claude_plane.Broker.{
  Call, register, resolve, cancel, PendingEntry, RequestBroker, new_broker, register_request,
  resolve_entry, resolve_request, call, calls,
}
use claude_plane.Base.{
  ℕ, String, lookup, List, ◌≡◌, ◌≤◌, arith, delete, Option-cases, ◌∷◌, some, lookup-insert,
  lookup-delete, if◌then◌else◌, inl, ◌<◌, eq_iff, Bool-cases, inr, str_eq, refl, [], ◌==◌, suc,
}

module _ {ℓ} {Event : Type ℓ} where
  -- How many events went into a channel.
  abbrev pub deliveries : ℕ → List (ℕ × Event) → ℕ
  deliveries c [] = 0
  deliveries c ((d, evt) ∷ rest) = if d == c then suc (deliveries c rest) else deliveries c rest

  pub record Inv (b : RequestBroker Event) : Type 0 where
    -- a pending channel was handed out, and is empty
    pub empty :
        (id : String) (e : PendingEntry)
        → lookup id b.pending ≡ some e
        → (e.ch < b.next_channel) × (deliveries e.ch b.sent ≡ 0)
    -- it is pending under one request only
    pub own :
        (i j : String) (d e : PendingEntry)
        → lookup i b.pending ≡ some d
        → lookup j b.pending ≡ some e
        → d.ch ≡ e.ch
        → i ≡ j
    pub once : (c : ℕ) → deliveries c b.sent ≤ 1
    pub unborn : (c : ℕ) → b.next_channel ≤ c → deliveries c b.sent ≡ 0

  new_broker-Inv : Inv (new_broker {Event = Event})
  unfolding new_broker lookup
  new_broker-Inv = record {
    empty = λ id e h. cc;
    own = λ i j d e h k p. cc;
    once = λ c. omega arith;
    unborn = λ c h. refl;
  }

  register_request-Inv :
      (id m : String) (b : RequestBroker Event) → Inv b → Inv (register_request id m b).1
  unfolding register_request
  register_request-Inv id m b inv =
      let x : PendingEntry = record { ch = b.next_channel; machine_id = m } in
      record {
        empty = λ j e h.
            ground
              (arith, lookup-insert id j x b.pending, inv.empty j e, inv.unborn b.next_channel);
        own = λ i j d e h k p. ground (
          arith,
          lookup-insert id i x b.pending,
          lookup-insert id j x b.pending,
          inv.empty i d,
          inv.empty j e,
          inv.own i j d e,
          eq_iff id i,
          eq_iff id j,
        );
        once = inv.once;
        unborn = λ c h. ground (arith, inv.unborn c);
      }

  delete-Inv :
      (id : String) (b : RequestBroker Event)
      → Inv b
      → Inv (record b { pending = delete id b.pending })
  delete-Inv id b inv = record {
    empty = λ j e h. ground (arith, lookup-delete id j b.pending, inv.empty j e);
    own = λ i j d e h k p.
        ground (arith, lookup-delete id i b.pending, lookup-delete id j b.pending, inv.own i j d e);
    once = inv.once;
    unborn = inv.unborn;
  }

  resolve_entry-Inv :
      (id m : String) (evt : Event) (entry : PendingEntry) (b : RequestBroker Event)
      → lookup id b.pending ≡ some entry
      → Inv b
      → Inv (resolve_entry id m evt entry b)
  unfolding resolve_entry
  resolve_entry-Inv id m evt entry b found inv = elim (Bool-cases (str_eq entry.machine_id m)) [
    | inr other ↦ rw other inv
    | inl same ↦ rw same (record {
      empty = λ j e h. ground (
        arith,
        lookup-delete id j b.pending,
        inv.empty j e,
        inv.empty id entry,
        inv.own id j entry e,
        eq_iff id j,
      );
      own = λ i j d e h k p.
          ground
            (arith, lookup-delete id i b.pending, lookup-delete id j b.pending, inv.own i j d e);
      once = λ c. ground (arith, inv.once c, inv.empty id entry);
      unborn = λ c h. ground (arith, inv.unborn c, inv.empty id entry);
    })
  ]

  resolve_request-Inv :
      (id m : String) (evt : Event) (b : RequestBroker Event)
      → Inv b
      → Inv (resolve_request id m evt b)
  unfolding resolve_request
  resolve_request-Inv id m evt b inv = elim (Option-cases (lookup id b.pending)) [
    | inl e ↦ rw (e, resolve_request) inv
    | inr (entry, e) ↦ rw (e, resolve_request) (resolve_entry-Inv id m evt entry b e inv)
  ]

  call-Inv : (c : Call Event) (b : RequestBroker Event) → Inv b → Inv (call c b)
  unfolding call
  call-Inv (register id m) b inv = register_request-Inv id m b inv
  call-Inv (resolve id m evt) b inv = resolve_request-Inv id m evt b inv
  call-Inv (cancel id) b inv = delete-Inv id b inv

  calls-Inv : (cs : List (Call Event)) (b : RequestBroker Event) → Inv b → Inv (calls cs b)
  unfolding calls
  calls-Inv [] b inv = inv
  calls-Inv (c ∷ cs) b inv = calls-Inv cs (call c b) (call-Inv c b inv)

  -- After any calls on a new broker, no channel has received more than one event, and the channel of
  -- every request that is still pending has received none.
  pub deliveries_once :
      (cs : List (Call Event))
      → ((c : ℕ) → deliveries c (calls cs new_broker).sent ≤ 1)
        × ((id : String) (e : PendingEntry)
            → lookup id (calls cs (new_broker {Event = Event})).pending ≡ some e
            → deliveries e.ch (calls cs (new_broker {Event = Event})).sent ≡ 0)
  deliveries_once cs =
      let inv = calls-Inv cs new_broker new_broker-Inv in (inv.once, λ id e h. (inv.empty id e h).1)
