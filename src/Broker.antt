-- ===== src/Broker.antt =====
-- RequestBroker (internal/server/broker/broker.go): requests that wait for the response of an agent.
-- A channel is a number, new for each Register; `sent` is the log of what went into the channels.
pub mod Delivery
use Prim.Native.Nat.{ℕ, suc}
use claude_plane.Base.{
  Map, String, List, [], if◌then◌else◌, some, none, insert, lookup, delete, ◌∷◌, str_eq,
}

module _ {ℓ} (Event : Type ℓ) where
  pub data Call : Type ℓ where
    register : String → String → Call
    resolve : String → String → Event → Call
    cancel : String → Call

pub record PendingEntry : Type 0 where
  pub ch : ℕ
  pub machine_id : String

pub record RequestBroker {ℓ} (Event : Type ℓ) : Type ℓ where
  pub pending : Map PendingEntry
  pub next_channel : ℕ
  pub sent : List (ℕ × Event)

module _ {ℓ} {Event : Type ℓ} where
  unfoldable pub new_broker : RequestBroker Event
  new_broker = record { pending = []; next_channel = 0; sent = [] }

  -- Register: the new channel, and the broker.
  unfoldable pub register_request : String → String → RequestBroker Event → ℕ × RequestBroker Event
  register_request request_id machine_id b = (
    b.next_channel,
    record b {
      pending =
          insert request_id (record { ch = b.next_channel; machine_id = machine_id }) b.pending;
      next_channel = suc b.next_channel;
    },
  )

  unfoldable pub resolve_entry :
      String → String → Event → PendingEntry → RequestBroker Event → RequestBroker Event
  resolve_entry request_id machine_id evt entry b =
      if str_eq entry.machine_id machine_id
      then record b { pending = delete request_id b.pending; sent = (entry.ch, evt) ∷ b.sent }
      else b

  unfoldable pub resolve_request :
      String → String → Event → RequestBroker Event → RequestBroker Event
  unfolding resolve_entry
  resolve_request request_id machine_id evt b = elim (lookup request_id b.pending) [
    | none ↦ b
    | some entry ↦ resolve_entry request_id machine_id evt entry b
  ]

  unfoldable pub cancel_request : String → RequestBroker Event → RequestBroker Event
  cancel_request request_id b = record b { pending = delete request_id b.pending }

  unfoldable pub call : Call Event → RequestBroker Event → RequestBroker Event
  unfolding register_request resolve_request cancel_request
  call (register request_id machine_id) b = (register_request request_id machine_id b).1
  call (resolve request_id machine_id evt) b = resolve_request request_id machine_id evt b
  call (cancel request_id) b = cancel_request request_id b

  unfoldable pub calls : List (Call Event) → RequestBroker Event → RequestBroker Event
  unfolding call
  calls [] b = b
  calls (c ∷ cs) b = calls cs (call c b)
