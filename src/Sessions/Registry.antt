-- ===== src/Sessions/Registry.antt =====
-- The session registry (internal/server/session/registry.go): terminal output of agents to the
-- subscribers of a session. A channel is a number, new for each Subscribe; its buffer holds 256
-- messages. The drops that are logged are a log of totals.
pub mod Fates
use claude_plane.Base.{
  ℕ, suc, String, Bool, true, false, Option, some, none, List, [], ◌∷◌, ◌++◌, Map, lookup, insert,
  delete, if◌then◌else◌, ◌==◌, ltb, length, ◌||◌, ◌%◌, filter, not,
}

pub record SubscriberMessage : Type 0 where
  pub data_bytes : List ℕ
  pub is_control : Bool

-- A channel's waiting messages and whether it is closed.
pub record Buffer : Type 0 where
  pub waiting : List SubscriberMessage
  pub is_closed : Bool

-- `dropped` is the map of counters, with none for no entry.
pub record Registry : Type 0 where
  pub subscribers : Map (List ℕ)
  pub dropped : ℕ → Option ℕ
  pub buffers : ℕ → Buffer
  pub next_channel : ℕ
  pub logged : List ℕ
  pub panicked : Bool

unfoldable pub new_registry : Registry
new_registry = record {
  subscribers = [];
  dropped = λ c. none;
  buffers = λ c. record { waiting = []; is_closed = false };
  next_channel = 0;
  logged = [];
  panicked = false;
}

-- r.subscribers[sessionID], which is empty for no entry
unfoldable pub channels_of : String → Registry → List ℕ
channels_of session_id r = elim (lookup session_id r.subscribers) [ none ↦ [] | some subs ↦ subs ]

unfoldable pub subscribe_session : String → Registry → ℕ × Registry
unfolding channels_of
subscribe_session session_id r =
    let ch = r.next_channel in
    (
      ch,
      record r {
        subscribers = insert session_id (ch ∷ channels_of session_id r) r.subscribers;
        dropped = λ c. if c == ch then some 0 else r.dropped c;
        next_channel = suc ch;
      },
    )

-- delete(subs, ch), and the entry if nothing is left
unfoldable pub drop_subscriber : String → ℕ → Registry → Registry
drop_subscriber session_id ch r = elim (lookup session_id r.subscribers) [
  | none ↦ r
  | some subs ↦
      let left = filter (λ c. not (c == ch)) subs in
      if length left == 0
      then record r { subscribers = delete session_id r.subscribers }
      else record r { subscribers = insert session_id left r.subscribers }
]

unfoldable pub set_buffer : ℕ → Buffer → Registry → Registry
set_buffer ch b r = record r { buffers = λ c. if c == ch then b else r.buffers c }

-- close(ch), which panics on a closed channel
unfoldable pub close_buffer : ℕ → Registry → Registry
unfolding set_buffer
close_buffer ch r =
    if (r.buffers ch).is_closed
    then record r { panicked = true }
    else set_buffer ch (record (r.buffers ch) { is_closed = true }) r

unfoldable pub unsubscribe_session : String → ℕ → Registry → Registry
unfolding drop_subscriber close_buffer
unsubscribe_session session_id ch r =
    let s = drop_subscriber session_id ch r in
    close_buffer ch (record s { dropped = λ c. if c == ch then none else s.dropped c })

unfoldable pub should_log_drop : ℕ → Bool
should_log_drop total = (total == 1) || ((total == 10) || ((total == 100) || (total % 100 == 0)))

-- The default branch of the select: the counter, whose missing entry is a nil pointer.
unfoldable pub count_drop : ℕ → Registry → Registry
unfolding should_log_drop
count_drop ch r = elim (r.dropped ch) [
  | none ↦ record r { panicked = true }
  | some n ↦
      let total = suc n in
      record r {
        dropped = λ c. if c == ch then some total else r.dropped c;
        logged = (if should_log_drop total then total ∷ r.logged else r.logged);
      }
]

-- select { case ch <- message: default: count }
unfoldable pub offer : SubscriberMessage → ℕ → Registry → Registry
unfolding count_drop set_buffer
offer message ch r =
    let b = r.buffers ch in
    if b.is_closed
    then record r { panicked = true }
    else if ltb (length b.waiting) 256
    then set_buffer ch (record b { waiting = b.waiting ++ (message ∷ []) }) r
    else count_drop ch r

unfoldable pub offer_all : SubscriberMessage → List ℕ → Registry → Registry
unfolding offer
offer_all message [] r = r
offer_all message (ch ∷ chs) r = offer_all message chs (offer message ch r)

unfoldable pub publish_data : String → List ℕ → Registry → Registry
unfolding offer_all channels_of
publish_data session_id bytes r =
    offer_all (record { data_bytes = bytes; is_control = false }) (channels_of session_id r) r

unfoldable pub publish_control : String → List ℕ → Registry → Registry
unfolding offer_all channels_of
publish_control session_id msg r =
    offer_all (record { data_bytes = msg; is_control = true }) (channels_of session_id r) r

unfoldable pub subscriber_count : String → Registry → ℕ
unfolding channels_of
subscriber_count session_id r = length (channels_of session_id r)

unfoldable pub dropped_count : ℕ → Registry → ℕ
dropped_count ch r = elim (r.dropped ch) [ none ↦ 0 | some n ↦ n ]
