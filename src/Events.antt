-- ===== src/Events.antt =====
-- The event bus (internal/server/event/bus.go): subscribers with bounded buffers.
-- A subscriber is a number, new for each Subscribe; its channel, in `channels`, outlives its place in
-- `subscribers`. Handlers, goroutines and the persist handler's work are outside; a worker's receive
-- is `drain_one`. The unsubscribe function and Close remove under the lock and close the channels after it,
-- so other calls come between.
pub mod Channels
pub mod Safety
pub mod Shut
use claude_plane.Base.{
  ℕ, suc, zero, String, Bool, true, false, Option, some, none, List, [], ◌∷◌, ◌++◌, Map,
  if◌then◌else◌, ◌==◌, ltb, length, str_eq, not, ◌||◌, ◌&&◌,
}

-- ch: its waiting events, its capacity, and whether it is closed.
pub record Channel {ℓ} (Event : Type ℓ) : Type ℓ where
  pub buffered : List Event
  pub capacity : ℕ
  pub is_closed : Bool

pub record Subscriber : Type 0 where
  pub id : ℕ
  pub pattern : String

-- `persisted` is the log of the calls of the persist handler; `panicked` is set by a send into a
-- closed channel.
pub record Bus {ℓ} (Event : Type ℓ) : Type ℓ where
  pub subscribers : List Subscriber
  pub closed : Bool
  pub has_persist_handler : Bool
  pub channels : ℕ → Channel Event
  pub next_id : ℕ
  pub persisted : List Event
  pub panicked : Bool

-- strings.HasSuffix(pattern, ".*"), strings.TrimSuffix(pattern, "*") and strings.HasPrefix, on the bytes
abbrev pub has_prefix : List ℕ → List ℕ → Bool
has_prefix s [] = true
has_prefix [] (y ∷ ys) = false
has_prefix (x ∷ xs) (y ∷ ys) = if x == y then has_prefix xs ys else false

abbrev pub ends_in_dot_star : List ℕ → Bool
ends_in_dot_star [] = false
ends_in_dot_star (x ∷ []) = false
ends_in_dot_star (x ∷ (y ∷ [])) = (x == 46) && (y == 42)
ends_in_dot_star (x ∷ (y ∷ (z ∷ xs))) = ends_in_dot_star (y ∷ (z ∷ xs))

abbrev pub without_last : List ℕ → List ℕ
without_last [] = []
without_last (x ∷ []) = []
without_last (x ∷ (y ∷ xs)) = x ∷ without_last (y ∷ xs)

abbrev pub same_bytes : List ℕ → List ℕ → Bool
same_bytes [] [] = true
same_bytes [] (y ∷ ys) = false
same_bytes (x ∷ xs) [] = false
same_bytes (x ∷ xs) (y ∷ ys) = if x == y then same_bytes xs ys else false

-- MatchPattern, on the bytes of its arguments (42 is '*' and 46 is '.').
unfoldable pub match_pattern : List ℕ → List ℕ → Bool
match_pattern pattern event_type =
    if same_bytes pattern (42 ∷ [])
    then true
    else if ends_in_dot_star pattern
    then has_prefix event_type (without_last pattern)
    else same_bytes pattern event_type

unfoldable pub without_subscriber : ℕ → List Subscriber → List Subscriber
without_subscriber c [] = []
without_subscriber c (s ∷ subs) =
    if s.id == c then without_subscriber c subs else s ∷ without_subscriber c subs

unfoldable pub subscriber_ids : List Subscriber → List ℕ
subscriber_ids [] = []
subscriber_ids (s ∷ subs) = s.id ∷ subscriber_ids subs

module _ {ℓ} {Event : Type ℓ} where
  unfoldable pub new_bus : Bus Event
  new_bus = record {
    subscribers = [];
    closed = false;
    has_persist_handler = false;
    channels = λ c. record { buffered = []; capacity = 0; is_closed = true };
    next_id = 0;
    persisted = [];
    panicked = false;
  }

  unfoldable pub set_persist_handler : Bus Event → Bus Event
  set_persist_handler b = record b { has_persist_handler = true }

  unfoldable pub set_channel : ℕ → Channel Event → Bus Event → Bus Event
  set_channel c ch b = record b { channels = λ d. if d == c then ch else b.channels d }

  -- select { case sub.ch <- event: default: }
  unfoldable pub try_send : ℕ → Event → Bus Event → Bus Event
  unfolding set_channel
  try_send c event b =
      let ch = b.channels c in
      if ch.is_closed
      then record b { panicked = true }
      else if ltb (length ch.buffered) ch.capacity
      then set_channel c (record ch { buffered = ch.buffered ++ (event ∷ []) }) b
      else b

  -- Publish, up to the persist handler: whether it goes on, and the bus.
  unfoldable pub publish_begin : Event → Bus Event → Bool × Bus Event
  publish_begin event b =
      if b.closed
      then (false, b)
      else if b.has_persist_handler
      then (true, record b { persisted = event ∷ b.persisted })
      else (true, b)

  -- Publish's loop. `bytes` is the text's bytes and `type_of` the event's type.
  unfoldable pub fan_out :
      (String → List ℕ) → String → Event → List Subscriber → Bus Event → Bus Event
  unfolding try_send match_pattern
  fan_out bytes type event [] b = b
  fan_out bytes type event (sub ∷ subs) b =
      let next =
        (if match_pattern (bytes sub.pattern) (bytes type) then try_send sub.id event b else b) in
      fan_out bytes type event subs next

  -- Publish, under the second lock.
  unfoldable pub publish_deliver : (String → List ℕ) → String → Event → Bus Event → Bus Event
  unfolding fan_out
  publish_deliver bytes type event b =
      if b.closed then b else fan_out bytes type event b.subscribers b

  -- Subscribe, up to its lock: the channel.
  unfoldable pub make_subscriber : ℕ → Bus Event → ℕ × Bus Event
  unfolding set_channel
  make_subscriber buffer_size b =
      let c = b.next_id in
      let size = (if buffer_size == 0 then 256 else buffer_size) in
      (
        c,
        record (set_channel c (record { buffered = []; capacity = size; is_closed = false }) b) {
          next_id = suc c;
        },
      )

  unfoldable pub close_channel : ℕ → Bus Event → Bus Event
  unfolding set_channel
  close_channel c b = set_channel c (record (b.channels c) { is_closed = true }) b

  -- Subscribe, under its lock and after; the workers only see a channel that is still empty.
  unfoldable pub register_subscriber : ℕ → String → Bus Event → Bus Event
  unfolding close_channel
  register_subscriber c pattern b =
      if b.closed
      then close_channel c b
      else record b { subscribers = b.subscribers ++ (record { id = c; pattern = pattern } ∷ []) }

  -- Subscribe: the subscriber's number, and the bus.
  unfoldable pub subscribe : String → ℕ → Bus Event → ℕ × Bus Event
  unfolding make_subscriber register_subscriber
  subscribe pattern buffer_size b =
      let (c, d) = make_subscriber buffer_size b in (c, register_subscriber c pattern d)

  -- The function that Subscribe returns: its section, and the close.
  unfoldable pub remove_subscriber : ℕ → Bus Event → Bus Event
  unfolding without_subscriber
  remove_subscriber c b = record b { subscribers = without_subscriber c b.subscribers }

  -- Close, under its lock: the channels that it then closes, and the bus.
  unfoldable pub close_begin : Bus Event → List ℕ × Bus Event
  unfolding subscriber_ids
  close_begin b =
      if b.closed
      then ([], b)
      else (subscriber_ids b.subscribers, record b { closed = true; subscribers = [] })

  -- One receive of a worker.
  unfoldable pub drain_one : ℕ → Bus Event → Option Event × Bus Event
  unfolding set_channel
  drain_one c b = elim (b.channels c).buffered [
    | [] ↦ (none, b)
    | event ∷ rest ↦ (some event, set_channel c (record (b.channels c) { buffered = rest }) b)
  ]

  -- Publish, when nothing comes between its two sections.
  unfoldable pub publish_bus : (String → List ℕ) → String → Event → Bus Event → Bus Event
  unfolding publish_begin publish_deliver
  publish_bus bytes type event b =
      let (goes_on, c) = publish_begin event b in
      if goes_on then publish_deliver bytes type event c else c

  -- The function that Subscribe returns, as a whole.
  unfoldable pub unsubscribe : ℕ → Bus Event → Bus Event
  unfolding remove_subscriber close_channel
  unsubscribe c b = close_channel c (remove_subscriber c b)

  unfoldable pub close_channels : List ℕ → Bus Event → Bus Event
  unfolding close_channel
  close_channels [] b = b
  close_channels (c ∷ cs) b = close_channels cs (close_channel c b)

  -- Close, as a whole.
  unfoldable pub close_bus : Bus Event → Bus Event
  unfolding close_begin close_channels
  close_bus b = let (ids, c) = close_begin b in close_channels ids c
