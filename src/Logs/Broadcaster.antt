-- ===== src/Logs/Broadcaster.antt =====
-- LogBroadcaster (internal/server/logging/tee_handler.go). A subscriber is its pointer, as a number;
-- strings.ToUpper is an argument. Sends to a closed channel would panic, as would a second close: `closes`
-- are the channels that were closed.
pub mod Safe
use claude_plane.Base.{
  ℕ, suc, String, Bool, true, false, ◌&&◌, not, Option, none, some, List, [], ◌∷◌, ◌++◌, length,
  leb, ltb, ◌==◌, str_eq, any, filter, if◌then◌else◌,
}

pub record LogRecord : Type 0 where
  pub level : String
  pub component : String
  pub source : String
  pub machine_id : String
  pub message : String

pub record LogFilter : Type 0 where
  pub level : String
  pub component : String
  pub source : String
  pub machine_id : String

pub record LogSubscriber : Type 0 where
  pub pointer : ℕ
  pub ch : List LogRecord
  pub filter_ : LogFilter

pub record LogBroadcaster : Type 0 where
  pub subscribers : List LogSubscriber
  pub next_pointer : ℕ
  pub closes : List ℕ

unfoldable pub new_log_broadcaster : LogBroadcaster
new_log_broadcaster = record { subscribers = []; next_pointer = 0; closes = [] }

-- levelOrder, with the default for other texts
unfoldable pub level_of : String → ℕ
level_of l =
    if str_eq l "DEBUG"
    then 0
    else if str_eq l "INFO"
    then 1
    else if str_eq l "WARN"
    then 2
    else if str_eq l "ERROR"
    then 3
    else 1

unfoldable pub matches : (to_upper : String → String) → LogFilter → LogRecord → Bool
unfolding level_of
matches to_upper f r =
    if not (str_eq f.level "") && ltb (level_of (to_upper r.level)) (level_of (to_upper f.level))
    then false
    else if not (str_eq f.component "") && not (str_eq f.component r.component)
    then false
    else if not (str_eq f.source "") && not (str_eq f.source r.source)
    then false
    else if not (str_eq f.machine_id "") && not (str_eq f.machine_id r.machine_id)
    then false
    else true

-- Subscribe; none at the limit
unfoldable pub subscribe_logs : LogFilter → LogBroadcaster → Option ℕ × LogBroadcaster
subscribe_logs f b = if leb 100 (length b.subscribers) then (none, b) else (
  some b.next_pointer,
  record b {
    subscribers = record { pointer = b.next_pointer; ch = []; filter_ = f } ∷ b.subscribers;
    next_pointer = suc b.next_pointer;
  },
)

unfoldable pub unsubscribe_logs : ℕ → LogBroadcaster → LogBroadcaster
unsubscribe_logs p b =
    if any (λ s. s.pointer == p) b.subscribers
    then record b {
      subscribers = filter (λ s. not (s.pointer == p)) b.subscribers;
      closes = p ∷ b.closes;
    }
    else b

-- The select of Broadcast.
unfoldable pub offer_log : (String → String) → LogRecord → LogSubscriber → LogSubscriber
unfolding matches
offer_log to_upper r s =
    if matches to_upper s.filter_ r && ltb (length s.ch) 256
    then record s { ch = s.ch ++ (r ∷ []) }
    else s

unfoldable pub offer_logs : (String → String) → LogRecord → List LogSubscriber → List LogSubscriber
unfolding offer_log
offer_logs to_upper r [] = []
offer_logs to_upper r (s ∷ rest) = offer_log to_upper r s ∷ offer_logs to_upper r rest

unfoldable pub broadcast : (String → String) → LogRecord → LogBroadcaster → LogBroadcaster
unfolding offer_logs
broadcast to_upper r b = record b { subscribers = offer_logs to_upper r b.subscribers }

-- UpdateFilter, on a subscriber that is still in the map
unfoldable pub update_filters : ℕ → LogFilter → List LogSubscriber → List LogSubscriber
update_filters p f [] = []
update_filters p f (s ∷ rest) =
    let later = update_filters p f rest in
    (if s.pointer == p then record s { filter_ = f } else s) ∷ later

unfoldable pub update_filter : ℕ → LogFilter → LogBroadcaster → LogBroadcaster
unfolding update_filters
update_filter p f b = record b { subscribers = update_filters p f b.subscribers }

-- A client receives a record.
unfoldable pub drain_logs : ℕ → List LogSubscriber → List LogSubscriber
drain_logs p [] = []
drain_logs p (s ∷ rest) =
    let later = drain_logs p rest in
    (if s.pointer == p then record s { ch = elim s.ch [ [] ↦ [] | r ∷ left ↦ left ] } else s)
    ∷ later
