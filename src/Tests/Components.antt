-- ===== src/Tests/Components.antt =====
-- The components around the runs at concrete inputs (internal/server, internal/agent).
use claude_plane.Events.{publish_bus, close_bus, set_persist_handler, subscribe}
use claude_plane.Events.Shut.{closed_bus_is_shut}
use claude_plane.Sessions.Injection.{
  InjectionQueue, QueueItem, idle_return, enqueue_begin, new_injection_queue, send_item, set_queue,
  get_or_create_queue, is_terminal_status,
}
use claude_plane.Sessions.Injection.Stranded.{
  reads, injection_acts, remove_entry, begin_enqueue, drain,
}
use claude_plane.Sessions.Injection.Accepted.{accepted_item_is_stranded}
use claude_plane.Broker.{register, resolve, cancel, calls, new_broker, Call}
use claude_plane.Broker.Delivery.{deliveries_once, deliveries}
use claude_plane.Events.Channels.{
  BusAction, do_subscribe, do_deliver, do_unsubscribe, do_close, do_close_channel, bus_acts,
}
use claude_plane.Events.{new_bus}
use claude_plane.Events.Safety.{never_sends_on_closed, start_bus}
use claude_plane.Connmgr.{ConnectedAgent, new_connection_manager, register_swap, get_agent}
use claude_plane.Connmgr.Stays.{
  Action, persist, leave_if_match, sweep_one, elapse, acts, registered_agent_stays,
}
use claude_plane.Streams.{StreamEntry, get_stream, new_stream_registry, next_token}
use claude_plane.Streams.Tokens.{
  connect, close_stream, remove, stream_acts, stream_act, stream_token_guards,
}
use claude_plane.Gates.Blocklist.{
  is_revoked, add_revocation, blocklist_calls, add_call, clean_call, revoked_until_expiry,
}
use claude_plane.Gates.RateLimit.{allows, new_rate_limiter, allow, allowed_spaced}
use claude_plane.Gates.Backoff.{next_backoff_base, next_backoff, nexts, new_backoff}
use claude_plane.Sessions.Registry.{new_registry, subscribe_session, publish_data, Registry}
use claude_plane.Sessions.Registry.Fates.{publish_fates}
use claude_plane.Base.{
  ℕ, String, List, [], ◌∷◌, ◌≡◌, true, false, some, none, refl, ◌≤◌, ◌+◌, arith, lookup, insert,
  delete, eq_iff, ◌++◌,
}

-- Two requests of machine "m"; the first is answered twice, the second is given up.
abbrev broker_calls : List (Call ℕ)
broker_calls =
    register "r1" "m"
    ∷ (register "r2" "m"
        ∷ (resolve "r1" "m" 7 ∷ (resolve "r1" "m" 8 ∷ (cancel "r2" ∷ (resolve "r2" "m" 9 ∷ [])))))

deliveries_once_example :
    ((c : ℕ) → deliveries c (calls broker_calls new_broker).sent ≤ 1)
    × ((id : String) (e : _)
        → lookup id (calls broker_calls new_broker).pending ≡ some e
        → deliveries e.ch (calls broker_calls new_broker).sent ≡ 0)
deliveries_once_example = deliveries_once broker_calls

broker_run : (calls broker_calls new_broker).sent ≡ (0, 7) ∷ []
unfolding calls new_broker lookup insert delete
broker_run = refl

abbrev as_bytes : String → List ℕ
as_bytes s = 42 ∷ []

-- A subscriber with room for one event, two events, an unsubscription, and a close.
abbrev bus_calls : List (BusAction ℕ)
bus_calls =
    do_subscribe "*" 1
    ∷ (do_deliver "a" 5
        ∷ (do_deliver "a" 6
            ∷ (do_unsubscribe 0 ∷ (do_deliver "a" 7 ∷ (do_close_channel 0 ∷ (do_close ∷ []))))))

never_sends_on_closed_example : (bus_acts as_bytes bus_calls start_bus).bus.panicked ≡ false
never_sends_on_closed_example = (never_sends_on_closed as_bytes bus_calls).0

bus_run : ((bus_acts as_bytes bus_calls start_bus).bus.channels 0).buffered ≡ 5 ∷ []
unfolding bus_acts start_bus new_bus
bus_run = refl

abbrev some_agent : ConnectedAgent
some_agent = record {
  machine_id = "m";
  registered_at = 0;
  max_sessions = 2;
  home_dir = "/";
  has_cancel = true;
  health = none;
}

-- The older stream 1 of the machine fails to persist, closes and is swept.
abbrev stale_actions : List Action
stale_actions =
    persist "m" 1 true false
    ∷ (leave_if_match "m" 1 ∷ (sweep_one 1 ∷ (elapse "m" ∷ (persist "m" 1 false false ∷ []))))

registered_agent_stays_example :
    get_agent "m" (
      acts stale_actions
        (register_swap "m" 2 (register_swap "m" 1 (new_connection_manager none (λ p. some_agent)))))
    ≡ some 2
registered_agent_stays_example =
    registered_agent_stays "m" 2
      (register_swap "m" 1 (new_connection_manager none (λ p. some_agent))) stale_actions
      (omega arith, (omega arith, (omega arith, (tt, (omega arith, tt)))))

abbrev stream_info : StreamEntry ℕ
stream_info = record {
  machine_id = "m";
  stream_token = 0;
  max_sessions = 2;
  home_dir = "/";
  connected_at = 0;
  session_states = [];
}

-- The first connection of the machine closes after the second has opened; another machine is removed.
stream_token_guards_example :
    get_stream "m" (
      stream_acts (remove "n" ∷ (close_stream "m" 1 ∷ [])) (
        stream_act
          (connect "m" stream_info)
          (stream_acts (connect "m" stream_info ∷ []) new_stream_registry)))
    ≡ some (record stream_info {
      stream_token =
          next_token
            (stream_acts (connect "m" stream_info ∷ []) (new_stream_registry {S = ℕ})).counter;
    })
unfolding stream_acts stream_act new_stream_registry
stream_token_guards_example =
    (stream_token_guards (connect "m" stream_info ∷ []) (remove "n" ∷ (close_stream "m" 1 ∷ [])) "m"
      stream_info (stream_acts (connect "m" stream_info ∷ []) new_stream_registry) (omega arith)
      refl ((λ e. ground (arith, e, eq_iff "n" "m")), (omega arith, tt))).2

revoked_until_expiry_example :
    is_revoked "t" (
      blocklist_calls
        (clean_call 50 ∷ (add_call "u" "alice" 60 false ∷ (clean_call 100 ∷ [])))
        (add_revocation "t" "alice" 100 false (record { entries = ("s", 10) ∷ []; writes = [] })).1)
    ≡ true
revoked_until_expiry_example =
    revoked_until_expiry "t" "alice" 100 (record { entries = ("s", 10) ∷ []; writes = [] })
      (clean_call 50 ∷ (add_call "u" "alice" 60 false ∷ (clean_call 100 ∷ [])))
      (omega arith, ((λ p. ground (arith, p, eq_iff "u" "t")), (omega arith, tt)))

-- With an interval of ten: a call at 0, one in between that is refused, and one at 12.
allowed_spaced_example : 0 + 10 ≤ 12
unfolding allow allows new_rate_limiter lookup insert
allowed_spaced_example =
    allowed_spaced "c:run.failed" 0 12 (("c:run.failed", 5) ∷ []) (new_rate_limiter 10)
      (omega arith, omega arith) refl refl

next_backoff_base_example :
    (next_backoff (λ d. d) (nexts (λ d. d) 3 (new_backoff 1000 60000))).0 ≡ 8000
next_backoff_base_example = next_backoff_base (λ d. d) 1000 60000 3 (omega arith) (omega arith)

abbrev subscribed : Registry
subscribed = (subscribe_session "s" new_registry).1

publish_fates_example :
    ((publish_data "s" (104 ∷ []) subscribed).buffers 0).waiting
    ≡ (subscribed.buffers 0).waiting ++ record { data_bytes = 104 ∷ []; is_control = false } ∷ []
unfolding subscribe_session new_registry lookup insert
publish_fates_example =
    (((publish_fates "s" (104 ∷ []) subscribed (λ c. ground arith) ((refl, (0, refl)), tt)
          refl).0.received
        0 refl).queued
      (omega arith)).0

-- A caller gets hold of the queue; the drainer's timer fires; the item is sent; the entry is removed and
-- another caller comes.
abbrev late_queue : InjectionQueue
late_queue = idle_return 0 (enqueue_begin (some "running") "s" "m" new_injection_queue).1

abbrev late_item : QueueItem
late_item = record { injection_id = "i"; data_bytes = 104 ∷ []; delay_ms = 0; queued_at = 0 }

accepted_item_is_stranded_example :
    reads
      ((injection_acts
          (remove_entry "s" 0 ∷ (begin_enqueue (some "running") "s" "m" ∷ (drain 0 ∷ [])))
          (send_item 0 late_item late_queue).1).objects
        0).drainer
    ≡ false
unfolding idle_return enqueue_begin new_injection_queue send_item lookup insert set_queue
    get_or_create_queue is_terminal_status
accepted_item_is_stranded_example =
    (accepted_item_is_stranded 0 late_item late_queue
      (remove_entry "s" 0 ∷ (begin_enqueue (some "running") "s" "m" ∷ (drain 0 ∷ []))) (omega arith)
      refl refl).0

-- A bus with one subscriber and a persist handler is closed.
closed_bus_is_shut_example :
    publish_bus as_bytes "a" 5
      (close_bus (set_persist_handler (subscribe "*" 1 (new_bus {Event = ℕ})).1))
    ≡ close_bus (set_persist_handler (subscribe "*" 1 (new_bus {Event = ℕ})).1)
closed_bus_is_shut_example =
    (closed_bus_is_shut as_bytes "a" "run.*" 5 0
      (set_persist_handler (subscribe "*" 1 (new_bus {Event = ℕ})).1)).0
