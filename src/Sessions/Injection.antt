-- ===== src/Sessions/Injection.antt =====
-- The injection queue (internal/server/session/injection_queue.go): text that is sent into a session.
-- A session queue is a pointer into `objects`, which its drainer goroutine keeps after the map has lost it.
-- Status lookups, clocks, the agent and the store's answers are arguments; what is sent and what the
-- audit store is told are logs.
pub mod Stranded
pub mod Accepted
use claude_plane.Base.{
  ℕ, suc, String, Bool, true, false, Option, some, none, List, [], ◌∷◌, ◌++◌, Map, lookup, insert,
  delete, if◌then◌else◌, ◌==◌, ltb, length, ◌||◌, str_eq,
}

pub record QueueItem : Type 0 where
  pub injection_id : String
  pub data_bytes : List ℕ
  pub delay_ms : ℕ
  pub queued_at : ℕ

-- A drainer reads its queue, or has left its loop, or has also removed its queue's entry.
pub data Drainer : Type 0 where
  draining : Drainer
  returned : Drainer
  gone : Drainer

-- `items` holds 32 at most; `done` tells whether that channel is closed.
pub record SessionQueue : Type 0 where
  pub items : List QueueItem
  pub done : Bool
  pub machine_id : String
  pub drainer : Drainer

pub data Audit : Type 0 where
  update_injection_delivered : String → Audit
  update_injection_failed : String → String → Audit

pub record InjectionQueue : Type 0 where
  pub queues : Map ℕ
  pub objects : ℕ → SessionQueue
  pub next_queue : ℕ
  pub sent : List (String × List ℕ)
  pub audits : List Audit

pub data EnqueueResult : Type 0 where
  accepted : EnqueueResult
  status_check_failed : EnqueueResult
  session_not_running : EnqueueResult
  queue_full : EnqueueResult

unfoldable pub new_injection_queue : InjectionQueue
new_injection_queue = record {
  queues = [];
  objects = λ p. record { items = []; done = false; machine_id = ""; drainer = gone };
  next_queue = 0;
  sent = [];
  audits = [];
}

unfoldable pub is_terminal_status : String → Bool
is_terminal_status status =
    str_eq status "completed" || (str_eq status "failed" || str_eq status "terminated")

unfoldable pub set_queue : ℕ → SessionQueue → InjectionQueue → InjectionQueue
set_queue p sq q = record q { objects = λ o. if o == p then sq else q.objects o }

unfoldable pub get_or_create_queue : String → String → InjectionQueue → ℕ × InjectionQueue
unfolding set_queue
get_or_create_queue session_id machine_id q = elim (lookup session_id q.queues) [
  | some p ↦ (p, q)
  | none ↦
      let p = q.next_queue in
      let sq : SessionQueue = record {
        items = [];
        done = false;
        machine_id = machine_id;
        drainer = draining;
      } in
      (p, set_queue p sq (record q { queues = insert session_id p q.queues; next_queue = suc p }))
]

-- Enqueue's send
unfoldable pub send_item : ℕ → QueueItem → InjectionQueue → EnqueueResult × InjectionQueue
unfolding set_queue
send_item p item q =
    let sq = q.objects p in
    if ltb (length sq.items) 32
    then (accepted, set_queue p (record sq { items = sq.items ++ (item ∷ []) }) q)
    else (queue_full, q)

-- Enqueue up to the send, with the session's status (none for an error of the store).
unfoldable pub enqueue_begin :
    Option String → String → String → InjectionQueue → (EnqueueResult × ℕ) × InjectionQueue
unfolding is_terminal_status get_or_create_queue
enqueue_begin none session_id machine_id q = ((status_check_failed, 0), q)
enqueue_begin (some status) session_id machine_id q =
    if is_terminal_status status
    then ((session_not_running, 0), q)
    else let (p, r) = get_or_create_queue session_id machine_id q in ((accepted, p), r)

unfoldable pub audit : Audit → InjectionQueue → InjectionQueue
audit a q = record q { audits = a ∷ q.audits }

-- What processItem finds: whether the item is stale, the session's status, whether `done` closes during
-- the delay, whether the agent is connected, and whether the send fails.
pub record Findings : Type 0 where
  pub stale : Bool
  pub status : Option String
  pub done_in_delay : Bool
  pub agent_connected : Bool
  pub send_err : Bool

-- processItem from its delay on
unfoldable pub deliver_item : Findings → String → QueueItem → InjectionQueue → InjectionQueue
unfolding audit
deliver_item f session_id item q =
    let d = record q { sent = (session_id, item.data_bytes) ∷ q.sent } in
    if (if ltb 0 item.delay_ms then f.done_in_delay else false)
    then audit (update_injection_failed item.injection_id "queue shutdown") q
    else if f.agent_connected
    then (if f.send_err then q else audit (update_injection_delivered item.injection_id) d)
    else q

unfoldable pub process_injection : Findings → String → QueueItem → InjectionQueue → InjectionQueue
unfolding deliver_item audit is_terminal_status
process_injection f session_id item q = if f.stale then q else elim f.status [
  | none ↦ q
  | some status ↦
      if is_terminal_status status
      then audit (update_injection_failed item.injection_id "session terminated") q
      else deliver_item f session_id item q
]

-- drainSession: a received item (in the main select or when the timer fires)
unfoldable pub take_item : Findings → String → ℕ → InjectionQueue → InjectionQueue
unfolding set_queue process_injection
take_item f session_id p q =
    let sq = q.objects p in
    elim sq.drainer [
      | draining ↦ elim sq.items [
        | [] ↦ q
        | item ∷ rest ↦
            process_injection f session_id item (set_queue p (record sq { items = rest }) q)
      ]
      | returned ↦ q
      | gone ↦ q
    ]

-- drainRemaining's loop
unfoldable pub fail_items : List QueueItem → InjectionQueue → InjectionQueue
unfolding audit
fail_items [] q = q
fail_items (item ∷ items) q =
    fail_items items (audit (update_injection_failed item.injection_id "queue shutdown") q)

-- drainSession: `done` is closed
unfoldable pub drain_remaining : ℕ → InjectionQueue → InjectionQueue
unfolding fail_items set_queue
drain_remaining p q =
    let sq = q.objects p in
    elim sq.drainer [
      | draining ↦
          if sq.done
          then fail_items sq.items (set_queue p (record sq { items = []; drainer = returned }) q)
          else q
      | returned ↦ q
      | gone ↦ q
    ]

-- drainSession: the timer fires and no item waits
unfoldable pub idle_return : ℕ → InjectionQueue → InjectionQueue
unfolding set_queue
idle_return p q =
    let sq = q.objects p in
    elim sq.drainer [
      | draining ↦ elim sq.items [
        | [] ↦ set_queue p (record sq { drainer = returned }) q
        | item ∷ rest ↦ q
      ]
      | returned ↦ q
      | gone ↦ q
    ]

-- removeQueue, when drainSession returns
unfoldable pub remove_queue : String → ℕ → InjectionQueue → InjectionQueue
unfolding set_queue
remove_queue session_id p q =
    let sq = q.objects p in
    elim sq.drainer [
      | draining ↦ q
      | returned ↦
          set_queue p (record sq { drainer = gone })
            (record q { queues = delete session_id q.queues })
      | gone ↦ q
    ]

-- handleSessionEvent for a session that exited or was terminated
unfoldable pub handle_session_event : String → InjectionQueue → InjectionQueue
unfolding set_queue
handle_session_event session_id q = elim (lookup session_id q.queues) [
  | none ↦ q
  | some p ↦ set_queue p (record (q.objects p) { done = true }) q
]

-- Close: every queue of the map
unfoldable pub close_queues : Map ℕ → InjectionQueue → InjectionQueue
unfolding set_queue
close_queues [] q = q
close_queues ((id, p) ∷ rest) q =
    close_queues rest (set_queue p (record (q.objects p) { done = true }) q)
