-- ===== src/Connmgr.antt =====
-- ConnectionManager (internal/server/connmgr/manager.go): the agents that are connected.
-- An agent is a pointer into `objects`, so that the comparison of pointers is the source's. A method
-- that takes a lock twice is written as its critical sections, which other calls may come between.
-- The store's answers, the clock and the state of a stream's context are arguments.
pub mod Stays
use claude_plane.Base.{
  ℕ, suc, String, Bool, true, false, Option, some, none, List, [], ◌∷◌, Map, lookup, insert, delete,
  if◌then◌else◌, ◌==◌,
}

pub record HealthInfo : Type 0 where
  pub cpu_cores : ℕ
  pub memory_total_mb : ℕ
  pub memory_used_mb : ℕ
  pub active_sessions : ℕ
  pub max_sessions : ℕ

-- Whether Cancel is set stands for the function; Ctx is asked through an argument.
pub record ConnectedAgent : Type 0 where
  pub machine_id : String
  pub registered_at : ℕ
  pub max_sessions : ℕ
  pub home_dir : String
  pub has_cancel : Bool
  pub health : Option HealthInfo

pub record AgentInfo : Type 0 where
  pub machine_id : String
  pub status : String
  pub max_sessions : ℕ
  pub connected_at : ℕ
  pub health : Option HealthInfo

pub data MachineEvent : Type 0 where
  machine_connected : MachineEvent
  machine_disconnected : MachineEvent
  machine_stale : MachineEvent

-- What goes out: to the streams' cancel functions, the store, the timers and the publisher.
pub data Output : Type 0 where
  call_cancel : ℕ → Output
  upsert_machine : String → ℕ → String → Output
  update_machine_status : String → String → Output
  start_timer : ℕ → Output
  stop_timer : ℕ → Output
  published : MachineEvent → String → String → Output

pub data RegisterResult : Type 0 where
  registered : RegisterResult
  upsert_failed : RegisterResult
  status_failed : RegisterResult

-- `publisher` tells whether a publisher is set; `display_name` is the store's optional lookup. A timer
-- is a number, new for each time.AfterFunc.
pub record ConnectionManager : Type 0 where
  pub agents : Map ℕ
  pub objects : ℕ → ConnectedAgent
  pub publisher : Bool
  pub display_name : Option (String → String)
  pub pending_disconnects : Map ℕ
  pub next_timer : ℕ
  pub outputs : List Output

unfoldable pub new_connection_manager :
    Option (String → String) → (ℕ → ConnectedAgent) → ConnectionManager
new_connection_manager names objects = record {
  agents = [];
  objects = objects;
  publisher = false;
  display_name = names;
  pending_disconnects = [];
  next_timer = 0;
  outputs = [];
}

unfoldable pub emit : Output → ConnectionManager → ConnectionManager
emit o cm = record cm { outputs = o ∷ cm.outputs }

unfoldable pub set_publisher : ConnectionManager → ConnectionManager
set_publisher cm = record cm { publisher = true }

unfoldable pub update_health : ℕ → HealthInfo → ConnectionManager → ConnectionManager
update_health p h cm = record cm {
  objects = λ q. if q == p then record (cm.objects p) { health = some h } else cm.objects q;
}

unfoldable pub machine_display_name : String → ConnectionManager → String
machine_display_name machine_id cm = elim cm.display_name [
  | none ↦ ""
  | some name_of ↦ name_of machine_id
]

unfoldable pub publish_event : MachineEvent → String → ConnectionManager → ConnectionManager
unfolding emit machine_display_name
publish_event kind machine_id cm =
    if cm.publisher
    then emit (published kind machine_id (machine_display_name machine_id cm)) cm
    else cm

unfoldable pub cancel_pending_disconnect : String → ConnectionManager → ConnectionManager
unfolding emit
cancel_pending_disconnect machine_id cm = elim (lookup machine_id cm.pending_disconnects) [
  | none ↦ cm
  | some t ↦
      emit (stop_timer t)
        (record cm { pending_disconnects = delete machine_id cm.pending_disconnects })
]

unfoldable pub stop_existing : String → ConnectionManager → ConnectionManager
unfolding emit
stop_existing machine_id cm = elim (lookup machine_id cm.pending_disconnects) [
  | none ↦ cm
  | some t ↦ emit (stop_timer t) cm
]

unfoldable pub schedule_disconnect_event : String → ConnectionManager → ConnectionManager
unfolding emit stop_existing
schedule_disconnect_event machine_id cm =
    let c = stop_existing machine_id cm in
    emit (start_timer c.next_timer) (record c {
      pending_disconnects = insert machine_id c.next_timer c.pending_disconnects;
      next_timer = suc c.next_timer;
    })

-- The function that the timer of scheduleDisconnectEvent runs.
unfoldable pub grace_elapsed : String → ConnectionManager → ConnectionManager
unfolding publish_event
grace_elapsed machine_id cm =
    publish_event machine_disconnected machine_id
      (record cm { pending_disconnects = delete machine_id cm.pending_disconnects })

unfoldable pub cancel_agent : ℕ → ConnectionManager → ConnectionManager
unfolding emit
cancel_agent p cm = if (cm.objects p).has_cancel then emit (call_cancel p) cm else cm

-- Register: the replacement under the lock, and the call of the old agent's Cancel.
unfoldable pub swap_agent : String → ℕ → ConnectionManager → ConnectionManager
unfolding cancel_agent
swap_agent machine_id p cm = elim (lookup machine_id cm.agents) [
  | none ↦ record cm { agents = insert machine_id p cm.agents }
  | some old ↦ cancel_agent old (record cm { agents = insert machine_id p cm.agents })
]

-- Register, up to there.
unfoldable pub register_swap : String → ℕ → ConnectionManager → ConnectionManager
unfolding cancel_pending_disconnect swap_agent
register_swap machine_id p cm = swap_agent machine_id p (cancel_pending_disconnect machine_id cm)

-- if cm.agents[machineID] == agent { delete(cm.agents, machineID) }
unfoldable pub remove_if_same : String → ℕ → ConnectionManager → ConnectionManager
remove_if_same machine_id p cm = elim (lookup machine_id cm.agents) [
  | none ↦ cm
  | some q ↦ if q == p then record cm { agents = delete machine_id cm.agents } else cm
]

-- Register's writes to the store, with its answers (true for an error) and the roll-back.
unfoldable pub register_persist :
    String
    → ℕ
    → (upsert_err status_err : Bool) → ConnectionManager
    → RegisterResult × ConnectionManager
unfolding emit remove_if_same publish_event
register_persist machine_id p upsert_err status_err cm =
    let a = cm.objects p in
    let c = emit (upsert_machine machine_id a.max_sessions a.home_dir) cm in
    if upsert_err
    then (upsert_failed, remove_if_same machine_id p c)
    else let d = emit (update_machine_status machine_id "connected") c in
      if status_err
      then (status_failed, remove_if_same machine_id p d)
      else (registered, publish_event machine_connected machine_id d)

unfoldable pub register_agent :
    String
    → ℕ
    → (upsert_err status_err : Bool) → ConnectionManager
    → RegisterResult × ConnectionManager
unfolding register_swap register_persist
register_agent machine_id p upsert_err status_err cm =
    register_persist machine_id p upsert_err status_err (register_swap machine_id p cm)

-- What follows a removal: the write of the status, whose error is only logged, and the timer.
unfoldable pub after_removal : String → ConnectionManager → ConnectionManager
unfolding emit schedule_disconnect_event
after_removal machine_id cm =
    schedule_disconnect_event machine_id (emit (update_machine_status machine_id "disconnected") cm)

unfoldable pub disconnect : String → ConnectionManager → ConnectionManager
unfolding after_removal
disconnect machine_id cm =
    after_removal machine_id (record cm { agents = delete machine_id cm.agents })

unfoldable pub disconnect_if_match : String → ℕ → ConnectionManager → Bool × ConnectionManager
unfolding after_removal
disconnect_if_match machine_id p cm = elim (lookup machine_id cm.agents) [
  | none ↦ (false, cm)
  | some q ↦
      if q == p
      then (true, after_removal machine_id (record cm { agents = delete machine_id cm.agents }))
      else (false, cm)
]

-- sweepStaleAgents, first loop: the agents whose context is done.
unfoldable pub stale_agents : (ℕ → Bool) → Map ℕ → List ℕ
stale_agents ctx_done [] = []
stale_agents ctx_done ((id, p) ∷ rest) =
    if ctx_done p then p ∷ stale_agents ctx_done rest else stale_agents ctx_done rest

unfoldable pub removed_stale : String → ℕ → ConnectionManager → ConnectionManager
unfolding emit cancel_agent publish_event
removed_stale machine_id p cm =
    let c = cancel_agent p (record cm { agents = delete machine_id cm.agents }) in
    publish_event machine_stale machine_id
      (emit (update_machine_status machine_id "disconnected") c)

-- second loop, one agent
unfoldable pub sweep_agent : ℕ → ConnectionManager → ConnectionManager
unfolding removed_stale
sweep_agent p cm =
    let machine_id = (cm.objects p).machine_id in
    elim (lookup machine_id cm.agents) [
      | none ↦ cm
      | some q ↦ if q == p then removed_stale machine_id p cm else cm
    ]

unfoldable pub sweep_agents : List ℕ → ConnectionManager → ConnectionManager
unfolding sweep_agent
sweep_agents [] cm = cm
sweep_agents (p ∷ ps) cm = sweep_agents ps (sweep_agent p cm)

unfoldable pub sweep_stale_agents : (ℕ → Bool) → ConnectionManager → ConnectionManager
unfolding stale_agents sweep_agents
sweep_stale_agents ctx_done cm = sweep_agents (stale_agents ctx_done cm.agents) cm

unfoldable pub get_agent : String → ConnectionManager → Option ℕ
get_agent machine_id cm = lookup machine_id cm.agents

unfoldable pub agent_info : ConnectedAgent → AgentInfo
agent_info a = record {
  machine_id = a.machine_id;
  status = "connected";
  max_sessions = a.max_sessions;
  connected_at = a.registered_at;
  health = a.health;
}

unfoldable pub list_agents : Map ℕ → ConnectionManager → List AgentInfo
unfolding agent_info
list_agents [] cm = []
list_agents ((id, p) ∷ rest) cm = agent_info (cm.objects p) ∷ list_agents rest cm
