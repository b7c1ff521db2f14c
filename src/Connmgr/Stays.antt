-- ===== src/Connmgr/Stays.antt =====
-- Only its own end removes an agent (internal/server/connmgr/manager.go): the handlers of older streams
-- of the same machine leave a newer connection alone, however their calls come between.
use claude_plane.Connmgr.{
  ConnectionManager, emit, publish_event, cancel_agent, machine_connected, machine_stale,
  machine_disconnected, HealthInfo, Output, MachineEvent, update_machine_status, stop_existing,
  schedule_disconnect_event, after_removal, removed_stale, remove_if_same, register_swap,
  cancel_pending_disconnect, register_persist, get_agent, disconnect, disconnect_if_match,
  sweep_agent, update_health, grace_elapsed, swap_agent,
}
use claude_plane.Base.{
  Map, ◌==◌, ℕ, String, arith, eq_iff, inl, inr, some, true, false, List, [], ◌∷◌, All, ◌≢◌, ◌≡◌,
  Bool, Option-cases, Bool-cases, lookup, delete, insert, lookup-insert_self, lookup-insert,
  lookup-delete, refl,
}

-- The calls, cut where they leave a lock.
pub data Action : Type 0 where
  swap : String → ℕ → Action
  persist : String → ℕ → Bool → Bool → Action
  leave : String → Action
  leave_if_match : String → ℕ → Action
  sweep_one : ℕ → Action
  report_health : ℕ → HealthInfo → Action
  elapse : String → Action

unfoldable pub act : Action → ConnectionManager → ConnectionManager
unfolding register_swap register_persist disconnect disconnect_if_match sweep_agent update_health
    grace_elapsed
act (swap m p) cm = register_swap m p cm
act (persist m p u s) cm = (register_persist m p u s cm).1
act (leave m) cm = disconnect m cm
act (leave_if_match m p) cm = (disconnect_if_match m p cm).1
act (sweep_one p) cm = sweep_agent p cm
act (report_health p h) cm = update_health p h cm
act (elapse m) cm = grace_elapsed m cm

unfoldable pub acts : List Action → ConnectionManager → ConnectionManager
unfolding act
acts [] cm = cm
acts (a ∷ xs) cm = acts xs (act a cm)

-- A call that is not about the connection p of machine m: another agent's, or an older or
-- newer stream's that does not take the machine over.
abbrev pub Foreign : String → ℕ → Action → Type 0
Foreign m p (swap n q) = n ≢ m
Foreign m p (persist n q u s) = q ≢ p
Foreign m p (leave n) = n ≢ m
Foreign m p (leave_if_match n q) = q ≢ p
Foreign m p (sweep_one q) = q ≢ p
Foreign m p (report_health q h) = Unit
Foreign m p (elapse n) = Unit

agents-emit : (o : Output) (cm : ConnectionManager) → (emit o cm).agents ≡ cm.agents
unfolding emit
agents-emit o cm = refl

agents-publish_event :
    (k : MachineEvent) (m : String) (cm : ConnectionManager)
    → (publish_event k m cm).agents ≡ cm.agents
unfolding publish_event emit
agents-publish_event k m cm = ground arith

agents-cancel_agent : (p : ℕ) (cm : ConnectionManager) → (cancel_agent p cm).agents ≡ cm.agents
unfolding cancel_agent emit
agents-cancel_agent p cm = ground arith

agents-cancel_pending_disconnect :
    (m : String) (cm : ConnectionManager) → (cancel_pending_disconnect m cm).agents ≡ cm.agents
unfolding cancel_pending_disconnect emit
agents-cancel_pending_disconnect m cm = elim (Option-cases (lookup m cm.pending_disconnects)) [
  | inl e ↦ rw (e, cancel_pending_disconnect) refl
  | inr (t, e) ↦ rw (e, cancel_pending_disconnect) refl
]

agents-stop_existing :
    (m : String) (cm : ConnectionManager) → (stop_existing m cm).agents ≡ cm.agents
unfolding stop_existing emit
agents-stop_existing m cm = elim (Option-cases (lookup m cm.pending_disconnects)) [
  | inl e ↦ rw (e, stop_existing) refl
  | inr (t, e) ↦ rw (e, stop_existing) refl
]

agents-after_removal :
    (m : String) (cm : ConnectionManager) → (after_removal m cm).agents ≡ cm.agents
unfolding after_removal schedule_disconnect_event emit
agents-after_removal m cm =
    agents-stop_existing m (emit (update_machine_status m "disconnected") cm)

agents-swap_agent :
    (m : String) (p : ℕ) (cm : ConnectionManager)
    → (swap_agent m p cm).agents ≡ insert m p cm.agents
unfolding swap_agent
agents-swap_agent m p cm = elim (Option-cases (lookup m cm.agents)) [
  | inl e ↦ rw (e, swap_agent) refl
  | inr (old, e) ↦
      rw (e, swap_agent) (agents-cancel_agent old (record cm { agents = insert m p cm.agents }))
]

agents-register_swap :
    (m : String) (p : ℕ) (cm : ConnectionManager)
    → (register_swap m p cm).agents ≡ insert m p cm.agents
unfolding register_swap
agents-register_swap m p cm =
    rw
      (
        agents-swap_agent m p (cancel_pending_disconnect m cm),
        agents-cancel_pending_disconnect m cm,
      )
      refl

remove_if_same-keeps :
    (m n : String) (p q : ℕ) (cm : ConnectionManager)
    → q ≢ p
    → lookup m cm.agents ≡ some p
    → lookup m (remove_if_same n q cm).agents ≡ some p
unfolding remove_if_same
remove_if_same-keeps m n p q cm other here = elim (Option-cases (lookup n cm.agents)) [
  | inl e ↦ rw (e, remove_if_same) here
  | inr (r, e) ↦ rw (e, remove_if_same) (ground (arith, lookup-delete n m cm.agents, eq_iff n m))
]

agents-removed_stale :
    (n : String) (q : ℕ) (cm : ConnectionManager)
    → (removed_stale n q cm).agents ≡ delete n cm.agents
unfolding removed_stale emit
agents-removed_stale n q cm =
    rw (agents-publish_event machine_stale n _, agents-cancel_agent q _) refl

-- Deleting another machine's entry, or one that is not this agent's, leaves it.
delete-keeps :
    (m n : String) (p q r : ℕ) (agents : Map ℕ)
    → q ≢ p
    → (r == q) ≡ true
    → lookup n agents ≡ some r
    → lookup m agents ≡ some p
    → lookup m (delete n agents) ≡ some p
delete-keeps m n p q r agents other same found here =
    ground (arith, lookup-delete n m agents, eq_iff n m)

disconnect_if_match-keeps :
    (m n : String) (p q : ℕ) (cm : ConnectionManager)
    → q ≢ p
    → lookup m cm.agents ≡ some p
    → lookup m (disconnect_if_match n q cm).1.agents ≡ some p
unfolding disconnect_if_match
disconnect_if_match-keeps m n p q cm other here = elim (Option-cases (lookup n cm.agents)) [
  | inl e ↦ rw (e, disconnect_if_match) here
  | inr (r, e) ↦ elim (Bool-cases (r == q)) [
    | inr f ↦ rw (e, disconnect_if_match, f) here
    | inl f ↦
        rw (e, disconnect_if_match, f, agents-after_removal n _)
          (delete-keeps m n p q r cm.agents other f e here)
  ]
]

sweep_agent-keeps :
    (m : String) (p q : ℕ) (cm : ConnectionManager)
    → q ≢ p
    → lookup m cm.agents ≡ some p
    → lookup m (sweep_agent q cm).agents ≡ some p
unfolding sweep_agent
sweep_agent-keeps m p q cm other here =
    let n = (cm.objects q).machine_id in
    elim (Option-cases (lookup n cm.agents)) [
      | inl e ↦ rw (e, sweep_agent) here
      | inr (r, e) ↦ elim (Bool-cases (r == q)) [
        | inr f ↦ rw (e, sweep_agent, f) here
        | inl f ↦
            rw (e, sweep_agent, f, agents-removed_stale n q cm)
              (delete-keeps m n p q r cm.agents other f e here)
      ]
    ]

act-keeps :
    (m : String) (p : ℕ) (a : Action) (cm : ConnectionManager)
    → Foreign m p a
    → lookup m cm.agents ≡ some p
    → lookup m (act a cm).agents ≡ some p
unfolding act emit register_persist disconnect update_health grace_elapsed removed_stale
act-keeps m p (swap n q) cm other here =
    rw (agents-register_swap n q cm) (ground (arith, lookup-insert n m q cm.agents, eq_iff n m))
act-keeps m p (persist n q true s) cm other here = (remove_if_same-keeps m n p q _ other here)
act-keeps m p (persist n q false true) cm other here = (remove_if_same-keeps m n p q _ other here)
act-keeps m p (persist n q false false) cm other here =
    rw (agents-publish_event machine_connected n _) here
act-keeps m p (leave n) cm other here =
    rw (agents-after_removal n _) (ground (arith, lookup-delete n m cm.agents, eq_iff n m))
act-keeps m p (leave_if_match n q) cm other here = disconnect_if_match-keeps m n p q cm other here
act-keeps m p (sweep_one q) cm other here = sweep_agent-keeps m p q cm other here
act-keeps m p (report_health q h) cm other here = here
act-keeps m p (elapse n) cm other here = rw (agents-publish_event machine_disconnected n _) here

acts-keeps :
    (m : String) (p : ℕ) (xs : List Action) (cm : ConnectionManager)
    → All (Foreign m p) xs
    → lookup m cm.agents ≡ some p
    → lookup m (acts xs cm).agents ≡ some p
unfolding acts
acts-keeps m p [] cm others here = here
acts-keeps m p (a ∷ xs) cm others here =
    acts-keeps m p xs (act a cm) others.1 (act-keeps m p a cm others.0 here)

-- Once Register has put an agent in place, it stays the machine's agent under any sequence of critical
-- sections of other calls: no Register or Disconnect for the machine, and no roll-back,
-- DisconnectIfMatch or sweep of this very agent.
pub registered_agent_stays :
    (m : String) (p : ℕ) (cm : ConnectionManager) (xs : List Action)
    → All (Foreign m p) xs
    → get_agent m (acts xs (register_swap m p cm)) ≡ some p
unfolding get_agent
registered_agent_stays m p cm xs others =
    acts-keeps m p xs (register_swap m p cm) others
      (rw (agents-register_swap m p cm) (lookup-insert_self m p cm.agents))
