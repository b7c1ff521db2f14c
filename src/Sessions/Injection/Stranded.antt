-- ===== src/Sessions/Injection/Stranded.antt =====
-- An item that is sent after the drainer has returned (internal/server/session/injection_queue.go).
use claude_plane.Sessions.Injection.{
  process_injection, InjectionQueue, QueueItem, SessionQueue, Findings, Drainer, draining, returned,
  gone, set_queue, take_item, drain_remaining, idle_return, remove_queue, send_item, enqueue_begin,
  handle_session_event, close_queues, deliver_item, fail_items, audit, update_injection_failed,
}
use claude_plane.Base.{
  ℕ, String, Option, Bool, true, false, List, [], ◌∷◌, ◌++◌, arith, ◌≡◌, ◌<◌, ◌==◌, Bool-cases, inl,
  inr, refl, ◌⊎◌, ap, List-cases, ==→eq,
}

-- The sections of the callers, of the drainers, and of the event handler.
pub data InjectionAction : Type 0 where
  begin_enqueue : Option String → String → String → InjectionAction
  send : ℕ → QueueItem → InjectionAction
  take : Findings → String → ℕ → InjectionAction
  drain : ℕ → InjectionAction
  become_idle : ℕ → InjectionAction
  remove_entry : String → ℕ → InjectionAction
  session_event : String → InjectionAction
  close_all : InjectionAction

unfoldable pub injection_act : InjectionAction → InjectionQueue → InjectionQueue
unfolding enqueue_begin send_item take_item drain_remaining idle_return remove_queue
    handle_session_event close_queues
injection_act (begin_enqueue status session_id machine_id) q =
    (enqueue_begin status session_id machine_id q).1
injection_act (send p item) q = (send_item p item q).1
injection_act (take f session_id p) q = take_item f session_id p q
injection_act (drain p) q = drain_remaining p q
injection_act (become_idle p) q = idle_return p q
injection_act (remove_entry session_id p) q = remove_queue session_id p q
injection_act (session_event session_id) q = handle_session_event session_id q
injection_act close_all q = close_queues q.queues q

unfoldable pub injection_acts : List InjectionAction → InjectionQueue → InjectionQueue
unfolding injection_act
injection_acts [] q = q
injection_acts (a ∷ xs) q = injection_acts xs (injection_act a q)

-- Whether a drainer still reads its queue.
abbrev pub reads : Drainer → Bool
reads draining = true
reads returned = false
reads gone = false

-- The item stands in a list.
abbrev pub Waits : QueueItem → List QueueItem → Type 0
Waits item items = (xs : List QueueItem) × (ys : List QueueItem) × (items ≡ xs ++ (item ∷ ys))

-- The item waits in a queue whose drainer has returned.
pub record Stuck (p : ℕ) (item : QueueItem) (q : InjectionQueue) : Type 0 where
  pub old : p < q.next_queue
  pub unread : reads (q.objects p).drainer ≡ false
  pub waits : Waits item (q.objects p).items

-- A change of another queue, or one that keeps the drainer and the items.
pub set_queue-Stuck :
    (p o : ℕ) (item : QueueItem) (sq : SessionQueue) (q : InjectionQueue)
    → ((o == p) ≡ true → (reads sq.drainer ≡ false) × Waits item sq.items)
    → Stuck p item q
    → Stuck p item (set_queue o sq q)
unfolding set_queue
set_queue-Stuck p o item sq q same stuck = elim (Bool-cases (p == o)) [
  | inl e ↦
      let (r, w) = same (ground (arith, e)) in
      record { old = stuck.old; unread = rw e r; waits = rw e w }
  | inr e ↦ record { old = stuck.old; unread = rw e stuck.unread; waits = rw e stuck.waits }
]

-- What does not touch the queues at all.
abbrev Untouched : InjectionQueue → InjectionQueue → Type 0
Untouched q r = (r.objects ≡ q.objects) × (r.next_queue ≡ q.next_queue)

deliver_item-Untouched :
    (f : Findings) (id : String) (item : QueueItem) (q : InjectionQueue)
    → ((deliver_item f id item q).objects ≡ q.objects)
      × ((deliver_item f id item q).next_queue ≡ q.next_queue)
unfolding deliver_item audit
deliver_item-Untouched f id item q = (ground arith, ground arith)

process_injection-Untouched :
    (f : Findings) (id : String) (item : QueueItem) (q : InjectionQueue)
    → ((process_injection f id item q).objects ≡ q.objects)
      × ((process_injection f id item q).next_queue ≡ q.next_queue)
unfolding process_injection audit
process_injection-Untouched f id item q =
    let (o, n) = deliver_item-Untouched f id item q in (ground (arith, o), ground (arith, n))

fail_items-Untouched :
    (items : List QueueItem) (q : InjectionQueue)
    → ((fail_items items q).objects ≡ q.objects) × ((fail_items items q).next_queue ≡ q.next_queue)
unfolding fail_items audit
fail_items-Untouched [] q = (refl, refl)
fail_items-Untouched (item ∷ items) q =
    fail_items-Untouched items
      (audit (update_injection_failed item.injection_id "queue shutdown") q)

Untouched-Stuck :
    (p : ℕ) (item : QueueItem) (q r : InjectionQueue)
    → r.objects ≡ q.objects
    → r.next_queue ≡ q.next_queue
    → Stuck p item q
    → Stuck p item r
Untouched-Stuck p item q r o n stuck = record {
  old = rw n stuck.old;
  unread = rw o stuck.unread;
  waits = rw o stuck.waits;
}

process_injection-Stuck :
    (f : Findings) (id : String) (new : QueueItem) (p : ℕ) (item : QueueItem) (q : InjectionQueue)
    → Stuck p item q
    → Stuck p item (process_injection f id new q)
process_injection-Stuck f id new p item q stuck =
    let (o, n) = process_injection-Untouched f id new q in
    Untouched-Stuck p item q (process_injection f id new q) o n stuck

fail_items-Stuck :
    (items : List QueueItem) (p : ℕ) (item : QueueItem) (q : InjectionQueue)
    → Stuck p item q
    → Stuck p item (fail_items items q)
fail_items-Stuck items p item q stuck =
    let (o, n) = fail_items-Untouched items q in
    Untouched-Stuck p item q (fail_items items q) o n stuck

-- A queue that a drainer still reads is another one.
draining-other :
    (p o : ℕ) (item : QueueItem) (q : InjectionQueue)
    → Stuck p item q
    → (q.objects o).drainer ≡ draining
    → (o == p) ≡ false
draining-other p o item q stuck d = elim (Bool-cases (o == p)) [
  | inr e ↦ e
  | inl e ↦
      ground (arith, stuck.unread, ap reads d, ap (λ x. reads (q.objects x).drainer) (==→eq o p e))
]

pub Drainer-cases : (d : Drainer) → (d ≡ draining) ⊎ (d ≡ returned) ⊎ (d ≡ gone)
Drainer-cases draining = inl refl
Drainer-cases returned = inr (inl refl)
Drainer-cases gone = inr (inr refl)

pub other-set_queue-Stuck :
    (p o : ℕ) (item : QueueItem) (sq : SessionQueue) (q : InjectionQueue)
    → (o == p) ≡ false
    → Stuck p item q
    → Stuck p item (set_queue o sq q)
other-set_queue-Stuck p o item sq q e stuck =
    set_queue-Stuck p o item sq q (λ h. ground (arith, e, h)) stuck

pub take_item-Stuck :
    (f : Findings) (id : String) (o p : ℕ) (item : QueueItem) (q : InjectionQueue)
    → Stuck p item q
    → Stuck p item (take_item f id o q)
unfolding take_item
take_item-Stuck f id o p item q stuck = elim (Drainer-cases (q.objects o).drainer) [
  | inr (inl d) ↦ rw (d, take_item) stuck
  | inr (inr d) ↦ rw (d, take_item) stuck
  | inl d ↦ elim (List-cases (q.objects o).items) [
    | inl e ↦ rw (d, take_item, e) stuck
    | inr (x, rest, e) ↦
        rw (d, take_item, e)
          (process_injection-Stuck f id x p item _
            (other-set_queue-Stuck p o item _ q (draining-other p o item q stuck d) stuck))
  ]
]

pub drain_remaining-Stuck :
    (o p : ℕ) (item : QueueItem) (q : InjectionQueue)
    → Stuck p item q
    → Stuck p item (drain_remaining o q)
unfolding drain_remaining
drain_remaining-Stuck o p item q stuck = elim (Drainer-cases (q.objects o).drainer) [
  | inr (inl d) ↦ rw (d, drain_remaining) stuck
  | inr (inr d) ↦ rw (d, drain_remaining) stuck
  | inl d ↦ elim (Bool-cases (q.objects o).done) [
    | inr e ↦ rw (d, drain_remaining, e) stuck
    | inl e ↦
        rw (d, drain_remaining, e)
          (fail_items-Stuck (q.objects o).items p item _
            (other-set_queue-Stuck p o item _ q (draining-other p o item q stuck d) stuck))
  ]
]

pub idle_return-Stuck :
    (o p : ℕ) (item : QueueItem) (q : InjectionQueue)
    → Stuck p item q
    → Stuck p item (idle_return o q)
unfolding idle_return
idle_return-Stuck o p item q stuck = elim (Drainer-cases (q.objects o).drainer) [
  | inr (inl d) ↦ rw (d, idle_return) stuck
  | inr (inr d) ↦ rw (d, idle_return) stuck
  | inl d ↦ elim (List-cases (q.objects o).items) [
    | inl e ↦
        rw (d, idle_return, e)
          (other-set_queue-Stuck p o item _ q (draining-other p o item q stuck d) stuck)
    | inr (x, rest, e) ↦ rw (d, idle_return, e) stuck
  ]
]
