-- ===== src/Sessions/Injection/Accepted.antt =====
-- Items that Enqueue accepted (internal/server/session/injection_queue.go).
use claude_plane.Sessions.Injection.Stranded.{
  take_item-Stuck, drain_remaining-Stuck, idle_return-Stuck, set_queue-Stuck, other-set_queue-Stuck,
  Drainer-cases, Stuck, Waits, reads, InjectionAction, begin_enqueue, send, take, drain,
  become_idle, remove_entry, session_event, close_all, injection_act, injection_acts,
}
use claude_plane.Sessions.Injection.{
  InjectionQueue, QueueItem, SessionQueue, set_queue, remove_queue, send_item, enqueue_begin,
  get_or_create_queue, handle_session_event, close_queues, accepted, EnqueueResult,
}
use claude_plane.Base.{
  ℕ, String, Option, some, none, false, List, [], ◌∷◌, ◌++◌, arith, ◌≡◌, ◌<◌, if_rule, Bool-cases,
  Option-cases, inl, inr, refl, ltb, length, lookup, Map, ==→eq, subst, ap, ◌∙◌, sym, append_assoc,
}

Waits-append :
    (item new : QueueItem) (items : List QueueItem)
    → Waits item items
    → Waits item (items ++ (new ∷ []))
Waits-append item new items (xs, ys, e) =
    (xs, ys ++ (new ∷ []), ap (λ l. l ++ (new ∷ [])) e ∙ append_assoc xs (item ∷ ys) (new ∷ []))

-- A change of a queue that keeps its drainer and its items.
kept-set_queue-Stuck :
    (p o : ℕ) (item : QueueItem) (sq : SessionQueue) (q : InjectionQueue)
    → sq.drainer ≡ (q.objects o).drainer
    → sq.items ≡ (q.objects o).items
    → Stuck p item q
    → Stuck p item (set_queue o sq q)
kept-set_queue-Stuck p o item sq q d i stuck =
    set_queue-Stuck p o item sq q
      (λ e. (
        ap reads d
            ∙ subst (λ x. reads (q.objects x).drainer ≡ false) (sym (==→eq o p e)) stuck.unread,
        rw i (subst (λ x. Waits item (q.objects x).items) (sym (==→eq o p e)) stuck.waits),
      ))
      stuck

send_item-Stuck :
    (o p : ℕ) (new item : QueueItem) (q : InjectionQueue)
    → Stuck p item q
    → Stuck p item (send_item o new q).1
unfolding send_item
send_item-Stuck o p new item q stuck = elim (Bool-cases (ltb (length (q.objects o).items) 32)) [
  | inr full ↦ rw (send_item, full) stuck
  | inl room ↦
      rw (send_item, room)
        (set_queue-Stuck p o item _ q
          (λ e. (
            subst (λ x. reads (q.objects x).drainer ≡ false) (sym (==→eq o p e)) stuck.unread,
            Waits-append item new (q.objects o).items
                (subst (λ x. Waits item (q.objects x).items) (sym (==→eq o p e)) stuck.waits),
          ))
          stuck)
]

remove_queue-Stuck :
    (id : String) (o p : ℕ) (item : QueueItem) (q : InjectionQueue)
    → Stuck p item q
    → Stuck p item (remove_queue id o q)
unfolding remove_queue
remove_queue-Stuck id o p item q stuck = elim (Drainer-cases (q.objects o).drainer) [
  | inl d ↦ rw (d, remove_queue) stuck
  | inr (inr d) ↦ rw (d, remove_queue) stuck
  | inr (inl d) ↦
      rw (d, remove_queue)
        (set_queue-Stuck p o item _ _
          (λ e. (refl, subst (λ x. Waits item (q.objects x).items) (sym (==→eq o p e)) stuck.waits))
          (record { old = stuck.old; unread = stuck.unread; waits = stuck.waits }))
]

handle_session_event-Stuck :
    (id : String) (p : ℕ) (item : QueueItem) (q : InjectionQueue)
    → Stuck p item q
    → Stuck p item (handle_session_event id q)
unfolding handle_session_event
handle_session_event-Stuck id p item q stuck = elim (Option-cases (lookup id q.queues)) [
  | inl e ↦ rw (e, handle_session_event) stuck
  | inr (o, e) ↦ rw (e, handle_session_event) (kept-set_queue-Stuck p o item _ q refl refl stuck)
]

close_queues-Stuck :
    (queues : Map ℕ) (p : ℕ) (item : QueueItem) (q : InjectionQueue)
    → Stuck p item q
    → Stuck p item (close_queues queues q)
unfolding close_queues
close_queues-Stuck [] p item q stuck = stuck
close_queues-Stuck ((id, o) ∷ rest) p item q stuck =
    close_queues-Stuck rest p item _ (kept-set_queue-Stuck p o item _ q refl refl stuck)

get_or_create_queue-Stuck :
    (id m : String) (p : ℕ) (item : QueueItem) (q : InjectionQueue)
    → Stuck p item q
    → Stuck p item (get_or_create_queue id m q).1
unfolding get_or_create_queue
get_or_create_queue-Stuck id m p item q stuck = elim (Option-cases (lookup id q.queues)) [
  | inr (o, e) ↦ rw (e, get_or_create_queue) stuck
  | inl e ↦
      rw (e, get_or_create_queue)
        (other-set_queue-Stuck p q.next_queue item _ _ (ground (arith, stuck.old))
          (record { old = ground (arith, stuck.old); unread = stuck.unread; waits = stuck.waits }))
]

enqueue_begin-Stuck :
    (status : Option String) (id m : String) (p : ℕ) (item : QueueItem) (q : InjectionQueue)
    → Stuck p item q
    → Stuck p item (enqueue_begin status id m q).1
unfolding enqueue_begin
enqueue_begin-Stuck none id m p item q stuck = stuck
enqueue_begin-Stuck (some status) id m p item q stuck =
    if_rule (λ (r : (EnqueueResult × ℕ) × InjectionQueue). Stuck p item r.1) _ _ _ (λ e. stuck)
      (λ e. get_or_create_queue-Stuck id m p item q stuck)

injection_act-Stuck :
    (a : InjectionAction) (p : ℕ) (item : QueueItem) (q : InjectionQueue)
    → Stuck p item q
    → Stuck p item (injection_act a q)
unfolding injection_act
injection_act-Stuck (begin_enqueue s i m) p item q stuck = enqueue_begin-Stuck s i m p item q stuck
injection_act-Stuck (send o new) p item q stuck = send_item-Stuck o p new item q stuck
injection_act-Stuck (take f id o) p item q stuck = take_item-Stuck f id o p item q stuck
injection_act-Stuck (drain o) p item q stuck = drain_remaining-Stuck o p item q stuck
injection_act-Stuck (become_idle o) p item q stuck = idle_return-Stuck o p item q stuck
injection_act-Stuck (remove_entry id o) p item q stuck = remove_queue-Stuck id o p item q stuck
injection_act-Stuck (session_event id) p item q stuck = handle_session_event-Stuck id p item q stuck
injection_act-Stuck close_all p item q stuck = close_queues-Stuck q.queues p item q stuck

injection_acts-Stuck :
    (xs : List InjectionAction) (p : ℕ) (item : QueueItem) (q : InjectionQueue)
    → Stuck p item q
    → Stuck p item (injection_acts xs q)
unfolding injection_acts
injection_acts-Stuck [] p item q stuck = stuck
injection_acts-Stuck (a ∷ xs) p item q stuck =
    injection_acts-Stuck xs p item (injection_act a q) (injection_act-Stuck a p item q stuck)

sent-Stuck :
    (p : ℕ) (item : QueueItem) (q : InjectionQueue)
    → p < q.next_queue
    → reads (q.objects p).drainer ≡ false
    → (send_item p item q).0 ≡ accepted
    → Stuck p item (send_item p item q).1
unfolding send_item set_queue
sent-Stuck p item q old unread ok = elim (Bool-cases (ltb (length (q.objects p).items) 32)) [
  | inr full ↦ absurd (ground (arith, send_item, full, ok))
  | inl room ↦
      rw (send_item, room)
        (record {
          old = old;
          unread = ground (arith, unread);
          waits = ((q.objects p).items, [], ground arith);
        })
]

-- An item whose send was accepted by a queue that its drainer had already left (a caller of Enqueue got
-- hold of the queue before) stays in that queue, which no drainer reads, whatever the callers, drainers
-- and events do afterwards.
pub accepted_item_is_stranded :
    (p : ℕ) (item : QueueItem) (q : InjectionQueue) (xs : List InjectionAction)
    → p < q.next_queue
    → reads (q.objects p).drainer ≡ false
    → (send_item p item q).0 ≡ accepted
    → (reads ((injection_acts xs (send_item p item q).1).objects p).drainer ≡ false)
      × Waits item ((injection_acts xs (send_item p item q).1).objects p).items
accepted_item_is_stranded p item q xs old unread ok =
    let stuck =
      injection_acts-Stuck xs p item (send_item p item q).1 (sent-Stuck p item q old unread ok) in
    (stuck.unread, stuck.waits)
