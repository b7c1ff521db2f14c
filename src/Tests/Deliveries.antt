-- ===== src/Tests/Deliveries.antt =====
-- Webhooks, filters and log records at concrete inputs (internal/server/event, internal/bridge,
-- internal/server/logging).
use claude_plane.Base.{
  insert, Map, Option, String, Bool, true, false, List, [], ◌∷◌, ◌++◌, ◌≡◌, ◌≤◌, ◌+◌, ◌↔◌, some,
  refl, arith, lookup, length, Option, All, ℕ, none, eq_iff, ◌*◌, subst,
}
use claude_plane.Logs.Broadcaster.{LogFilter, LogRecord, new_log_broadcaster}
use claude_plane.Logs.Broadcaster.Safe.{
  BroadcastAction, subscribes, unsubscribes, broadcasts, broadcast_acts, broadcaster_is_safe,
  WithinBuffer, count_number, count_pointer,
}
use claude_plane.Bridge.{
  StateData, new_state_store, mark_processed, is_processed, begin_save, finish_save, set_cursor,
  load,
}
use claude_plane.Bridge.Survives.{
  StateAction, restarts, sets_cursor, prunes, marks, begins_save, finishes_save, state_act,
  state_acts, ReadsBack, processed_survives,
}
use claude_plane.Webhooks.{
  WebhookDelivery, pending, Deliverer, RetryAnswers, answered, Clock, is_pending, retry_row,
  deliver, record_failure, is_due, next_retry_time, retry_backoff, backoff_base,
}
use claude_plane.Webhooks.Polls.{
  SendAction, handler_sends, handler_updates, lists_pending, retries_row, retry_updates, send_acts,
  send_act, created, store_row, handler_send, handler_update, list_row, retry_send, retry_update,
}
use claude_plane.Webhooks.Budget.{posts_bounded}
use claude_plane.Webhooks.Schedule.{Poll, polls}
use claude_plane.Webhooks.Settled.{delivery_settles}
use claude_plane.Filters.{Text, Filters, EventData, match_event}
use claude_plane.Filters.Passes.{match_event_iff, Passes}
use claude_plane.Logs.{new_tee_handler}
use claude_plane.Logs.Writer.{
  TeeAction, handles, receives, closes, starts_drain, ends_drain, tee_acts, accepted, concat,
  accepted_records_kept,
}

abbrev at_second : ℕ → Clock
at_second n = record { now = n * 1000000000; random = 7 }

-- The server answers 500 to each attempt.
abbrev refused : ℕ → RetryAnswers
refused n = record {
  webhook_listed = true;
  event_found = true;
  clock = at_second n;
  attempt = answered 500 "HTTP 500";
  update_fails = false;
}

abbrev new_delivery : WebhookDelivery
new_delivery = record {
  delivery_id = "d";
  webhook_id = "w";
  event_id = "e";
  status = pending;
  attempts = 0;
  response_code = 0;
  last_error = "";
  next_retry_at = none;
}

-- The loop lists the new row and sends it, Handler's goroutine sends it too, the loop stores its attempt
-- first, and then come the attempts of three later polls.
abbrev both_send : List SendAction
both_send =
    lists_pending 1000000000
    ∷ handler_sends (at_second 2) (answered 500 "HTTP 500")
    ∷ retries_row (refused 3)
    ∷ retry_updates false
    ∷ handler_updates false
    ∷ lists_pending 20000000000
    ∷ retries_row (refused 21)
    ∷ retry_updates false
    ∷ lists_pending 30000000000
    ∷ retries_row (refused 31)
    ∷ retry_updates false
    ∷ []

posts_bounded_example :
    (send_acts both_send (created new_delivery)).posts
    ≤ 6 + (send_acts both_send (created new_delivery)).failed_updates
posts_bounded_example = posts_bounded both_send new_delivery refl

-- More than maxDeliveryAttempts requests, and no update that fails.
both_send_posts :
    ((send_acts both_send (created new_delivery)).posts ≡ 4)
    × ((send_acts both_send (created new_delivery)).failed_updates ≡ 0)
unfolding send_acts send_act store_row handler_send handler_update list_row retry_send retry_update
    retry_row deliver record_failure is_due next_retry_time retry_backoff backoff_base
both_send_posts = (refl, refl)

-- Handler's attempt is recorded.
abbrev first_delivery : WebhookDelivery
first_delivery = record new_delivery {
  attempts = 1;
  response_code = 500;
  last_error = "HTTP 500";
  next_retry_at = some 1000000000;
}

abbrev one_row : Deliverer
one_row = record { rows = ("d", first_delivery) ∷ []; posts = "d" ∷ [] }

abbrev poll_at : ℕ → Poll
poll_at n = record { listed_at = n * 1000000000; answers = refused (n + 1) }

-- Polls at uneven times.
abbrev poll_times : List Poll
poll_times = poll_at 10 ∷ poll_at 45 ∷ poll_at 60 ∷ poll_at 91 ∷ poll_at 140 ∷ poll_at 200 ∷ []

delivery_settles_example :
    (after : WebhookDelivery) × (lookup "d" (polls "d" poll_times one_row).rows ≡ some after)
    × (is_pending after.status ≡ false)
unfolding lookup
delivery_settles_example =
    delivery_settles "d" poll_times 0 first_delivery one_row refl refl (omega arith) (omega arith)
      (
        (refl, refl, refl),
        (
          (refl, refl, refl),
          (
            (refl, refl, refl),
            ((refl, refl, refl), ((refl, refl, refl), ((refl, refl, refl), tt))),
          ),
        ),
      )
      (
        omega arith,
        omega arith,
        (
          omega arith,
          omega arith,
          (
            omega arith,
            omega arith,
            (omega arith, omega arith, (omega arith, omega arith, (omega arith, omega arith, tt))),
          ),
        ),
      )
      (omega arith)

-- Only files below "a/".
abbrev below_a : Filters
below_a = record {
  branches = [];
  labels = [];
  check_names = [];
  conclusions = [];
  paths = (97 ∷ 47 ∷ 42 ∷ 42 ∷ []) ∷ [];
  authors_ignore = [];
  review_states = [];
  tag_patterns = [];
}

abbrev changed_a : EventData
changed_a = record {
  base_branch = [];
  labels = [];
  check_name = [];
  conclusion = [];
  changed_files = (97 ∷ 47 ∷ 98 ∷ []) ∷ [];
  author = [];
  review_state = [];
  tag = [];
}

abbrev never_matches : Text → Text → Bool
never_matches pattern text = false

match_event_iff_example :
    (match_event never_matches below_a changed_a ≡ true) ↔ Passes never_matches below_a changed_a
match_event_iff_example = match_event_iff never_matches below_a changed_a

-- A channel for two records; the third is dropped.
abbrev log_actions : List (TeeAction String)
log_actions =
    handles "a"
    ∷ handles "b"
    ∷ handles "c"
    ∷ receives
    ∷ closes
    ∷ starts_drain
    ∷ receives
    ∷ ends_drain
    ∷ []

accepted_records_kept_example :
    concat (tee_acts log_actions (new_tee_handler 2)).batches
      ++ ((tee_acts log_actions (new_tee_handler 2)).buf
          ++ (tee_acts log_actions (new_tee_handler 2)).db_sink)
    ≡ accepted log_actions (new_tee_handler 2)
accepted_records_kept_example = accepted_records_kept 2 log_actions

abbrev same_case : String → String
same_case text = text

abbrev all_logs : LogFilter
all_logs = record { level = ""; component = ""; source = ""; machine_id = "" }

abbrev a_log : LogRecord
a_log = record {
  level = "INFO";
  component = "c";
  source = "server";
  machine_id = "";
  message = "m";
}

abbrev broadcasts_of_one : List BroadcastAction
broadcasts_of_one =
    subscribes all_logs ∷ broadcasts a_log ∷ unsubscribes 0 ∷ unsubscribes 0 ∷ broadcasts a_log ∷ []

broadcaster_is_safe_example :
    (length (broadcast_acts same_case broadcasts_of_one new_log_broadcaster).subscribers ≤ 100)
    × All WithinBuffer (broadcast_acts same_case broadcasts_of_one new_log_broadcaster).subscribers
    × ((p : ℕ)
        → count_number p (broadcast_acts same_case broadcasts_of_one new_log_broadcaster).closes
            + count_pointer p
                (broadcast_acts same_case broadcasts_of_one new_log_broadcaster).subscribers
          ≤ 1)
broadcaster_is_safe_example = broadcaster_is_safe same_case broadcasts_of_one

-- A file that holds the data as they are.
abbrev written_as : StateData → Option StateData
written_as d = some d

abbrev read_as : StateData → Option (Option (Map String) × Option (Map ℕ))
read_as d = some (some d.cursors, some d.processed)

written_as-ReadsBack : ReadsBack written_as read_as
written_as-ReadsBack d text own h =
    let same : d ≡ text = ground (arith, h) in
    (
      d.cursors,
      d.processed,
      (subst (λ t. read_as t ≡ some (some d.cursors, some d.processed)) same refl, own, λ y. refl),
    )

-- The event is marked while another call sets a cursor; its text is written second, and then the bridge
-- restarts, a save fails, and it restarts again.
abbrev actions_before : List StateAction
actions_before =
    sets_cursor "github" "c"
    ∷ begins_save
    ∷ begins_save
    ∷ marks "other" 120
    ∷ finishes_save 0 true
    ∷ []

abbrev actions_after : List StateAction
actions_after = restarts ∷ prunes 150 60 ∷ begins_save ∷ finishes_save 0 false ∷ restarts ∷ []

processed_survives_example :
    is_processed "event" (
      state_acts written_as read_as written_as-ReadsBack "event" 100 actions_after
        (finish_save 0 true (
          state_acts written_as read_as written_as-ReadsBack "event" 100 actions_before
            (mark_processed "event" 100 (new_state_store none)))).1)
    ≡ true
unfolding lookup insert new_state_store mark_processed begin_save finish_save set_cursor state_acts
    state_act
processed_survives_example =
    processed_survives written_as read_as written_as-ReadsBack "event" 100 actions_before
      actions_after 0 (new_state_store none) (λ y. refl) refl
      (tt, (tt, (tt, ((λ e. ground (arith, e, eq_iff "other" "event")), (tt, tt))))) refl
      (tt, (omega arith, (tt, (tt, (tt, tt)))))

-- SetCursor makes its text before the event is marked and writes it after MarkProcessed has written its
-- own and reported no error; after a restart the event is not processed.
abbrev cursor_last : List StateAction
cursor_last =
    sets_cursor "github" "c"
    ∷ begins_save
    ∷ marks "event" 100
    ∷ begins_save
    ∷ finishes_save 1 true
    ∷ finishes_save 0 true
    ∷ restarts
    ∷ []

cursor_last_loses_event :
    is_processed "event" (
      state_acts written_as read_as written_as-ReadsBack "event" 100 cursor_last
        (new_state_store none))
    ≡ false
unfolding lookup insert new_state_store mark_processed begin_save finish_save set_cursor state_acts
    state_act is_processed load
cursor_last_loses_event = refl
