-- ===== src/Tests/Terminals.antt =====
-- Terminal output at concrete inputs (internal/agent, internal/server/ingest).
use claude_plane.Base.{
  ℕ, true, false, List, [], ◌∷◌, ◌++◌, ◌≡◌, ◌↔◌, some, none, refl, arith, any, ◌==◌,
}
use claude_plane.Agent.Scrollback.{ScrollbackChunk, read_scrollback_chunks}
use claude_plane.Agent.Scrollback.Reads.{read_scrollback_chunks-joined, joined, Laid}
use claude_plane.Agent.Noise.{
  is_repositioning_noise, contains_pair, csi_loop, after_csi, skip_parameters, is_parameter,
  moves_cursor, is_movement,
}
use claude_plane.Agent.Noise.Sequences.{is_repositioning_noise_iff, Draws}
use claude_plane.Agent.Idle.{
  IdleDetector, Timer, went_idle, feed, expire, run_function, start_detector, stop_detector,
  new_idle_detector, take_activity, after_func, without_timer, make_call,
}
use claude_plane.Agent.Idle.Notes.{play}
use claude_plane.Agent.Idle.Prompt.{Watched, begun, fed, lapsed, notes_alternate}
use claude_plane.Agent.Idle.Stale.{
  do_feed, do_run, acts, stopped_is_silent, stale_timer_reports_idle,
}
use claude_plane.Ingest.{new_content_ingestor, flush_session, close_ingestor}
use claude_plane.Ingest.Buffers.{written}
use claude_plane.Ingest.Lines.{number, split_text, lines_of}
use claude_plane.Ingest.Stored.{IngestAction, arrives, flushes, ingest_acts, stored_lines_lem}
use claude_plane.Ingest.Closed.{close_drops_partial}

-- Seven bytes, in reads of two.
read_scrollback_chunks-joined_example :
    (chunks : List ScrollbackChunk) × (read_scrollback_chunks
        (λ offset. 2)
        (1 ∷ 2 ∷ 3 ∷ 4 ∷ 5 ∷ 6 ∷ 7 ∷ [])
      ≡ some chunks)
    × (joined chunks ≡ 1 ∷ 2 ∷ 3 ∷ 4 ∷ 5 ∷ 6 ∷ 7 ∷ [])
    × Laid 2 0 chunks
read_scrollback_chunks-joined_example =
    read_scrollback_chunks-joined 2 (λ offset. 2) (λ offset. (omega arith, omega arith))
      (1 ∷ 2 ∷ 3 ∷ 4 ∷ 5 ∷ 6 ∷ 7 ∷ [])

-- "a", ESC "[" "2" ";" "1" "H"
abbrev redraw : List ℕ
redraw = 97 ∷ 27 ∷ 91 ∷ 50 ∷ 59 ∷ 49 ∷ 72 ∷ []

is_repositioning_noise_iff_example : (is_repositioning_noise redraw ≡ true) ↔ Draws redraw
is_repositioning_noise_iff_example = is_repositioning_noise_iff redraw

abbrev plain : List ℕ
plain = 97 ∷ 98 ∷ 99 ∷ 100 ∷ 101 ∷ 102 ∷ 103 ∷ 104 ∷ 105 ∷ 106 ∷ []

abbrev fresh_detector : IdleDetector
fresh_detector = start_detector (new_idle_detector true none)

abbrev fed_detector : IdleDetector
fed_detector = feed plain fresh_detector

-- Feed's timer has expired, and its function waits for the mutex.
abbrev expired_detector : IdleDetector
expired_detector = expire 1 fed_detector

abbrev silence_timer : Timer
silence_timer = record { number = 1; is_startup = false }

run_detector : Unit {0}
unfolding feed expire run_function start_detector new_idle_detector take_activity after_func
    without_timer is_repositioning_noise contains_pair csi_loop after_csi skip_parameters
    is_parameter moves_cursor is_movement
run_detector = tt

stale_timer_reports_idle_example :
    ((feed plain expired_detector).is_idle ≡ false)
    × ((run_function silence_timer (feed plain expired_detector)).is_idle ≡ true)
    × ((run_function silence_timer (feed plain expired_detector)).notes
        ≡ (feed plain expired_detector).notes ++ went_idle ∷ [])
    × (any
          (λ u. u.number == expired_detector.next_number)
          (run_function silence_timer (feed plain expired_detector)).armed
        ≡ true)
unfolding run_detector
stale_timer_reports_idle_example =
    stale_timer_reports_idle expired_detector silence_timer plain refl refl refl (omega arith) refl

stopped_is_silent_example :
    ((acts (do_feed plain ∷ do_run silence_timer ∷ []) (stop_detector expired_detector)).notes
      ≡ expired_detector.notes)
    × ((acts (do_feed plain ∷ do_run silence_timer ∷ []) (stop_detector expired_detector)).is_idle
        ≡ expired_detector.is_idle)
stopped_is_silent_example =
    stopped_is_silent (do_feed plain ∷ do_run silence_timer ∷ []) expired_detector

-- Start, output, and silence.
abbrev silent_detector : IdleDetector
silent_detector = make_call 0 (run_function silence_timer (expire 1 (make_call 0 fed_detector)))

silent_detector-Watched : Watched silent_detector
unfolding run_detector make_call
silent_detector-Watched = lapsed (fed (begun none) plain) silence_timer [] [] refl

notes_alternate_example :
    (play false silent_detector.calls ≡ some silent_detector.is_idle)
    × (silent_detector.to_call ≡ [])
    × (silent_detector.is_idle ≡ true → silent_detector.armed ≡ [])
notes_alternate_example = notes_alternate silent_detector-Watched

silent_detector_calls : silent_detector.calls ≡ went_idle ∷ []
unfolding run_detector make_call
silent_detector_calls = refl

-- Two chunks of session "s" with one line break between them, and one of another session.
abbrev chunks_of_s : List (IngestAction "s")
chunks_of_s =
    arrives "s" (97 ∷ 98 ∷ [])
    ∷ arrives "t" (10 ∷ [])
    ∷ flushes "s"
    ∷ arrives "s" (99 ∷ 13 ∷ 10 ∷ 100 ∷ [])
    ∷ []

abbrev unstripped : List ℕ → List ℕ
unstripped bytes = bytes

stored_lines_lem_example :
    written "s"
      (flush_session "s" (ingest_acts "s" unstripped chunks_of_s new_content_ingestor)).calls
    ≡ number "s" 0 (lines_of (97 ∷ 98 ∷ 99 ∷ 13 ∷ 10 ∷ 100 ∷ []))
stored_lines_lem_example = stored_lines_lem "s" unstripped chunks_of_s

close_drops_partial_example :
    written "s" (close_ingestor (ingest_acts "s" unstripped chunks_of_s new_content_ingestor)).calls
    ≡ number "s" 0 ((97 ∷ 98 ∷ 99 ∷ 13 ∷ []) ∷ [])
unfolding split_text
close_drops_partial_example = close_drops_partial "s" unstripped chunks_of_s
