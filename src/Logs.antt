-- ===== src/Logs.antt =====
-- TeeHandler's background writer (internal/server/logging/tee_handler.go): Handle puts records into a buffered
-- channel without blocking, and a goroutine writes them to the store in batches. Each receive, send, tick
-- and close is one step. The inner handler, the broadcaster and the errors of InsertBatch, which the code
-- ignores, are left out.
pub mod Writer
pub mod Broadcaster
use claude_plane.Base.{
  ℕ, Bool, true, false, ◌&&◌, List, [], ◌∷◌, ◌++◌, length, leb, ltb, ◌==◌, if◌then◌else◌,
}

-- Where the goroutine is: in its loop, in the drain loop, or returned.
pub data Phase : Type 0 where
  looping draining returned : Phase

pub record TeeHandler (Record : Type 0) : Type 0 where
  pub capacity : ℕ
  pub db_sink : List Record
  pub done : Bool
  pub phase : Phase
  pub buf : List Record
  -- InsertBatch, call by call
  pub batches : List (List Record)

module _ {Record : Type 0} where
  -- NewTeeHandler; the size is that of make, once the default is taken for sizes below 1.
  unfoldable pub new_tee_handler : ℕ → TeeHandler Record
  new_tee_handler buffer_size = record {
    capacity = if buffer_size == 0 then 1000 else buffer_size;
    db_sink = [];
    done = false;
    phase = looping;
    buf = [];
    batches = [];
  }

  -- Handle's send: whether it finds room, and the handler after it.
  unfoldable pub handle_record : Record → TeeHandler Record → Bool × TeeHandler Record
  handle_record r h =
      if ltb (length h.db_sink) h.capacity
      then (true, record h { db_sink = h.db_sink ++ (r ∷ []) })
      else (false, h)

  unfoldable pub flush : TeeHandler Record → TeeHandler Record
  flush h =
      if length h.buf == 0 then h else record h { buf = []; batches = h.batches ++ (h.buf ∷ []) }

  -- buf = append(buf, rec), in the loop and in the drain loop
  unfoldable pub append_record :
      Phase → Record → List Record → TeeHandler Record → TeeHandler Record
  unfolding flush
  append_record looping r rest h =
      let h' : TeeHandler Record = record h { db_sink = rest; buf = h.buf ++ (r ∷ []) } in
      if leb 100 (length h'.buf) then flush h' else h'
  append_record draining r rest h = record h { db_sink = rest; buf = h.buf ++ (r ∷ []) }
  append_record returned r rest h = h

  -- case rec := <-h.dbSink
  unfoldable pub receive_record : List Record → TeeHandler Record → TeeHandler Record
  unfolding append_record
  receive_record [] h = h
  receive_record (r ∷ rest) h = append_record h.phase r rest h

  -- case <-ticker.C
  unfoldable pub tick : Phase → TeeHandler Record → TeeHandler Record
  unfolding flush
  tick looping h = flush h
  tick draining h = h
  tick returned h = h

  -- Close, up to its wait
  unfoldable pub close_tee_handler : TeeHandler Record → TeeHandler Record
  close_tee_handler h = record h { done = true }

  -- case <-h.done
  unfoldable pub start_drain : Phase → TeeHandler Record → TeeHandler Record
  start_drain looping h = if h.done then record h { phase = draining } else h
  start_drain draining h = h
  start_drain returned h = h

  -- The default case of the drain loop.
  unfoldable pub end_drain : Phase → TeeHandler Record → TeeHandler Record
  unfolding flush
  end_drain looping h = h
  end_drain draining h = if length h.db_sink == 0 then record (flush h) { phase = returned } else h
  end_drain returned h = h
