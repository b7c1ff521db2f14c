-- ===== src/Ingest.antt =====
-- ContentIngestor (internal/server/ingest/content.go): terminal output becomes numbered lines of text.
-- Bytes are numbers, 10 is a newline and 13 a carriage return. stripANSI, a regular expression, is an
-- argument. What the store is told is a log, in the order in which the batches leave their buffers.
pub mod Lines
pub mod Buffers
pub mod Stored
pub mod Closed
use claude_plane.Base.{
  ℕ, zero, suc, ◌+◌, String, Bool, true, false, ◌&&◌, Option, none, some, List, [], ◌∷◌, ◌++◌, Map,
  get_or, insert, delete, lookup, keys, length, leb, ◌==◌, if◌then◌else◌,
}

pub record ContentLine : Type 0 where
  pub session_id : String
  pub line_number : ℕ
  pub content : List ℕ

pub record LineBuffer : Type 0 where
  pub line_count : ℕ
  pub partial : List ℕ
  pub batch : List ContentLine

pub data StoreCall : Type 0 where
  inserted_content_lines : String → List ContentLine → StoreCall
  upserted_content_meta : String → ℕ → StoreCall

pub record ContentIngestor : Type 0 where
  pub buffers : Map LineBuffer
  pub calls : List StoreCall

unfoldable pub new_content_ingestor : ContentIngestor
new_content_ingestor = record { buffers = []; calls = [] }

abbrev pub new_buffer : LineBuffer
new_buffer = record { line_count = 0; partial = []; batch = [] }

-- bytes.TrimRight(line, "\r")
unfoldable pub trim_right : List ℕ → List ℕ
trim_right [] = []
trim_right (x ∷ line) =
    let rest = trim_right line in if x == 13 && length rest == 0 then [] else x ∷ rest

-- The bytes before and after the first newline.
unfoldable pub cut_line : List ℕ → Option (List ℕ × List ℕ)
cut_line [] = none
cut_line (x ∷ text) =
    let later = cut_line text in
    if x == 10
    then some ([], text)
    else elim later [ none ↦ none | some (line, rest) ↦ some (x ∷ line, rest) ]

-- The next line of a buffer.
unfoldable pub add_line : String → List ℕ → LineBuffer → LineBuffer
unfolding trim_right
add_line session_id line b = record b {
  line_count = suc b.line_count;
  batch =
      b.batch
      ++ (record {
        session_id = session_id;
        line_number = suc b.line_count;
        content = trim_right line;
      }
          ∷ []);
}

-- Ingest's loop on the combined bytes.
unfoldable pub split_loop : ℕ → String → List ℕ → LineBuffer → LineBuffer
unfolding cut_line add_line
split_loop zero session_id combined b = b
split_loop (suc fuel) session_id combined b = elim (cut_line combined) [
  | none ↦ record b { partial = combined }
  | some (line, rest) ↦ split_loop fuel session_id rest (add_line session_id line b)
]

-- writeBatch, if the batch has lines.
unfoldable pub write_batch : String → List ContentLine → List StoreCall → List StoreCall
write_batch session_id [] calls = calls
write_batch session_id (line ∷ batch) calls =
    calls ++ (inserted_content_lines session_id (line ∷ batch) ∷ [])

-- Ingest on output that stripANSI has left.
unfoldable pub ingest_stripped : String → List ℕ → ContentIngestor → ContentIngestor
unfolding split_loop write_batch
ingest_stripped session_id stripped ci =
    let b = get_or new_buffer session_id ci.buffers in
    let combined = b.partial ++ stripped in
    let next = split_loop (suc (length combined)) session_id combined (record b { partial = [] }) in
    if leb 100 (length next.batch)
    then record {
      buffers = insert session_id (record next { batch = [] }) ci.buffers;
      calls = write_batch session_id next.batch ci.calls;
    }
    else record ci { buffers = insert session_id next ci.buffers }

unfoldable pub ingest :
    (strip_ansi : List ℕ → List ℕ) → String → List ℕ → ContentIngestor → ContentIngestor
unfolding ingest_stripped
ingest strip_ansi session_id bytes ci =
    if length bytes == 0
    then ci
    else if length (strip_ansi bytes) == 0
    then ci
    else ingest_stripped session_id (strip_ansi bytes) ci

-- One call of the function that flushLoop and Close give to Range.
unfoldable pub flush_buffer : String → ContentIngestor → ContentIngestor
unfolding write_batch
flush_buffer session_id ci = elim (lookup session_id ci.buffers) [
  | none ↦ ci
  | some b ↦ record {
    buffers = insert session_id (record b { batch = [] }) ci.buffers;
    calls = write_batch session_id b.batch ci.calls;
  }
]

unfoldable pub flush_session : String → ContentIngestor → ContentIngestor
unfolding add_line write_batch
flush_session session_id ci = elim (lookup session_id ci.buffers) [
  | none ↦ ci
  | some b ↦
      let last = (if length b.partial == 0 then b else add_line session_id b.partial b) in
      let calls = write_batch session_id last.batch ci.calls in
      record {
        buffers = delete session_id ci.buffers;
        calls =
            if last.line_count == 0
            then calls
            else calls ++ (upserted_content_meta session_id last.line_count ∷ []);
      }
]

unfoldable pub flush_buffers : List String → ContentIngestor → ContentIngestor
unfolding flush_buffer
flush_buffers [] ci = ci
flush_buffers (k ∷ rest) ci = flush_buffers rest (flush_buffer k ci)

-- Close, when flushLoop has returned.
unfoldable pub close_ingestor : ContentIngestor → ContentIngestor
unfolding flush_buffers
close_ingestor ci = flush_buffers (keys ci.buffers) ci
