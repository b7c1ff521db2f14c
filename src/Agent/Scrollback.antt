-- ===== src/Agent/Scrollback.antt =====
-- The recording of a session (internal/agent/scrollback.go). Bytes are numbers. What the operating system
-- and the encoder do is an argument: the error of a write, with the part of the text that was written,
-- and the number of bytes that a read gives.
pub mod Reads
use claude_plane.Base.{
  ℕ, zero, suc, ◌+◌, Bool, true, false, Option, none, some, List, [], ◌∷◌, ◌++◌, length, leb, ◌==◌,
  if◌then◌else◌,
}

-- A ScrollbackWriter and the contents of its file; `started` is a point in time.
pub record ScrollbackWriter : Type 0 where
  pub file : List ℕ
  pub offset : ℕ
  pub started : ℕ

-- What WriteString did: everything, or an error after a part.
pub data Wrote : Type 0 where
  all_written : Wrote
  broke_off : List ℕ → Wrote

-- NewScrollbackWriter, once the file exists; none for an error of the header's write.
unfoldable pub new_scrollback_writer : List ℕ → Wrote → ℕ → Option ScrollbackWriter
new_scrollback_writer header all_written now =
    some (record { file = header; offset = length header; started = now })
new_scrollback_writer header (broke_off part) now = none

-- WriteOutput, with the two calls of the encoder: the JSON text of the data, none for an error, and the
-- line for a time in seconds and that text. The result tells whether it reports no error.
unfoldable pub write_output :
    (marshal : List ℕ → Option (List ℕ))
    → (line : ℕ → List ℕ → List ℕ) → List ℕ
    → (elapsed : ℕ) → Wrote
    → ScrollbackWriter
    → Bool × ScrollbackWriter
write_output marshal line bytes elapsed wrote w = elim (marshal bytes) [
  | none ↦ (false, w)
  | some escaped ↦ elim wrote [
    | all_written ↦ (
      true,
      record w {
        file = w.file ++ line elapsed escaped;
        offset = w.offset + length (line elapsed escaped);
      },
    )
    | broke_off part ↦ (false, record w { file = w.file ++ part })
  ]
]

pub record ScrollbackChunk : Type 0 where
  pub bytes : List ℕ
  pub offset : ℕ
  pub is_final : Bool

abbrev pub take : ℕ → List ℕ → List ℕ
take zero xs = []
take (suc n) [] = []
take (suc n) (x ∷ xs) = x ∷ take n xs

abbrev pub drop : ℕ → List ℕ → List ℕ
drop zero xs = xs
drop (suc n) [] = []
drop (suc n) (x ∷ xs) = drop n xs

-- The loop of ReadScrollbackChunks on what is left of the file. `amount` is the number of bytes that
-- the read at an offset gives; at the end of the file it gives none and io.EOF. The Boolean tells
-- whether the loop has seen io.EOF; without it the fuel has run out.
unfoldable pub read_loop :
    (amount : ℕ → ℕ) → ℕ → List ℕ → ℕ → List ScrollbackChunk → Bool × List ScrollbackChunk
read_loop amount zero left offset chunks = (false, chunks)
read_loop amount (suc fuel) [] offset chunks = (true, chunks)
read_loop amount (suc fuel) (x ∷ left) offset chunks =
    let got = take (amount offset) (x ∷ left) in
    read_loop amount fuel (drop (amount offset) (x ∷ left)) (offset + length got) (
      if length got == 0
      then chunks
      else chunks ++ (record { bytes = got; offset = offset; is_final = false } ∷ []))

-- chunks[len(chunks)-1].IsFinal = true
unfoldable pub mark_last : List ScrollbackChunk → List ScrollbackChunk
mark_last [] = []
mark_last (c ∷ []) = record c { is_final = true } ∷ []
mark_last (c ∷ (d ∷ rest)) = c ∷ mark_last (d ∷ rest)

-- ReadScrollbackChunks on a file that can be read; none if the loop has not ended.
unfoldable pub read_scrollback_chunks : (amount : ℕ → ℕ) → List ℕ → Option (List ScrollbackChunk)
unfolding read_loop mark_last
read_scrollback_chunks amount file =
    let (ended, chunks) = read_loop amount (suc (length file)) file 0 [] in
    if ended then some (mark_last chunks) else none
