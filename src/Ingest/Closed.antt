-- ===== src/Ingest/Closed.antt =====
-- Close of ContentIngestor (internal/server/ingest/content.go).
use claude_plane.Base.{
  ℕ, ◌≡◌, sym, String, List, [], ◌∷◌, ◌++◌, arith, inl, inr, text_cases, Option-cases, ◌∙◌, lookup,
  ap, get_or, ◌<◌, count, none, Map, some, append_nil,
}
use claude_plane.Ingest.{
  ContentIngestor, flush_buffer, new_content_ingestor, LineBuffer, flush_buffers, new_buffer,
  close_ingestor,
}
use claude_plane.Ingest.Lines.{split_text, number}
use claude_plane.Ingest.Buffers.{Inv, written, flush_buffer-Inv, buffer_self, buffer-insert}
use claude_plane.Ingest.Stored.{IngestAction, ingest_acts, output_of, after-Inv}
use claude_plane.Base.{keys}

module _ (s : String) where
  HasNoBatch : ContentIngestor → Type 0
  HasNoBatch ci = (get_or new_buffer s ci.buffers).batch ≡ []

  missing : (ci : ContentIngestor) → lookup s ci.buffers ≡ none → HasNoBatch ci
  unfolding HasNoBatch
  missing ci n = ground (arith, n)

  flush_buffer-empties : (ci : ContentIngestor) → HasNoBatch (flush_buffer s ci)
  unfolding flush_buffer HasNoBatch
  flush_buffer-empties ci = elim (Option-cases (lookup s ci.buffers)) [
    | inl n ↦ rw (flush_buffer, n) (ground (arith, n))
    | inr (b, found) ↦
        rw (flush_buffer, found)
          (ap (λ (x : LineBuffer). x.batch) (buffer_self s (record b { batch = [] }) ci.buffers))
  ]

  flush_buffer-keeps_empty :
      (k : String) (ci : ContentIngestor) → HasNoBatch ci → HasNoBatch (flush_buffer k ci)
  unfolding flush_buffer HasNoBatch
  flush_buffer-keeps_empty k ci h = elim (Option-cases (lookup k ci.buffers)) [
    | inl n ↦ rw (flush_buffer, n) h
    | inr (b, found) ↦
        rw (flush_buffer, found)
          (ground (arith, h, buffer-insert k s (record b { batch = [] }) ci.buffers))
  ]

  flush_buffers-Inv :
      (ks : List String) (fed : List ℕ) (ci : ContentIngestor)
      → Inv s fed ci
      → Inv s fed (flush_buffers ks ci)
  unfolding flush_buffers
  flush_buffers-Inv [] fed ci h = h
  flush_buffers-Inv (k ∷ ks) fed ci h =
      flush_buffers-Inv ks fed (flush_buffer k ci) (flush_buffer-Inv s k fed ci h)

  flush_buffers-keeps_empty :
      (ks : List String) (ci : ContentIngestor) → HasNoBatch ci → HasNoBatch (flush_buffers ks ci)
  unfolding flush_buffers
  flush_buffers-keeps_empty [] ci h = h
  flush_buffers-keeps_empty (k ∷ ks) ci h =
      flush_buffers-keeps_empty ks (flush_buffer k ci) (flush_buffer-keeps_empty k ci h)

  flush_buffers-empties :
      (ks : List String) (ci : ContentIngestor) → 0 < count s ks → HasNoBatch (flush_buffers ks ci)
  unfolding flush_buffers
  flush_buffers-empties [] ci h = absurd (omega (arith, h))
  flush_buffers-empties (k ∷ ks) ci h = elim (text_cases k s) [
    | inl (e, same) ↦
        flush_buffers-keeps_empty ks (flush_buffer k ci) (rw same (flush_buffer-empties ci))
    | inr (e, apart) ↦ flush_buffers-empties ks (flush_buffer k ci) (ground (arith, h, e))
  ]

  count-keys : (b : LineBuffer) (m : Map LineBuffer) → lookup s m ≡ some b → 0 < count s (keys m)
  unfolding lookup
  count-keys b [] h = absurd (ground (arith, h))
  count-keys b ((k, c) ∷ m) h = ground (arith, h, count-keys b m)

  close_ingestor-empties : (ci : ContentIngestor) → HasNoBatch (close_ingestor ci)
  unfolding close_ingestor
  close_ingestor-empties ci = elim (Option-cases (lookup s ci.buffers)) [
    | inl n ↦ flush_buffers-keeps_empty (keys ci.buffers) ci (missing ci n)
    | inr (b, found) ↦ flush_buffers-empties (keys ci.buffers) ci (count-keys b ci.buffers found)
  ]

  -- Close leaves the store with exactly the lines that end with a newline, of each session for which
  -- FlushSession has not run: the text after the last newline of its stripped output is not stored.
  pub close_drops_partial :
      (strip_ansi : List ℕ → List ℕ) (xs : List (IngestAction s))
      → written s (close_ingestor (ingest_acts s strip_ansi xs new_content_ingestor)).calls
        ≡ number s 0 (split_text (output_of s strip_ansi xs)).0
  unfolding close_ingestor HasNoBatch
  close_drops_partial strip_ansi xs =
      let ci = ingest_acts s strip_ansi xs new_content_ingestor in
      let inv =
        flush_buffers-Inv (keys ci.buffers) (output_of s strip_ansi xs) ci
          (after-Inv s strip_ansi xs) in
      let empty = close_ingestor-empties ci in
      sym (append_nil _) ∙ (ap (written s (close_ingestor ci).calls ++◌) (sym empty) ∙ inv.lines)
