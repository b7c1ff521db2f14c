-- ===== src/Ingest/Stored.antt =====
-- ContentIngestor against the lines of the whole output (internal/server/ingest/content.go): chunks, batches
-- and flushes in any order store the lines of the concatenated output.
use claude_plane.Base.{
  ℕ, ◌≡◌, ◌≢◌, sym, String, List, [], ◌∷◌, ◌++◌, ◌==◌, length, arith, Bool-cases, inl, inr,
  if◌then◌else◌, str_eq, false, text_cases, subst, not, List-cases, Option-cases, ◌∙◌, lookup,
  str_eq-false, ap, refl, if_rule, delete, get_or, true, suc, ◌+◌, append_nil, append_assoc,
}
use claude_plane.Ingest.{
  ContentIngestor, ingest_stripped, ingest, flush_buffer, flush_session, new_content_ingestor,
  add_line, write_batch, StoreCall, upserted_content_meta, LineBuffer, ContentLine, new_buffer,
  trim_right,
}
use claude_plane.Ingest.Lines.{split_text, number, number-append, lines_of}
use claude_plane.Base.{◌&&◌}
use claude_plane.Ingest.Buffers.{
  Inv, ingest_stripped-Inv, ingest_stripped-other, written, flush_buffer-Inv, Inv-of,
  written-write_batch_other, buffer-delete, written-append, Holds, written-write_batch,
}

module _ (s : String) where
  -- The calls of Ingest, the flushes of a buffer, and the ends of other sessions.
  pub data IngestAction : Type 0 where
    arrives : String → List ℕ → IngestAction
    flushes : String → IngestAction
    ends : (k : String) → k ≢ s → IngestAction

  module _ (strip_ansi : List ℕ → List ℕ) where
    unfoldable pub ingest_act : IngestAction → ContentIngestor → ContentIngestor
    unfolding ingest flush_buffer flush_session
    ingest_act (arrives k bytes) ci = ingest strip_ansi k bytes ci
    ingest_act (flushes k) ci = flush_buffer k ci
    ingest_act (ends k apart) ci = flush_session k ci

    unfoldable pub ingest_acts : List IngestAction → ContentIngestor → ContentIngestor
    unfolding ingest_act
    ingest_acts [] ci = ci
    ingest_acts (a ∷ rest) ci = ingest_acts rest (ingest_act a ci)

    -- The session's output, without escape sequences.
    abbrev pub output_of : List IngestAction → List ℕ
    output_of [] = []
    output_of (arrives k bytes ∷ rest) =
        if str_eq k s && not (length bytes == 0)
        then strip_ansi bytes ++ output_of rest
        else output_of rest
    output_of (flushes k ∷ rest) = output_of rest
    output_of (ends k apart ∷ rest) = output_of rest

    ingest-Inv :
        (k : String) (bytes fed : List ℕ) (rest : List IngestAction) (ci : ContentIngestor)
        → Inv s fed ci
        → (more : List ℕ) × Inv s (fed ++ more) (ingest strip_ansi k bytes ci)
          × (more ++ output_of rest ≡ output_of (arrives k bytes ∷ rest))
    unfolding ingest
    ingest-Inv k bytes fed rest ci h = elim (Bool-cases (length bytes == 0)) [
      | inl e ↦
          rw (ingest, e) ([], subst (λ t. Inv s t ci) (sym (append_nil fed)) h, ground (arith, e))
      | inr e ↦ elim (List-cases (strip_ansi bytes)) [
        | inl n ↦
            rw (ingest, e, n)
              ([], subst (λ t. Inv s t ci) (sym (append_nil fed)) h, ground (arith, e, n))
        | inr (x, xs, n) ↦
            let full : (length (strip_ansi bytes) == 0) ≡ false = ground (arith, n) in
            elim (text_cases k s) [
              | inl (same, p) ↦
                  rw (ingest, e, full)
                    (
                      strip_ansi bytes,
                      rw p (ingest_stripped-Inv s fed (strip_ansi bytes) ci h),
                      ground (arith, same, e),
                    )
              | inr (other, p) ↦
                  rw (ingest, e, full)
                    (
                      [],
                      subst (λ t. Inv s t (ingest_stripped k (strip_ansi bytes) ci))
                          (sym (append_nil fed))
                          (ingest_stripped-other s k fed (strip_ansi bytes) ci other h),
                      ground (arith, other),
                    )
            ]
      ]
    ]

    flush_session-other :
        (k : String) (fed : List ℕ) (ci : ContentIngestor)
        → k ≢ s
        → Inv s fed ci
        → Inv s fed (flush_session k ci)
    unfolding flush_session
    flush_session-other k fed ci apart h = elim (Option-cases (lookup k ci.buffers)) [
      | inl n ↦ rw (flush_session, n) h
      | inr (b, found) ↦
          let e = str_eq-false k s apart in
          let last = (if length b.partial == 0 then b else add_line k b.partial b) in
          let calls = write_batch k last.batch ci.calls in
          rw (flush_session, found)
            (if_rule
              (λ (x : List StoreCall).
                Inv s fed (record { buffers = delete k ci.buffers; calls = x }))
              (last.line_count == 0) _ _
              (λ z.
                Inv-of s fed calls (delete k ci.buffers) _ _
                  (written-write_batch_other k s last.batch ci.calls e)
                  (buffer-delete k s ci.buffers e) h)
              (λ z.
                Inv-of s fed (calls ++ (upserted_content_meta k last.line_count ∷ []))
                  (delete k ci.buffers) _ _
                  (written-append s calls (upserted_content_meta k last.line_count ∷ [])
                    ∙ (append_nil (written s calls)
                        ∙ written-write_batch_other k s last.batch ci.calls e))
                  (buffer-delete k s ci.buffers e) h))
    ]

    acts-Inv :
        (xs : List IngestAction) (fed : List ℕ) (ci : ContentIngestor)
        → Inv s fed ci
        → Inv s (fed ++ output_of xs) (ingest_acts xs ci)
    unfolding ingest_acts ingest_act
    acts-Inv [] fed ci h = subst (λ t. Inv s t ci) (sym (append_nil fed)) h
    acts-Inv (arrives k bytes ∷ xs) fed ci h =
        let (more, inv, same) = ingest-Inv k bytes fed xs ci h in
        subst (λ t. Inv s t (ingest_acts xs (ingest strip_ansi k bytes ci)))
          (append_assoc fed more (output_of xs) ∙ ap (fed ++◌) same)
          (acts-Inv xs (fed ++ more) (ingest strip_ansi k bytes ci) inv)
    acts-Inv (flushes k ∷ xs) fed ci h =
        acts-Inv xs fed (flush_buffer k ci) (flush_buffer-Inv s k fed ci h)
    acts-Inv (ends k apart ∷ xs) fed ci h =
        acts-Inv xs fed (flush_session k ci) (flush_session-other k fed ci apart h)

    new-Inv : Inv s [] new_content_ingestor
    unfolding new_content_ingestor lookup split_text
    new-Inv = record { lines = refl; rest = refl; counted = refl }

    abbrev pub after : List IngestAction → ContentIngestor
    after xs = ingest_acts xs new_content_ingestor

    pub after-Inv : (xs : List IngestAction) → Inv s (output_of xs) (after xs)
    after-Inv xs = acts-Inv xs [] new_content_ingestor new-Inv

    add_last : LineBuffer → LineBuffer
    add_last b = if length b.partial == 0 then b else add_line s b.partial b

    -- The batch of the last flush.
    last_lines :
        (fed : List ℕ) (stored : List ContentLine) (b : LineBuffer)
        → Holds s fed stored b
        → stored ++ (add_last b).batch ≡ number s 0 (lines_of fed)
    unfolding add_last add_line
    last_lines fed stored b h =
        let counted : b.line_count ≡ 0 + length (split_text fed).0 = omega (arith, h.counted) in
        elim (List-cases b.partial) [
          | inl n ↦
              let e : (length b.partial == 0) ≡ true = ground (arith, n) in
              let f : (length (split_text fed).1 == 0) ≡ true = ground (arith, n, h.rest) in
              rw (e, f) (h.lines ∙ sym (ap (number s 0) (append_nil (split_text fed).0)))
          | inr (x, xs, n) ↦
              let e : (length b.partial == 0) ≡ false = ground (arith, n) in
              let f : (length (split_text fed).1 == 0) ≡ false = ground (arith, n, h.rest) in
              rw (e, f)
                (sym (append_assoc stored b.batch _)
                  ∙ (ap
                        (◌++ (
                          record {
                            session_id = s;
                            line_number = suc b.line_count;
                            content = trim_right b.partial;
                          }
                          ∷ []))
                        h.lines
                      ∙ (ap (λ n. number s 0 (split_text fed).0 ++ number s n (b.partial ∷ []))
                            counted
                          ∙ (ap
                                (λ t.
                                  number s 0 (split_text fed).0
                                  ++ number s (0 + length (split_text fed).0) (t ∷ []))
                                h.rest
                              ∙ sym (
                                  number-append s 0 (split_text fed).0
                                    ((split_text fed).1 ∷ []))))))
        ]

    -- The last flush of a session.
    flush_session-written :
        (fed : List ℕ) (ci : ContentIngestor)
        → Inv s fed ci
        → written s (flush_session s ci).calls ≡ number s 0 (lines_of fed)
    unfolding flush_session add_last
    flush_session-written fed ci h = elim (Option-cases (lookup s ci.buffers)) [
      | inl n ↦
          let none_yet : get_or new_buffer s ci.buffers ≡ new_buffer = ground (arith, n) in
          rw (flush_session, n)
            (sym (append_nil (written s ci.calls))
              ∙ last_lines fed (written s ci.calls) new_buffer
                  (subst (Holds s fed (written s ci.calls)) none_yet h))
      | inr (b, found) ↦
          let own : get_or new_buffer s ci.buffers ≡ b = ground (arith, found) in
          let last = add_last b in
          let calls = write_batch s last.batch ci.calls in
          let all =
            written-write_batch s last.batch ci.calls
            ∙ last_lines fed (written s ci.calls) b
                (subst (Holds s fed (written s ci.calls)) own h) in
          rw (flush_session, found)
            (if_rule (λ (x : List StoreCall). written s x ≡ number s 0 (lines_of fed))
              (last.line_count == 0) _ _ (λ z. all)
              (λ z.
                written-append s calls (upserted_content_meta s last.line_count ∷ [])
                ∙ (append_nil (written s calls) ∙ all)))
    ]

    -- However a session's output comes in chunks, and whichever flushes of buffers, chunks of other sessions
    -- and ends of other sessions come between, when FlushSession has run, the store was told exactly the
    -- lines of the concatenation of the stripped chunks, in order, numbered from 1, without trailing
    -- carriage returns, the last one also if no newline ends it.
    pub stored_lines_lem :
        (xs : List IngestAction)
        → written s (flush_session s (ingest_acts xs new_content_ingestor)).calls
          ≡ number s 0 (lines_of (output_of xs))
    stored_lines_lem xs = flush_session-written (output_of xs) (after xs) (after-Inv xs)
