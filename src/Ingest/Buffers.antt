-- ===== src/Ingest/Buffers.antt =====
-- What a session's buffer and the store hold after each operation of ContentIngestor
-- (internal/server/ingest/content.go).
use claude_plane.Base.{
  ℕ, suc, ◌≡◌, refl, sym, ap, ◌∙◌, String, List, [], ◌∷◌, ◌++◌, some, length, length-append, arith,
  Bool-cases, Option-cases, inl, inr, if◌then◌else◌, get_or, insert, delete, lookup, lookup-insert,
  lookup-delete, eq_iff, str_eq, leb, if_rule, false, Map, text_cases, subst, append_assoc,
  append_nil,
}
use claude_plane.Ingest.{
  ContentLine, LineBuffer, StoreCall, inserted_content_lines, upserted_content_meta,
  ContentIngestor, new_buffer, split_loop, write_batch, ingest_stripped, flush_buffer,
}
use claude_plane.Ingest.Lines.{split_text, number, number-append, split_text-append, split_loop_lem}

-- The lines of a session that the store was told.
abbrev pub written : String → List StoreCall → List ContentLine
written s [] = []
written s (inserted_content_lines k batch ∷ rest) =
    if str_eq k s then batch ++ written s rest else written s rest
written s (upserted_content_meta k n ∷ rest) = written s rest

pub written-append :
    (s : String) (xs ys : List StoreCall) → written s (xs ++ ys) ≡ written s xs ++ written s ys
written-append s [] ys = refl
written-append s (inserted_content_lines k batch ∷ xs) ys = elim (Bool-cases (str_eq k s)) [
  | inl e ↦ rw e (
      ap (batch ++◌) (written-append s xs ys)
      ∙ sym (append_assoc batch (written s xs) (written s ys)))
  | inr e ↦ rw e (written-append s xs ys)
]
written-append s (upserted_content_meta k n ∷ xs) ys = written-append s xs ys

pub written-write_batch :
    (s : String) (batch : List ContentLine) (calls : List StoreCall)
    → written s (write_batch s batch calls) ≡ written s calls ++ batch
unfolding write_batch
written-write_batch s [] calls = sym (append_nil (written s calls))
written-write_batch s (line ∷ batch) calls =
    written-append s calls (inserted_content_lines s (line ∷ batch) ∷ [])
    ∙ ap (written s calls ++◌) (ground (arith, eq_iff s s, append_nil (line ∷ batch)))

pub written-write_batch_other :
    (k s : String) (batch : List ContentLine) (calls : List StoreCall)
    → str_eq k s ≡ false
    → written s (write_batch k batch calls) ≡ written s calls
unfolding write_batch
written-write_batch_other k s [] calls e = refl
written-write_batch_other k s (line ∷ batch) calls e =
    written-append s calls (inserted_content_lines k (line ∷ batch) ∷ [])
    ∙ (ap (written s calls ++◌) (ground (arith, e)) ∙ append_nil (written s calls))

pub buffer-insert :
    (k s : String) (b : LineBuffer) (m : Map LineBuffer)
    → get_or new_buffer s (insert k b m) ≡ (if str_eq k s then b else get_or new_buffer s m)
buffer-insert k s b m = ground (arith, lookup-insert k s b m)

pub buffer-delete :
    (k s : String) (m : Map LineBuffer)
    → str_eq k s ≡ false
    → get_or new_buffer s (delete k m) ≡ get_or new_buffer s m
buffer-delete k s m e = ground (arith, e, lookup-delete k s m)

module _ (s : String) where
  -- What is stored and what is buffered, when a text has arrived.
  pub record Holds (fed : List ℕ) (stored : List ContentLine) (b : LineBuffer) : Type 0 where
    pub lines : stored ++ b.batch ≡ number s 0 (split_text fed).0
    pub rest : b.partial ≡ (split_text fed).1
    pub counted : b.line_count ≡ length (split_text fed).0

  abbrev pub Inv : List ℕ → ContentIngestor → Type 0
  Inv fed ci = Holds fed (written s ci.calls) (get_or new_buffer s ci.buffers)

  split_loop-Holds :
      (fed text : List ℕ) (stored : List ContentLine) (b : LineBuffer)
      → Holds fed stored b
      → Holds (fed ++ text) stored (
          split_loop
            (suc (length (b.partial ++ text)))
            s
            (b.partial ++ text)
            (record b { partial = [] }))
  split_loop-Holds fed text stored b h =
      let more = split_text (b.partial ++ text) in
      let all : split_text (fed ++ text) ≡ ((split_text fed).0 ++ more.0, more.1) =
        split_text-append fed text
        ∙ ap (λ r. ((split_text fed).0 ++ (split_text (r ++ text)).0, (split_text (r ++ text)).1))
            (sym h.rest) in
      subst (Holds (fed ++ text) stored)
        (sym (
          split_loop_lem (suc (length (b.partial ++ text))) s (b.partial ++ text)
            (record b { partial = [] }) (omega arith)))
        (record {
          lines =
              sym (append_assoc stored b.batch (number s b.line_count more.0))
              ∙ (ap (◌++ number s b.line_count more.0) h.lines
                  ∙ (ap (λ n. number s 0 (split_text fed).0 ++ number s n more.0)
                        (omega (arith, h.counted))
                      ∙ (sym (number-append s 0 (split_text fed).0 more.0)
                          ∙ sym (ap (λ (p : List (List ℕ) × List ℕ). number s 0 p.0) all))));
          rest = sym (ap (λ (p : List (List ℕ) × List ℕ). p.1) all);
          counted = omega (
            arith,
            h.counted,
            length-append (split_text fed).0 more.0,
            ap (λ (p : List (List ℕ) × List ℕ). length p.0) all,
          );
        })

  pub flush-Holds :
      (fed : List ℕ) (stored : List ContentLine) (b : LineBuffer)
      → Holds fed stored b
      → Holds fed (stored ++ b.batch) (record b { batch = [] })
  flush-Holds fed stored b h = record {
    lines = append_nil (stored ++ b.batch) ∙ h.lines;
    rest = h.rest;
    counted = h.counted;
  }

  -- An operation's results, for this session.
  pub Inv-of :
      (fed : List ℕ) (calls : List StoreCall) (buffers : Map LineBuffer) (stored : List ContentLine)
      (b : LineBuffer)
      → written s calls ≡ stored
      → get_or new_buffer s buffers ≡ b
      → Holds fed stored b
      → Inv fed (record { buffers = buffers; calls = calls })
  Inv-of fed calls buffers stored b e f h = rw (e, f) h

  pub buffer_self : (b : LineBuffer) (m : Map LineBuffer) → get_or new_buffer s (insert s b m) ≡ b
  buffer_self b m = ground (arith, eq_iff s s, buffer-insert s s b m)

  pub buffer_other :
      (k : String) (b : LineBuffer) (m : Map LineBuffer)
      → str_eq k s ≡ false
      → get_or new_buffer s (insert k b m) ≡ get_or new_buffer s m
  buffer_other k b m e = ground (arith, e, buffer-insert k s b m)

  pub ingest_stripped-Inv :
      (fed text : List ℕ) (ci : ContentIngestor)
      → Inv fed ci
      → Inv (fed ++ text) (ingest_stripped s text ci)
  unfolding ingest_stripped
  ingest_stripped-Inv fed text ci h =
      let b = get_or new_buffer s ci.buffers in
      let next =
        split_loop (suc (length (b.partial ++ text))) s (b.partial ++ text)
          (record b { partial = [] }) in
      let holds = split_loop-Holds fed text (written s ci.calls) b h in
      let emptied : LineBuffer = record next { batch = [] } in
      if_rule (Inv (fed ++ text)) (leb 100 (length next.batch)) _ _
        (λ full.
          Inv-of (fed ++ text) (write_batch s next.batch ci.calls) (insert s emptied ci.buffers) _ _
            (written-write_batch s next.batch ci.calls) (buffer_self emptied ci.buffers)
            (flush-Holds (fed ++ text) (written s ci.calls) next holds))
        (λ few.
          Inv-of (fed ++ text) ci.calls (insert s next ci.buffers) _ _ refl
            (buffer_self next ci.buffers) holds)

  pub ingest_stripped-other :
      (k : String) (fed text : List ℕ) (ci : ContentIngestor)
      → str_eq k s ≡ false
      → Inv fed ci
      → Inv fed (ingest_stripped k text ci)
  unfolding ingest_stripped
  ingest_stripped-other k fed text ci e h =
      let b = get_or new_buffer k ci.buffers in
      let next =
        split_loop (suc (length (b.partial ++ text))) k (b.partial ++ text)
          (record b { partial = [] }) in
      let emptied : LineBuffer = record next { batch = [] } in
      if_rule (Inv fed) (leb 100 (length next.batch)) _ _
        (λ full.
          Inv-of fed (write_batch k next.batch ci.calls) (insert k emptied ci.buffers) _ _
            (written-write_batch_other k s next.batch ci.calls e)
            (buffer_other k emptied ci.buffers e) h)
        (λ few.
          Inv-of fed ci.calls (insert k next ci.buffers) _ _ refl (buffer_other k next ci.buffers e)
            h)

  pub lookup-buffer :
      (b : LineBuffer) (m : Map LineBuffer) → lookup s m ≡ some b → get_or new_buffer s m ≡ b
  lookup-buffer b m e = ground (arith, e)

  pub flush_buffer-Inv :
      (k : String) (fed : List ℕ) (ci : ContentIngestor) → Inv fed ci → Inv fed (flush_buffer k ci)
  unfolding flush_buffer
  flush_buffer-Inv k fed ci h = elim (Option-cases (lookup k ci.buffers)) [
    | inl n ↦ rw (flush_buffer, n) h
    | inr (b, found) ↦
        let emptied : LineBuffer = record b { batch = [] } in
        rw (flush_buffer, found)
          (elim (text_cases k s) [
            | inl (e, same) ↦
                let own : get_or new_buffer s ci.buffers ≡ b = ground (arith, found, same) in
                Inv-of fed (write_batch k b.batch ci.calls) (insert k emptied ci.buffers)
                  (written s ci.calls ++ b.batch) emptied
                  (rw same (written-write_batch s b.batch ci.calls))
                  (rw same (buffer_self emptied ci.buffers))
                  (flush-Holds fed (written s ci.calls) b
                    (subst (Holds fed (written s ci.calls)) own h))
            | inr (e, apart) ↦
                Inv-of fed (write_batch k b.batch ci.calls) (insert k emptied ci.buffers) _ _
                  (written-write_batch_other k s b.batch ci.calls e)
                  (buffer_other k emptied ci.buffers e) h
          ])
  ]
