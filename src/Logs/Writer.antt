-- ===== src/Logs/Writer.antt =====
-- What becomes of the accepted records (internal/server/logging/tee_handler.go).
use claude_plane.Base.{
  ℕ, ◌≡◌, inl, inr, refl, sym, ap, ◌∙◌, List, [], ◌∷◌, ◌++◌, length, leb, ltb, ◌==◌, Bool-cases,
  if◌then◌else◌, if_rule, append_nil, append_assoc,
}
use claude_plane.Logs.{
  Phase, looping, draining, returned, TeeHandler, new_tee_handler, handle_record, flush,
  receive_record, tick, close_tee_handler, start_drain, end_drain, append_record,
}

pub data TeeAction (Record : Type 0) : Type 0 where
  handles : Record → TeeAction Record
  receives : TeeAction Record
  ticks : TeeAction Record
  closes : TeeAction Record
  starts_drain : TeeAction Record
  ends_drain : TeeAction Record

module _ {Record : Type 0} where
  unfoldable pub tee_act : TeeAction Record → TeeHandler Record → TeeHandler Record
  unfolding handle_record receive_record tick close_tee_handler start_drain end_drain
  tee_act (handles r) h = (handle_record r h).1
  tee_act receives h = receive_record h.db_sink h
  tee_act ticks h = tick h.phase h
  tee_act closes h = close_tee_handler h
  tee_act starts_drain h = start_drain h.phase h
  tee_act ends_drain h = end_drain h.phase h

  unfoldable pub tee_acts : List (TeeAction Record) → TeeHandler Record → TeeHandler Record
  unfolding tee_act
  tee_acts [] h = h
  tee_acts (a ∷ rest) h = tee_acts rest (tee_act a h)

  -- The records for which Handle finds room, in order.
  unfoldable pub accepts : TeeAction Record → TeeHandler Record → List Record
  unfolding handle_record
  accepts (handles r) h = if (handle_record r h).0 then r ∷ [] else []
  accepts _ h = []

  unfoldable pub accepted : List (TeeAction Record) → TeeHandler Record → List Record
  unfolding tee_act accepts
  accepted [] h = []
  accepted (a ∷ rest) h = accepts a h ++ accepted rest (tee_act a h)

  abbrev pub concat : List (List Record) → List Record
  concat [] = []
  concat (b ∷ bs) = b ++ concat bs

  concat-append :
      (bs : List (List Record)) (b : List Record) → concat (bs ++ b ∷ []) ≡ concat bs ++ b
  concat-append [] b = append_nil b
  concat-append (c ∷ bs) b = ap (c ++◌) (concat-append bs b) ∙ sym (append_assoc c (concat bs) b)

  -- Everything that the handler has taken and not lost, in order.
  abbrev pub taken_in : TeeHandler Record → List Record
  taken_in h = concat h.batches ++ (h.buf ++ h.db_sink)

  taken_in-flush : (h : TeeHandler Record) → taken_in (flush h) ≡ taken_in h
  unfolding flush
  taken_in-flush h = elim (Bool-cases (length h.buf == 0)) [
    | inl e ↦ rw (flush, e) refl
    | inr e ↦
        rw (flush, e)
          (ap (◌++ h.db_sink) (concat-append h.batches h.buf)
            ∙ append_assoc (concat h.batches) h.buf h.db_sink)
  ]

  receive_keeps :
      (h : TeeHandler Record) (r : Record) (rest : List Record)
      → h.db_sink ≡ r ∷ rest
      → taken_in (record h { db_sink = rest; buf = h.buf ++ (r ∷ []) }) ≡ taken_in h
  receive_keeps h r rest e =
      ap (concat h.batches ++◌) (append_assoc h.buf (r ∷ []) rest ∙ ap (h.buf ++◌) (sym e))

  taken_in-append_record :
      (p : Phase) (h : TeeHandler Record) (r : Record) (rest : List Record)
      → h.db_sink ≡ r ∷ rest
      → taken_in (append_record p r rest h) ≡ taken_in h
  unfolding append_record
  taken_in-append_record looping h r rest e =
      let next : TeeHandler Record = record h { db_sink = rest; buf = h.buf ++ (r ∷ []) } in
      if_rule (λ (x : TeeHandler Record). taken_in x ≡ taken_in h) (leb 100 (length next.buf)) _ _
        (λ full. taken_in-flush next ∙ receive_keeps h r rest e) (λ few. receive_keeps h r rest e)
  taken_in-append_record draining h r rest e = receive_keeps h r rest e
  taken_in-append_record returned h r rest e = refl

  taken_in-receive_record :
      (xs : List Record) (h : TeeHandler Record)
      → h.db_sink ≡ xs
      → taken_in (receive_record xs h) ≡ taken_in h
  unfolding receive_record
  taken_in-receive_record [] h e = refl
  taken_in-receive_record (r ∷ rest) h e = taken_in-append_record h.phase h r rest e

  taken_in-tick : (p : Phase) (h : TeeHandler Record) → taken_in (tick p h) ≡ taken_in h
  unfolding tick
  taken_in-tick looping h = taken_in-flush h
  taken_in-tick draining h = refl
  taken_in-tick returned h = refl

  taken_in-start_drain :
      (p : Phase) (h : TeeHandler Record) → taken_in (start_drain p h) ≡ taken_in h
  unfolding start_drain
  taken_in-start_drain looping h =
      if_rule (λ (x : TeeHandler Record). taken_in x ≡ taken_in h) h.done _ _ (λ e. refl)
        (λ e. refl)
  taken_in-start_drain draining h = refl
  taken_in-start_drain returned h = refl

  taken_in-end_drain : (p : Phase) (h : TeeHandler Record) → taken_in (end_drain p h) ≡ taken_in h
  unfolding end_drain
  taken_in-end_drain looping h = refl
  taken_in-end_drain draining h =
      if_rule (λ (x : TeeHandler Record). taken_in x ≡ taken_in h) (length h.db_sink == 0) _ _
        (λ e. taken_in-flush h) (λ e. refl)
  taken_in-end_drain returned h = refl

  taken_in-handle_record :
      (r : Record) (h : TeeHandler Record)
      → taken_in (handle_record r h).1 ≡ taken_in h ++ accepts (handles r) h
  unfolding handle_record accepts
  taken_in-handle_record r h = elim (Bool-cases (ltb (length h.db_sink) h.capacity)) [
    | inl e ↦ rw e (
        ap (concat h.batches ++◌) (sym (append_assoc h.buf h.db_sink (r ∷ [])))
        ∙ sym (append_assoc (concat h.batches) (h.buf ++ h.db_sink) (r ∷ [])))
    | inr e ↦ rw e (sym (append_nil (taken_in h)))
  ]

  taken_in-tee_act :
      (a : TeeAction Record) (h : TeeHandler Record)
      → taken_in (tee_act a h) ≡ taken_in h ++ accepts a h
  unfolding tee_act accepts
  taken_in-tee_act (handles r) h = taken_in-handle_record r h
  taken_in-tee_act receives h =
      taken_in-receive_record h.db_sink h refl ∙ sym (append_nil (taken_in h))
  taken_in-tee_act ticks h = taken_in-tick h.phase h ∙ sym (append_nil (taken_in h))
  taken_in-tee_act closes h = sym (append_nil (taken_in h))
  taken_in-tee_act starts_drain h = taken_in-start_drain h.phase h ∙ sym (append_nil (taken_in h))
  taken_in-tee_act ends_drain h = taken_in-end_drain h.phase h ∙ sym (append_nil (taken_in h))

  taken_in-tee_acts :
      (xs : List (TeeAction Record)) (h : TeeHandler Record)
      → taken_in (tee_acts xs h) ≡ taken_in h ++ accepted xs h
  unfolding tee_acts accepted
  taken_in-tee_acts [] h = sym (append_nil (taken_in h))
  taken_in-tee_acts (a ∷ xs) h =
      taken_in-tee_acts xs (tee_act a h)
      ∙ (ap (◌++ accepted xs (tee_act a h)) (taken_in-tee_act a h)
          ∙ append_assoc (taken_in h) (accepts a h) (accepted xs (tee_act a h)))

  -- The records that Handle has accepted are those that InsertBatch was given, then those in the
  -- goroutine's buffer, then those in the channel, in the order of acceptance, each once, whatever the
  -- order of Handle, of the goroutine's steps and of Close.
  pub accepted_records_kept :
      (size : ℕ) (xs : List (TeeAction Record))
      → let h = tee_acts xs (new_tee_handler size) in
        concat h.batches ++ (h.buf ++ h.db_sink) ≡ accepted xs (new_tee_handler size)
  unfolding new_tee_handler
  accepted_records_kept size xs = taken_in-tee_acts xs (new_tee_handler size)
