-- ===== src/Bridge/Survives.antt =====
-- Processed events survive restarts of the bridge (internal/bridge/state/state.go).
use claude_plane.Base.{
  ℕ, ◌+◌, ◌<◌, ◌≡◌, ◌≢◌, refl, String, Bool, true, Option, some, List, [], ◌∷◌, Map, insert, lookup,
  ◌==◌, if◌then◌else◌, lookup-insert, lookup-insert_self, arith, Option-cases, inl, inr, All,
  HasOwnKeys, if_rule, str_eq-false, HasOwnKeys-insert, ◌⊎◌, All-append, subst, suc, Bool-cases,
  zero, ◌∙◌,
}
use claude_plane.Bridge.{
  StateData, StateStore, new_state_store, is_processed, keep_recent, set_cursor, mark_processed,
  prune, load, begin_save, text_at, without_text, finish_save,
}
use claude_plane.Bridge.Pruned.{lookup-keep_recent, HasOwnKeys-keep_recent, nothing_there, Holds}

-- The sections of the calls on the store, with whether the file could be written, and restarts, which
-- read the file; what waits for saveMu is then lost.
pub data StateAction : Type 0 where
  sets_cursor : String → String → StateAction
  marks : String → ℕ → StateAction
  prunes : (now max_age : ℕ) → StateAction
  begins_save : StateAction
  finishes_save : ℕ → Bool → StateAction
  restarts : StateAction

-- What a text of JSON gives back: the events of the data, in any order.
abbrev pub ReadsBack :
    {Text : Type 0}
    → (StateData → Option Text)
    → (Text → Option (Option (Map String) × Option (Map ℕ)))
    → Type 0
ReadsBack marshal unmarshal =
    (d : StateData) (text : _)
    → HasOwnKeys d.processed
    → marshal d ≡ some text
    → (c : Map String) × (p : Map ℕ) × ((unmarshal text ≡ some (some c, some p))
        × HasOwnKeys p
        × ((y : String) → lookup y p ≡ lookup y d.processed))

-- The event is marked with a time.
module _ {Text : Type 0} (marshal : StateData → Option Text)
    (unmarshal : Text → Option (Option (Map String) × Option (Map ℕ)))
    (reads_back : ReadsBack marshal unmarshal) (id : String) (at : ℕ) where
  unfoldable pub state_act : StateAction → StateStore Text → StateStore Text
  unfolding set_cursor mark_processed prune begin_save finish_save load new_state_store
  state_act (sets_cursor c v) s = set_cursor c v s
  state_act (marks e now) s = mark_processed e now s
  state_act (prunes now max_age) s = prune now max_age s
  state_act begins_save s = (begin_save marshal s).1
  state_act (finishes_save n writes) s = (finish_save n writes s).1
  state_act restarts s = (load unmarshal (new_state_store s.file)).1

  unfoldable pub state_acts : List StateAction → StateStore Text → StateStore Text
  unfolding state_act
  state_acts [] s = s
  state_acts (a ∷ rest) s = state_acts rest (state_act a s)

  -- Other events may be marked, and the event is not older than the age that Prune is called with.
  abbrev pub Recent : StateAction → Type 0
  Recent (marks e now) = e ≢ id
  Recent (prunes now max_age) = now < at + (if max_age == 0 then 604800 else max_age)
  Recent _ = Unit

  -- The same, and no restart.
  abbrev pub RecentRunning : StateAction → Type 0
  RecentRunning restarts = ⊥
  RecentRunning a = Recent a

  -- The text of some data that hold the event.
  record Written (text : Text) : Type 0 where
    kept : StateData
    written : marshal kept ≡ some text
    holds : Holds id at kept.processed

  -- The event is in memory, and in the texts that are still to be written.
  record Pending (s : StateStore Text) : Type 0 where
    in_memory : Holds id at s.data_.processed
    on_the_way : All Written s.unsaved

  InFile : StateStore Text → Type 0
  InFile s = (text : Text) × ((s.file ≡ some text) × Written text)

  begin_save-Pending : (s : StateStore Text) → Pending s → Pending (begin_save marshal s).1
  unfolding begin_save
  begin_save-Pending s h = elim (Option-cases (marshal s.data_)) [
    | inl n ↦ rw (begin_save, n) h
    | inr (text, e) ↦
        rw (begin_save, e)
          (record {
            in_memory = h.in_memory;
            on_the_way =
                All-append Written s.unsaved (text ∷ []) h.on_the_way
                  (record { kept = s.data_; written = e; holds = h.in_memory }, tt);
          })
  ]

  begin_save-file : (s : StateStore Text) → (begin_save marshal s).1.file ≡ s.file
  unfolding begin_save
  begin_save-file s = elim (Option-cases (marshal s.data_)) [
    | inl n ↦ rw (begin_save, n) refl
    | inr (text, e) ↦ rw (begin_save, e) refl
  ]

  text_at-Written :
      (n : ℕ) (xs : List Text) (text : Text)
      → All Written xs
      → text_at n xs ≡ some text
      → Written text
  text_at-Written n [] text h e = absurd (ground (arith, e))
  text_at-Written zero (x ∷ xs) text h e = subst Written (ground (arith, e)) h.0
  text_at-Written (suc n) (x ∷ xs) text h e = text_at-Written n xs text h.1 e

  without_text-Written : (n : ℕ) (xs : List Text) → All Written xs → All Written (without_text n xs)
  without_text-Written n [] h = tt
  without_text-Written zero (x ∷ xs) h = h.1
  without_text-Written (suc n) (x ∷ xs) h = (h.0, without_text-Written n xs h.1)

  finish_save-Pending :
      (n : ℕ) (writes : Bool) (s : StateStore Text) → Pending s → Pending (finish_save n writes s).1
  unfolding finish_save
  finish_save-Pending n writes s h = elim (Option-cases (text_at n s.unsaved)) [
    | inl e ↦ rw (finish_save, e) h
    | inr (text, e) ↦
        rw (finish_save, e)
          (if_rule (λ (r : Bool × StateStore Text). Pending r.1) writes _ _
            (λ w. record {
              in_memory = h.in_memory;
              on_the_way = without_text-Written n s.unsaved h.on_the_way;
            })
            (λ w. record {
              in_memory = h.in_memory;
              on_the_way = without_text-Written n s.unsaved h.on_the_way;
            }))
  ]

  finish_save-InFile :
      (n : ℕ) (writes : Bool) (s : StateStore Text)
      → Pending s
      → InFile s ⊎ ((finish_save n writes s).0 ≡ true)
      → InFile (finish_save n writes s).1
  unfolding finish_save InFile
  finish_save-InFile n writes s h f = elim (Option-cases (text_at n s.unsaved)) [
    | inl e ↦
        rw (finish_save, e) (elim f [ inl file ↦ file | inr ok ↦ absurd (ground (arith, ok, e)) ])
    | inr (text, e) ↦ elim (Bool-cases writes) [
      | inl w ↦
          rw (finish_save, e, w) (text, (refl, text_at-Written n s.unsaved text h.on_the_way e))
      | inr w ↦
          rw (finish_save, e, w)
            (elim f [ inl file ↦ file | inr ok ↦ absurd (ground (arith, ok, e, w)) ])
    ]
  ]

  marks-Holds :
      (e : String) (now : ℕ) (m : Map ℕ) → e ≢ id → Holds id at m → Holds id at (insert e now m)
  marks-Holds e now m other h = record {
    found = ground (arith, h.found, lookup-insert e id now m, str_eq-false e id other);
    own = HasOwnKeys-insert e now m h.own;
  }

  prunes-Holds :
      (now age : ℕ) (m : Map ℕ)
      → now < at + age
      → Holds id at m
      → Holds id at (keep_recent now age m [])
  prunes-Holds now age m young h = record {
    found = lookup-keep_recent id at now age m [] young (ground (arith, h.own id)) h.found;
    own = HasOwnKeys-keep_recent now age m [] (λ y. nothing_there y);
  }

  running-Pending :
      (a : StateAction) (s : StateStore Text)
      → RecentRunning a
      → Pending s
      → Pending (state_act a s)
  unfolding state_act set_cursor mark_processed prune
  running-Pending (sets_cursor c v) s ok h = record {
    in_memory = h.in_memory;
    on_the_way = h.on_the_way;
  }
  running-Pending (marks e now) s ok h = record {
    in_memory = marks-Holds e now s.data_.processed ok h.in_memory;
    on_the_way = h.on_the_way;
  }
  running-Pending (prunes now max_age) s ok h = record {
    in_memory =
        prunes-Holds now (if max_age == 0 then 604800 else max_age) s.data_.processed ok
          h.in_memory;
    on_the_way = h.on_the_way;
  }
  running-Pending begins_save s ok h = begin_save-Pending s h
  running-Pending (finishes_save n writes) s ok h = finish_save-Pending n writes s h
  running-Pending restarts s ok h = absurd ok

  actions-Pending :
      (xs : List StateAction) (s : StateStore Text)
      → All RecentRunning xs
      → Pending s
      → Pending (state_acts xs s)
  unfolding state_acts
  actions-Pending [] s ok h = h
  actions-Pending (a ∷ xs) s ok h =
      actions-Pending xs (state_act a s) ok.1 (running-Pending a s ok.0 h)

  restart-Pending :
      (s : StateStore Text)
      → InFile s
      → Pending (load unmarshal (new_state_store s.file)).1
        × InFile (load unmarshal (new_state_store s.file)).1
  unfolding load new_state_store InFile
  restart-Pending s (text, (e, w)) =
      let (c, p, (back, own, same)) = reads_back w.kept text w.holds.own w.written in
      rw (load, new_state_store, e, back)
        (
          record {
            in_memory = record { found = same id ∙ w.holds.found; own = own };
            on_the_way = tt;
          },
          (text, (e, w)),
        )

  act-Survives :
      (a : StateAction) (s : StateStore Text)
      → Recent a
      → Pending s
      → InFile s
      → Pending (state_act a s) × InFile (state_act a s)
  unfolding state_act set_cursor mark_processed prune InFile
  act-Survives (sets_cursor c v) s ok h f = (running-Pending (sets_cursor c v) s tt h, f)
  act-Survives (marks e now) s ok h f = (running-Pending (marks e now) s ok h, f)
  act-Survives (prunes now max_age) s ok h f = (running-Pending (prunes now max_age) s ok h, f)
  act-Survives begins_save s ok h f =
      (begin_save-Pending s h, (f.0, (begin_save-file s ∙ f.1.0, f.1.1)))
  act-Survives (finishes_save n writes) s ok h f =
      (finish_save-Pending n writes s h, finish_save-InFile n writes s h (inl f))
  act-Survives restarts s ok h f = restart-Pending s f

  acts-Survive :
      (xs : List StateAction) (s : StateStore Text)
      → All Recent xs
      → Pending s
      → InFile s
      → Pending (state_acts xs s)
  unfolding state_acts
  acts-Survive [] s ok h f = h
  acts-Survive (a ∷ xs) s ok h f =
      let (p, g) = act-Survives a s ok.0 h f in acts-Survive xs (state_act a s) ok.1 p g

  -- Suppose that no call of Save is between its two sections when MarkProcessed records an event, and that
  -- later, before any restart, a call of Save that has made its text after that reports no error
  -- (MarkProcessed's own, say). From then on the event stays processed: whatever the order of the
  -- sections of other calls, of which some come before that and some later, whether the file can be
  -- written or not, through restarts that read the file, and through Prune as long as the event is younger
  -- than its age. The other calls of MarkProcessed are for other events, JSON reads back the events that it
  -- wrote, and the map of events holds each key once.
  pub processed_survives :
      (before after : List StateAction) (n : ℕ) (s : StateStore Text)
      → HasOwnKeys s.data_.processed
      → s.unsaved ≡ []
      → All RecentRunning before
      → (finish_save n true (state_acts before (mark_processed id at s))).0 ≡ true
      → All Recent after
      → is_processed id
          (state_acts after (finish_save n true (state_acts before (mark_processed id at s))).1)
        ≡ true
  unfolding is_processed mark_processed
  processed_survives before after n s own quiet running ok recent =
      let marked : Pending (mark_processed id at s) = record {
        in_memory = record {
          found = lookup-insert_self id at s.data_.processed;
          own = HasOwnKeys-insert id at s.data_.processed own;
        };
        on_the_way = rw quiet tt;
      } in
      let t = state_acts before (mark_processed id at s) in
      let p = actions-Pending before (mark_processed id at s) running marked in
      let last =
        acts-Survive after (finish_save n true t).1 recent (finish_save-Pending n true t p)
          (finish_save-InFile n true t p (inr ok)) in
      ground (arith, last.in_memory.found)
