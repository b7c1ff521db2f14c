-- ===== src/Bridge.antt =====
-- The state of the bridge (internal/bridge/state/state.go): cursors and processed events, with their file.
-- SetCursor, MarkProcessed and Prune are each three steps, cut at the locks: the change of the data under
-- mu, then begin_save (the text is made under mu) and finish_save (the file is written under saveMu). In
-- between, other goroutines can take steps. Times are seconds. `Text` is what a file holds. JSON is an
-- argument: the text for the data, none for an error of json.Marshal, and the maps that a text holds, none
-- for an error of json.Unmarshal, a map none where the text has no such map.
pub mod Survives
pub mod Pruned
use claude_plane.Base.{
  ℕ, ◌+◌, String, Bool, true, false, Option, none, some, List, [], ◌∷◌, ◌++◌, zero, suc, Map,
  get_or, insert, has, ltb, ◌==◌, if◌then◌else◌,
}

pub record StateData : Type 0 where
  pub cursors : Map String
  pub processed : Map ℕ

-- A Store, the file at its path, none if there is none, and the texts of the calls of Save that have not
-- had saveMu yet.
pub record StateStore (Text : Type 0) : Type 0 where
  pub data_ : StateData
  pub file : Option Text
  pub unsaved : List Text

unfoldable pub new_state_store : {Text : Type 0} → Option Text → StateStore Text
new_state_store file = record {
  data_ = record { cursors = []; processed = [] };
  file = file;
  unsaved = [];
}

unfoldable pub get_cursor : {Text : Type 0} → String → StateStore Text → String
get_cursor connector_id s = get_or "" connector_id s.data_.cursors

unfoldable pub is_processed : {Text : Type 0} → String → StateStore Text → Bool
is_processed event_id s = has event_id s.data_.processed

-- for id, at := range s.data.Processed; at.After(now - maxAge)
unfoldable pub keep_recent : (now max_age : ℕ) → Map ℕ → Map ℕ → Map ℕ
keep_recent now max_age [] pruned = pruned
keep_recent now max_age ((id, at) ∷ rest) pruned =
    keep_recent now max_age rest (if ltb now (at + max_age) then insert id at pruned else pruned)

-- SetCursor, up to Save
unfoldable pub set_cursor : {Text : Type 0} → String → String → StateStore Text → StateStore Text
set_cursor connector_id cursor s = record s {
  data_ = record s.data_ { cursors = insert connector_id cursor s.data_.cursors };
}

-- MarkProcessed, up to Save
unfoldable pub mark_processed :
    {Text : Type 0} → String → (now : ℕ) → StateStore Text → StateStore Text
mark_processed event_id now s = record s {
  data_ = record s.data_ { processed = insert event_id now s.data_.processed };
}

-- Prune, up to Save
unfoldable pub prune : {Text : Type 0} → (now max_age : ℕ) → StateStore Text → StateStore Text
unfolding keep_recent
prune now max_age s =
    let age = (if max_age == 0 then 604800 else max_age) in
    record s { data_ = record s.data_ { processed = keep_recent now age s.data_.processed [] } }

-- Save's first section: whether json.Marshal succeeds, and the text with those that wait for saveMu.
unfoldable pub begin_save :
    {Text : Type 0} → (StateData → Option Text) → StateStore Text → Bool × StateStore Text
begin_save marshal s = elim (marshal s.data_) [
  | none ↦ (false, s)
  | some text ↦ (true, record s { unsaved = s.unsaved ++ text ∷ [] })
]

abbrev pub text_at : {Text : Type 0} → ℕ → List Text → Option Text
text_at n [] = none
text_at zero (x ∷ xs) = some x
text_at (suc n) (x ∷ xs) = text_at n xs

abbrev pub without_text : {Text : Type 0} → ℕ → List Text → List Text
without_text n [] = []
without_text zero (x ∷ xs) = xs
without_text (suc n) (x ∷ xs) = x ∷ without_text n xs

-- Save's second section, for one of the calls that wait for saveMu: whether it reports no error. `writes`
-- tells whether the two file operations succeed; the file changes by the rename only.
unfoldable pub finish_save :
    {Text : Type 0} → ℕ → (writes : Bool) → StateStore Text → Bool × StateStore Text
finish_save n writes s = elim (text_at n s.unsaved) [
  | none ↦ (false, s)
  | some text ↦
      if writes
      then (true, record s { file = some text; unsaved = without_text n s.unsaved })
      else (false, record s { unsaved = without_text n s.unsaved })
]

-- Load, on a file that can be read if it exists.
unfoldable pub load :
    {Text : Type 0}
    → (Text → Option (Option (Map String) × Option (Map ℕ)))
    → StateStore Text
    → Bool × StateStore Text
load unmarshal s = elim s.file [
  | none ↦ (true, s)
  | some text ↦ elim (unmarshal text) [
    | none ↦ (false, s)
    | some (cursors, processed) ↦ (
      true,
      record s {
        data_ = record {
          cursors = elim cursors [ none ↦ s.data_.cursors | some m ↦ m ];
          processed = elim processed [ none ↦ s.data_.processed | some m ↦ m ];
        };
      },
    )
  ]
]
