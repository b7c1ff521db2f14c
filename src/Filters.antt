-- ===== src/Filters.antt =====
-- The filters of the GitHub connector (internal/bridge/connector/github/filters.go). Texts are lists of
-- bytes; 47 is "/" and 42 is "*". path.Match is an argument; its error counts as no match, as in the code.
pub mod Covers
pub mod Passes
use claude_plane.Base.{
  ℕ, Bool, true, false, ◌&&◌, not, List, [], ◌∷◌, ◌++◌, ◌==◌, length, if◌then◌else◌,
}

abbrev pub Text : Type 0
Text = List ℕ

unfoldable pub same_text : Text → Text → Bool
same_text [] [] = true
same_text [] (y ∷ ys) = false
same_text (x ∷ xs) [] = false
same_text (x ∷ xs) (y ∷ ys) = x == y && same_text xs ys

-- strings.HasPrefix
unfoldable pub has_prefix : Text → Text → Bool
has_prefix text [] = true
has_prefix [] (y ∷ prefix) = false
has_prefix (x ∷ text) (y ∷ prefix) = x == y && has_prefix text prefix

-- strings.HasSuffix and strings.TrimSuffix
unfoldable pub has_suffix : Text → Text → Bool
unfolding same_text
has_suffix [] suffix = same_text [] suffix
has_suffix (x ∷ text) suffix =
    let later = has_suffix text suffix in if same_text (x ∷ text) suffix then true else later

unfoldable pub trim_suffix : Text → Text → Text
unfolding same_text
trim_suffix [] suffix = []
trim_suffix (x ∷ text) suffix =
    let rest = trim_suffix text suffix in if same_text (x ∷ text) suffix then [] else x ∷ rest

pub record Filters : Type 0 where
  pub branches : List Text
  pub labels : List Text
  pub check_names : List Text
  pub conclusions : List Text
  pub paths : List Text
  pub authors_ignore : List Text
  pub review_states : List Text
  pub tag_patterns : List Text

pub record EventData : Type 0 where
  pub base_branch : Text
  pub labels : List Text
  pub check_name : Text
  pub conclusion : Text
  pub changed_files : List Text
  pub author : Text
  pub review_state : Text
  pub tag : Text

-- for _, item := range filter { if item == value { return true } }; also the test for a key of filterSet
unfoldable pub stands_in : Text → List Text → Bool
unfolding same_text
stands_in value [] = false
stands_in value (item ∷ rest) =
    let later = stands_in value rest in if same_text item value then true else later

-- matchBranches, matchStringInList and matchReviewStates, which have one text
unfoldable pub match_string_in_list : List Text → Text → Bool
unfolding stands_in
match_string_in_list [] value = true
match_string_in_list (item ∷ rest) value = stands_in value (item ∷ rest)

unfoldable pub any_label : List Text → List Text → Bool
unfolding stands_in
any_label filter [] = false
any_label filter (l ∷ rest) =
    let later = any_label filter rest in if stands_in l filter then true else later

unfoldable pub match_labels : List Text → List Text → Bool
unfolding any_label
match_labels [] labels = true
match_labels (l ∷ filter) labels = any_label (l ∷ filter) labels

unfoldable pub match_authors_ignore : List Text → Text → Bool
unfolding stands_in
match_authors_ignore [] author = true
match_authors_ignore (a ∷ filter) author = if stands_in author (a ∷ filter) then false else true

module _ (path_match : Text → Text → Bool) where
  unfoldable pub match_path : (pattern file_path : Text) → Bool
  unfolding has_suffix trim_suffix has_prefix
  match_path pattern file_path =
      if has_suffix pattern (47 ∷ 42 ∷ 42 ∷ [])
      then has_prefix file_path (trim_suffix pattern (47 ∷ 42 ∷ 42 ∷ []) ++ (47 ∷ []))
      else path_match pattern file_path

  unfoldable pub any_pattern : List Text → Text → Bool
  unfolding match_path
  any_pattern [] file = false
  any_pattern (pattern ∷ rest) file =
      let later = any_pattern rest file in if match_path pattern file then true else later

  unfoldable pub any_file : List Text → List Text → Bool
  unfolding any_pattern
  any_file filter [] = false
  any_file filter (file ∷ rest) =
      let later = any_file filter rest in if any_pattern filter file then true else later

  unfoldable pub match_paths : List Text → List Text → Bool
  unfolding any_file
  match_paths [] changed_files = true
  match_paths (p ∷ filter) changed_files = any_file (p ∷ filter) changed_files

  unfoldable pub any_tag_pattern : List Text → Text → Bool
  any_tag_pattern [] tag = false
  any_tag_pattern (p ∷ rest) tag =
      let later = any_tag_pattern rest tag in if path_match p tag then true else later

  unfoldable pub match_tag_patterns : List Text → Text → Bool
  unfolding any_tag_pattern
  match_tag_patterns [] tag = true
  match_tag_patterns (p ∷ rest) tag = any_tag_pattern (p ∷ rest) tag

  unfoldable pub match_event : Filters → EventData → Bool
  unfolding match_string_in_list match_labels match_paths match_authors_ignore match_tag_patterns
  match_event f event =
      if not (match_string_in_list f.branches event.base_branch)
      then false
      else if not (match_labels f.labels event.labels)
      then false
      else if not (match_string_in_list f.check_names event.check_name)
      then false
      else if not (match_string_in_list f.conclusions event.conclusion)
      then false
      else if not (match_paths f.paths event.changed_files)
      then false
      else if not (match_authors_ignore f.authors_ignore event.author)
      then false
      else if not (match_string_in_list f.review_states event.review_state)
      then false
      else if not (match_tag_patterns f.tag_patterns event.tag)
      then false
      else true
