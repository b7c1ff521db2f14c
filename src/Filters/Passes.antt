-- ===== src/Filters/Passes.antt =====
-- What Filters.Match lets pass (internal/bridge/connector/github/filters.go).
use claude_plane.Base.{◌≡◌, ◌⊎◌, ◌↔◌, inl, inr, refl, Bool, true, List, [], ◌∷◌, arith, Bool-cases}
use claude_plane.Filters.{
  Text, Filters, EventData, stands_in, match_string_in_list, any_label, match_labels,
  match_authors_ignore, match_path, any_pattern, any_file, match_paths, any_tag_pattern,
  match_tag_patterns, match_event,
}
use claude_plane.Filters.Covers.{
  In, here, there, stands_in-In, In-stands_in, Covers, match_path-Covers, Covers-match_path,
}

module _ (path_match : Text → Text → Bool) where
  -- What each filter asks for; an empty list asks for nothing.
  pub record Passes (f : Filters) (event : EventData) : Type 0 where
    pub branch : (f.branches ≡ []) ⊎ In event.base_branch f.branches
    pub label : (f.labels ≡ []) ⊎ ((l : Text) × In l event.labels × In l f.labels)
    pub check : (f.check_names ≡ []) ⊎ In event.check_name f.check_names
    pub conclusion : (f.conclusions ≡ []) ⊎ In event.conclusion f.conclusions
    pub path :
        (f.paths ≡ [])
        ⊎ ((file pattern : Text) × In file event.changed_files
            × In pattern f.paths
            × Covers path_match pattern file)
    pub author : ¬ In event.author f.authors_ignore
    pub review : (f.review_states ≡ []) ⊎ In event.review_state f.review_states
    pub tag :
        (f.tag_patterns ≡ []) ⊎ ((p : Text) × In p f.tag_patterns × (path_match p event.tag ≡ true))

  one_of_iff :
      (xs : List Text) (v : Text) → (match_string_in_list xs v ≡ true) ↔ ((xs ≡ []) ⊎ In v xs)
  unfolding match_string_in_list
  one_of_iff [] v = (λ h. inl refl, λ h. refl)
  one_of_iff (x ∷ xs) v = (
    λ h. inr (stands_in-In v (x ∷ xs) h),
    λ h. elim h [ inl e ↦ absurd (ground (arith, e)) | inr i ↦ In-stands_in i ],
  )

  author_iff : (xs : List Text) (v : Text) → (match_authors_ignore xs v ≡ true) ↔ (¬ In v xs)
  unfolding match_authors_ignore stands_in
  author_iff [] v = ((λ h i. ground (arith, In-stands_in i)), λ h. refl)
  author_iff (x ∷ xs) v = (
    (λ h i. ground (arith, h, In-stands_in i)),
    λ h. elim (Bool-cases (stands_in v (x ∷ xs))) [
      | inl e ↦ absurd (h (stands_in-In v (x ∷ xs) e))
      | inr e ↦ rw (match_authors_ignore, e) refl
    ],
  )

  any_label-In :
      (filter xs : List Text) → any_label filter xs ≡ true → (l : Text) × In l xs × In l filter
  unfolding any_label
  any_label-In filter [] h = absurd (ground (arith, h))
  any_label-In filter (x ∷ xs) h = elim (Bool-cases (stands_in x filter)) [
    | inl e ↦ (x, here, stands_in-In x filter e)
    | inr e ↦ let (l, i, j) = any_label-In filter xs (ground (arith, e, h)) in (l, there i, j)
  ]

  In-any_label :
      (filter : List Text) {l : Text} {xs : List Text}
      → In l xs
      → In l filter
      → any_label filter xs ≡ true
  unfolding any_label
  In-any_label filter here j = ground (arith, In-stands_in j)
  In-any_label filter (there i) j = ground (arith, In-any_label filter i j)

  labels_iff :
      (filter xs : List Text)
      → (match_labels filter xs ≡ true) ↔ ((filter ≡ []) ⊎ ((l : Text) × In l xs × In l filter))
  unfolding match_labels
  labels_iff [] xs = (λ h. inl refl, λ h. refl)
  labels_iff (x ∷ filter) xs = (
    λ h. inr (any_label-In (x ∷ filter) xs h),
    λ h. elim h [
      | inl e ↦ absurd (ground (arith, e))
      | inr (l, i, j) ↦ In-any_label (x ∷ filter) i j
    ],
  )

  any_pattern-In :
      (file : Text) (filter : List Text)
      → any_pattern path_match filter file ≡ true
      → (pattern : Text) × In pattern filter × Covers path_match pattern file
  unfolding any_pattern
  any_pattern-In file [] h = absurd (ground (arith, h))
  any_pattern-In file (p ∷ filter) h = elim (Bool-cases (match_path path_match p file)) [
    | inl e ↦ (p, here, match_path-Covers path_match p file e)
    | inr e ↦ let (q, i, c) = any_pattern-In file filter (ground (arith, e, h)) in (q, there i, c)
  ]

  In-any_pattern :
      {file pattern : Text} {filter : List Text}
      → In pattern filter
      → Covers path_match pattern file
      → any_pattern path_match filter file ≡ true
  unfolding any_pattern
  In-any_pattern here c = ground (arith, Covers-match_path path_match c)
  In-any_pattern (there i) c = ground (arith, In-any_pattern i c)

  any_file-In :
      (filter files : List Text)
      → any_file path_match filter files ≡ true
      → (file pattern : Text) × In file files × In pattern filter × Covers path_match pattern file
  unfolding any_file
  any_file-In filter [] h = absurd (ground (arith, h))
  any_file-In filter (x ∷ files) h = elim (Bool-cases (any_pattern path_match filter x)) [
    | inl e ↦ let (p, i, c) = any_pattern-In x filter e in (x, p, here, i, c)
    | inr e ↦
        let (y, p, i, j, c) = any_file-In filter files (ground (arith, e, h)) in
        (y, p, there i, j, c)
  ]

  In-any_file :
      {file pattern : Text} {filter files : List Text}
      → In file files
      → In pattern filter
      → Covers path_match pattern file
      → any_file path_match filter files ≡ true
  unfolding any_file
  In-any_file here j c = ground (arith, In-any_pattern j c)
  In-any_file (there i) j c = ground (arith, In-any_file i j c)

  paths_iff :
      (filter files : List Text)
      → (match_paths path_match filter files ≡ true) ↔ (
          (filter ≡ [])
          ⊎ ((file pattern : Text) × In file files
              × In pattern filter
              × Covers path_match pattern file))
  unfolding match_paths
  paths_iff [] files = (λ h. inl refl, λ h. refl)
  paths_iff (p ∷ filter) files = (
    λ h. inr (any_file-In (p ∷ filter) files h),
    λ h. elim h [
      | inl e ↦ absurd (ground (arith, e))
      | inr (file, pattern, i, j, c) ↦ In-any_file i j c
    ],
  )

  any_tag_pattern-In :
      (tag : Text) (filter : List Text)
      → any_tag_pattern path_match filter tag ≡ true
      → (p : Text) × In p filter × (path_match p tag ≡ true)
  unfolding any_tag_pattern
  any_tag_pattern-In tag [] h = absurd (ground (arith, h))
  any_tag_pattern-In tag (p ∷ filter) h = elim (Bool-cases (path_match p tag)) [
    | inl e ↦ (p, here, e)
    | inr e ↦
        let (q, i, c) = any_tag_pattern-In tag filter (ground (arith, e, h)) in (q, there i, c)
  ]

  In-any_tag_pattern :
      {tag p : Text} {filter : List Text}
      → In p filter
      → path_match p tag ≡ true
      → any_tag_pattern path_match filter tag ≡ true
  unfolding any_tag_pattern
  In-any_tag_pattern here c = ground (arith, c)
  In-any_tag_pattern (there i) c = ground (arith, In-any_tag_pattern i c)

  tags_iff :
      (filter : List Text) (tag : Text)
      → (match_tag_patterns path_match filter tag ≡ true)
        ↔ ((filter ≡ []) ⊎ ((p : Text) × In p filter × (path_match p tag ≡ true)))
  unfolding match_tag_patterns
  tags_iff [] tag = (λ h. inl refl, λ h. refl)
  tags_iff (p ∷ filter) tag = (
    λ h. inr (any_tag_pattern-In tag (p ∷ filter) h),
    λ h. elim h [ inl e ↦ absurd (ground (arith, e)) | inr (q, i, c) ↦ In-any_tag_pattern i c ],
  )

  match_event-parts :
      (f : Filters) (event : EventData)
      → match_event path_match f event ≡ true
      → (match_string_in_list f.branches event.base_branch ≡ true)
        × (match_labels f.labels event.labels ≡ true)
        × (match_string_in_list f.check_names event.check_name ≡ true)
        × (match_string_in_list f.conclusions event.conclusion ≡ true)
        × (match_paths path_match f.paths event.changed_files ≡ true)
        × (match_authors_ignore f.authors_ignore event.author ≡ true)
        × (match_string_in_list f.review_states event.review_state ≡ true)
        × (match_tag_patterns path_match f.tag_patterns event.tag ≡ true)
  unfolding match_event
  match_event-parts f event h = (
    ground (arith, h),
    ground (arith, h),
    ground (arith, h),
    ground (arith, h),
    ground (arith, h),
    ground (arith, h),
    ground (arith, h),
    ground (arith, h),
  )

  -- Match lets an event pass exactly when each filter that is not empty is satisfied: the branch, check
  -- name, conclusion or review state stands in it, one of the event's labels does, one of its patterns
  -- covers one of the changed files, path.Match accepts the tag for one of its patterns; and the author is
  -- not on the ignore list.
  pub match_event_iff :
      (f : Filters) (event : EventData) → (match_event path_match f event ≡ true) ↔ Passes f event
  unfolding match_event
  match_event_iff f event = (
    λ h.
        let (a, b, c, d, e, g, k, l) = match_event-parts f event h in
        record {
          branch = (one_of_iff f.branches event.base_branch).0 a;
          label = (labels_iff f.labels event.labels).0 b;
          check = (one_of_iff f.check_names event.check_name).0 c;
          conclusion = (one_of_iff f.conclusions event.conclusion).0 d;
          path = (paths_iff f.paths event.changed_files).0 e;
          author = (author_iff f.authors_ignore event.author).0 g;
          review = (one_of_iff f.review_states event.review_state).0 k;
          tag = (tags_iff f.tag_patterns event.tag).0 l;
        },
    λ p.
        let a = (one_of_iff f.branches event.base_branch).1 p.branch in
        let b = (labels_iff f.labels event.labels).1 p.label in
        let c = (one_of_iff f.check_names event.check_name).1 p.check in
        let d = (one_of_iff f.conclusions event.conclusion).1 p.conclusion in
        let e = (paths_iff f.paths event.changed_files).1 p.path in
        let g = (author_iff f.authors_ignore event.author).1 p.author in
        let k = (one_of_iff f.review_states event.review_state).1 p.review in
        let l = (tags_iff f.tag_patterns event.tag).1 p.tag in
        rw (match_event, a, b, c, d, e, g, k, l) refl,
  )
