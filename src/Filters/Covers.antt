-- ===== src/Filters/Covers.antt =====
-- Texts in lists, and the files that a pattern covers (internal/bridge/connector/github/filters.go).
use claude_plane.Base.{
  ℕ, ◌≡◌, ◌≢◌, inl, inr, refl, ap, ◌∙◌, sym, Bool, true, List, [], ◌∷◌, ◌++◌, arith, Bool-cases,
  subst, length, length-append,
}
use claude_plane.Filters.{
  Text, same_text, has_prefix, has_suffix, trim_suffix, stands_in, match_path,
}

-- A text stands in a list.
pub data In (value : Text) : List Text → Type 0 where
  here : {rest : List Text} → In value (value ∷ rest)
  there : {item : Text} {rest : List Text} → In value rest → In value (item ∷ rest)

same_text-eq : (xs ys : Text) → same_text xs ys ≡ true → xs ≡ ys
unfolding same_text
same_text-eq [] [] h = refl
same_text-eq [] (y ∷ ys) h = absurd (ground (arith, h))
same_text-eq (x ∷ xs) [] h = absurd (ground (arith, h))
same_text-eq (x ∷ xs) (y ∷ ys) h =
    let e : x ≡ y = ground (arith, h) in
    let f : xs ≡ ys = same_text-eq xs ys (ground (arith, h)) in rw (e, f) refl

same_text_self : (xs : Text) → same_text xs xs ≡ true
unfolding same_text
same_text_self [] = refl
same_text_self (x ∷ xs) = ground (arith, same_text_self xs)

pub stands_in-In : (value : Text) (xs : List Text) → stands_in value xs ≡ true → In value xs
unfolding stands_in
stands_in-In value [] h = absurd (ground (arith, h))
stands_in-In value (item ∷ rest) h = elim (Bool-cases (same_text item value)) [
  | inl e ↦ subst (λ x. In value (x ∷ rest)) (sym (same_text-eq item value e)) here
  | inr e ↦ there (stands_in-In value rest (ground (arith, e, h)))
]

pub In-stands_in : {value : Text} {xs : List Text} → In value xs → stands_in value xs ≡ true
unfolding stands_in
In-stands_in {value} here = ground (arith, same_text_self value)
In-stands_in (there i) = ground (arith, In-stands_in i)

-- "/**"
abbrev pub below : Text
below = 47 ∷ 42 ∷ 42 ∷ []

has_prefix-append :
    (text prefix : Text) → has_prefix text prefix ≡ true → (rest : Text) × (text ≡ prefix ++ rest)
unfolding has_prefix
has_prefix-append text [] h = (text, refl)
has_prefix-append [] (y ∷ prefix) h = absurd (ground (arith, h))
has_prefix-append (x ∷ text) (y ∷ prefix) h =
    let (rest, same) = has_prefix-append text prefix (ground (arith, h)) in
    let e : x ≡ y = ground (arith, h) in (rest, rw e (ap (y ∷◌) same))

has_prefix_self : (prefix rest : Text) → has_prefix (prefix ++ rest) prefix ≡ true
unfolding has_prefix
has_prefix_self [] rest = ground arith
has_prefix_self (x ∷ prefix) rest = ground (arith, has_prefix_self prefix rest)

has_suffix-trim :
    (text suffix : Text) → has_suffix text suffix ≡ true → text ≡ trim_suffix text suffix ++ suffix
unfolding has_suffix trim_suffix
has_suffix-trim [] suffix h = same_text-eq [] suffix h
has_suffix-trim (x ∷ text) suffix h = elim (Bool-cases (same_text (x ∷ text) suffix)) [
  | inl e ↦ rw (trim_suffix, e) (same_text-eq (x ∷ text) suffix e)
  | inr e ↦ rw (trim_suffix, e) (ap (x ∷◌) (has_suffix-trim text suffix (ground (arith, e, h))))
]

has_suffix-append : (text suffix : Text) → has_suffix (text ++ suffix) suffix ≡ true
unfolding has_suffix
has_suffix-append [] [] = ground (arith, same_text_self [])
has_suffix-append [] (y ∷ suffix) = ground (arith, same_text_self (y ∷ suffix))
has_suffix-append (x ∷ text) suffix = ground (arith, has_suffix-append text suffix)

append_right_cancel : (xs ys zs : Text) → xs ++ zs ≡ ys ++ zs → xs ≡ ys
append_right_cancel [] [] zs h = refl
append_right_cancel [] (y ∷ ys) zs h =
    absurd (omega (arith, ap length h, length-append (y ∷ ys) zs))
append_right_cancel (x ∷ xs) [] zs h =
    absurd (omega (arith, ap length h, length-append (x ∷ xs) zs))
append_right_cancel (x ∷ xs) (y ∷ ys) zs h =
    let whole : Path (List ℕ) (x ∷ (xs ++ zs)) (y ∷ (ys ++ zs)) = h in
    let first : x ≡ y = cc in
    let rest : xs ++ zs ≡ ys ++ zs = cc in λ i. first i ∷ append_right_cancel xs ys zs rest i

module _ (path_match : Text → Text → Bool) where
  -- A pattern covers a file: a directory and "/**" the files below it, another pattern what path.Match says.
  pub data Covers (pattern file : Text) : Type 0 where
    lies_below :
        (directory rest : Text)
        → pattern ≡ directory ++ below
        → file ≡ (directory ++ 47 ∷ []) ++ rest
        → Covers pattern file
    is_matched :
        ((directory : Text) → pattern ≢ directory ++ below)
        → path_match pattern file ≡ true
        → Covers pattern file

  pub match_path-Covers :
      (pattern file : Text) → match_path path_match pattern file ≡ true → Covers pattern file
  unfolding match_path
  match_path-Covers pattern file h = elim (Bool-cases (has_suffix pattern below)) [
    | inl e ↦
        let (rest, same) =
          has_prefix-append file (trim_suffix pattern below ++ 47 ∷ []) (ground (arith, e, h)) in
        lies_below (trim_suffix pattern below) rest (has_suffix-trim pattern below e) same
    | inr e ↦
        is_matched
          (λ directory same.
            ground (arith, e, ap (λ p. has_suffix p below) same, has_suffix-append directory below))
          (ground (arith, e, h))
  ]

  pub Covers-match_path :
      {pattern file : Text} → Covers pattern file → match_path path_match pattern file ≡ true
  unfolding match_path
  Covers-match_path {pattern} {file} (lies_below directory rest same place) =
      let e : has_suffix pattern below ≡ true =
        ap (λ p. has_suffix p below) same ∙ has_suffix-append directory below in
      let trimmed : trim_suffix pattern below ≡ directory =
        append_right_cancel (trim_suffix pattern below) directory below
          (sym (has_suffix-trim pattern below e) ∙ same) in
      rw (match_path, e, trimmed, place) (has_prefix_self (directory ++ 47 ∷ []) rest)
  Covers-match_path {pattern} {file} (is_matched other h) =
      elim (Bool-cases (has_suffix pattern below)) [
        | inl e ↦ absurd (other (trim_suffix pattern below) (has_suffix-trim pattern below e))
        | inr e ↦ rw (match_path, e) h
      ]
