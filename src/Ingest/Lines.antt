-- ===== src/Ingest/Lines.antt =====
-- The lines of a text, and Ingest's loop (internal/server/ingest/content.go).
use claude_plane.Base.{
  Option, ℕ, zero, suc, ◌+◌, ◌<◌, ◌≡◌, refl, sym, ap, ◌∙◌, String, List, [], ◌∷◌, ◌++◌, none, some,
  ◌==◌, length, arith, Bool-cases, Option-cases, inl, inr, if◌then◌else◌, true, false, append_nil,
  append_assoc,
}
use claude_plane.Ingest.{ContentLine, LineBuffer, trim_right, cut_line, add_line, split_loop}

-- A text in front of which a byte other than a newline is put.
abbrev put : ℕ → List (List ℕ) × List ℕ → List (List ℕ) × List ℕ
put x ([], rest) = ([], x ∷ rest)
put x (line ∷ lines, rest) = ((x ∷ line) ∷ lines, rest)

-- The lines of a text that end with a newline, and what follows the last newline.
unfoldable pub split_text : List ℕ → List (List ℕ) × List ℕ
split_text [] = ([], [])
split_text (x ∷ text) =
    let parts = split_text text in if x == 10 then ([] ∷ parts.0, parts.1) else put x parts

split_text-newline :
    (x : ℕ) (text : List ℕ)
    → (x == 10) ≡ true
    → split_text (x ∷ text) ≡ ([] ∷ (split_text text).0, (split_text text).1)
unfolding split_text
split_text-newline x text e = rw (split_text, e) refl

split_text-other :
    (x : ℕ) (text : List ℕ) → (x == 10) ≡ false → split_text (x ∷ text) ≡ put x (split_text text)
unfolding split_text
split_text-other x text e = rw (split_text, e) refl

-- Lines with their numbers, from the one that follows n.
abbrev pub number : String → ℕ → List (List ℕ) → List ContentLine
number session_id n [] = []
number session_id n (line ∷ lines) =
    record { session_id = session_id; line_number = suc n; content = trim_right line }
    ∷ number session_id (suc n) lines

pub number-append :
    (s : String) (n : ℕ) (xs ys : List (List ℕ))
    → number s n (xs ++ ys) ≡ number s n xs ++ number s (n + length xs) ys
number-append s n [] ys = ap (λ k. number s k ys) (omega arith)
number-append s n (x ∷ xs) ys =
    ap ((record { session_id = s; line_number = suc n; content = trim_right x }) ∷◌)
      (number-append s (suc n) xs ys ∙ ap (λ k. number s (suc n) xs ++ number s k ys) (omega arith))

-- More bytes after a text that is split.
abbrev pub join : List (List ℕ) × List ℕ → List ℕ → List (List ℕ) × List ℕ
join (lines, rest) ys = (lines ++ (split_text (rest ++ ys)).0, (split_text (rest ++ ys)).1)

put-join :
    (x : ℕ) (p : List (List ℕ) × List ℕ) (ys : List ℕ)
    → (x == 10) ≡ false
    → put x (join p ys) ≡ join (put x p) ys
put-join x ([], rest) ys e = sym (split_text-other x (rest ++ ys) e)
put-join x (line ∷ lines, rest) ys e = refl

pub split_text-append : (xs ys : List ℕ) → split_text (xs ++ ys) ≡ join (split_text xs) ys
unfolding split_text
split_text-append [] ys = refl
split_text-append (x ∷ xs) ys = elim (Bool-cases (x == 10)) [
  | inl e ↦
      split_text-newline x (xs ++ ys) e
      ∙ (ap (λ (p : List (List ℕ) × List ℕ). ([] ∷ p.0, p.1)) (split_text-append xs ys)
          ∙ sym (ap (λ p. join p ys) (split_text-newline x xs e)))
  | inr e ↦
      split_text-other x (xs ++ ys) e
      ∙ (ap (put x) (split_text-append xs ys)
          ∙ (put-join x (split_text xs) ys e ∙ sym (ap (λ p. join p ys) (split_text-other x xs e))))
]

split_text-cut_line-none : (text : List ℕ) → cut_line text ≡ none → split_text text ≡ ([], text)
unfolding split_text cut_line
split_text-cut_line-none [] h = refl
split_text-cut_line-none (x ∷ text) h = elim (Bool-cases (x == 10)) [
  | inl e ↦ absurd (ground (arith, e, h))
  | inr e ↦ elim (Option-cases (cut_line text)) [
    | inl k ↦ split_text-other x text e ∙ ap (put x) (split_text-cut_line-none text k)
    | inr (p, k) ↦ absurd (ground (arith, e, h, k))
  ]
]

-- A text that has been cut at its first newline.
record Cut (text line rest : List ℕ) : Type 0 where
  splits : split_text text ≡ (line ∷ (split_text rest).0, (split_text rest).1)
  shorter : length rest < length text

cut_line-Cut : (text line rest : List ℕ) → cut_line text ≡ some (line, rest) → Cut text line rest
unfolding cut_line
cut_line-Cut [] line rest h = absurd (ground (arith, h))
cut_line-Cut (x ∷ text) line rest h = elim (Bool-cases (x == 10)) [
  | inl e ↦
      let whole : ◌≡◌ {A = Option (List ℕ × List ℕ)} (some ([], text)) (some (line, rest)) =
        ground (arith, e, h) in
      let first : [] ≡ line = cc in
      let second : text ≡ rest = cc in
      rw (sym first, sym second)
        (record { splits = split_text-newline x text e; shorter = omega arith })
  | inr e ↦ elim (Option-cases (cut_line text)) [
    | inl k ↦ absurd (ground (arith, e, h, k))
    | inr ((before, after), k) ↦
        let whole : ◌≡◌ {A = Option (List ℕ × List ℕ)} (some (x ∷ before, after))
            (some (line, rest)) =
          ground (arith, e, h, k) in
        let first : x ∷ before ≡ line = cc in
        let second : after ≡ rest = cc in
        let ih = cut_line-Cut text before after k in
        rw (sym first, sym second)
          (record {
            splits = split_text-other x text e ∙ ap (put x) ih.splits;
            shorter = omega (arith, ih.shorter);
          })
  ]
]

same_buffer :
    {n m : ℕ} {xs ys : List ContentLine} (rest : List ℕ)
    → n ≡ m
    → xs ≡ ys
    → Path LineBuffer
        (record { line_count = n; partial = rest; batch = xs })
        (record { line_count = m; partial = rest; batch = ys })
same_buffer rest e f = λ i. record { line_count = e i; partial = rest; batch = f i }

-- Ingest's loop adds the lines, with their numbers, and keeps the rest.
pub split_loop_lem :
    (fuel : ℕ) (s : String) (text : List ℕ) (b : LineBuffer)
    → length text < fuel
    → split_loop fuel s text b ≡ record b {
      line_count = b.line_count + length (split_text text).0;
      partial = (split_text text).1;
      batch = b.batch ++ number s b.line_count (split_text text).0;
    }
unfolding split_loop add_line
split_loop_lem zero s text b h = absurd (omega (arith, h))
split_loop_lem (suc fuel) s text b h = elim (Option-cases (cut_line text)) [
  | inl e ↦
      let same = split_text-cut_line-none text e in
      rw (split_loop, e, same) (same_buffer text (omega arith) (sym (append_nil b.batch)))
  | inr ((line, rest), e) ↦
      let cut = cut_line-Cut text line rest e in
      rw (split_loop, e, cut.splits)
        (split_loop_lem fuel s rest (add_line s line b) (omega (arith, h, cut.shorter))
          ∙ same_buffer (split_text rest).1 (omega arith)
              (append_assoc b.batch _ (number s (suc b.line_count) (split_text rest).0)))
]

-- The lines of a text, the last one without a newline too.
abbrev pub lines_of : List ℕ → List (List ℕ)
lines_of text =
    (split_text text).0
    ++ (if length (split_text text).1 == 0 then [] else (split_text text).1 ∷ [])
