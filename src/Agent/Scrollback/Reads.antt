-- ===== src/Agent/Scrollback/Reads.antt =====
-- Reading a recording in chunks gives its bytes back (internal/agent/scrollback.go).
use claude_plane.Base.{
  ◌==◌, List, [], ◌∷◌, ◌++◌, true, false, ℕ, zero, suc, ◌+◌, ◌≤◌, ◌<◌, ◌≡◌, refl, arith, List, ◌∷◌,
  length, some, ◌++◌, false, ap, length-append, subst, true, [], ◌∙◌, sym, append_assoc, append_nil,
}
use claude_plane.Agent.Scrollback.{
  take, drop, read_loop, mark_last, read_scrollback_chunks, ScrollbackChunk,
}

-- The bytes of the chunks, in order.
abbrev pub joined : List ScrollbackChunk → List ℕ
joined [] = []
joined (c ∷ rest) = c.bytes ++ joined rest

-- Each chunk has 1 to `size` bytes, starts where the one before it ends, and is final if it is the last.
abbrev pub Laid : (size from : ℕ) → List ScrollbackChunk → Type 0
Laid size from [] = Unit
Laid size from (c ∷ rest) =
    (c.offset ≡ from)
    × (0 < length c.bytes)
    × (length c.bytes ≤ size)
    × (c.is_final ≡ (length rest == 0))
    × Laid size (from + length c.bytes) rest

-- The same without the marks.
abbrev Placed : (size from : ℕ) → List ScrollbackChunk → Type 0
Placed size from [] = Unit
Placed size from (c ∷ rest) =
    (c.offset ≡ from)
    × (0 < length c.bytes)
    × (length c.bytes ≤ size)
    × (c.is_final ≡ false)
    × Placed size (from + length c.bytes) rest

take-drop : (n : ℕ) (xs : List ℕ) → take n xs ++ drop n xs ≡ xs
take-drop zero xs = refl
take-drop (suc n) [] = refl
take-drop (suc n) (x ∷ xs) = ap (x ∷◌) (take-drop n xs)

length-take_le : (n : ℕ) (xs : List ℕ) → length (take n xs) ≤ n
length-take_le zero xs = omega arith
length-take_le (suc n) [] = omega arith
length-take_le (suc n) (x ∷ xs) = omega (arith, length-take_le n xs)

length-take_pos : (n x : ℕ) (xs : List ℕ) → 0 < n → 0 < length (take n (x ∷ xs))
length-take_pos zero x xs h = absurd (omega (arith, h))
length-take_pos (suc n) x xs h = omega arith

length-take-drop : (n : ℕ) (xs : List ℕ) → length (take n xs) + length (drop n xs) ≡ length xs
length-take-drop n xs = ground (arith, length-append (take n xs) (drop n xs), take-drop n xs)

joined-append : (xs ys : List ScrollbackChunk) → joined (xs ++ ys) ≡ joined xs ++ joined ys
joined-append [] ys = refl
joined-append (c ∷ xs) ys =
    ap (c.bytes ++◌) (joined-append xs ys) ∙ sym (append_assoc c.bytes (joined xs) (joined ys))

Placed-append :
    (size from : ℕ) (xs ys : List ScrollbackChunk)
    → Placed size from xs
    → Placed size (from + length (joined xs)) ys
    → Placed size from (xs ++ ys)
Placed-append size from [] ys h k = subst (λ n. Placed size n ys) (omega arith) k
Placed-append size from (c ∷ xs) ys (a, b, d, e, h) k = (
  a,
  b,
  d,
  e,
  Placed-append size (from + length c.bytes) xs ys h
      (subst (λ n. Placed size n ys) (omega (arith, length-append c.bytes (joined xs))) k),
)

joined-mark_last : (xs : List ScrollbackChunk) → joined (mark_last xs) ≡ joined xs
unfolding mark_last
joined-mark_last [] = refl
joined-mark_last (c ∷ []) = refl
joined-mark_last (c ∷ (d ∷ rest)) = ap (c.bytes ++◌) (joined-mark_last (d ∷ rest))

length-mark_last : (xs : List ScrollbackChunk) → length (mark_last xs) ≡ length xs
unfolding mark_last
length-mark_last [] = refl
length-mark_last (c ∷ []) = refl
length-mark_last (c ∷ (d ∷ rest)) = ap suc (length-mark_last (d ∷ rest))

Laid-mark_last :
    (size from : ℕ) (xs : List ScrollbackChunk)
    → Placed size from xs
    → Laid size from (mark_last xs)
unfolding mark_last
Laid-mark_last size from [] h = tt
Laid-mark_last size from (c ∷ []) (a, b, d, e, h) = (a, b, d, refl, tt)
Laid-mark_last size from (c ∷ (d ∷ rest)) (a, b, k, e, h) = (
  a,
  b,
  k,
  ground (arith, e, length-mark_last (d ∷ rest)),
  Laid-mark_last size (from + length c.bytes) (d ∷ rest) h,
)

module _ (size : ℕ) (amount : ℕ → ℕ)
    (gives : (offset : ℕ) → (0 < amount offset) × (amount offset ≤ size)) where
  read_loop-Placed :
      (fuel : ℕ) (left : List ℕ) (offset : ℕ) (chunks : List ScrollbackChunk)
      → length left < fuel
      → Placed size 0 chunks
      → length (joined chunks) ≡ offset
      → ((read_loop amount fuel left offset chunks).0 ≡ true)
        × Placed size 0 (read_loop amount fuel left offset chunks).1
        × (joined (read_loop amount fuel left offset chunks).1 ≡ joined chunks ++ left)
  unfolding read_loop
  read_loop-Placed zero left offset chunks h p e = absurd (omega (arith, h))
  read_loop-Placed (suc fuel) [] offset chunks h p e = (refl, p, sym (append_nil (joined chunks)))
  read_loop-Placed (suc fuel) (x ∷ left) offset chunks h p e =
      let (some_byte, few) = gives offset in
      let n = amount offset in
      let got = take n (x ∷ left) in
      let positive : 0 < length got = length-take_pos n x left some_byte in
      let chunk : ScrollbackChunk = record { bytes = got; offset = offset; is_final = false } in
      let (ended, placed, same) =
        read_loop-Placed fuel (drop n (x ∷ left)) (offset + length got) (chunks ++ chunk ∷ [])
          (omega (arith, h, positive, length-take-drop n (x ∷ left)))
          (Placed-append size 0 chunks (chunk ∷ []) p
            (omega (arith, e), positive, omega (arith, few, length-take_le n (x ∷ left)), refl, tt))
          (ground (
            arith,
            e,
            joined-append chunks (chunk ∷ []),
            length-append (joined chunks) (got ++ []),
            length-append got [],
          )) in
      let nonempty : (length got == 0) ≡ false = ground (arith, positive) in
      rw (read_loop, nonempty)
        (
          ended,
          placed,
          same
              ∙ (ap (◌++ drop n (x ∷ left)) (joined-append chunks (chunk ∷ []))
                  ∙ (append_assoc (joined chunks) (got ++ []) (drop n (x ∷ left))
                      ∙ ap (joined chunks ++◌)
                          (append_assoc got [] (drop n (x ∷ left)) ∙ take-drop n (x ∷ left)))),
        )

  -- If each read before the end of the file gives at least one byte and at most `size`,
  -- ReadScrollbackChunks ends, its chunks are the bytes of the file, each has at most `size` bytes and
  -- starts where the one before it ends, and the last one alone is marked as final.
  pub read_scrollback_chunks-joined :
      (file : List ℕ)
      → (chunks : List ScrollbackChunk) × (read_scrollback_chunks amount file ≡ some chunks)
        × (joined chunks ≡ file)
        × Laid size 0 chunks
  unfolding read_scrollback_chunks
  read_scrollback_chunks-joined file =
      let (ended, placed, same) =
        read_loop-Placed (suc (length file)) file 0 [] (omega arith) tt refl in
      let chunks = (read_loop amount (suc (length file)) file 0 []).1 in
      (
        mark_last chunks,
        rw (read_scrollback_chunks, ended) refl,
        joined-mark_last chunks ∙ same,
        Laid-mark_last size 0 chunks placed,
      )
