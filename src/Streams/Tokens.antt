-- ===== src/Streams/Tokens.antt =====
-- Stale handlers and new connections (internal/server/grpc/stream_registry.go): as long as the 64-bit
-- counter has not wrapped around, a handler that ends removes the entry of its own connection or nothing.
use claude_plane.Streams.{
  StreamEntry, StreamRegistry, next_token, next_stream_token, add_stream, remove_if_token,
  remove_stream, new_stream_registry, get_stream,
}
use claude_plane.Base.{
  ℕ, suc, String, arith, eq_iff, inl, inr, some, List, [], ◌∷◌, ◌≢◌, ◌≡◌, ◌≤◌, ◌<◌, Option-cases,
  Bool-cases, lookup, lookup-insert, lookup-delete, lookup-insert_self, refl, ◌==◌, ◌+◌,
}

module _ {ℓ} (S : Type ℓ) where
  -- A handler's two calls: it takes a token and adds its entry (whose token is set to it), and later it
  -- removes by the token it was given; and Remove.
  pub data StreamAction : Type ℓ where
    connect : String → StreamEntry S → StreamAction
    close_stream : String → ℕ → StreamAction
    remove : String → StreamAction

module _ {ℓ} {S : Type ℓ} where
  unfoldable pub stream_act : StreamAction S → StreamRegistry S → StreamRegistry S
  unfolding next_stream_token add_stream remove_if_token remove_stream
  stream_act (connect m info) sr =
      let (token, r) = next_stream_token sr in add_stream m (record info { stream_token = token }) r
  stream_act (close_stream m token) sr = remove_if_token m token sr
  stream_act (remove m) sr = remove_stream m sr

  unfoldable pub stream_acts : List (StreamAction S) → StreamRegistry S → StreamRegistry S
  unfolding stream_act
  stream_acts [] sr = sr
  stream_acts (a ∷ xs) sr = stream_acts xs (stream_act a sr)

  -- How many connections a sequence of calls opens.
  abbrev pub connects : List (StreamAction S) → ℕ
  connects [] = 0
  connects (connect m info ∷ xs) = suc (connects xs)
  connects (close_stream m token ∷ xs) = connects xs
  connects (remove m ∷ xs) = connects xs

  -- No call ends the connection with this token, and none opens one for the machine or removes it.
  abbrev pub LeavesAlone : String → ℕ → List (StreamAction S) → Type 0
  LeavesAlone m t [] = Unit
  LeavesAlone m t (connect n info ∷ xs) = (n ≢ m) × LeavesAlone m t xs
  LeavesAlone m t (close_stream n token ∷ xs) = (token ≢ t) × LeavesAlone m t xs
  LeavesAlone m t (remove n ∷ xs) = (n ≢ m) × LeavesAlone m t xs

  -- Every entry has a token that was handed out, and no two entries have the same.
  pub record TokenInv (sr : StreamRegistry S) : Type ℓ where
    pub issued :
        (m : String) (a : StreamEntry S) → lookup m sr.agents ≡ some a → a.stream_token ≤ sr.counter
    pub unique :
        (m n : String) (a b : StreamEntry S)
        → lookup m sr.agents ≡ some a
        → lookup n sr.agents ≡ some b
        → a.stream_token ≡ b.stream_token
        → m ≡ n

  connect-TokenInv :
      (m : String) (info : StreamEntry S) (sr : StreamRegistry S)
      → suc sr.counter < 18446744073709551616
      → TokenInv sr
      → TokenInv (stream_act (connect m info) sr)
        × ((stream_act (connect m info) sr).counter ≡ suc sr.counter)
  unfolding stream_act next_stream_token add_stream
  connect-TokenInv m info sr small inv =
      let t = next_token sr.counter in
      let exact : t ≡ suc sr.counter = omega arith in
      let e : StreamEntry S = record info { stream_token = t } in
      (
        record {
          issued = λ n a h. ground (arith, lookup-insert m n e sr.agents, inv.issued n a);
          unique = λ n o a b h k p. ground (
            arith,
            lookup-insert m n e sr.agents,
            lookup-insert m o e sr.agents,
            inv.issued n a,
            inv.issued o b,
            inv.unique n o a b,
            eq_iff m n,
            eq_iff m o,
          );
        },
        exact,
      )

  close_stream-TokenInv :
      (m : String) (token : ℕ) (sr : StreamRegistry S)
      → TokenInv sr
      → TokenInv (stream_act (close_stream m token) sr)
        × ((stream_act (close_stream m token) sr).counter ≡ sr.counter)
  unfolding stream_act remove_if_token
  close_stream-TokenInv m token sr inv = elim (Option-cases (lookup m sr.agents)) [
    | inl e ↦ rw (stream_act, remove_if_token, e) (inv, refl)
    | inr (c, e) ↦ elim (Bool-cases (c.stream_token == token)) [
      | inr f ↦ rw (stream_act, remove_if_token, e, f) (inv, refl)
      | inl f ↦
          rw (stream_act, remove_if_token, e, f)
            (
              record {
                issued = λ n a h. ground (arith, lookup-delete m n sr.agents, inv.issued n a);
                unique = λ n o a b h k p. ground (
                  arith,
                  lookup-delete m n sr.agents,
                  lookup-delete m o sr.agents,
                  inv.unique n o a b,
                );
              },
              refl,
            )
    ]
  ]

  remove-TokenInv :
      (m : String) (sr : StreamRegistry S)
      → TokenInv sr
      → TokenInv (stream_act (remove m) sr) × ((stream_act (remove m) sr).counter ≡ sr.counter)
  unfolding stream_act remove_stream
  remove-TokenInv m sr inv = (
    record {
      issued = λ n a h. ground (arith, lookup-delete m n sr.agents, inv.issued n a);
      unique = λ n o a b h k p.
          ground
            (arith, lookup-delete m n sr.agents, lookup-delete m o sr.agents, inv.unique n o a b);
    },
    refl,
  )

  stream_acts-TokenInv :
      (xs : List (StreamAction S)) (sr : StreamRegistry S)
      → sr.counter + connects xs < 18446744073709551616
      → TokenInv sr
      → TokenInv (stream_acts xs sr) × ((stream_acts xs sr).counter ≡ sr.counter + connects xs)
  unfolding stream_acts
  stream_acts-TokenInv [] sr small inv = (inv, omega arith)
  stream_acts-TokenInv (connect m info ∷ xs) sr small inv =
      let (i, c) = connect-TokenInv m info sr (omega arith) inv in
      let (j, d) = stream_acts-TokenInv xs (stream_act (connect m info) sr) (omega (arith, c)) i in
      (j, omega (arith, c, d))
  stream_acts-TokenInv (close_stream m t ∷ xs) sr small inv =
      let (i, c) = close_stream-TokenInv m t sr inv in
      let (j, d) =
        stream_acts-TokenInv xs (stream_act (close_stream m t) sr) (omega (arith, c)) i in
      (j, omega (arith, c, d))
  stream_acts-TokenInv (remove m ∷ xs) sr small inv =
      let (i, c) = remove-TokenInv m sr inv in
      let (j, d) = stream_acts-TokenInv xs (stream_act (remove m) sr) (omega (arith, c)) i in
      (j, omega (arith, c, d))

  remove_if_token-keeps :
      (n m : String) (t : ℕ) (a : StreamEntry S) (sr : StreamRegistry S)
      → t ≢ a.stream_token
      → lookup m sr.agents ≡ some a
      → lookup m (remove_if_token n t sr).agents ≡ some a
  unfolding remove_if_token
  remove_if_token-keeps n m t a sr other here = elim (Option-cases (lookup n sr.agents)) [
    | inl e ↦ rw (e, remove_if_token) here
    | inr (c, e) ↦ rw (e, remove_if_token) (ground (arith, lookup-delete n m sr.agents, eq_iff n m))
  ]

  connect-here :
      (m : String) (info : StreamEntry S) (sr : StreamRegistry S)
      → lookup m (stream_act (connect m info) sr).agents
        ≡ some (record info { stream_token = next_token sr.counter })
  unfolding stream_act next_stream_token add_stream
  connect-here m info sr =
      lookup-insert_self m (record info { stream_token = next_token sr.counter }) sr.agents

  stream_acts-keeps :
      (m : String) (a : StreamEntry S) (xs : List (StreamAction S)) (sr : StreamRegistry S)
      → LeavesAlone m a.stream_token xs
      → lookup m sr.agents ≡ some a
      → lookup m (stream_acts xs sr).agents ≡ some a
  unfolding stream_acts stream_act next_stream_token add_stream remove_stream
  stream_acts-keeps m a [] sr h here = here
  stream_acts-keeps m a (connect n info ∷ xs) sr h here =
      let e : StreamEntry S = record info { stream_token = next_token sr.counter } in
      stream_acts-keeps m a xs (stream_act (connect n info) sr) h.1
        (ground (arith, lookup-insert n m e sr.agents, eq_iff n m))
  stream_acts-keeps m a (close_stream n t ∷ xs) sr h here =
      stream_acts-keeps m a xs (stream_act (close_stream n t) sr) h.1
        (remove_if_token-keeps n m t a sr h.0 here)
  stream_acts-keeps m a (remove n ∷ xs) sr h here =
      stream_acts-keeps m a xs (stream_act (remove n) sr) h.1
        (ground (arith, here, h.0, lookup-delete n m sr.agents, eq_iff n m))

  new_stream_registry-TokenInv : TokenInv (new_stream_registry {S = S})
  unfolding new_stream_registry lookup
  new_stream_registry-TokenInv = record { issued = λ m a h. cc; unique = λ m n a b h k p. cc }

  reached :
      (xs : List (StreamAction S)) (sr : StreamRegistry S)
      → connects xs < 18446744073709551615
      → sr ≡ stream_acts xs new_stream_registry
      → TokenInv sr × (sr.counter ≡ connects xs)
  unfolding new_stream_registry
  reached xs sr small made =
      let (i, c) =
        stream_acts-TokenInv xs new_stream_registry (omega arith) new_stream_registry-TokenInv in
      rw made (i, omega (arith, c))

  -- After any calls (of connections, RemoveIfToken and Remove) on a new registry that open fewer than 2^64
  -- connections in all, the next connection gets a token that no present entry has, no two machines' entries
  -- share a token, and the new entry survives any later calls that neither connect or Remove its machine
  -- nor close its own token.
  pub stream_token_guards :
      (xs ys : List (StreamAction S)) (m : String) (info : StreamEntry S) (sr : StreamRegistry S)
      → connects xs < 18446744073709551615
      → sr ≡ stream_acts xs new_stream_registry
      → LeavesAlone m (next_token sr.counter) ys
      → ((n : String) (a : StreamEntry S)
          → lookup n sr.agents ≡ some a
          → a.stream_token < next_token sr.counter)
        × ((n o : String) (a b : StreamEntry S)
            → lookup n sr.agents ≡ some a
            → lookup o sr.agents ≡ some b
            → a.stream_token ≡ b.stream_token
            → n ≡ o)
        × (get_stream m (stream_acts ys (stream_act (connect m info) sr))
            ≡ some (record info { stream_token = next_token sr.counter }))
  unfolding get_stream
  stream_token_guards xs ys m info sr small made alone =
      let (inv, bound) = reached xs sr small made in
      (
        λ n a h. ground (arith, inv.issued n a),
        inv.unique,
        stream_acts-keeps m (record info { stream_token = next_token sr.counter }) ys
            (stream_act (connect m info) sr) alone (connect-here m info sr),
      )
