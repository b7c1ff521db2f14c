-- ===== src/Sessions/Registry/Fates.antt =====
-- What becomes of a published message (internal/server/session/registry.go).
use claude_plane.Sessions.Registry.{
  Registry, SubscriberMessage, offer, offer_all, count_drop, set_buffer, dropped_count,
  publish_data, publish_control, channels_of,
}
use claude_plane.Base.{
  ℕ, suc, String, true, false, some, List, [], ◌∷◌, if◌then◌else◌, ◌==◌, ltb, length, arith, ◌≡◌,
  inl, inr, Bool-cases, All, refl, ==→eq, ◌∙◌, ◌<◌, ◌≤◌, ap, ◌++◌,
}

-- Every channel in a list is open and has its counter: what Subscribe leaves behind.
abbrev pub Ready : Registry → ℕ → Type 0
Ready r c = ((r.buffers c).is_closed ≡ false) × ((n : ℕ) × (r.dropped c ≡ some n))

-- How often a channel stands in a list.
abbrev pub occurrences : ℕ → List ℕ → ℕ
occurrences c [] = 0
occurrences c (d ∷ ds) = if d == c then suc (occurrences c ds) else occurrences c ds

-- What a select on a channel leaves: the message behind the others if there is room for it, and otherwise
-- one more drop.
pub record Received (message : SubscriberMessage) (c : ℕ) (r s : Registry) : Type 0 where
  pub queued :
      length (r.buffers c).waiting < 256
      → ((s.buffers c).waiting ≡ (r.buffers c).waiting ++ message ∷ [])
        × (s.dropped c ≡ r.dropped c)
  pub counted :
      256 ≤ length (r.buffers c).waiting
      → ((s.buffers c).waiting ≡ (r.buffers c).waiting)
        × (dropped_count c s ≡ suc (dropped_count c r))

-- A channel as it was.
pub record Untouched (c : ℕ) (r s : Registry) : Type 0 where
  pub waiting : (s.buffers c).waiting ≡ (r.buffers c).waiting
  pub closed : (s.buffers c).is_closed ≡ (r.buffers c).is_closed
  pub dropped : s.dropped c ≡ r.dropped c

-- One offer: this channel receives, and no other changes.
pub record Offered (message : SubscriberMessage) (ch : ℕ) (r s : Registry) : Type 0 where
  pub received : Received message ch r s
  pub others : (c : ℕ) → (c == ch) ≡ false → Untouched c r s
  pub calm : s.panicked ≡ r.panicked

offer-Offered :
    (message : SubscriberMessage) (ch : ℕ) (r : Registry)
    → Ready r ch
    → Offered message ch r (offer message ch r)
unfolding offer set_buffer dropped_count count_drop
offer-Offered message ch r (opened, (n, counter)) =
    elim (Bool-cases (ltb (length (r.buffers ch).waiting) 256)) [
      | inl room ↦
          rw (offer, opened, room)
            (record {
              received = record {
                queued = λ h. (ground arith, refl);
                counted = λ h. absurd (ground (arith, h, room));
              };
              others = λ c e. record {
                waiting = ground (arith, e);
                closed = ground (arith, e);
                dropped = refl;
              };
              calm = refl;
            })
      | inr full ↦
          rw (offer, opened, full, count_drop, counter)
            (record {
              received = record {
                queued = λ h. absurd (ground (arith, h, full));
                counted = λ h. (refl, ground (arith, counter));
              };
              others = λ c e. record { waiting = refl; closed = refl; dropped = ground (arith, e) };
              calm = refl;
            })
    ]

Ready-Untouched : (c : ℕ) (r s : Registry) → Untouched c r s → Ready r c → Ready s c
Ready-Untouched c r s u (opened, (n, counter)) = (u.closed ∙ opened, (n, u.dropped ∙ counter))

Received-Untouched :
    (message : SubscriberMessage) (c : ℕ) (r s t : Registry)
    → Received message c r s
    → Untouched c s t
    → Received message c r t
unfolding dropped_count
Received-Untouched message c r s t v u = record {
  queued = λ h. (u.waiting ∙ (v.queued h).0, u.dropped ∙ (v.queued h).1);
  counted = λ h. (u.waiting ∙ (v.counted h).0, ground (arith, u.dropped, (v.counted h).1));
}

Untouched-Received :
    (message : SubscriberMessage) (c : ℕ) (r s t : Registry)
    → Untouched c r s
    → Received message c s t
    → Received message c r t
unfolding dropped_count
Untouched-Received message c r s t u v = record {
  queued = λ h.
      let (w, d) = v.queued (ground (arith, h, u.waiting)) in
      (w ∙ ap (◌++ message ∷ []) u.waiting, d ∙ u.dropped);
  counted = λ h.
      let (w, d) = v.counted (ground (arith, h, u.waiting)) in
      (w ∙ u.waiting, ground (arith, d, u.dropped));
}

-- The whole loop over the subscribers, each of which stands in the list once.
pub record OfferedAll (message : SubscriberMessage) (chs : List ℕ) (r s : Registry) : Type 0 where
  pub received : (c : ℕ) → occurrences c chs ≡ 1 → Received message c r s
  pub others : (c : ℕ) → occurrences c chs ≡ 0 → Untouched c r s
  pub calm : s.panicked ≡ r.panicked

Ready-rest :
    (message : SubscriberMessage) (ch : ℕ) (r : Registry) (chs : List ℕ)
    → ((c : ℕ) → (c == ch) ≡ false → Untouched c r (offer message ch r))
    → occurrences ch chs ≡ 0
    → All (Ready r) chs
    → All (Ready (offer message ch r)) chs
Ready-rest message ch r [] others absent ready = tt
Ready-rest message ch r (d ∷ chs) others absent ready = (
  Ready-Untouched d r (offer message ch r) (others d (ground (arith, absent))) ready.0,
  Ready-rest message ch r chs others (ground (arith, absent)) ready.1,
)

-- No channel stands twice among a session's subscribers, as they are the keys of a map.
abbrev pub Distinct : List ℕ → Type 0
Distinct chs = (c : ℕ) → occurrences c chs ≤ 1

offer_all-OfferedAll :
    (message : SubscriberMessage) (chs : List ℕ) (r : Registry)
    → Distinct chs
    → All (Ready r) chs
    → OfferedAll message chs r (offer_all message chs r)
unfolding offer_all
offer_all-OfferedAll message [] r distinct ready = record {
  received = λ c h. absurd (omega (arith, h));
  others = λ c h. record { waiting = refl; closed = refl; dropped = refl };
  calm = refl;
}
offer_all-OfferedAll message (ch ∷ chs) r distinct ready =
    let first = offer-Offered message ch r ready.0 in
    let s = offer message ch r in
    let absent : occurrences ch chs ≡ 0 = ground (arith, distinct ch) in
    let rest =
      offer_all-OfferedAll message chs s (λ c. ground (arith, distinct c))
        (Ready-rest message ch r chs first.others absent ready.1) in
    record {
      received = λ c h. elim (Bool-cases (c == ch)) [
        | inl e ↦
            let same : c ≡ ch = ==→eq c ch e in
            Received-Untouched message c r s _ (rw same first.received)
              (rest.others c (ground (arith, absent, same)))
        | inr e ↦
            Untouched-Received message c r s _ (first.others c e)
              (rest.received c (ground (arith, h, e)))
      ];
      others = λ c h.
          let e : (c == ch) ≡ false = ground (arith, h) in
          let a = first.others c e in
          let b = rest.others c (ground (arith, h)) in
          record {
            waiting = b.waiting ∙ a.waiting;
            closed = b.closed ∙ a.closed;
            dropped = b.dropped ∙ a.dropped;
          };
      calm = rest.calm ∙ first.calm;
    }

-- Publish and PublishControl put the message behind those that wait in a subscriber's channel if fewer than
-- 256 wait there, and otherwise leave the channel and add one to its counter of drops; every channel that
-- does not subscribe to the session keeps both, and nothing panics. The subscribers' channels are open,
-- have counters, and are all different.
pub publish_fates :
    (session_id : String) (bytes : List ℕ) (r : Registry)
    → Distinct (channels_of session_id r)
    → All (Ready r) (channels_of session_id r)
    → r.panicked ≡ false
    → OfferedAll
        (record { data_bytes = bytes; is_control = false })
        (channels_of session_id r)
        r
        (publish_data session_id bytes r)
      × OfferedAll
          (record { data_bytes = bytes; is_control = true })
          (channels_of session_id r)
          r
          (publish_control session_id bytes r)
      × ((publish_data session_id bytes r).panicked ≡ false)
      × ((publish_control session_id bytes r).panicked ≡ false)
unfolding publish_data publish_control
publish_fates session_id bytes r distinct ready calm =
    let d =
      offer_all-OfferedAll (record { data_bytes = bytes; is_control = false })
        (channels_of session_id r) r distinct ready in
    let c =
      offer_all-OfferedAll (record { data_bytes = bytes; is_control = true })
        (channels_of session_id r) r distinct ready in
    (d, c, d.calm ∙ calm, c.calm ∙ calm)
