-- ===== src/Bridge/Pruned.antt =====
-- The events that Prune keeps (internal/bridge/state/state.go).
use claude_plane.Base.{
  ℕ, ◌+◌, ◌<◌, ◌≡◌, refl, String, some, [], ◌∷◌, Map, lookup, has, ltb, lookup-insert, arith, inl,
  inr, text_cases, count, HasOwnKeys, if_rule, keys, HasOwnKeys-insert, ◌≤◌, unit_of,
}
use claude_plane.Bridge.{keep_recent}

-- Pruning
pub lookup-keep_recent_absent :
    (id : String) (at now age : ℕ) (m pruned : Map ℕ)
    → count id (keys m) ≡ 0
    → lookup id pruned ≡ some at
    → lookup id (keep_recent now age m pruned) ≡ some at
unfolding keep_recent
lookup-keep_recent_absent id at now age [] pruned n e = e
lookup-keep_recent_absent id at now age ((j, t) ∷ m) pruned n e =
    lookup-keep_recent_absent id at now age m _ (ground (arith, n))
      (ground (arith, n, e, lookup-insert j id t pruned))

pub lookup-keep_recent :
    (id : String) (at now age : ℕ) (m pruned : Map ℕ)
    → now < at + age
    → count id (keys m) ≤ 1
    → lookup id m ≡ some at
    → lookup id (keep_recent now age m pruned) ≡ some at
unfolding keep_recent lookup
lookup-keep_recent id at now age [] pruned h n e = absurd (ground (arith, e))
lookup-keep_recent id at now age ((j, t) ∷ m) pruned h n e = elim (text_cases j id) [
  | inl (here, same) ↦
      let stamp : t ≡ at = ground (arith, e, here) in
      lookup-keep_recent_absent id at now age m _ (ground (arith, n, here))
        (ground (arith, h, stamp, here, lookup-insert j id t pruned))
  | inr (other, apart) ↦
      lookup-keep_recent id at now age m _ h (ground (arith, n, other)) (ground (arith, e, other))
]

pub HasOwnKeys-keep_recent :
    (now age : ℕ) (m pruned : Map ℕ) → HasOwnKeys pruned → HasOwnKeys (keep_recent now age m pruned)
unfolding keep_recent
HasOwnKeys-keep_recent now age [] pruned own = own
HasOwnKeys-keep_recent now age ((j, t) ∷ m) pruned own = HasOwnKeys-keep_recent now age m _ (
    if_rule (λ (x : Map ℕ). HasOwnKeys x) (ltb now (t + age)) _ _
      (λ e. HasOwnKeys-insert j t pruned own) (λ e. own))

pub nothing_there : (y : String) → count y (keys {V = ℕ} []) ≡ unit_of (has {V = ℕ} y [])
unfolding lookup
nothing_there y = refl

-- An event stands in a map whose keys are all different.
pub record Holds (id : String) (at : ℕ) (m : Map ℕ) : Type 0 where
  pub found : lookup id m ≡ some at
  pub own : HasOwnKeys m
