-- ===== src/Orchestrator/Service/Parameters.antt =====
-- Runtime parameters (internal/server/orchestrator/resolver.go).
use claude_plane.Base.{
  ◌≡◌, refl, String, Bool, none, some, [], ◌∷◌, Map, lookup, insert, has, str_eq, eq_iff, arith,
  lookup-insert, keys, count, HasOwnKeys, if◌then◌else◌, ◌≤◌,
}
use claude_plane.Orchestrator.Service.{apply_overrides, resolve_parameters}

apply_overrides_other :
    (k : String) (overrides defaults : Map String)
    → count k (keys overrides) ≡ 0
    → lookup k (apply_overrides overrides defaults) ≡ lookup k defaults
unfolding apply_overrides
apply_overrides_other k [] defaults h = refl
apply_overrides_other k ((j, v) ∷ overrides) defaults h = ground (
  arith,
  h,
  apply_overrides_other k overrides (if has j defaults then insert j v defaults else defaults),
  lookup-insert j k v defaults,
)

apply_overrides_lem :
    (k : String) (overrides defaults : Map String)
    → count k (keys overrides) ≤ 1
    → lookup k (apply_overrides overrides defaults) ≡ (
        if has k defaults
        then elim (lookup k overrides) [ none ↦ lookup k defaults | some v ↦ some v ]
        else none)
unfolding apply_overrides lookup
apply_overrides_lem k [] defaults h = ground arith
apply_overrides_lem k ((j, v) ∷ overrides) defaults h =
    let next = (if has j defaults then insert j v defaults else defaults) in
    ground (
      arith,
      h,
      apply_overrides_other k overrides next,
      apply_overrides_lem k overrides next,
      lookup-insert j k v defaults,
      eq_iff j k,
    )

-- What the job's parameters decode to.
abbrev pub defaults_of : (String → Map String × Bool) → String → Map String
defaults_of decode json = if str_eq json "" then [] else (decode json).0

-- A run's parameters have exactly the keys of the job's own: each key has the override's value if there
-- is one and the job's value otherwise, and overrides for other keys are dropped.
pub resolve_parameters_lem :
    (decode : String → Map String × Bool) (json k : String) (overrides : Map String)
    → HasOwnKeys overrides
    → lookup k (resolve_parameters decode json overrides) ≡ (
        if has k (defaults_of decode json)
        then elim (lookup k overrides) [
          | none ↦ lookup k (defaults_of decode json)
          | some v ↦ some v
        ]
        else none)
unfolding resolve_parameters
resolve_parameters_lem decode json k overrides own =
    apply_overrides_lem k overrides (defaults_of decode json) (ground (arith, own k))
