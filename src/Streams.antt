-- ===== src/Streams.antt =====
-- StreamRegistry and its tokens (internal/server/grpc/stream_registry.go).
-- A handler adds its entry under a token of its own, and removes
-- it by that token.
pub mod Tokens
use claude_plane.Base.{
  ℕ, suc, String, Option, some, none, List, [], ◌∷◌, Map, lookup, insert, delete, if◌then◌else◌,
  ◌==◌, ◌%◌,
}

module _ {ℓ} (SessionState : Type ℓ) where
  pub record StreamEntry : Type ℓ where
    pub machine_id : String
    pub stream_token : ℕ
    pub max_sessions : ℕ
    pub home_dir : String
    pub connected_at : ℕ
    pub session_states : List SessionState

-- The registry's map, and streamTokenCounter.
pub record StreamRegistry {ℓ} (SessionState : Type ℓ) : Type ℓ where
  pub agents : Map (StreamEntry SessionState)
  pub counter : ℕ

-- streamTokenCounter.Add(1), which wraps around at 64 bits
abbrev pub next_token : ℕ → ℕ
next_token counter = suc counter % 18446744073709551616

module _ {ℓ} {S : Type ℓ} where
  unfoldable pub new_stream_registry : StreamRegistry S
  new_stream_registry = record { agents = []; counter = 0 }

  -- NextStreamToken
  unfoldable pub next_stream_token : StreamRegistry S → ℕ × StreamRegistry S
  next_stream_token sr = let token = next_token sr.counter in (token, record sr { counter = token })

  unfoldable pub add_stream : String → StreamEntry S → StreamRegistry S → StreamRegistry S
  add_stream machine_id info sr = record sr { agents = insert machine_id info sr.agents }

  unfoldable pub remove_if_token : String → ℕ → StreamRegistry S → StreamRegistry S
  remove_if_token machine_id token sr = elim (lookup machine_id sr.agents) [
    | none ↦ sr
    | some a ↦
        if a.stream_token == token then record sr { agents = delete machine_id sr.agents } else sr
  ]

  unfoldable pub remove_stream : String → StreamRegistry S → StreamRegistry S
  remove_stream machine_id sr = record sr { agents = delete machine_id sr.agents }

  unfoldable pub get_stream : String → StreamRegistry S → Option (StreamEntry S)
  get_stream machine_id sr = lookup machine_id sr.agents

  unfoldable pub stream_values : Map (StreamEntry S) → List (StreamEntry S)
  stream_values [] = []
  stream_values ((id, a) ∷ rest) = a ∷ stream_values rest

  unfoldable pub list_streams : StreamRegistry S → List (StreamEntry S)
  unfolding stream_values
  list_streams sr = stream_values sr.agents
