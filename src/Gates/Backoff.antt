-- ===== src/Gates/Backoff.antt =====
-- The reconnection delay of an agent (internal/agent/backoff.go). A duration is a 64-bit word, which is
-- negative from 2^63 on; the jitter, a product of floats, is an argument.
use claude_plane.Base.{
  ℕ, suc, zero, ◌*◌, ◌%◌, ltb, if◌then◌else◌, arith, ◌≡◌, ◌<◌, ◌≤◌, ◌&&◌, Bool, ap, refl,
}

pub record Backoff : Type 0 where
  pub current : ℕ
  pub min : ℕ
  pub max : ℕ

unfoldable pub new_backoff : ℕ → ℕ → Backoff
new_backoff min max = record { current = min; min = min; max = max }

-- b.current > b.max, for a max that is not negative
abbrev pub exceeds : ℕ → ℕ → Bool
exceeds current max = ltb current 9223372036854775808 && ltb max current

-- Next: the delay and the backoff.
unfoldable pub next_backoff : (jitter : ℕ → ℕ) → Backoff → ℕ × Backoff
next_backoff jitter b =
    let doubled = (b.current * 2) % 18446744073709551616 in
    (jitter b.current, record b { current = (if exceeds doubled b.max then b.max else doubled) })

unfoldable pub reset_backoff : Backoff → Backoff
reset_backoff b = record b { current = b.min }

-- Next, n times.
unfoldable pub nexts : (jitter : ℕ → ℕ) → ℕ → Backoff → Backoff
unfolding next_backoff
nexts jitter zero b = b
nexts jitter (suc n) b = (next_backoff jitter (nexts jitter n b)).1

-- m doubled n times
abbrev pub doublings : ℕ → ℕ → ℕ
doublings m zero = m
doublings m (suc n) = doublings m n * 2

abbrev pub smaller : ℕ → ℕ → ℕ
smaller a b = if ltb b a then b else a

nexts-state :
    (jitter : ℕ → ℕ) (min max n : ℕ)
    → min ≤ max
    → max < 4611686018427387904
    → ((nexts jitter n (new_backoff min max)).current ≡ smaller (doublings min n) max)
      × ((nexts jitter n (new_backoff min max)).max ≡ max)
unfolding nexts new_backoff next_backoff
nexts-state jitter min max zero small short = (ground arith, refl)
nexts-state jitter min max (suc n) small short =
    let (c, m) = nexts-state jitter min max n small short in rw (c, m) (ground arith, refl)

-- The delay after n calls of Next is the jitter of the minimum doubled n times, capped at the maximum: with
-- a minimum up to the maximum and a maximum below 2^62 nanoseconds the doubling never overflows.
pub next_backoff_base :
    (jitter : ℕ → ℕ) (min max n : ℕ)
    → min ≤ max
    → max < 4611686018427387904
    → (next_backoff jitter (nexts jitter n (new_backoff min max))).0
      ≡ jitter (smaller (doublings min n) max)
unfolding next_backoff
next_backoff_base jitter min max n small short =
    ap jitter (nexts-state jitter min max n small short).0
