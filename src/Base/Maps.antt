-- ===== src/Base/Maps.antt =====
-- Go's `map[string]V` as an association list. The order of the entries stands for the order in which
-- one `range` statement happens to visit them.
use Prim.Native.Nat.{ℕ, suc, ◌+◌, ◌≤◌}
use Prim.Native.String.{String}
use mathlib.Core.Path.{◌≡◌, refl}
use mathlib.Core.Bool.{Bool, true, false}
use mathlib.Core.Option.{Option, none, some}
use mathlib.Core.List.{List, [], ◌∷◌}
use native.Mathlib.Omega.{arith}
use text.Mathlib.Text.{◌==◌ as str_eq}
use text.Mathlib.TextEquality.{eq_iff}
use claude_plane.Base.Tests.{if◌then◌else◌}
use claude_plane.Base.Lists.{length}

abbrev pub Map {ℓ} : Type ℓ → Type ℓ
Map V = List (String × V)

abbrev pub unit_of : Bool → ℕ
unit_of true = 1
unit_of false = 0

module _ {ℓ} {V : Type ℓ} where
  -- delete(m, key)
  unfoldable pub delete : String → Map V → Map V
  delete key [] = []
  delete key ((name, old) ∷ rest) =
      if str_eq name key then delete key rest else (name, old) ∷ delete key rest

  -- v, ok := m[key]
  unfoldable pub lookup : String → Map V → Option V
  lookup key [] = none
  lookup key ((name, old) ∷ rest) = if str_eq name key then some old else lookup key rest

  -- m[key], with the zero value d
  abbrev pub get_or : V → String → Map V → V
  get_or d key m = elim (lookup key m) [ none ↦ d | some v ↦ v ]

  -- m[key] = new
  unfoldable pub insert : String → V → Map V → Map V
  insert key new [] = (key, new) ∷ []
  insert key new ((name, old) ∷ rest) =
      if str_eq name key then (name, new) ∷ rest else (name, old) ∷ insert key new rest

  pub lookup-delete :
      (key other : String) (m : Map V)
      → lookup other (delete key m) ≡ (if str_eq key other then none else lookup other m)
  unfolding delete lookup
  lookup-delete key other [] = ground arith
  lookup-delete key other ((name, old) ∷ rest) =
      let ih = lookup-delete key other rest in
      ground (arith, ih, eq_iff name other, eq_iff name key, eq_iff key other)

  pub lookup-insert :
      (key other : String) (new : V) (m : Map V)
      → lookup other (insert key new m) ≡ (if str_eq key other then some new else lookup other m)
  unfolding insert lookup
  lookup-insert key other new [] = refl
  lookup-insert key other new ((name, old) ∷ rest) =
      let ih = lookup-insert key other new rest in
      ground (arith, ih, eq_iff name other, eq_iff name key, eq_iff key other)

  pub lookup-insert_self :
      (key : String) (new : V) (m : Map V) → lookup key (insert key new m) ≡ some new
  lookup-insert_self key new m = ground (arith, eq_iff key key, lookup-insert key key new m)

  -- The number of entries that pass a test.
  unfoldable pub tally : (V → Bool) → Map V → ℕ
  tally p [] = 0
  tally p ((j, v) ∷ m) = if p v then suc (tally p m) else tally p m

  -- Overwriting an entry moves the count by that entry alone.
  pub tally-insert :
      (p : V → Bool) (k : String) (v w : V) (m : Map V)
      → lookup k m ≡ some w
      → tally p (insert k v m) + unit_of (p w) ≡ tally p m + unit_of (p v)
  unfolding tally insert lookup
  tally-insert p k v w [] h = ground arith
  tally-insert p k v w ((i, u) ∷ m) h = ground (arith, tally-insert p k v w m)

module _ {ℓ} {V : Type ℓ} where
  pub tally-le-length : (p : V → Bool) (m : Map V) → tally p m ≤ length m
  unfolding tally
  tally-le-length p [] = omega arith
  tally-le-length p ((j, v) ∷ m) = ground (arith, tally-le-length p m)

  -- Overwriting an entry keeps the number of entries.
  pub length-insert :
      (k : String) (v w : V) (m : Map V) → lookup k m ≡ some w → length (insert k v m) ≡ length m
  unfolding lookup insert
  length-insert k v w [] h = ground arith
  length-insert k v w ((j, u) ∷ m) h = ground (arith, length-insert k v w m)

  pub length-insert-le : (k : String) (v : V) (m : Map V) → length (insert k v m) ≤ suc (length m)
  unfolding insert
  length-insert-le k v [] = omega arith
  length-insert-le k v ((j, u) ∷ m) = ground (arith, length-insert-le k v m)

  -- A new entry adds itself to the count.
  pub tally-insert_new :
      (p : V → Bool) (k : String) (v : V) (m : Map V)
      → lookup k m ≡ none
      → tally p (insert k v m) ≡ tally p m + unit_of (p v)
  unfolding tally insert lookup
  tally-insert_new p k v [] h = ground arith
  tally-insert_new p k v ((i, u) ∷ m) h = ground (arith, tally-insert_new p k v m)

  pub tally-insert-le :
      (p : V → Bool) (k : String) (v : V) (m : Map V)
      → tally p (insert k v m) ≤ tally p m + unit_of (p v)
  unfolding tally insert
  tally-insert-le p k v [] = ground arith
  tally-insert-le p k v ((i, u) ∷ m) = ground (arith, tally-insert-le p k v m)

  -- A count that is full covers every entry.
  pub tally_full :
      (p : V → Bool) (k : String) (v : V) (m : Map V)
      → tally p m ≡ length m
      → lookup k m ≡ some v
      → p v ≡ true
  unfolding tally lookup
  tally_full p k v [] h e = cc
  tally_full p k v ((i, u) ∷ m) h e = ground (arith, tally_full p k v m, tally-le-length p m)
