-- ===== src/Base/Counts.antt =====
-- Lists of texts by the number of times that each text stands in them, and the keys of a map.
use Prim.Native.Nat.{suc, ◌+◌, ◌≤◌, ◌<◌}
use Prim.Native.String.{String}
use mathlib.Core.Path.{◌≡◌, refl}
use mathlib.Core.Bool.{Bool, true, false}
use mathlib.Core.Option.{none, some}
use mathlib.Core.List.{List, [], ◌∷◌, ◌++◌}
use native.Mathlib.Omega.{arith}
use text.Mathlib.Text.{◌==◌ as str_eq}
use text.Mathlib.TextEquality.{eq_iff}
use claude_plane.Base.Tests.{if◌then◌else◌}
use claude_plane.Base.Lists.{length, count}
use claude_plane.Base.Maps.{Map, lookup, insert, delete, tally, unit_of}

pub count-append : (k : String) (xs ys : List String) → count k (xs ++ ys) ≡ count k xs + count k ys
count-append k [] ys = omega arith
count-append k (x ∷ xs) ys = ground (arith, count-append k xs ys)

-- A list without the first occurrence of a text.
pub remove : String → List String → List String
remove x [] = []
remove x (y ∷ ys) = if str_eq y x then ys else y ∷ remove x ys

count-remove :
    (x k : String) (ys : List String)
    → 0 < count x ys
    → count k (remove x ys) + unit_of (str_eq x k) ≡ count k ys
unfolding remove
count-remove x k [] h = ground arith
count-remove x k (y ∷ ys) h =
    ground (arith, count-remove x k ys, eq_iff y x, eq_iff x k, eq_iff y k)

length-remove :
    (x : String) (ys : List String) → 0 < count x ys → suc (length (remove x ys)) ≡ length ys
unfolding remove
length-remove x [] h = ground arith
length-remove x (y ∷ ys) h = ground (arith, length-remove x ys)

module _ (x : String) (xs ys : List String)
    (fewer : (k : String) → count k (x ∷ xs) ≤ count k ys) where
  count_head : 0 < count x ys
  count_head = ground (arith, fewer x, eq_iff x x)

  count_tail : (k : String) → count k xs ≤ count k (remove x ys)
  count_tail k = ground (arith, fewer k, count-remove x k ys count_head)

-- A list that has no text more often than another is no longer.
pub length-le_of_count :
    (xs ys : List String) → ((k : String) → count k xs ≤ count k ys) → length xs ≤ length ys
length-le_of_count [] ys fewer = omega arith
length-le_of_count (x ∷ xs) ys fewer = omega (
  arith,
  length-le_of_count xs (remove x ys) (count_tail x xs ys fewer),
  length-remove x ys (count_head x xs ys fewer),
)

-- If it is not shorter either, it has every text as often.
pub count-le_of_length :
    (xs ys : List String)
    → ((k : String) → count k xs ≤ count k ys)
    → length ys ≤ length xs
    → (k : String) → count k ys ≤ count k xs
count-le_of_length [] [] fewer short k = omega arith
count-le_of_length [] (y ∷ ys) fewer short k = absurd (omega (arith, short))
count-le_of_length (x ∷ xs) ys fewer short k =
    let head = count_head x xs ys fewer in
    ground (
      arith,
      count-le_of_length xs (remove x ys) (count_tail x xs ys fewer)
          (omega (arith, short, length-remove x ys head)) k,
      count-remove x k ys head,
    )

module _ {ℓ} {V : Type ℓ} where
  -- _, ok := m[k]
  abbrev pub has : String → Map V → Bool
  has k m = elim (lookup k m) [ none ↦ false | some v ↦ true ]

  abbrev pub keys : Map V → List String
  keys [] = []
  keys ((k, v) ∷ m) = k ∷ keys m

  pub count-keys-insert :
      (k y : String) (v : V) (m : Map V)
      → count y (keys (insert k v m)) ≡ (
          if str_eq k y
          then (if has k m then count y (keys m) else suc (count y (keys m)))
          else count y (keys m))
  unfolding insert lookup
  count-keys-insert k y v [] = ground arith
  count-keys-insert k y v ((j, w) ∷ m) =
      ground (arith, count-keys-insert k y v m, eq_iff k y, eq_iff j k, eq_iff j y)

  pub has-insert :
      (k y : String) (v : V) (m : Map V)
      → has y (insert k v m) ≡ (if str_eq k y then true else has y m)
  unfolding insert lookup
  has-insert k y v [] = ground arith
  has-insert k y v ((j, w) ∷ m) =
      ground (arith, has-insert k y v m, eq_iff k y, eq_iff j k, eq_iff j y)

  pub length-keys : (m : Map V) → length (keys m) ≡ length m
  length-keys [] = refl
  length-keys ((k, v) ∷ m) = omega (arith, length-keys m)

  -- Each key of a map that `insert` built stands there once.
  abbrev pub HasOwnKeys : Map V → Type 0
  HasOwnKeys m = (y : String) → count y (keys m) ≡ unit_of (has y m)

  pub HasOwnKeys-insert :
      (k : String) (v : V) (m : Map V) → HasOwnKeys m → HasOwnKeys (insert k v m)
  HasOwnKeys-insert k v m own y =
      ground (arith, own y, count-keys-insert k y v m, has-insert k y v m, eq_iff k y)

  -- Deleting an entry takes it out of the count.
  pub tally-delete_le : (p : V → Bool) (k : String) (m : Map V) → tally p (delete k m) ≤ tally p m
  unfolding tally delete
  tally-delete_le p k [] = omega arith
  tally-delete_le p k ((j, v) ∷ m) = ground (arith, tally-delete_le p k m)

  pub tally-delete :
      (p : V → Bool) (k : String) (v : V) (m : Map V)
      → lookup k m ≡ some v
      → tally p (delete k m) + unit_of (p v) ≤ tally p m
  unfolding tally delete lookup
  tally-delete p k v [] h = ground arith
  tally-delete p k v ((j, w) ∷ m) h = ground (arith, tally-delete p k v m, tally-delete_le p k m)
