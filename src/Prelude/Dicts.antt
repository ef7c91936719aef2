-- ===== src/Prelude/Dicts.antt =====
-- A dict from UUIDs, an association list in the order of insertion, and a set of UUIDs, a list
-- without repetitions.
use mathlib.Core.Path.{◌≡◌, refl}
use mathlib.Core.Bool.{Bool, false, ◌||◌}
use mathlib.Core.Option.{Option, none, some}
use mathlib.Core.List.{List, [], ◌∷◌}
use closer_os.Prelude.Tests.{◌==◌, if◌then◌else◌}
use closer_os.Prelude.Values.{Uuid}
use native.Mathlib.Omega.{arith}

module _ {ℓ} {Value : Type ℓ} where
  abbrev pub dict_get : Uuid → List (Uuid × Value) → Option Value
  dict_get key [] = none
  dict_get key ((k, value) ∷ rest) = if k == key then some value else dict_get key rest

  abbrev pub dict_set : Uuid → Value → List (Uuid × Value) → List (Uuid × Value)
  dict_set key value [] = (key, value) ∷ []
  dict_set key value ((k, old) ∷ rest) =
      if k == key then (k, value) ∷ rest else (k, old) ∷ dict_set key value rest

  pub dict_get-set :
      (key other : Uuid) (value : Value) (dict : List (Uuid × Value))
      → dict_get other (dict_set key value dict)
        ≡ (if key == other then some value else dict_get other dict)
  dict_get-set key other value [] = refl
  dict_get-set key other value ((k, old) ∷ rest) = ground (arith, dict_get-set key other value rest)

abbrev pub mem : Uuid → List Uuid → Bool
mem x [] = false
mem x (y ∷ ys) = y == x || mem x ys

abbrev pub set_add : Uuid → List Uuid → List Uuid
set_add x xs = if mem x xs then xs else x ∷ xs

abbrev pub set_of : List Uuid → List Uuid
set_of [] = []
set_of (x ∷ xs) = set_add x (set_of xs)

-- No element occurs twice.
abbrev pub NoDup : List Uuid → Type 0
NoDup [] = Unit
NoDup (x ∷ xs) = (mem x xs ≡ false) × NoDup xs

pub set_of-NoDup : (xs : List Uuid) → NoDup (set_of xs)
set_of-NoDup [] = tt
set_of-NoDup (x ∷ xs) = ground (arith, set_of-NoDup xs)

pub mem-set_of : (x : Uuid) (xs : List Uuid) → mem x (set_of xs) ≡ mem x xs
mem-set_of x [] = refl
mem-set_of x (y ∷ ys) = ground (arith, mem-set_of x ys)
