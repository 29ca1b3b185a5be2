-- ===== src/Prelude/Dict.antt =====
-- A Go map with string keys: none is the nil map, which reads as an empty one. Iteration takes the
-- entries in the order of the list, one of those that Go may take.
use mathlib.Core.Path.{◌≡◌, refl}
use mathlib.Core.Option.{Option, none, some}
use mathlib.Core.List.{List, [], ◌∷◌}
use native.Mathlib.Omega.{arith}
use habitat_new.Prelude.Tests.{if◌then◌else◌}
use habitat_new.Prelude.Lists.{any}
use mathlib.Core.Bool.{Bool, false}
use habitat_new.Prelude.Strings.{Str, str_eq, str_eq_iff}

module _ {ℓ} {V : Type ℓ} where
  unfoldable pub find : Str → List (Str × V) → Option V
  find k [] = none
  find k ((j, v) ∷ m) = if str_eq j k then some v else find k m

  unfoldable pub insert : Str → V → List (Str × V) → List (Str × V)
  insert k v [] = (k, v) ∷ []
  insert k v ((j, w) ∷ m) = if str_eq j k then (k, v) ∷ m else (j, w) ∷ insert k v m

  unfoldable pub erase : Str → List (Str × V) → List (Str × V)
  erase k [] = []
  erase k ((j, w) ∷ m) = let rest = erase k m in if str_eq j k then rest else (j, w) ∷ rest

  unfoldable pub values : List (Str × V) → List V
  values [] = []
  values ((_, v) ∷ m) = v ∷ values m

  -- A loop that assigns to each value.
  unfoldable pub map_values : (V → V) → List (Str × V) → List (Str × V)
  map_values f [] = []
  map_values f ((k, v) ∷ m) = (k, f v) ∷ map_values f m

  pub find-map_values :
      (f : V → V) (k : Str) (m : List (Str × V))
      → find k (map_values f m) ≡ (elim (find k m) [ none ↦ none | some v ↦ some (f v) ])
  unfolding find map_values
  find-map_values f k [] = refl
  find-map_values f k ((j, v) ∷ m) = ground (arith, find-map_values f k m)

  pub find-insert :
      (k j : Str) (v : V) (m : List (Str × V))
      → find j (insert k v m) ≡ (if str_eq k j then some v else find j m)
  unfolding find insert
  find-insert k j v [] = refl
  find-insert k j v ((i, w) ∷ m) =
      ground (arith, str_eq_iff k j, str_eq_iff i k, str_eq_iff i j, find-insert k j v m)

  pub find-erase :
      (k j : Str) (m : List (Str × V))
      → find j (erase k m) ≡ (if str_eq k j then none else find j m)
  unfolding find erase
  find-erase k j [] = ground arith
  find-erase k j ((i, w) ∷ m) =
      ground (arith, str_eq_iff k j, str_eq_iff i k, str_eq_iff i j, find-erase k j m)

-- What fails for every value fails for the value of each key.
pub any-values {ℓ} :
    {V : Type ℓ} (p : V → Bool) (k : Str) (v : V) (m : List (Str × V))
    → any p (values m) ≡ false
    → find k m ≡ some v
    → p v ≡ false
unfolding any values find
any-values p k v [] h e = cc
any-values p k v ((j, w) ∷ m) h e = ground (arith, any-values p k v m)

abbrev pub Dict {ℓ} : Type ℓ → Type ℓ
Dict V = Option (List (Str × V))

module _ {ℓ} {V : Type ℓ} where
  abbrev pub entries : Dict V → List (Str × V)
  entries none = []
  entries (some m) = m

  -- `v, ok := m[k]`
  unfoldable pub get : Str → Dict V → Option V
  get k d = find k (entries d)

pub ruleset dict_laws = (find-insert, find-erase)
