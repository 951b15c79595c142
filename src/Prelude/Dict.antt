-- ===== src/Prelude/Dict.antt =====
-- JavaScript's `Map` with text keys, in insertion order: `set` keeps the place of a known key.
use mathlib.Core.Path.{◌≡◌, refl}
use mathlib.Core.Logic.{◌≢◌, inl, inr}
use mathlib.Core.Bool.{Bool, true, false}
use mathlib.Core.Option.{Option, none, some}
use mathlib.Core.List.{List, [], ◌∷◌}
use Prim.Native.String.{String}
use native.Mathlib.Omega.{arith}
use text.Mathlib.Text.{◌==◌ as str_eq}
use text.Mathlib.TextEquality.{eq_iff}
use internship_project_peanu.Prelude.Tests.{if◌then◌else◌, Bool-cases}

abbrev pub Dict : Type 0 → Type 0
Dict V = List (String × V)

module _ {V : Type 0} where
  -- `m.get(k)`, and the test `m.has(k)`
  unfoldable pub get : String → Dict V → Option V
  get k [] = none
  get k ((j, v) ∷ m) = if str_eq j k then some v else get k m

  unfoldable pub has : String → Dict V → Bool
  has k m = elim (get k m) [ none ↦ false | some _ ↦ true ]

  unfoldable pub put : String → V → Dict V → Dict V
  put k v [] = (k, v) ∷ []
  put k v ((j, w) ∷ m) = if str_eq j k then (k, v) ∷ m else (j, w) ∷ put k v m

  -- The entries whose value passes a test: a loop that deletes the others.
  unfoldable pub filter_values : (V → Bool) → Dict V → Dict V
  filter_values p [] = []
  filter_values p ((j, v) ∷ m) = let rest = filter_values p m in if p v then (j, v) ∷ rest else rest

  -- No key stands twice.
  abbrev pub IsMap : Dict V → Type 0
  IsMap [] = Unit
  IsMap ((k, v) ∷ m) = (get k m ≡ none) × IsMap m

  pub get-put :
      (k j : String) (v : V) (m : Dict V)
      → get j (put k v m) ≡ (if str_eq k j then some v else get j m)
  unfolding get put
  get-put k j v [] = refl
  get-put k j v ((i, w) ∷ m) = ground (arith, eq_iff k j, eq_iff i k, eq_iff i j, get-put k j v m)

  pub put-IsMap : (k : String) (v : V) (m : Dict V) → IsMap m → IsMap (put k v m)
  unfolding get put
  put-IsMap k v [] h = (refl, tt)
  put-IsMap k v ((i, w) ∷ m) h =
      ground (arith, put-IsMap k v m h.1, get-put k i v m, eq_iff i k, eq_iff k i)

abbrev pub kept {ℓ} : {V : Type ℓ} → (V → Bool) → Option V → Option V
kept p none = none
kept p (some v) = if p v then some v else none

module _ {V : Type 0} where
  absent-filter :
      (p : V → Bool) (k : String) (m : Dict V) → get k m ≡ none → get k (filter_values p m) ≡ none
  unfolding get filter_values
  absent-filter p k [] h = refl
  absent-filter p k ((i, w) ∷ m) h = ground (arith, absent-filter p k m, eq_iff i k)

  -- In a map, filtering by value acts on each key's entry.
  pub get-filter_values :
      (p : V → Bool) (k : String) (m : Dict V)
      → IsMap m
      → get k (filter_values p m) ≡ kept p (get k m)
  unfolding get filter_values
  get-filter_values p k [] h = refl
  get-filter_values p k ((i, w) ∷ m) h =
      ground (arith, get-filter_values p k m h.1, absent-filter p i m h.0, eq_iff i k)

  pub filter_values-IsMap : (p : V → Bool) (m : Dict V) → IsMap m → IsMap (filter_values p m)
  unfolding get filter_values
  filter_values-IsMap p [] h = tt
  filter_values-IsMap p ((i, w) ∷ m) h =
      ground (arith, filter_values-IsMap p m h.1, absent-filter p i m h.0)

pub not_same : (j id : String) → j ≢ id → str_eq j id ≡ false
not_same j id h = elim (Bool-cases (str_eq j id)) [
  | inl same ↦ absurd (h ((eq_iff j id).0 same))
  | inr differ ↦ differ
]
