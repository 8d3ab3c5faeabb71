-- ===== src/Base/Dict.antt =====
-- Python's `dict` with text keys, in insertion order. The methods that the program calls are `get`,
-- `in`, `len`, `d[k] = v`, `pop` and iteration over the keys.
use mathlib.Core.Path.{◌≡◌, refl}
use mathlib.Core.Bool.{true, false}
use mathlib.Core.Option.{Option, none, some}
use mathlib.Core.List.{List, [], ◌∷◌}
use native.Mathlib.Omega.{arith}
use gufo_blob.Base.Tests.{if◌then◌else◌}
use gufo_blob.Base.Words.{Text, text_eq, text_eq_iff, contains}

abbrev pub Dict {ℓ} : Type ℓ → Type ℓ
Dict V = List (Text × V)

module _ {ℓ} {V : Type ℓ} where
  -- `d.get(k)`
  unfoldable pub lookup : Text → Dict V → Option V
  lookup k [] = none
  lookup k ((j, v) ∷ d) = if text_eq j k then some v else lookup k d

  -- `d[k] = v`: a known key keeps its place.
  unfoldable pub insert : Text → V → Dict V → Dict V
  insert k v [] = (k, v) ∷ []
  insert k v ((j, w) ∷ d) = if text_eq j k then (j, v) ∷ d else (j, w) ∷ insert k v d

  -- what `d.pop(k)` leaves
  unfoldable pub remove : Text → Dict V → Dict V
  remove k [] = []
  remove k ((j, w) ∷ d) = if text_eq j k then d else (j, w) ∷ remove k d

  unfoldable pub keys : Dict V → List Text
  keys [] = []
  keys ((k, _) ∷ d) = k ∷ keys d

  abbrev pub NodupKeys : Dict V → Type ℓ
  NodupKeys [] = Unit
  NodupKeys ((k, _) ∷ d) = (lookup k d ≡ none) × NodupKeys d

  pub lookup-insert :
      (k j : Text) (v : V) (d : Dict V)
      → lookup j (insert k v d) ≡ (if text_eq k j then some v else lookup j d)
  unfolding lookup insert
  lookup-insert k j v [] = refl
  lookup-insert k j v ((i, w) ∷ d) =
      ground (arith, text_eq_iff k j, text_eq_iff i k, text_eq_iff i j, lookup-insert k j v d)

  pub lookup-remove :
      (k j : Text) (d : Dict V)
      → NodupKeys d
      → lookup j (remove k d) ≡ (if text_eq k j then none else lookup j d)
  unfolding lookup remove
  lookup-remove k j [] u = ground arith
  lookup-remove k j ((i, w) ∷ d) (fresh, u) =
      ground
        (arith, text_eq_iff k j, text_eq_iff i k, text_eq_iff i j, lookup-remove k j d u, fresh)

  pub insert-NodupKeys : (k : Text) (v : V) (d : Dict V) → NodupKeys d → NodupKeys (insert k v d)
  unfolding insert lookup
  insert-NodupKeys k v [] u = (refl, tt)
  insert-NodupKeys k v ((j, w) ∷ d) (fresh, u) =
      ground
        (arith, insert-NodupKeys k v d u, lookup-insert k j v d, text_eq_iff j k, text_eq_iff k j)

  pub remove-NodupKeys : (k : Text) (d : Dict V) → NodupKeys d → NodupKeys (remove k d)
  unfolding remove lookup
  remove-NodupKeys k [] u = u
  remove-NodupKeys k ((j, w) ∷ d) (fresh, u) =
      ground (arith, remove-NodupKeys k d u, lookup-remove k j d u)

  -- membership of the key list is `lookup`
  pub contains-keys :
      (d : Dict V) (k : Text)
      → contains (keys d) k ≡ (elim (lookup k d) [ none ↦ false | some _ ↦ true ])
  unfolding keys lookup contains
  contains-keys [] k = refl
  contains-keys ((j, w) ∷ d) k = ground (arith, contains-keys d k)
