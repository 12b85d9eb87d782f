-- ===== src/Prelude/Dict.antt =====
-- Python's `dict` with string keys, which keeps the order of insertion.
use opsiconfd.Prelude.Tests.{if◌then◌else◌, Bool-cases}
use opsiconfd.Prelude.Text.{contains}
use Prim.Native.String.{String}
use text.Mathlib.Text.{◌==◌}
use text.Mathlib.TextEquality.{eq_iff}
use mathlib.Core.Path.{◌≡◌, refl, subst}
use mathlib.Core.Logic.{inl, inr}
use mathlib.Core.Bool.{not, ◌||◌, ◌&&◌}
use mathlib.Core.List.{List, [], ◌∷◌}
use mathlib.Core.Option.{Option, none, some}
use native.Mathlib.Omega.{arith}

abbrev pub Dict {ℓ} : Type ℓ → Type ℓ
Dict V = List (String × V)

module _ {ℓ} {V : Type ℓ} where
  -- `d.get(k)`
  unfoldable pub lookup : String → Dict V → Option V
  lookup k [] = none
  lookup k ((j, v) ∷ d) = if j == k then some v else lookup k d

  -- `d[k] = v`
  unfoldable pub insert : String → V → Dict V → Dict V
  insert k v [] = (k, v) ∷ []
  insert k v ((j, w) ∷ d) = if j == k then (k, v) ∷ d else (j, w) ∷ insert k v d

  -- `d.pop(k, None)`
  unfoldable pub remove : String → Dict V → Dict V
  remove k [] = []
  remove k ((j, w) ∷ d) = if j == k then remove k d else (j, w) ∷ remove k d

  -- `list(d)`
  unfoldable pub keys : Dict V → List String
  keys [] = []
  keys ((j, w) ∷ d) = j ∷ keys d

  pub lookup-insert :
      (k j : String) (v : V) (d : Dict V)
      → lookup j (insert k v d) ≡ (if k == j then some v else lookup j d)
  unfolding lookup insert
  lookup-insert k j v [] = refl
  lookup-insert k j v ((i, w) ∷ d) =
      ground (arith, eq_iff k j, eq_iff i k, eq_iff i j, lookup-insert k j v d)

  -- No key has two entries.
  abbrev pub HasUniqueKeys : Dict V → Type ℓ
  HasUniqueKeys [] = Unit
  HasUniqueKeys ((k, v) ∷ d) = (lookup k d ≡ none) × HasUniqueKeys d

  pub HasUniqueKeys-insert :
      (k : String) (v : V) (d : Dict V) → HasUniqueKeys d → HasUniqueKeys (insert k v d)
  unfolding lookup insert
  HasUniqueKeys-insert k v [] u = (refl, tt)
  HasUniqueKeys-insert k v ((j, w) ∷ d) (new, u) = elim (Bool-cases (j == k)) [
    | inl same ↦ rw same (subst (λ i. lookup i d ≡ none) ((eq_iff j k).0 same) new, u)
    | inr other ↦ rw other (
      ground (arith, lookup-insert k j v d, eq_iff j k, eq_iff k j),
      HasUniqueKeys-insert k v d u,
    )
  ]

  pub lookup-remove :
      (k j : String) (d : Dict V) → lookup j (remove k d) ≡ (if k == j then none else lookup j d)
  unfolding lookup remove
  lookup-remove k j [] = ground arith
  lookup-remove k j ((i, w) ∷ d) =
      ground (arith, eq_iff k j, eq_iff i k, eq_iff i j, lookup-remove k j d)

  pub keys-remove :
      (k j : String) (d : Dict V)
      → contains j (keys (remove k d)) ≡ (not (k == j) && contains j (keys d))
  unfolding keys remove contains
  keys-remove k j [] = ground arith
  keys-remove k j ((i, w) ∷ d) =
      ground (arith, eq_iff k j, eq_iff i k, eq_iff j i, keys-remove k j d)

  pub keys-insert :
      (k j : String) (v : V) (d : Dict V)
      → contains j (keys (insert k v d)) ≡ ((j == k) || contains j (keys d))
  unfolding keys insert contains
  keys-insert k j v [] = refl
  keys-insert k j v ((i, w) ∷ d) =
      ground (arith, eq_iff j k, eq_iff i k, eq_iff j i, keys-insert k j v d)
