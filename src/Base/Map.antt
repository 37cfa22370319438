-- ===== src/Base/Map.antt =====
-- String-keyed maps as association lists. An insertion replaces the first entry of its key; a
-- removal deletes every entry of its key.
use mathlib.Core.Path.{◌≡◌, refl}
use mathlib.Core.List.{List, [], ◌∷◌}
use mathlib.Core.Option.{Option, none, some}
use Prim.Native.String.{String}
use native.Mathlib.Omega.{arith}
use text.Mathlib.Text.{◌==◌ as str_eq}
use text.Mathlib.TextEquality.{eq_iff}
use text.Mathlib.TextPositions.{eq_refl}
use camera_adapter.Base.Tests.{if◌then◌else◌}

abbrev pub Map {ℓ} : Type ℓ → Type ℓ
Map V = List (String × V)

module _ {ℓ} {V : Type ℓ} where
  unfoldable pub lookup : String → Map V → Option V
  lookup key [] = none
  lookup key ((first, value) ∷ rest) = if str_eq first key then some value else lookup key rest

  unfoldable pub remove : String → Map V → Map V
  remove key [] = []
  remove key ((first, value) ∷ rest) =
      if str_eq first key then remove key rest else (first, value) ∷ remove key rest

  unfoldable pub insert : String → V → Map V → Map V
  insert key new [] = (key, new) ∷ []
  insert key new ((first, value) ∷ rest) =
      if str_eq first key then (key, new) ∷ rest else (first, value) ∷ insert key new rest

  pub lookup-remove :
      (gone key : String) (entries : Map V)
      → lookup key (remove gone entries) ≡ (if str_eq gone key then none else lookup key entries)
  unfolding lookup remove
  lookup-remove gone key [] = ground arith
  lookup-remove gone key ((first, value) ∷ rest) =
      ground
        (arith, lookup-remove gone key rest, eq_iff first gone, eq_iff first key, eq_iff gone key)

  pub lookup-insert :
      (put key : String) (new : V) (entries : Map V)
      → lookup key (insert put new entries)
        ≡ (if str_eq put key then some new else lookup key entries)
  unfolding lookup insert
  lookup-insert put key new [] = refl
  lookup-insert put key new ((first, value) ∷ rest) =
      ground
        (arith, lookup-insert put key new rest, eq_iff first put, eq_iff first key, eq_iff put key)

  pub lookup-insert_self :
      (key : String) (new : V) (entries : Map V) → lookup key (insert key new entries) ≡ some new
  lookup-insert_self key new entries = simp (lookup-insert, eq_refl)

  pub lookup-remove_self : (key : String) (entries : Map V) → lookup key (remove key entries) ≡ none
  lookup-remove_self key entries = simp (lookup-remove, eq_refl)
