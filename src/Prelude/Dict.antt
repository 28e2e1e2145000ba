-- ===== src/Prelude/Dict.antt =====
-- `std::map` and `std::unordered_map` as the program uses them, as an association list.
use mathlib.Core.Path.{◌≡◌}
use mathlib.Core.Option.{Option, none, some}
use mathlib.Core.List.{List, [], ◌∷◌}
use native.Mathlib.Omega.{arith}
use openbrowser.Prelude.Tests.{Eq, ◌==◌, if◌then◌else◌}

module _ {ℓ κ} {K : Type ℓ} {V : Type κ} ⦃e : Eq K⦄ where
  -- The erasure of every pair with the key, which is one at most.
  unfoldable pub remove : K → List (K × V) → List (K × V)
  remove key [] = []
  remove key ((other, old) ∷ rest) =
      if other == key then remove key rest else (other, old) ∷ remove key rest

  unfoldable pub lookup : K → List (K × V) → Option V
  lookup key [] = none
  lookup key ((other, old) ∷ rest) = if other == key then some old else lookup key rest

  pub lookup-remove :
      (key asked : K) (pairs : List (K × V))
      → lookup asked (remove key pairs) ≡ (if key == asked then none else lookup asked pairs)
  unfolding remove lookup
  lookup-remove key asked [] = ground arith
  lookup-remove key asked ((other, old) ∷ rest) = ground (arith, lookup-remove key asked rest)

  -- `map[key] = value`: in the place of the pair with the key, or else at the end.
  unfoldable pub insert : K → V → List (K × V) → List (K × V)
  insert key value [] = (key, value) ∷ []
  insert key value ((other, old) ∷ rest) =
      if other == key then (key, value) ∷ rest else (other, old) ∷ insert key value rest

  pub lookup-insert :
      (key asked : K) (value : V) (pairs : List (K × V))
      → lookup asked (insert key value pairs)
        ≡ (if key == asked then some value else lookup asked pairs)
  unfolding lookup insert
  lookup-insert key asked value [] = ground arith
  lookup-insert key asked value ((other, old) ∷ rest) =
      ground (arith, lookup-insert key asked value rest)
