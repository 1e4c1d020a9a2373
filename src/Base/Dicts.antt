-- ===== src/Base/Dicts.antt =====
-- Go's maps with text keys, as association lists. The order of the list is one order in which the
-- program may range over the map.
use Prim.Native.String.{String}
use mathlib.Core.Path.{◌≡◌, refl}
use mathlib.Core.List.{List, [], ◌∷◌}
use mathlib.Core.Option.{Option, none, some}
use native.Mathlib.Omega.{arith}
use text.Mathlib.TextEquality.{eq_iff}
use sailfish.Base.Tests.{str_eq, if◌then◌else◌}

abbrev pub Dict {ℓ} : Type ℓ → Type ℓ
Dict V = List (String × V)

module _ {ℓ} {V : Type ℓ} where
  -- v, ok := m[key]
  unfoldable pub lookup : String → Dict V → Option V
  lookup key [] = none
  lookup key ((name, held) ∷ others) = if str_eq name key then some held else lookup key others

  -- m[key] = x
  unfoldable pub insert : String → V → Dict V → Dict V
  insert key x [] = (key, x) ∷ []
  insert key x ((name, held) ∷ others) =
      let rest = insert key x others in
      if str_eq name key then (key, x) ∷ others else (name, held) ∷ rest

  -- delete(m, key)
  unfoldable pub delete : String → Dict V → Dict V
  delete key [] = []
  delete key ((name, held) ∷ others) =
      let rest = delete key others in if str_eq name key then rest else (name, held) ∷ rest

  pub lookup-insert :
      (key other : String) (x : V) (d : Dict V)
      → lookup other (insert key x d) ≡ (if str_eq key other then some x else lookup other d)
  unfolding lookup insert
  lookup-insert key other x [] = refl
  lookup-insert key other x ((name, held) ∷ d) =
      ground
        (arith, lookup-insert key other x d, eq_iff name other, eq_iff name key, eq_iff key other)

  pub lookup-delete :
      (key other : String) (d : Dict V)
      → lookup other (delete key d) ≡ (if str_eq key other then none else lookup other d)
  unfolding lookup delete
  lookup-delete key other [] = ground arith
  lookup-delete key other ((name, held) ∷ d) =
      ground
        (arith, lookup-delete key other d, eq_iff name other, eq_iff name key, eq_iff key other)
