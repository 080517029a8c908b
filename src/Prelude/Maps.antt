-- ===== src/Prelude/Maps.antt =====
-- Go's `map[string]V` as an association list: `m[k]`, `m[k] = v`, `delete(m, k)`, `maps.Copy`.
use Prim.Native.String.{String}
use mathlib.Core.Path.{◌≡◌, refl}
use mathlib.Core.Option.{Option, none, some}
use mathlib.Core.List.{List, [], ◌∷◌}
use native.Mathlib.Omega.{arith}
use text.Mathlib.Text.{◌==◌}
use text.Mathlib.TextEquality.{eq_iff}
use sharded_kvs.Prelude.Tests.{if◌then◌else◌}

abbrev pub GoMap {ℓ} : Type ℓ → Type ℓ
GoMap V = List (String × V)

module _ {ℓ} {V : Type ℓ} where
  unfoldable pub remove : String → GoMap V → GoMap V
  remove k [] = []
  remove k ((j, v) ∷ m) = let rest = remove k m in if j == k then rest else (j, v) ∷ rest

  -- Go says nothing of the order of the keys: the last one written is put first.
  unfoldable pub insert : String → V → GoMap V → GoMap V
  unfolding remove
  insert k v m = (k, v) ∷ remove k m

  unfoldable pub lookup : String → GoMap V → Option V
  lookup wanted [] = none
  lookup wanted ((key, value) ∷ others) =
      let rest = lookup wanted others in if key == wanted then some value else rest

  -- `maps.Copy(dst, src)`.
  unfoldable pub copy_into : GoMap V → GoMap V → GoMap V
  copy_into dst [] = dst
  copy_into dst ((k, v) ∷ src) = copy_into (insert k v dst) src

  -- The keys in the order of the list.
  unfoldable pub keys_of : GoMap V → List String
  keys_of [] = []
  keys_of ((k, v) ∷ m) = k ∷ keys_of m

  pub lookup-nil : (j : String) → lookup j [] ≡ none
  unfolding lookup
  lookup-nil j = refl

  pub lookup-remove :
      (k j : String) (m : GoMap V) → lookup j (remove k m) ≡ (if k == j then none else lookup j m)
  unfolding lookup remove
  lookup-remove k j [] = ground arith
  lookup-remove k j ((i, v) ∷ m) =
      ground (arith, lookup-remove k j m, eq_iff i k, eq_iff i j, eq_iff k j)

  pub lookup-insert :
      (k j : String) (v : V) (m : GoMap V)
      → lookup j (insert k v m) ≡ (if k == j then some v else lookup j m)
  unfolding lookup insert
  lookup-insert k j v m = ground (arith, lookup-remove k j m)

pub ruleset map_laws = (lookup-nil, lookup-insert, lookup-remove)
