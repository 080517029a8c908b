-- ===== src/Prelude/Texts.antt =====
-- Texts are equal or not.
use Prim.Native.String.{String}
use mathlib.Core.Logic.{◌⊎◌, ◌≢◌, inl, inr}
use mathlib.Core.Path.{◌≡◌}
use text.Mathlib.Text.{◌==◌}
use text.Mathlib.TextEquality.{eq_iff}
use sharded_kvs.Prelude.Tests.{Bool-cases}

unfoldable pub String-cases : (s t : String) → (s ≡ t) ⊎ (s ≢ t)
unfolding Bool-cases
String-cases s t = elim (Bool-cases (s == t)) [
  | inl same ↦ inl ((eq_iff s t).0 same)
  | inr different ↦ inr (λ e. cc ((eq_iff s t).1 e))
]
