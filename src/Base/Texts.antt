-- ===== src/Base/Texts.antt =====
-- Texts that differ.
use mathlib.Core.Path.{◌≡◌}
use mathlib.Core.Logic.{◌≢◌}
use mathlib.Core.Bool.{false}
use Prim.Native.String.{String}
use native.Mathlib.Omega.{arith}
use text.Mathlib.Text.{◌==◌}
use text.Mathlib.TextEquality.{eq_iff}

pub str_eq-false : (a b : String) → a ≢ b → (a == b) ≡ false
str_eq-false a b h = ground (arith, eq_iff a b)
