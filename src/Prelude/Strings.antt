-- ===== src/Prelude/Strings.antt =====
-- Python's `str`: a sequence of code points.
use Prim.Native.Nat.{ℕ}
use Prim.Native.Char.{code}
use Prim.Native.String.{String}
use mathlib.Core.Path.{◌≡◌, refl}
use mathlib.Core.Logic.{◌↔◌}
use mathlib.Core.Bool.{Bool, true, false, ◌&&◌}
use mathlib.Core.List.{List, [], ◌∷◌}
use native.Mathlib.Omega.{arith}
use shard_vpn.Prelude.Tests.{eqb}

abbrev pub Text : Type 0
Text = List ℕ

abbrev pub code_points : String → Text
code_points String.[] = []
code_points (String.◌∷◌ c s) = code c ∷ code_points s

-- A literal. It stays folded, so that a proof does not carry its characters about.
unfoldable pub txt : String → Text
txt s = code_points s

unfoldable pub eqb_text : Text → Text → Bool
eqb_text [] [] = true
eqb_text (c ∷ s) (d ∷ t) = eqb c d && eqb_text s t
eqb_text _ _ = false

-- `s == t` on two `str`.
infix 50 ◌==◌
abbrev pub ◌==◌ : Text → Text → Bool
s == t = eqb_text s t

pub ==_iff : (s t : Text) → ((s == t) ≡ true) ↔ (s ≡ t)
unfolding eqb_text
==_iff [] [] = ground arith
==_iff [] (d ∷ t) = ground arith
==_iff (c ∷ s) [] = ground arith
==_iff (c ∷ s) (d ∷ t) = ground (arith, ==_iff s t)

pub ==_refl : (s : Text) → (s == s) ≡ true
==_refl s = (==_iff s s).1 refl
