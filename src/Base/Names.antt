-- ===== src/Base/Names.antt =====
-- Texts as lists of characters: equality, and numbers in hexadecimal.
use Prim.Native.Nat.{ℕ, zero, suc, ◌+◌, ◌/◌, ◌%◌}
use mathlib.Core.Path.{◌≡◌}
use mathlib.Core.Logic.{◌↔◌}
use mathlib.Core.Bool.{Bool, true, false, ◌&&◌}
use mathlib.Core.List.{List, [], ◌∷◌, ◌++◌}
use native.Mathlib.Omega.{arith}
use zigbee_hub.Base.Tests.{◌==◌, ltb, if◌then◌else◌}

-- `strcmp(a, b) == 0`
unfoldable pub same : List ℕ → List ℕ → Bool
same [] [] = true
same [] (y ∷ ys) = false
same (x ∷ xs) [] = false
same (x ∷ xs) (y ∷ ys) = let rest = same xs ys in x == y && rest

pub same_iff : (xs ys : List ℕ) → (same xs ys ≡ true) ↔ (xs ≡ ys)
unfolding same
same_iff [] [] = ground arith
same_iff [] (y ∷ ys) = ground arith
same_iff (x ∷ xs) [] = ground arith
same_iff (x ∷ xs) (y ∷ ys) = ground (arith, same_iff xs ys)

-- A digit as `%x` prints it.
abbrev pub hex_char : ℕ → ℕ
hex_char d = if ltb d 10 then 48 + d else 87 + d

-- `%0nx` for a number of at most `n` digits.
unfoldable pub hex_digits : ℕ → ℕ → List ℕ
hex_digits zero w = []
hex_digits (suc n) w = hex_digits n (w / 16) ++ hex_char (w % 16) ∷ []
