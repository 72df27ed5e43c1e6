-- ===== src/Base/Strings.antt =====
-- Strings in arrays of characters, as C keeps them: what snprintf and strncpy write.
use Prim.Native.Nat.{ℕ, zero, suc, ◌+◌, ◌/◌, ◌%◌, ◌<◌, ◌≤◌}
use mathlib.Core.Path.{◌≡◌, refl, ap}
use mathlib.Core.List.{List, [], ◌∷◌}
use native.Mathlib.Omega.{arith}
use zigbee_hub.Base.Tests.{◌==◌, ltb, if◌then◌else◌}
use zigbee_hub.Base.Lists.{length, All, take, replicate}

-- The characters before the NUL.
unfoldable pub string_of : List ℕ → List ℕ
string_of [] = []
string_of (c ∷ cs) = let rest = string_of cs in if c == 0 then [] else c ∷ rest

-- Writing `text` and its NUL into an array, as far as it reaches; the last place is for the NUL.
unfoldable pub snprintf : List ℕ → List ℕ → List ℕ
snprintf text [] = []
snprintf text (x ∷ []) = 0 ∷ []
snprintf [] (x ∷ y ∷ out) = 0 ∷ y ∷ out
snprintf (c ∷ text) (x ∷ y ∷ out) = c ∷ snprintf text (y ∷ out)

-- `strncpy(out, text, n)`: zeros are written behind a shorter text, and no NUL behind a longer one.
unfoldable pub strncpy : List ℕ → List ℕ → ℕ → List ℕ
strncpy out text zero = out
strncpy [] text (suc n) = []
strncpy (x ∷ out) [] (suc n) = 0 ∷ strncpy out [] n
strncpy (x ∷ out) (c ∷ text) (suc n) = c ∷ strncpy out text n

-- `%d` of a byte.
unfoldable pub decimal : ℕ → List ℕ
decimal n =
    if ltb n 10
    then (48 + n) ∷ []
    else if ltb n 100
    then (48 + n / 10) ∷ (48 + n % 10) ∷ []
    else (48 + n / 100) ∷ (48 + n / 10 % 10) ∷ (48 + n % 10) ∷ []

-- A character of a string.
abbrev pub IsChar : ℕ → Type 0
IsChar c = 0 < c

pub string_of-snprintf :
    (text out : List ℕ)
    → All IsChar text
    → length text < length out
    → string_of (snprintf text out) ≡ text
unfolding string_of snprintf
string_of-snprintf text [] a h = absurd (omega arith)
string_of-snprintf [] (x ∷ []) a h = refl
string_of-snprintf (c ∷ text) (x ∷ []) a h = absurd (omega arith)
string_of-snprintf [] (x ∷ y ∷ out) a h = refl
string_of-snprintf (c ∷ text) (x ∷ y ∷ out) a h =
    ground (arith, a.0, string_of-snprintf text (y ∷ out) a.1 (omega arith))

pub length-snprintf : (text out : List ℕ) → length (snprintf text out) ≡ length out
unfolding snprintf
length-snprintf text [] = refl
length-snprintf text (x ∷ []) = refl
length-snprintf [] (x ∷ y ∷ out) = refl
length-snprintf (c ∷ text) (x ∷ y ∷ out) = ap suc (length-snprintf text (y ∷ out))

-- A copy into an array of zeros with a place to spare.
pub string_of-strncpy :
    (n : ℕ) (text : List ℕ)
    → All IsChar text
    → string_of (strncpy (replicate (suc n) 0) text n) ≡ take n text
unfolding string_of strncpy
string_of-strncpy zero text a = refl
string_of-strncpy (suc n) [] a = refl
string_of-strncpy (suc n) (c ∷ text) a = ground (arith, a.0, string_of-strncpy n text a.1)

pub decimal-IsChar : (n : ℕ) → n < 256 → All IsChar (decimal n) × (length (decimal n) ≤ 3)
unfolding decimal
decimal-IsChar n h = ground arith
