-- ===== src/Base/Bits.antt =====
-- `^` and `|` at variables: cancellation, widths, and `|` of disjoint fields as a sum.
use Prim.Native.Nat.{
  ℕ, zero, suc, ◌+◌, ◌*◌, ◌/◌, ◌%◌, ◌^◌, ◌≤◌, ◌<◌, bit_or, bit_xor, digits, bitwise, bit_or-bitwise,
  bit_xor-bitwise, max, differ,
}
use mathlib.Core.Path.{◌≡◌, refl, ap, sym, ◌∙◌}
use mathlib.Core.Bool.{Bool, true, false}
use mathlib.Core.Logic.{◌⊎◌, inl, inr}
use zigbee_hub.Base.Tests.{Bool-cases, if◌then◌else◌}
use native.Mathlib.Nat.{pow-suc}
use native.Mathlib.Omega.{arith}

-- The native operations are recursions on binary digits with fuel; the fuel does not matter.
module _ (z : ℕ → ℕ) (f : ℕ → ℕ → ℕ) where
  fuel_enough : (n m a b : ℕ) → a ≤ n → a ≤ m → digits z f n a b ≡ digits z f m a b
  fuel_enough (suc n) (suc m) (suc a) b p q =
      rw (fuel_enough n m (suc a / 2) (b / 2) (omega arith) (omega arith))
  fuel_enough (suc n) (suc m) zero b p q = refl
  fuel_enough (suc n) zero zero b p q = refl
  fuel_enough zero (suc m) zero b p q = refl
  fuel_enough zero zero a b p q = refl
  fuel_enough zero (suc m) (suc a) b p q = absurd (omega arith)
  fuel_enough (suc n) zero (suc a) b p q = absurd (omega arith)

  lowest_digit :
      (a b : ℕ)
      → bitwise z f (suc a) b ≡ bitwise z f (suc a / 2) (b / 2) * 2 + f (suc a % 2) (b % 2)
  lowest_digit a b =
      omega (arith, fuel_enough a (suc a / 2) (suc a / 2) (b / 2) (omega arith) (omega arith))

bit_or_digit : (a b : ℕ) → bit_or a b ≡ bit_or (a / 2) (b / 2) * 2 + max (a % 2) (b % 2)
bit_or_digit zero b = simp bit_or-bitwise (omega arith)
bit_or_digit (suc a) b = simp bit_or-bitwise (lowest_digit (λ y. y) max a b)

bit_xor_digit : (a b : ℕ) → bit_xor a b ≡ bit_xor (a / 2) (b / 2) * 2 + differ (a % 2) (b % 2)
bit_xor_digit zero b = simp bit_xor-bitwise (omega arith)
bit_xor_digit (suc a) b = simp bit_xor-bitwise (lowest_digit (λ y. y) differ a b)

differ_cancel : (x y z : ℕ) → x < 2 → y < 2 → z < 2 → differ z x ≡ differ z y → x ≡ y
differ_cancel x y zero p q r e = e
differ_cancel zero zero (suc zero) p q r e = refl
differ_cancel zero (suc zero) (suc zero) p q r e = omega arith
differ_cancel (suc zero) zero (suc zero) p q r e = omega arith
differ_cancel (suc zero) (suc zero) (suc zero) p q r e = refl
differ_cancel _ _ _ p q r e = absurd (omega arith)

differ_comm : (x y : ℕ) → differ x y ≡ differ y x
differ_comm zero zero = refl
differ_comm zero (suc y) = refl
differ_comm (suc x) zero = refl
differ_comm (suc x) (suc y) = differ_comm x y

differ_self : (x : ℕ) → differ x x ≡ 0
differ_self zero = refl
differ_self (suc x) = differ_self x

differ-lt : (x y : ℕ) → x < 2 → y < 2 → differ x y < 2
differ-lt zero y p q = q
differ-lt (suc zero) zero p q = p
differ-lt (suc zero) (suc zero) p q = omega arith
differ-lt _ _ p q = absurd (omega arith)

xor_cancel_fuel : (n x y z : ℕ) → x ≤ n → y ≤ n → bit_xor z x ≡ bit_xor z y → x ≡ y
xor_cancel_fuel zero zero zero z p q e = refl
xor_cancel_fuel zero zero (suc y) z p q e = absurd (omega arith)
xor_cancel_fuel zero (suc x) y z p q e = absurd (omega arith)
xor_cancel_fuel (suc n) x y z p q e = omega (
  arith,
  xor_cancel_fuel n (x / 2) (y / 2) (z / 2) (omega arith) (omega arith) halves,
  differ_cancel (x % 2) (y % 2) (z % 2) (omega arith) (omega arith) (omega arith) lows,
)
  where
    sums :
        bit_xor (z / 2) (x / 2) * 2 + differ (z % 2) (x % 2)
        ≡ bit_xor (z / 2) (y / 2) * 2 + differ (z % 2) (y % 2)
    sums = omega (arith, bit_xor_digit z x, bit_xor_digit z y)

    bx : differ (z % 2) (x % 2) < 2
    bx = differ-lt (z % 2) (x % 2) (omega arith) (omega arith)

    by : differ (z % 2) (y % 2) < 2
    by = differ-lt (z % 2) (y % 2) (omega arith) (omega arith)

    halves : bit_xor (z / 2) (x / 2) ≡ bit_xor (z / 2) (y / 2)
    halves = omega (arith, sums, bx, by)

    lows : differ (z % 2) (x % 2) ≡ differ (z % 2) (y % 2)
    lows = omega (arith, sums, bx, by)

-- `^` by the same word is injective.
pub xor_cancel : (z x y : ℕ) → bit_xor z x ≡ bit_xor z y → x ≡ y
xor_cancel z x y e = xor_cancel_fuel (x + y) x y z (omega arith) (omega arith) e

xor_zero_fuel : (n x : ℕ) → x ≤ n → bit_xor x 0 ≡ x
xor_zero_fuel n zero p = refl
xor_zero_fuel zero (suc x) p = absurd (omega arith)
xor_zero_fuel (suc n) (suc x) p = omega (
  arith,
  bit_xor_digit (suc x) 0,
  xor_zero_fuel n (suc x / 2) (omega arith),
  differ_comm (suc x % 2) 0,
)

zero_xor : (x : ℕ) → bit_xor 0 x ≡ x
zero_xor x = bit_xor-bitwise 0 x

xor_comm_fuel : (n x y : ℕ) → x ≤ n → bit_xor x y ≡ bit_xor y x
xor_comm_fuel n zero y p = zero_xor y ∙ sym (xor_zero_fuel y y (omega arith))
xor_comm_fuel zero (suc x) y p = absurd (omega arith)
xor_comm_fuel (suc n) (suc x) y p = omega (
  arith,
  bit_xor_digit (suc x) y,
  bit_xor_digit y (suc x),
  xor_comm_fuel n (suc x / 2) (y / 2) (omega arith),
  differ_comm (suc x % 2) (y % 2),
)

pub xor_comm : (x y : ℕ) → bit_xor x y ≡ bit_xor y x
xor_comm x y = xor_comm_fuel x x y (omega arith)

pub xor-lt : (k x y : ℕ) → x < 2 ^ k → y < 2 ^ k → bit_xor x y < 2 ^ k
xor-lt zero zero zero p q = omega arith
xor-lt zero (suc x) y p q = absurd (omega arith)
xor-lt zero zero (suc y) p q = absurd (omega arith)
xor-lt (suc k) x y p q = omega (
  arith,
  pow-suc 2 k,
  bit_xor_digit x y,
  xor-lt k (x / 2) (y / 2) (omega (arith, pow-suc 2 k)) (omega (arith, pow-suc 2 k)),
  differ-lt (x % 2) (y % 2) (omega arith) (omega arith),
)

or_zero_fuel : (n x : ℕ) → x ≤ n → bit_or x 0 ≡ x
or_zero_fuel n zero p = refl
or_zero_fuel zero (suc x) p = absurd (omega arith)
or_zero_fuel (suc n) (suc x) p =
    omega (arith, bit_or_digit (suc x) 0, or_zero_fuel n (suc x / 2) (omega arith))

max_comm : (x y : ℕ) → max x y ≡ max y x
max_comm x y = omega arith

or_comm_fuel : (n x y : ℕ) → x ≤ n → bit_or x y ≡ bit_or y x
or_comm_fuel n zero y p = bit_or-bitwise 0 y ∙ sym (or_zero_fuel y y (omega arith))
or_comm_fuel zero (suc x) y p = absurd (omega arith)
or_comm_fuel (suc n) (suc x) y p = omega (
  arith,
  bit_or_digit (suc x) y,
  bit_or_digit y (suc x),
  or_comm_fuel n (suc x / 2) (y / 2) (omega arith),
  max_comm (suc x % 2) (y % 2),
)

or_comm : (x y : ℕ) → bit_or x y ≡ bit_or y x
or_comm x y = or_comm_fuel x x y (omega arith)

-- `r | (q << k)` is a sum when `r` fits in `k` bits.
pub or_shifted : (k r q : ℕ) → r < 2 ^ k → bit_or r (q * 2 ^ k) ≡ r + q * 2 ^ k
or_shifted zero zero q p = bit_or-bitwise 0 (q * 2 ^ 0) ∙ omega arith
or_shifted zero (suc r) q p = absurd (omega arith)
or_shifted (suc k) r q p =
    let whole : q * 2 ^ suc k ≡ 2 * (q * 2 ^ k) =
      omega (arith, ap (λ (t : ℕ). q * t) (pow-suc 2 k)) in
    let shrunk : q * 2 ^ suc k / 2 ≡ q * 2 ^ k = omega (arith, whole) in
    let half : bit_or (r / 2) (q * 2 ^ suc k / 2) ≡ r / 2 + q * 2 ^ k =
      rw shrunk (or_shifted k (r / 2) q (omega (arith, pow-suc 2 k))) in
    omega (arith, whole, bit_or_digit r (q * 2 ^ suc k), half)

xor_self_fuel : (n x : ℕ) → x ≤ n → bit_xor x x ≡ 0
xor_self_fuel n zero p = refl
xor_self_fuel zero (suc x) p = absurd (omega arith)
xor_self_fuel (suc n) (suc x) p = omega (
  arith,
  bit_xor_digit (suc x) (suc x),
  xor_self_fuel n (suc x / 2) (omega arith),
  differ_self (suc x % 2),
)

pub xor_self : (x : ℕ) → bit_xor x x ≡ 0
xor_self x = xor_self_fuel x x (omega arith)

-- `(q << k) | r`, the other way round.
pub shifted_or : (k q r : ℕ) → r < 2 ^ k → bit_or (q * 2 ^ k) r ≡ q * 2 ^ k + r
shifted_or k q r p = omega (arith, or_comm (q * 2 ^ k) r, or_shifted k r q p)

le-cases : (i x : ℕ) → i ≤ x → (i ≡ x) ⊎ (suc i ≤ x)
le-cases i x h = ground arith

-- A fact about `n` words from `i` on, by evaluation.
every : ℕ → ℕ → (ℕ → Bool) → Bool
every i zero p = true
every i (suc n) p = if p i then every (suc i) n p else false

every_at : (n i x : ℕ) (p : ℕ → Bool) → i ≤ x → x < i + n → every i n p ≡ true → p x ≡ true
unfolding every
every_at zero i x p low high h = absurd (omega arith)
every_at (suc n) i x p low high h = elim (Bool-cases (p i)) [
  | inr no_i ↦ absurd (ground arith)
  | inl yes_i ↦ elim (le-cases i x low) [
    | inl e ↦ rw (← e) yes_i
    | inr above ↦ every_at n (suc i) x p above (omega arith) (ground arith)
  ]
]

-- A fact about all small words.
unfoldable pub all_below : ℕ → (ℕ → Bool) → Bool
unfolding every
all_below n p = every 0 n p

pub all_below_sound : (n : ℕ) (p : ℕ → Bool) (x : ℕ) → all_below n p ≡ true → x < n → p x ≡ true
unfolding all_below
all_below_sound n p x h small = every_at n 0 x p (omega arith) (omega arith) h
