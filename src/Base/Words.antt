-- ===== src/Base/Words.antt =====
-- Little-endian fields: `p[0] | (p[1] << 8)` and the loops over up to eight bytes.
use Prim.Native.Nat.{ℕ, zero, suc, ◌+◌, ◌*◌, ◌/◌, ◌%◌, ◌^◌, ◌≤◌, ◌<◌, bit_or}
use mathlib.Core.Path.{◌≡◌, ap, ◌∙◌}
use mathlib.Core.List.{List, [], ◌∷◌}
use native.Mathlib.Nat.{pow-le-pow_right, add-zero}
use native.Mathlib.Numerals.{towards_suc}
use native.Mathlib.Omega.{arith}
use zigbee_hub.Base.Bits.{or_shifted}
use zigbee_hub.Base.Lists.{length, All, take, drop}

-- `(uint16_t)(lo | (hi << 8))` of two bytes.
abbrev pub le16 : ℕ → ℕ → ℕ
le16 lo hi = bit_or lo (hi * 2 ^ 8) % 2 ^ 16

pub le16_lem : (lo hi : ℕ) → lo < 256 → hi < 256 → le16 lo hi ≡ lo + hi * 256
le16_lem lo hi p q = omega (arith, or_shifted 8 lo hi p)

-- The bytes of a 16-bit word, as the senders split it.
abbrev pub low_byte : ℕ → ℕ
low_byte w = w % 256

abbrev pub high_byte : ℕ → ℕ
high_byte w = w / 256 % 256

-- Splitting a 16-bit word into bytes and joining them gives it back.
pub le16-bytes : (w : ℕ) → w < 2 ^ 16 → le16 (low_byte w) (high_byte w) ≡ w
le16-bytes w h = omega (arith, le16_lem (low_byte w) (high_byte w) (omega arith) (omega arith))

-- `for (i = 0; i < n; i++) acc |= (uint64_t)p[i] << (8 * i);` from shift `s` on; the values of
-- the program have at most eight bytes, so nothing is shifted out of the 64 bits.
unfoldable pub or_bytes : ℕ → ℕ → List ℕ → ℕ
or_bytes s acc [] = acc
or_bytes s acc (x ∷ xs) = or_bytes (s + 8) (bit_or acc (x * 2 ^ s)) xs

-- `n` bytes of a word, the lowest first.
unfoldable pub word_bytes : ℕ → ℕ → List ℕ
word_bytes zero w = []
word_bytes (suc n) w = (w % 256) ∷ word_bytes n (w / 256)

pow_eight : (s : ℕ) → 2 ^ (s + 8) ≡ 256 * 2 ^ s
pow_eight s = simp towards_suc (omega arith)

eight_more : (n : ℕ) → 8 * suc n ≡ 8 * n + 8
eight_more n = omega arith

whole : (w : ℕ) → w ≡ w / 256 * 256 + w % 256
whole w = omega arith

pub or_bytes-word_bytes :
    (n s acc w : ℕ)
    → acc < 2 ^ s
    → w < 2 ^ (8 * n)
    → or_bytes s acc (word_bytes n w) ≡ acc + w * 2 ^ s
unfolding or_bytes word_bytes
or_bytes-word_bytes zero s acc w p q = let e : w ≡ 0 = omega arith in rw e (omega arith)
or_bytes-word_bytes (suc n) s acc w p q =
    ap (λ (t : ℕ). or_bytes (s + 8) t (word_bytes n (w / 256))) (or_shifted s acc (w % 256) p)
    ∙ or_bytes-word_bytes n (s + 8) (acc + w % 256 * 2 ^ s) (w / 256) fits small
    ∙ total
  where
    shifted : (t : ℕ) → t ≤ 255 → t * 2 ^ s ≤ 255 * 2 ^ s
    shifted t h = grind arith

    fits : acc + w % 256 * 2 ^ s < 2 ^ (s + 8)
    fits = omega (arith, pow_eight s, shifted (w % 256) (omega arith))

    small : w / 256 < 2 ^ (8 * n)
    small = omega (arith, pow_eight (8 * n), ap (λ (t : ℕ). 2 ^ t) (eight_more n))

    split : w * 2 ^ s ≡ w / 256 * 256 * 2 ^ s + w % 256 * 2 ^ s
    split = omega (arith, ap (λ (t : ℕ). t * 2 ^ s) (whole w))

    total : acc + w % 256 * 2 ^ s + w / 256 * 2 ^ (s + 8) ≡ acc + w * 2 ^ s
    total = omega (arith, split, ap (λ (t : ℕ). w / 256 * t) (pow_eight s))

abbrev pub IsByte : ℕ → Type 0
IsByte b = b < 256

-- Bytes that are joined from shift `s` on fill 8 bits each.
or_bytes-lt :
    (s acc : ℕ) (xs : List ℕ)
    → acc < 2 ^ s
    → All IsByte xs
    → or_bytes s acc xs < 2 ^ (s + 8 * length xs)
unfolding or_bytes
or_bytes-lt s acc [] p bytes = rw add-zero p
or_bytes-lt s acc (x ∷ xs) p bytes = omega (
  arith,
  or_bytes-lt (s + 8) (bit_or acc (x * 2 ^ s)) xs fits bytes.1,
  ap (λ (t : ℕ). 2 ^ t) more,
)
  where
    shifted : (t : ℕ) → t ≤ 255 → t * 2 ^ s ≤ 255 * 2 ^ s
    shifted t h = grind arith

    fits : bit_or acc (x * 2 ^ s) < 2 ^ (s + 8)
    fits = omega (arith, pow_eight s, or_shifted s acc x p, shifted x (omega (arith, bytes.0)))

    more : s + 8 + 8 * length xs ≡ s + 8 * suc (length xs)
    more = omega arith

All-take : (n : ℕ) (xs : List ℕ) → All IsByte xs → All IsByte (take n xs) × (length (take n xs) ≤ n)
All-take zero xs a = (tt, omega arith)
All-take (suc n) [] a = (tt, omega arith)
All-take (suc n) (x ∷ xs) a = let rest = All-take n xs a.1 in ((a.0, rest.0), omega (arith, rest.1))

All-drop : (n : ℕ) (xs : List ℕ) → All IsByte xs → All IsByte (drop n xs)
All-drop zero xs a = a
All-drop (suc n) [] a = a
All-drop (suc n) (x ∷ xs) a = All-drop n xs a.1

-- What eight bytes of a list spell has 64 bits.
pub or_bytes-take :
    (i : ℕ) (xs : List ℕ) → All IsByte xs → or_bytes 0 0 (take 8 (drop i xs)) < 2 ^ 64
or_bytes-take i xs a =
    let (bytes, short) = All-take 8 (drop i xs) (All-drop i xs a) in
    omega (
      arith,
      or_bytes-lt 0 0 (take 8 (drop i xs)) (omega arith) bytes,
      pow-le-pow_right {n = 2} (omega arith) {i = 0 + 8 * length (take 8 (drop i xs))} {j = 64}
          (omega arith),
    )

pub le16-lt : (lo hi : ℕ) → le16 lo hi < 2 ^ 16
le16-lt lo hi = omega arith
