-- ===== src/Znp/Codec/Check.antt =====
-- The frame check sequence as a sum of bytes by `^`.
use zigbee_hub.Base.{
  ℕ, zero, suc, ◌≤◌, ◌<◌, ◌≡◌, refl, ◌∙◌, List, [], ◌∷◌, ◌++◌, some, bit_xor, arith, length, take,
  All,
}
use zigbee_hub.Base.Bits.{xor_cancel, xor_comm, xor-lt}
use zigbee_hub.Znp.Frame.{Frame, content}
use zigbee_hub.Znp.Codec.{fcs_loop, fcs_calculate}

abbrev pub xor_all : ℕ → List ℕ → ℕ
xor_all acc [] = acc
xor_all acc (x ∷ xs) = xor_all (bit_xor acc x) xs

pub xor_all-append :
    (acc : ℕ) (xs ys : List ℕ) → xor_all acc (xs ++ ys) ≡ xor_all (xor_all acc xs) ys
xor_all-append acc [] ys = refl
xor_all-append acc (x ∷ xs) ys = xor_all-append (bit_xor acc x) xs ys

-- Sums from different starts differ.
xor_all_cancel : (a b : ℕ) (xs : List ℕ) → xor_all a xs ≡ xor_all b xs → a ≡ b
xor_all_cancel a b [] e = e
xor_all_cancel a b (x ∷ xs) e =
    xor_cancel x a b (xor_comm x a ∙ xor_all_cancel (bit_xor a x) (bit_xor b x) xs e ∙ xor_comm b x)

-- A change of one byte changes the sum.
pub xor_all_change :
    (acc x y : ℕ) (xs ys : List ℕ) → xor_all acc (xs ++ x ∷ ys) ≡ xor_all acc (xs ++ y ∷ ys) → x ≡ y
xor_all_change acc x y [] ys e =
    xor_cancel acc x y (xor_all_cancel (bit_xor acc x) (bit_xor acc y) ys e)
xor_all_change acc x y (z ∷ xs) ys e = xor_all_change (bit_xor acc z) x y xs ys e

pub xor_all-lt : (acc : ℕ) (xs : List ℕ) → acc < 256 → All (λ x. x < 256) xs → xor_all acc xs < 256
xor_all-lt acc [] h b = h
xor_all-lt acc (x ∷ xs) h b = xor_all-lt (bit_xor acc x) xs (xor-lt 8 acc x h b.0) b.1

fcs_loop_lem :
    (n : ℕ) (payload : List ℕ) (acc : ℕ)
    → n ≤ length payload
    → fcs_loop n payload acc ≡ some (xor_all acc (take n payload))
unfolding fcs_loop
fcs_loop_lem zero payload acc h = refl
fcs_loop_lem (suc n) [] acc h = absurd (omega arith)
fcs_loop_lem (suc n) (x ∷ payload) acc h = fcs_loop_lem n payload (bit_xor acc x) (omega arith)

-- The check of a frame by its content.
abbrev pub frame_sum : Frame → ℕ
frame_sum f = xor_all (bit_xor (bit_xor f.payload_len f.cmd_type) f.cmd_id) (content f)

-- Within the array the loop reads no byte behind it.
pub fcs_calculate_lem :
    (f : Frame) → f.payload_len ≤ length f.payload → fcs_calculate f ≡ some (frame_sum f)
unfolding fcs_calculate
fcs_calculate_lem f h = fcs_loop_lem f.payload_len f.payload _ h
