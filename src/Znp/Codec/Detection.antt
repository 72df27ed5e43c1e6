-- ===== src/Znp/Codec/Detection.antt =====
-- Frames with a changed byte, under znp_frame_decode.
use zigbee_hub.Base.{
  ℕ, suc, ◌+◌, ◌≤◌, ◌≡◌, refl, ap, ◌≢◌, List, [], ◌∷◌, ◌++◌, arith, length, length-append, bit_xor,
  ◌==◌, ==_iff, if◌then◌else◌, invalid_crc, Bool-cases, inl, inr,
}
use zigbee_hub.Base.Bits.{xor_cancel, xor_self}
use zigbee_hub.Znp.Frame.{Frame, sof, max_payload}
use zigbee_hub.Znp.Codec.{decode, accepted, rejected}
use zigbee_hub.Znp.Codec.Check.{xor_all, xor_all-append, xor_all_change}
use zigbee_hub.Znp.Codec.RoundTrip.{received, decode_lem}

eq-xor_zero : (a c : ℕ) → (a == c) ≡ (bit_xor a c == 0)
eq-xor_zero a c = elim (Bool-cases (a == c)) [
  | inl e ↦ let s : a ≡ c = (==_iff a c).0 e in rw s (rw (xor_self c) (ground arith))
  | inr e ↦ ground (arith, λ (h : bit_xor a c ≡ bit_xor a a). xor_cancel a c a h, xor_self a)
]

last_cases :
    (n : ℕ) (xs : List ℕ)
    → length xs ≡ suc n
    → (ps : List ℕ) × (c : ℕ) × (length ps ≡ n) × (xs ≡ ps ++ c ∷ [])
last_cases n [] h = absurd (omega arith)
last_cases n (x ∷ []) h = ([], x, omega arith, refl)
last_cases n (x ∷ y ∷ xs) h =
    let (ps, c, l, e) = last_cases (length xs) (y ∷ xs) refl in
    (x ∷ ps, c, omega arith, ap (◌∷◌ x) e)

checked_snoc :
    (t i : ℕ) (ps : List ℕ) (c : ℕ) (old : Frame)
    → length ps ≤ max_payload
    → length old.payload ≡ max_payload
    → decode (sof ∷ length ps ∷ t ∷ i ∷ ps ++ c ∷ []) old ≡ (
        if xor_all (length ps) (t ∷ i ∷ ps ++ c ∷ []) == 0
        then accepted (received t i ps old)
        else rejected invalid_crc (received t i ps old))
checked_snoc t i ps c old short room = ground (
  arith,
  decode_lem t i ps c old short room,
  eq-xor_zero (xor_all (length ps) (t ∷ i ∷ ps)) c,
  xor_all-append (length ps) (t ∷ i ∷ ps) (c ∷ []),
)

-- The answer to a frame of the right length, by the sum of its bytes behind SOF.
abbrev pub Checked : ℕ → List ℕ → Frame → Type 0
Checked len body old =
    (f : Frame) × (decode (sof ∷ len ∷ body) old
      ≡ (if xor_all len body == 0 then accepted f else rejected invalid_crc f))

checked_parts :
    (len t i : ℕ) (rest : List ℕ) (old : Frame)
    → len ≤ max_payload
    → length old.payload ≡ max_payload
    → (ps : List ℕ) × (c : ℕ) × (length ps ≡ len) × (rest ≡ ps ++ c ∷ [])
    → Checked len (t ∷ i ∷ rest) old
checked_parts len t i rest old short room (ps, c, l, e) =
    (received t i ps old, rw (e, ← l) (checked_snoc t i ps c old (omega arith) room))

checked :
    (len : ℕ) (body : List ℕ) (old : Frame)
    → length body ≡ len + 3
    → len ≤ max_payload
    → length old.payload ≡ max_payload
    → Checked len body old
checked len [] old h short room = absurd (omega arith)
checked len (t ∷ []) old h short room = absurd (omega arith)
checked len (t ∷ i ∷ rest) old h short room =
    checked_parts len t i rest old short room (last_cases len rest (omega arith))

-- If `znp_frame_decode` accepts a frame, it answers the same frame with any one byte behind the
-- length byte changed (type, id, payload or check) by ESP_ERR_INVALID_CRC.
pub decode_change :
    (len x y : ℕ) (xs ys : List ℕ) (old f : Frame)
    → length (xs ++ x ∷ ys) ≡ len + 3
    → len ≤ max_payload
    → length old.payload ≡ max_payload
    → decode (sof ∷ len ∷ xs ++ x ∷ ys) old ≡ accepted f
    → x ≢ y
    → (g : Frame) × (decode (sof ∷ len ∷ xs ++ y ∷ ys) old ≡ rejected invalid_crc g)
decode_change len x y xs ys old f h short room e ne =
    let same_length : length (xs ++ y ∷ ys) ≡ len + 3 =
      omega (arith, length-append xs (x ∷ ys), length-append xs (y ∷ ys)) in
    let was = checked len (xs ++ x ∷ ys) old h short room in
    let now = checked len (xs ++ y ∷ ys) old same_length short room in
    (
      now.0,
      ground (
        arith,
        was.1,
        now.1,
        λ (z : xor_all len (xs ++ x ∷ ys) ≡ xor_all len (xs ++ y ∷ ys)).
            xor_all_change len x y xs ys z,
      ),
    )
