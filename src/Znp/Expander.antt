-- ===== src/Znp/Expander.antt =====
-- components/znp_transport/znp_transport.c: the PCA9538 expander that drives the reset pins. The
-- I2C driver with the chip behind it is a record of functions on a state.
use zigbee_hub.Base.{
  ltb, ℕ, ◌+◌, ◌-◌, ◌*◌, ◌/◌, ◌%◌, ◌^◌, ◌<◌, ◌≤◌, ◌⊎◌, ◌≡◌, ◌≢◌, refl, ap, ◌∙◌, arith, Bool, true,
  false, ◌&&◌, ◌||◌, not, ◌==◌, if◌then◌else◌, bit_or, bit_and, EspErr, ok, invalid_response, is_ok,
  is_ok_lem, Bool-cases, inl, inr,
}
use zigbee_hub.Base.Bits.{all_below, all_below_sound}

-- i2c_master_transmit of a register and a value, and i2c_master_transmit_receive of a register.
pub record I2c (B : Type 0) : Type 0 where
  pub transmit : ℕ → ℕ → B → EspErr × B
  pub receive : ℕ → B → (EspErr × ℕ) × B

-- The bus, and `s_pca_output`.
pub record Pca (B : Type 0) : Type 0 where
  pub bus : B
  pub output : ℕ

abbrev pub bit_mask : ℕ → ℕ
bit_mask bit = 2 ^ bit % 2 ^ 8

-- The shadow register with a bit set or cleared.
unfoldable pub with_bit : ℕ → Bool → ℕ → ℕ
with_bit bit high output =
    if high then bit_or output (bit_mask bit) else bit_and output (255 - bit_mask bit)

abbrev pub is_high : ℕ → ℕ → Bool
is_high i w = w / 2 ^ i % 2 == 1

module _ {B : Type 0} (I : I2c B) where
  -- `pca_write_reg_verify`
  unfoldable pub write_reg_verify : ℕ → ℕ → B → EspErr × B
  write_reg_verify reg val b =
      let (e, b1) = I.transmit reg val b in
      let ((e', readback), b2) = I.receive reg b1 in
      if not (is_ok e)
      then (e, b1)
      else if not (is_ok e')
      then (e', b2)
      else if readback == val
      then (ok, b2)
      else (invalid_response, b2)

  -- `pca_set_bit`
  unfoldable pub set_bit : ℕ → Bool → Pca B → EspErr × Pca B
  set_bit bit high p =
      let output = with_bit bit high p.output in
      let (e, b) = write_reg_verify 0x01 output p.bus in (e, record { bus = b; output = output })

  -- What `znp_transport_reset_coprocessor` does to the pins; the results are not looked at.
  unfoldable pub pulse_reset : ℕ → ℕ → Pca B → Pca B
  pulse_reset bsl reset p = (set_bit reset true (set_bit reset false (set_bit bsl true p).1).1).1

abbrev agrees : Bool → Bool → Bool
agrees a b = if a then b else not b

-- A change of a bit: it fits into a byte, and another bit stays.
unfoldable changes : ℕ → ℕ → ℕ → Bool
unfolding with_bit
changes out bit j =
    agrees (is_high j (with_bit bit true out)) (j == bit || is_high j out)
    && agrees (is_high j (with_bit bit false out)) (not (j == bit) && is_high j out)
    && ltb (with_bit bit true out) 256
    && ltb (with_bit bit false out) 256

-- The 16384 cases of a byte and two positions in it.
table : all_below 16384 (λ n. changes (n / 64) (n / 8 % 8) (n % 8)) ≡ true
unfolding all_below changes
table = refl

changes_all : (out bit j : ℕ) → out < 256 → bit < 8 → j < 8 → changes out bit j ≡ true
changes_all out bit j p q r =
    let n = out * 64 + bit * 8 + j in
    let o : out ≡ (out * 64 + bit * 8 + j) / 64 = omega arith in
    let b : bit ≡ (out * 64 + bit * 8 + j) / 8 % 8 = omega arith in
    let k : j ≡ (out * 64 + bit * 8 + j) % 8 = omega arith in
    ap (λ x. changes x bit j) o
    ∙ ap (λ x. changes ((out * 64 + bit * 8 + j) / 64) x j) b
    ∙ ap (λ x. changes ((out * 64 + bit * 8 + j) / 64) ((out * 64 + bit * 8 + j) / 8 % 8) x) k
    ∙ all_below_sound 16384 (λ x. changes (x / 64) (x / 8 % 8) (x % 8)) (out * 64 + bit * 8 + j)
        table (omega arith)

with_bit_lem :
    (j bit out : ℕ) (high : Bool)
    → out < 256
    → bit < 8
    → j < 8
    → (is_high j (with_bit bit high out) ≡ (if j == bit then high else is_high j out))
      × (with_bit bit high out < 256)
unfolding changes
with_bit_lem j bit out true p q r = let c = changes_all out bit j p q r in ground arith
with_bit_lem j bit out false p q r = let c = changes_all out bit j p q r in ground arith

-- What the datasheet says of the registers that can be written, 0x01 to 0x03: a read that succeeds
-- gives what the register holds, a read changes none of them, and a write none but its own. Nothing
-- is said of the input port, register 0x00, which follows the pins.
abbrev pub IsWritable : ℕ → Type 0
IsWritable reg = (1 ≤ reg) × (reg ≤ 3)

pub record IsChip {B : Type 0} (I : I2c B) (register : ℕ → B → ℕ) : Type 0 where
  pub reads :
      (reg : ℕ) (b : B)
      → IsWritable reg
      → (I.receive reg b).0.0 ≡ ok
      → (I.receive reg b).0.1 ≡ register reg b
  pub keeps :
      (reg other : ℕ) (b : B)
      → IsWritable other
      → register other (I.receive reg b).1 ≡ register other b
  pub writes_one :
      (reg other val : ℕ) (b : B)
      → IsWritable other
      → other ≢ reg
      → register other (I.transmit reg val b).1 ≡ register other b

module _ {B : Type 0} (I : I2c B) (register : ℕ → B → ℕ) (L : IsChip I register) where
  pub write_reg_verify_lem :
      (reg val : ℕ) (b : B)
      → IsWritable reg
      → (write_reg_verify I reg val b).0 ≡ ok
      → register reg (write_reg_verify I reg val b).1 ≡ val
  unfolding write_reg_verify
  write_reg_verify_lem reg val b wr e = elim (Bool-cases (is_ok (I.transmit reg val b).0)) [
    | inr bad ↦ absurd (ground arith)
    | inl sent ↦
        let b1 = (I.transmit reg val b).1 in
        elim (Bool-cases (is_ok (I.receive reg b1).0.0)) [
          | inr bad ↦ absurd (ground arith)
          | inl got ↦
              let value = L.reads reg b1 wr (is_ok_lem (I.receive reg b1).0.0 got) in
              let kept = L.keeps reg reg b1 wr in
              elim (Bool-cases ((I.receive reg b1).0.1 == val)) [
                | inr other ↦ absurd (ground arith)
                | inl same ↦ ground arith
              ]
        ]
  ]

  pub write_reg_verify_other :
      (reg other val : ℕ) (b : B)
      → IsWritable other
      → other ≢ reg
      → register other (write_reg_verify I reg val b).1 ≡ register other b
  unfolding write_reg_verify
  write_reg_verify_other reg other val b wr ne =
      ground
        (arith, L.writes_one reg other val b wr ne, L.keeps reg other (I.transmit reg val b).1 wr)

  -- For bits of the register: after the reset pulse the shadow register has the BSL bit and the
  -- reset bit high and every other bit as it was, and before the release the reset bit was low.
  -- Either the last write does not answer ESP_OK, or the output register of the chip is the shadow.
  pub pulse_reset_lem :
      (bsl reset j : ℕ) (p : Pca B)
      → p.output < 256
      → bsl < 8
      → reset < 8
      → j < 8
      → (is_high j (pulse_reset I bsl reset p).output
          ≡ (j == bsl || j == reset || is_high j p.output))
        × (is_high reset (set_bit I reset false (set_bit I bsl true p).1).1.output ≡ false)
        × (((set_bit I reset true (set_bit I reset false (set_bit I bsl true p).1).1).0 ≢ ok)
            ⊎ (register 0x01 (pulse_reset I bsl reset p).bus ≡ (pulse_reset I bsl reset p).output))
  unfolding pulse_reset set_bit
  pulse_reset_lem bsl reset j p small q r t =
      let (one, size1) = with_bit_lem j bsl p.output true small q t in
      let (two, size2) = with_bit_lem j reset (with_bit bsl true p.output) false size1 r t in
      let (three, size3) =
        with_bit_lem j reset (with_bit reset false (with_bit bsl true p.output)) true size2 r t in
      let (low, size4) = with_bit_lem reset reset (with_bit bsl true p.output) false size1 r r in
      let last = set_bit I reset true (set_bit I reset false (set_bit I bsl true p).1).1 in
      (
        ground (arith, one, two, three),
        ground (arith, low),
        elim (Bool-cases (is_ok last.0)) [
          | inr bad ↦ inl (λ z. ground arith)
          | inl fine ↦
              inr (write_reg_verify_lem 0x01 _ _ (omega arith, omega arith) (is_ok_lem last.0 fine))
        ],
      )
