-- ===== src/Znp/Setup.antt =====
-- components/znp_transport/znp_transport.c: `pca_init` and `znp_transport_init`. What the calls of
-- the drivers and of FreeRTOS answer is an argument, in their order.
use zigbee_hub.Base.{
  ℕ, ◌-◌, ◌≡◌, ◌≢◌, refl, ◌∙◌, ◌⊎◌, inl, inr, arith, Bool, true, false, not, [], if◌then◌else◌,
  bit_or, EspErr, ok, no_mem, invalid_state, is_ok, is_ok_lem, first_error, Bool-cases,
}
use zigbee_hub.Znp.Link.{Link}
use zigbee_hub.Znp.Expander.{
  I2c, Pca, IsChip, bit_mask, write_reg_verify, write_reg_verify_lem, write_reg_verify_other,
}

-- gpio_config, when the reset pin of the expander is wired, i2c_new_master_bus and
-- i2c_master_bus_add_device.
pub record PcaSetUp : Type 0 where
  pub wired : Bool
  pub gpio : EspErr
  pub new_bus : EspErr
  pub add_device : EspErr

-- The UART driver, and whether the queues with the semaphores and the two tasks could be made.
pub record TransportSetUp : Type 0 where
  pub install : EspErr
  pub param : EspErr
  pub set_pin : EspErr
  pub pca : PcaSetUp
  pub queues : Bool
  pub rx_task : Bool
  pub dispatch_task : Bool

-- The configuration register with the two control bits as outputs.
abbrev pub config_reg : ℕ → ℕ → ℕ
config_reg reset bsl = 255 - bit_or (bit_mask reset) (bit_mask bsl)

module _ {B : Type 0} (I : I2c B) (reset bsl : ℕ) where
  -- From the two writes of `pca_init` on.
  unfoldable pub pca_configure : B → EspErr × Pca B
  pca_configure b =
      let (e1, b1) = write_reg_verify I 0x01 0xFF b in
      let (e2, b2) = write_reg_verify I 0x03 (config_reg reset bsl) b1 in
      if is_ok e1
      then (e2, record { bus = b2; output = 0xFF })
      else (e1, record { bus = b1; output = 0xFF })

  unfoldable pub pca_init : PcaSetUp → Pca B → EspErr × Pca B
  pca_init s p =
      let e = first_error (if s.wired then s.gpio else ok) (first_error s.new_bus s.add_device) in
      let ((probe_err, probe), b) = I.receive 0x03 p.bus in
      let configured = pca_configure b in
      if not (is_ok e)
      then (e, p)
      else if not (is_ok probe_err)
      then (probe_err, record p { bus = b })
      else configured

  abbrev made : Link → Link
  made l = record l { areq_queue = []; raw_queue = []; srsp_sem = false; reset_ind_sem = false }

  -- `znp_transport_init`
  unfoldable pub transport_init : TransportSetUp → Link → Pca B → EspErr × Link × Pca B
  transport_init s l p =
      let uart = first_error s.install (first_error s.param s.set_pin) in
      let (e, p') = pca_init s.pca p in
      if l.initialized
      then (invalid_state, l, p)
      else if not (is_ok uart)
      then (uart, l, p)
      else if not (is_ok e)
      then (e, l, p')
      else if not s.queues
      then (no_mem, l, p')
      else if not s.rx_task
      then (no_mem, made l, p')
      else if not s.dispatch_task
      then (no_mem, made l, p')
      else (ok, record (made l) { initialized = true }, p')

module _ {B : Type 0} (I : I2c B) (register : ℕ → B → ℕ) (L : IsChip I register)
    (reset bsl : ℕ) where
  -- The expander is ready: both outputs idle high, and the two control bits are outputs.
  abbrev pub IsIdle : Pca B → Type 0
  IsIdle p =
      (p.output ≡ 0xFF)
      × (register 0x01 p.bus ≡ 0xFF)
      × (register 0x03 p.bus ≡ config_reg reset bsl)

  pca_configure-IsIdle :
      (b : B) → (pca_configure I reset bsl b).0 ≡ ok → IsIdle (pca_configure I reset bsl b).1
  unfolding pca_configure
  pca_configure-IsIdle b e = elim (Bool-cases (is_ok (write_reg_verify I 0x01 0xFF b).0)) [
    | inr bad ↦ absurd (ground arith)
    | inl fine ↦
        let b1 = (write_reg_verify I 0x01 0xFF b).1 in
        let first =
          write_reg_verify_lem I register L 0x01 0xFF b (omega arith, omega arith)
            (is_ok_lem (write_reg_verify I 0x01 0xFF b).0 fine) in
        let kept =
          write_reg_verify_other I register L 0x03 0x01 (config_reg reset bsl) b1
            (omega arith, omega arith) (λ z. ground arith) in
        let second =
          write_reg_verify_lem I register L 0x03 (config_reg reset bsl) b1
            (omega arith, omega arith) in
        rw fine (refl, kept ∙ first, second (ground arith))
  ]

  pca_init-IsIdle :
      (s : PcaSetUp) (p : Pca B)
      → (pca_init I reset bsl s p).0 ≡ ok
      → IsIdle (pca_init I reset bsl s p).1
  unfolding pca_init
  pca_init-IsIdle s p e =
      let pins =
        first_error (if s.wired then s.gpio else ok) (first_error s.new_bus s.add_device) in
      let probe = I.receive 0x03 p.bus in
      let done = pca_configure-IsIdle probe.1 in
      elim (Bool-cases (is_ok pins)) [
        | inr bad ↦ absurd (ground arith)
        | inl y ↦ elim (Bool-cases (is_ok probe.0.0)) [
          | inr bad ↦ absurd (ground arith)
          | inl z ↦ rw (y, z) (done (ground arith))
        ]
      ]

  -- How setting up a link that was not set up ends.
  abbrev pub SetUpOutcome : EspErr × Link × Pca B → Type 0
  SetUpOutcome (e, l, p) =
      ((e ≡ ok)
        × (l.initialized ≡ true)
        × (l.areq_queue ≡ [])
        × (l.raw_queue ≡ [])
        × (l.srsp_sem ≡ false)
        × (l.reset_ind_sem ≡ false)
        × IsIdle p)
      ⊎ ((e ≢ ok) × (l.initialized ≡ false))

  not_ok : (e : EspErr) → is_ok e ≡ false → e ≢ ok
  not_ok e h z = ground arith

  set_up :
      (s : TransportSetUp) (l : Link) (p : Pca B)
      → l.initialized ≡ false
      → SetUpOutcome (transport_init I reset bsl s l p)
  unfolding transport_init
  set_up s l p off =
      let uart = first_error s.install (first_error s.param s.set_pin) in
      let pca = pca_init I reset bsl s.pca p in
      let idle = λ (y : is_ok pca.0 ≡ true). pca_init-IsIdle s.pca p (is_ok_lem pca.0 y) in
      elim (Bool-cases (is_ok uart)) [
        | inr bad ↦ rw (off, bad) (inr (not_ok uart bad, refl))
        | inl y ↦ elim (Bool-cases (is_ok pca.0)) [
          | inr bad ↦ rw (off, y, bad) (inr (not_ok pca.0 bad, refl))
          | inl z ↦ elim (Bool-cases s.queues) [
            | inr a ↦ rw (off, y, z, a) (inr (not_ok no_mem refl, refl))
            | inl a ↦ elim (Bool-cases s.rx_task) [
              | inr b ↦ rw (off, y, z, a, b) (inr (not_ok no_mem refl, refl))
              | inl b ↦ elim (Bool-cases s.dispatch_task) [
                | inr c ↦ rw (off, y, z, a, b, c) (inr (not_ok no_mem refl, refl))
                | inl c ↦ rw (off, y, z, a, b, c) (inl (refl, refl, refl, refl, refl, refl, idle z))
              ]
            ]
          ]
        ]
      ]

  -- Setting up the transport is all or nothing for its callers: with ESP_OK the link is usable,
  -- both queues are empty and neither semaphore is given, and the expander holds both control pins
  -- high and has them as its outputs; with any other code the link is still not usable. A link that
  -- is set up is refused with ESP_ERR_INVALID_STATE and left as it is.
  pub transport_init_lem :
      (s s' : TransportSetUp) (l l' : Link) (p p' : Pca B)
      → l.initialized ≡ false
      → l'.initialized ≡ true
      → SetUpOutcome (transport_init I reset bsl s l p)
        × (transport_init I reset bsl s' l' p' ≡ (invalid_state, l', p'))
  unfolding transport_init
  transport_init_lem s s' l l' p p' off on = (set_up s l p off, rw on refl)
