-- ===== src/Usb/Scan.antt =====
-- usb_device_tiny/usb_device.c: `_usb_handle_buffer` against the buffers in the order of their bits, and
-- what the interrupt leaves after a bus reset.
use pico_bootrom_rp.Common.{
  ℕ, zero, suc, ◌+◌, ◌*◌, ◌/◌, ◌%◌, ◌^◌, ◌<◌, ◌≤◌, ◌≡◌, refl, sym, Bool, true, false, ◌&&◌, not,
  ◌==◌, test_bit, arith, ltb, if-by, ◌||◌, Bool-cases, subst, inl, inr, ap, ◌∙◌,
}
use pico_bootrom_rp.Usb.Setup.{Device}
use pico_bootrom_rp.Usb.Requests.{
  Callbacks, handle_bus_reset, handle_set_config, handle_set_address,
}
use pico_bootrom_rp.Usb.Interrupt.{
  usb_max_endpoints, clear_bit, Controller, Reads, buffer_transfer, handle_bit, clear_bits, scan,
  handle_buffer, isr_setup, isr_buffers, isr_bus_reset, isr_error, isr_usbctrl,
}

half-clear_bit : (x y : ℕ) → (y * 2 + x % 2) / 2 ≡ y
half-clear_bit x y = omega arith

half-even : (x : ℕ) → x / 2 * 2 / 2 ≡ x / 2
half-even x = omega arith

suc-==-suc : (k j : ℕ) → (suc k == suc j) ≡ (k == j)
suc-==-suc k j = ground arith

test_bit-clear_bit : (x k j : ℕ) → test_bit (clear_bit x k) j ≡ (not (k == j) && test_bit x j)
unfolding test_bit clear_bit
test_bit-clear_bit x zero zero = ground arith
test_bit-clear_bit x zero (suc j) = rw (half-even) (ground arith)
test_bit-clear_bit x (suc k) zero = ground arith
test_bit-clear_bit x (suc k) (suc j) =
    rw (half-clear_bit, suc-==-suc k j) (test_bit-clear_bit (x / 2) k j)

test_bit-zero : (j : ℕ) → test_bit 0 j ≡ false
unfolding test_bit
test_bit-zero zero = refl
test_bit-zero (suc j) = test_bit-zero j

clear_bit-le : (x k : ℕ) → clear_bit x k ≤ x
unfolding clear_bit
clear_bit-le x zero = omega arith
clear_bit-le x (suc k) = let rest = clear_bit-le (x / 2) k in omega (arith, rest)

-- A word all of whose bits are clear is zero.
no_bits : (k x : ℕ) → x < 2 ^ k → ((j : ℕ) → j < k → test_bit x j ≡ false) → x ≡ 0
unfolding test_bit
no_bits zero x b h = omega arith
no_bits (suc k) x b h =
    let first = h 0 (omega arith) in
    let rest = no_bits k (x / 2) (omega arith) (λ j p. h (suc j) (omega arith)) in
    ground (arith, first, rest)

ltb-suc : (j k : ℕ) → ltb j (suc k) ≡ (k == j || ltb j k)
ltb-suc j k = ground arith

module _ (cb : Callbacks) (should_handle : ℕ → Bool) where
  clear_bits-le : (k x s : ℕ) → clear_bits cb should_handle k x s ≤ s
  unfolding clear_bits
  clear_bits-le zero x s = omega arith
  clear_bits-le (suc k) x s =
      let rest = clear_bits cb should_handle k x s in
      if-by (λ r. r ≤ s) (test_bit x k) (clear_bit rest k) rest
        (λ e. omega (arith, clear_bit-le rest k, clear_bits-le k x s)) λ e. clear_bits-le k x s

  test_bit-clear_bits :
      (k x s j : ℕ)
      → test_bit (clear_bits cb should_handle k x s) j
        ≡ (not (ltb j k && test_bit x j) && test_bit s j)
  unfolding clear_bits
  test_bit-clear_bits zero x s j = ground arith
  test_bit-clear_bits (suc k) x s j =
      let rest = clear_bits cb should_handle k x s in
      ground (arith, test_bit-clear_bits k x s j, test_bit-clear_bit rest k j, ltb-suc j k)

  clear_bits-all : (x : ℕ) → x < 2 ^ 32 → clear_bits cb should_handle 32 x x ≡ 0
  clear_bits-all x b =
      no_bits 32 (clear_bits cb should_handle 32 x x) (omega (arith, clear_bits-le 32 x x, b))
        λ j p. ground (arith, test_bit-clear_bits 32 x x j, p)

-- The buffers with a set bit in `buffers`, from `i` on, in the order of their bits, each once.
unfoldable pub each_buffer : (ℕ → Device → Device) → ℕ → ℕ → ℕ → Device → Device
each_buffer f buffers zero i dev = dev
each_buffer f buffers (suc n) i dev =
    each_buffer f buffers n (suc i) (elim (test_bit buffers i) [ true ↦ f i dev | false ↦ dev ])

each_buffer-none :
    (f : ℕ → Device → Device) (buffers n i : ℕ) (dev : Device)
    → ((j : ℕ) → i ≤ j → test_bit buffers j ≡ false)
    → each_buffer f buffers n i dev ≡ dev
unfolding each_buffer
each_buffer-none f buffers zero i dev h = refl
each_buffer-none f buffers (suc n) i dev h =
    rw (h i (omega arith)) (each_buffer-none f buffers n (suc i) dev λ j p. h j (omega arith))

-- What a scan from bit `i` on leaves.
abbrev pub Scanned : (ℕ → Device → Device) → ℕ → ℕ → ℕ → Device → Controller → Type 0
Scanned f buffers n i dev after =
    (after.device ≡ each_buffer f buffers n i dev) × (after.buf_status ≡ 0)

module _ (cb : Callbacks) (should_handle : ℕ → Bool) where
  scan-Scanned :
      (buffers n i remaining : ℕ) (c : Controller)
      → c.buf_status ≡ remaining
      → remaining < 2 ^ 32
      → ((j : ℕ) → i ≤ j → test_bit remaining j ≡ test_bit buffers j)
      → Scanned
          (buffer_transfer cb should_handle)
          buffers
          n
          i
          c.device
          (scan cb should_handle n i remaining c)
  unfolding scan each_buffer handle_bit
  scan-Scanned buffers zero i remaining c s b h =
      (refl, rw s (clear_bits-all cb should_handle remaining b))
  scan-Scanned buffers (suc n) i remaining c s b h = elim (Bool-cases (remaining == 0)) [
    | inl e ↦
        let zero_word : remaining ≡ 0 = ground arith in
        rw (e, scan)
          (
            sym (each_buffer-none f buffers (suc n) i c.device λ j p. clear j p zero_word),
            s ∙ zero_word,
          )
    | inr e ↦ elim (Bool-cases (test_bit remaining i)) [
      | inl t ↦
          rw (e, scan, t, sym (h i (omega arith)) ∙ t, each_buffer)
            (scan-Scanned buffers n (suc i) (clear_bit remaining i)
              (handle_bit cb should_handle i c) (ap (λ x. clear_bit x i) s)
              (omega (arith, clear_bit-le remaining i, b))
              λ j p. ground (arith, test_bit-clear_bit remaining i j, h j, p))
      | inr t ↦
          rw (e, scan, t, sym (h i (omega arith)) ∙ t, each_buffer)
            (scan-Scanned buffers n (suc i) remaining c s b λ j p. h j (omega arith))
    ]
  ]
    where
      f : ℕ → Device → Device
      f = buffer_transfer cb should_handle

      clear : (j : ℕ) → i ≤ j → remaining ≡ 0 → test_bit buffers j ≡ false
      clear j p z = sym (h j p) ∙ (ap (λ x. test_bit x j) z ∙ test_bit-zero j)

  scan-data_seq_error :
      (n i remaining : ℕ) (c : Controller)
      → (scan cb should_handle n i remaining c).data_seq_error ≡ c.data_seq_error
  unfolding scan handle_bit
  scan-data_seq_error zero i remaining c = refl
  scan-data_seq_error (suc n) i remaining c = elim (Bool-cases (remaining == 0)) [
    | inl e ↦ rw (e, scan) refl
    | inr e ↦ elim (Bool-cases (test_bit remaining i)) [
      | inl t ↦
          rw (e, scan, t)
            (scan-data_seq_error n (suc i) (clear_bit remaining i)
              (handle_bit cb should_handle i c))
      | inr t ↦ rw (e, scan, t) (scan-data_seq_error n (suc i) remaining c)
    ]
  ]

-- The scan of the buffer status register handles each buffer of the five endpoints that has its bit
-- set, once and in the order of the bits, and leaves the 32-bit register clear.
pub handle_buffer-Scanned :
    (cb : Callbacks) (should_handle : ℕ → Bool) (c : Controller)
    → c.buf_status < 2 ^ 32
    → Scanned
        (buffer_transfer cb should_handle)
        c.buf_status
        (usb_max_endpoints * 2)
        0
        c.device
        (handle_buffer cb should_handle c)
unfolding handle_buffer
handle_buffer-Scanned cb should_handle c b =
    scan-Scanned cb should_handle c.buf_status (usb_max_endpoints * 2) 0 c.buf_status c refl b
      λ j p. refl

-- A device that has to be addressed and configured again.
abbrev pub IsUnaddressed : Device → Type 0
IsUnaddressed dev = (dev.current_address ≡ 0) × (dev.current_config_num ≡ 0)

handle_bus_reset-IsUnaddressed :
    (cb : Callbacks) (dev : Device) → IsUnaddressed (handle_bus_reset cb dev)
unfolding handle_bus_reset handle_set_config handle_set_address
handle_bus_reset-IsUnaddressed cb dev = (refl, refl)

isr_buffers-data_seq_error :
    (cb : Callbacks) (r : Reads) (c : Controller)
    → (isr_buffers cb r c).data_seq_error ≡ c.data_seq_error
unfolding isr_buffers handle_buffer
isr_buffers-data_seq_error cb r c = elim (Bool-cases r.ints_buff_status) [
  | inl e ↦
      rw e (scan-data_seq_error cb r.buf_cpu_should_handle (usb_max_endpoints * 2) 0 c.buf_status c)
  | inr e ↦ rw e refl
]

isr_setup-data_seq_error :
    (cb : Callbacks) (r : Reads) (c : Controller)
    → (isr_setup cb r c).data_seq_error ≡ c.data_seq_error
unfolding isr_setup
isr_setup-data_seq_error cb r c = ground arith

-- The last two parts of the interrupt, where the first of them or an error has reset the device.
isr_error-IsUnaddressed :
    (cb : Callbacks) (r : Reads) (c : Controller)
    → (not (r.ints_error && not c.data_seq_error) ≡ true → IsUnaddressed c.device)
    → IsUnaddressed (isr_error cb r c).device
unfolding isr_error
isr_error-IsUnaddressed cb r c h =
    if-by (λ (x : Controller). IsUnaddressed x.device) r.ints_error _ _
      (λ e.
        if-by (λ (x : Controller). IsUnaddressed x.device) c.data_seq_error _ _
          (λ d. h (ground arith)) λ d. handle_bus_reset-IsUnaddressed cb c.device)
      λ e. h (ground arith)

isr_bus_reset-IsUnaddressed :
    (cb : Callbacks) (r : Reads) (c : Controller)
    → (r.ints_bus_reset || (r.ints_error && not c.data_seq_error)) ≡ true
    → IsUnaddressed (isr_error cb r (isr_bus_reset cb r c)).device
unfolding isr_bus_reset
isr_bus_reset-IsUnaddressed cb r c h =
    if-by (λ (x : Controller). IsUnaddressed (isr_error cb r x).device) r.ints_bus_reset _ _
      (λ e.
        isr_error-IsUnaddressed cb r
          (record c { device = handle_bus_reset cb c.device; bus_reset = false })
          λ q. handle_bus_reset-IsUnaddressed cb c.device)
      λ e. isr_error-IsUnaddressed cb r c λ q. absurd (ground arith)

-- An interrupt for a bus reset, or for an error that is not one of the data sequence, leaves the
-- device with address 0 and without a configuration, whatever set-up packet and buffers it handles too.
pub isr_usbctrl-IsUnaddressed :
    (cb : Callbacks) (r : Reads) (c : Controller)
    → (r.ints_bus_reset || (r.ints_error && not c.data_seq_error)) ≡ true
    → IsUnaddressed (isr_usbctrl cb r c).device
unfolding isr_usbctrl
isr_usbctrl-IsUnaddressed cb r c h =
    let ready = isr_setup cb r c in
    let same = isr_buffers-data_seq_error cb r ready ∙ isr_setup-data_seq_error cb r c in
    isr_bus_reset-IsUnaddressed cb r (isr_buffers cb r ready)
      (subst (λ (b : Bool). (r.ints_bus_reset || (r.ints_error && not b)) ≡ true) (sym same) h)
