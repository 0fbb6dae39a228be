-- ===== src/Usb/Interrupt.antt =====
-- usb_device_tiny/usb_device.c: the interrupt of the USB controller: `_usb_handle_buffer`, which
-- scans the buffer status register, and `isr_usbctrl`.
use pico_bootrom_rp.Common.{
  ℕ, zero, suc, ◌+◌, ◌*◌, ◌/◌, ◌%◌, Bool, true, false, ◌&&◌, not, ◌==◌, if◌then◌else◌, test_bit,
}
use pico_bootrom_rp.Usb.{Endpoint}
use pico_bootrom_rp.Usb.Transfers.{handle_call, run}
use pico_bootrom_rp.Usb.Reset.{call_fuel}
use pico_bootrom_rp.Usb.Setup.{
  SetupPacket, BulkEndpoint, Device, current_packet_only, complete_control,
}
use pico_bootrom_rp.Usb.Requests.{Callbacks, change_at, handle_bus_reset, handle_setup_packet}

-- `x & ~(1u << k)`
unfoldable pub clear_bit : ℕ → ℕ → ℕ
clear_bit x zero = x / 2 * 2
clear_bit x (suc k) = clear_bit (x / 2) k * 2 + x % 2

-- `USB_MAX_ENDPOINTS`, as the build sets it.
abbrev pub usb_max_endpoints : ℕ
usb_max_endpoints = 5

-- The device with the registers of the controller that the interrupt clears: `buf_status`, and of
-- `sie_status` the flags SETUP_REC, BUS_RESET and DATA_SEQ_ERROR.
pub record Controller : Type 0 where
  pub device : Device
  pub buf_status : ℕ
  pub setup_rec : Bool
  pub bus_reset : Bool
  pub data_seq_error : Bool

-- What the interrupt reads: whether `ints` has the bits of SETUP_REQ, BUFF_STATUS, BUS_RESET and one
-- of the errors, the set-up packet, and bit `i` of `buf_cpu_should_handle` when it looks at buffer `i`.
pub record Reads : Type 0 where
  pub ints_setup_req : Bool
  pub ints_buff_status : Bool
  pub ints_bus_reset : Bool
  pub ints_error : Bool
  pub setup_packet : SetupPacket
  pub buf_cpu_should_handle : ℕ → Bool

-- `_usb_handle_transfer` on a control endpoint.
abbrev pub transfer_control : Bool → Endpoint → Endpoint
transfer_control which ep = run current_packet_only call_fuel (handle_call which) ep

-- Whether that completes its transfer, so that `on_complete` is called.
abbrev pub completes : Endpoint → Endpoint → Bool
completes ep after = ep.current_transfer && not after.current_transfer

module _ (cb : Callbacks) where
  -- `_usb_handle_transfer`, with the endpoint that it looks up.
  unfoldable pub device_transfer : ℕ → Bool → Bool → Device → Device
  device_transfer zero true which dev =
      let after = transfer_control which dev.control_in in
      let changed = record dev { control_in = after } in
      if completes dev.control_in after then complete_control dev.in_completion changed else changed
  device_transfer zero false which dev =
      let after = transfer_control which dev.control_out in
      let changed = record dev { control_out = after } in
      if completes dev.control_out after
      then complete_control dev.out_completion changed
      else changed
  device_transfer (suc i) is_in which dev = record dev {
    endpoints =
        change_at i
          (λ (b : BulkEndpoint). run (cb.on_packet i) call_fuel (handle_call which) b.endpoint)
          dev.endpoints;
  }

  module _ (should_handle : ℕ → Bool) where
    -- The transfer of buffer `i`: IN for an even `i`, OUT for an odd one.
    unfoldable pub buffer_transfer : ℕ → Device → Device
    buffer_transfer i dev = device_transfer (i / 2) (i % 2 == 0) (should_handle i) dev

    -- A turn of the loop of `_usb_handle_buffer`, for a set bit.
    unfoldable pub handle_bit : ℕ → Controller → Controller
    handle_bit i c = record c {
      device = buffer_transfer i c.device;
      buf_status = clear_bit c.buf_status i;
    }

    -- `usb_hw_clear->buf_status = x`, for the low bits of `x`.
    unfoldable pub clear_bits : ℕ → ℕ → ℕ → ℕ
    clear_bits zero x status = status
    clear_bits (suc k) x status =
        let rest = clear_bits k x status in if test_bit x k then clear_bit rest k else rest

    -- The loop of `_usb_handle_buffer` from bit `i` on, with the turns left, and what follows it.
    unfoldable pub scan : ℕ → ℕ → ℕ → Controller → Controller
    scan zero i remaining c = record c { buf_status = clear_bits 32 remaining c.buf_status }
    scan (suc turns) i remaining c = elim (remaining == 0) [
      | true ↦ c
      | false ↦ elim (test_bit remaining i) [
        | true ↦ scan turns (suc i) (clear_bit remaining i) (handle_bit i c)
        | false ↦ scan turns (suc i) remaining c
      ]
    ]

    -- `_usb_handle_buffer`
    unfoldable pub handle_buffer : Controller → Controller
    handle_buffer c = scan (usb_max_endpoints * 2) 0 c.buf_status c

  -- `isr_usbctrl`, its part for SETUP_REQ.
  unfoldable pub isr_setup : Reads → Controller → Controller
  isr_setup r c =
      if r.ints_setup_req
      then record c { device = handle_setup_packet cb r.setup_packet c.device; setup_rec = false }
      else c

  -- Its part for BUFF_STATUS.
  unfoldable pub isr_buffers : Reads → Controller → Controller
  isr_buffers r c = elim r.ints_buff_status [
    | true ↦ handle_buffer r.buf_cpu_should_handle c
    | false ↦ c
  ]

  -- Its part for BUS_RESET.
  unfoldable pub isr_bus_reset : Reads → Controller → Controller
  isr_bus_reset r c =
      if r.ints_bus_reset
      then record c { device = handle_bus_reset cb c.device; bus_reset = false }
      else c

  -- Its part for the errors: but for an error of the data sequence, the cable is taken to be unplugged.
  unfoldable pub isr_error : Reads → Controller → Controller
  isr_error r c =
      if r.ints_error
      then (if c.data_seq_error
          then record c { data_seq_error = false }
          else record c { device = handle_bus_reset cb c.device })
      else c

  -- `isr_usbctrl`
  unfoldable pub isr_usbctrl : Reads → Controller → Controller
  isr_usbctrl r c = isr_error r (isr_bus_reset r (isr_buffers r (isr_setup r c)))
