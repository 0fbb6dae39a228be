-- ===== src/Usb/SetAddress.antt =====
-- usb_device_tiny/usb_device.c: SET_ADDRESS, from its setup packet to the end of its status packet.
use pico_bootrom_rp.Common.{
  ◌≡◌, ◌∙◌, refl, sym, subst, Bool, true, false, ◌&&◌, not, ◌==◌, leb, u8, test_bit, arith,
}
use pico_bootrom_rp.Usb.{Endpoint}
use pico_bootrom_rp.Usb.Buffers.{give_buffer, given_ctrl}
use pico_bootrom_rp.Usb.Transfers.{
  run, dispatch, reset_transfer, started_transfer, can_give, give_in, give_as_many, call_on_packet,
  answered, grow_transfer, packet_done, is_complete, next_packet, next_call, given_packet,
  handle_transfer, handle_packet, take_packet, taken_back, after_packet, handled, check_completion,
  complete, call_completed, completed_transfer,
}
use pico_bootrom_rp.Usb.Setup.{
  SetupPacket, Device, current_packet_only, start_packet, has_completion, start_control_in,
  start_empty_control_in_transfer, set_address, complete_control,
}
use pico_bootrom_rp.Usb.Requests.{
  Callbacks, device_setup_request, accept_setup, handle_setup_packet,
}
use pico_bootrom_rp.Usb.Control.{IsIdle, idle, idle-is}
use pico_bootrom_rp.Usb.Pipe.{filled-IsIdle, IsReadyPipe, accept_setup-IsReadyPipe}
use pico_bootrom_rp.Usb.Interrupt.{transfer_control, completes, device_transfer}

-- The status packet of a control transfer completes it when its buffer comes back.
start_packet-completes_idle :
    (which : Bool) (ep : Endpoint)
    → completes
        (start_packet true (idle true ep))
        (transfer_control which (start_packet true (idle true ep)))
      ≡ true
unfolding start_packet run dispatch give_in give_as_many can_give call_on_packet answered
    grow_transfer packet_done is_complete next_packet next_call given_packet give_buffer given_ctrl
    started_transfer reset_transfer current_packet_only handle_transfer handle_packet take_packet
    taken_back after_packet handled check_completion complete call_completed completed_transfer
start_packet-completes_idle which ep = refl

start_packet-completes :
    (which : Bool) (ep : Endpoint)
    → IsIdle true ep
    → completes (start_packet true ep) (transfer_control which (start_packet true ep)) ≡ true
start_packet-completes which ep h =
    subst
      (λ (x : Endpoint).
        completes (start_packet true x) (transfer_control which (start_packet true x)) ≡ true)
      (idle-is true ep h) (start_packet-completes_idle which ep)

module _ (cb : Callbacks) (which : Bool) where
  status-sets_address :
      (dev : Device)
      → IsReadyPipe dev
      → (device_transfer cb 0 true which
          (start_empty_control_in_transfer set_address dev)).current_address
        ≡ u8 dev.pending_address
  unfolding device_transfer start_empty_control_in_transfer start_control_in has_completion
      complete_control
  status-sets_address dev r =
      let f = filled-IsIdle 0 dev.control_in r.in_idle r.toggle in
      rw (start_packet-completes which _ f.0) refl

  device_setup_request-set_address :
      (s : SetupPacket) (dev : Device)
      → s.bm_request_type ≡ 0
      → s.b_request ≡ 5
      → (not (u8 s.w_value == 0) && leb (u8 s.w_value) 127) ≡ true
      → device_setup_request cb s dev
        ≡ start_empty_control_in_transfer set_address
            (record dev { pending_address = u8 s.w_value })
  unfolding device_setup_request test_bit
  device_setup_request-set_address s dev t b v = rw (t, b, v) refl

  handle_setup_packet-device :
      (s : SetupPacket) (dev : Device)
      → s.bm_request_type ≡ 0
      → handle_setup_packet cb s dev ≡ device_setup_request cb s (accept_setup cb dev)
  unfolding handle_setup_packet
  handle_setup_packet-device s dev t = rw t refl

  -- A SET_ADDRESS request for an address from 1 to 127 leaves the address as it was until its status
  -- packet is sent, and then the device has the new one. Both control endpoints have one buffer.
  pub handle_setup_packet-set_address :
      (s : SetupPacket) (dev : Device)
      → s.bm_request_type ≡ 0
      → s.b_request ≡ 5
      → (not (u8 s.w_value == 0) && leb (u8 s.w_value) 127) ≡ true
      → dev.control_in.is_in ≡ true
      → dev.control_out.is_in ≡ false
      → dev.control_in.double_buffered ≡ false
      → dev.control_out.double_buffered ≡ false
      → let pending = handle_setup_packet cb s dev in
        (pending.current_address ≡ dev.current_address)
        × ((device_transfer cb 0 true which pending).current_address ≡ u8 s.w_value)
  unfolding accept_setup start_empty_control_in_transfer start_control_in
  handle_setup_packet-set_address s dev t b v i o d e =
      let r = accept_setup-IsReadyPipe cb dev i o d e in
      let ready = record (accept_setup cb dev) { pending_address = u8 s.w_value } in
      let status =
        status-sets_address ready
          (record { in_idle = r.in_idle; out_idle = r.out_idle; toggle = r.toggle }) in
      subst
        (λ (x : Device).
          (x.current_address ≡ dev.current_address)
          × ((device_transfer cb 0 true which x).current_address ≡ u8 s.w_value))
        (sym (
          handle_setup_packet-device s dev t
          ∙ device_setup_request-set_address s (accept_setup cb dev) t b v))
        (refl, status ∙ omega arith)
