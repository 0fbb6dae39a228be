-- ===== src/BootDevice/Requests/Answered.antt =====
-- The boot device answers every setup packet.
use pico_bootrom_rp.Common.{
  ℕ, zero, suc, ◌≡◌, true, false, ◌&&◌, not, List, [], ◌∷◌, Option, ◌==◌, length, test_bit, if-by,
}
use pico_bootrom_rp.Usb.Setup.{
  SetupPacket, no_completion, send_in_ack, start_single_buffer_control_in_transfer,
  start_empty_control_in_transfer,
}
use pico_bootrom_rp.Usb.Requests.{
  Callbacks, type_bits, recipient_bits, accept_setup, handle_setup_packet,
}
use pico_bootrom_rp.Usb.Pipe.{
  Answers, IsReadyPipe, start_control_in-Answers, accept_setup-IsReadyPipe,
}
use pico_bootrom_rp.Usb.Answers.{Handled, handle_setup_packet-Answers}
use pico_bootrom_rp.Picoboot.{CmdStatus}
use pico_bootrom_rp.BootDevice.Requests.{
  BootDevice, clear_msc_halts, answer_max_lun, reset_msc, msc_setup_request_handler, answer_status,
  reset_picoboot, picoboot_setup_request_handler, setup_request_handler, device_of, boot_callbacks,
}

module _ (picoboot_if_cmd_status picoboot_if_reset : ℕ) (bytes : CmdStatus → List ℕ) where
  -- A handler declines, or the device that it leaves answers.
  abbrev HandledBy : Option BootDevice → Type 0
  HandledBy o = Handled (device_of picoboot_if_cmd_status picoboot_if_reset bytes o)

  msc-Handled :
      (s : SetupPacket) (b : BootDevice)
      → IsReadyPipe b.device
      → HandledBy (msc_setup_request_handler s b)
  unfolding msc_setup_request_handler device_of answer_max_lun reset_msc clear_msc_halts
      start_single_buffer_control_in_transfer start_empty_control_in_transfer
  msc-Handled s b r =
      if-by HandledBy (type_bits s == 1) _ _
        (λ e.
          if-by HandledBy (test_bit s.bm_request_type 7) _ _
            (λ e.
              if-by HandledBy (s.b_request == 0xfe && s.w_value == 0 && not (s.w_length == 0)) _ _
                (λ e. start_control_in-Answers send_in_ack (0 ∷ []) b.device r.in_idle r.toggle)
                λ e. tt)
            λ e.
              if-by HandledBy (s.b_request == 0xff && s.w_value == 0 && s.w_length == 0) _ _
                (λ e.
                  start_control_in-Answers no_completion [] (clear_msc_halts b.device) r.in_idle
                    r.toggle)
                λ e. tt)
        λ e. tt

  picoboot-Handled :
      (s : SetupPacket) (b : BootDevice)
      → IsReadyPipe b.device
      → HandledBy
          (picoboot_setup_request_handler picoboot_if_cmd_status picoboot_if_reset bytes s b)
  unfolding picoboot_setup_request_handler device_of answer_status reset_picoboot
      start_single_buffer_control_in_transfer start_empty_control_in_transfer
  picoboot-Handled s b r =
      if-by HandledBy (type_bits s == 2) _ _
        (λ e.
          if-by HandledBy (test_bit s.bm_request_type 7) _ _
            (λ e.
              if-by HandledBy
                (s.b_request == picoboot_if_cmd_status
                  && s.w_length == length (bytes b.picoboot.status))
                _ _
                (λ e.
                  start_control_in-Answers send_in_ack (bytes b.picoboot.status) b.device r.in_idle
                    r.toggle)
                λ e. tt)
            λ e.
              if-by HandledBy (s.b_request == picoboot_if_reset) _ _
                (λ e. start_control_in-Answers no_completion [] b.device r.in_idle r.toggle)
                λ e. tt)
        λ e. tt

  handler-Handled :
      (i : ℕ) (s : SetupPacket) (b : BootDevice)
      → IsReadyPipe b.device
      → HandledBy (setup_request_handler picoboot_if_cmd_status picoboot_if_reset bytes i s b)
  unfolding setup_request_handler device_of
  handler-Handled zero s b r = msc-Handled s b r
  handler-Handled (suc zero) s b r = picoboot-Handled s b r
  handler-Handled (suc (suc i)) s b r = tt

  -- Every setup packet to the boot device, whichever of its two interfaces it is for, is answered: the
  -- control IN endpoint, not halted, has one packet to send, as DATA1 and of the length of the answer,
  -- or both control endpoints are stalled, with no packet. Both control endpoints have one buffer, and
  -- the packet is not an OUT request to the control IN endpoint.
  pub boot_device-Answers :
      (gitref software_git_revision : ℕ) (cb : Callbacks) (b : BootDevice) (s : SetupPacket)
      → b.device.control_in.is_in ≡ true
      → b.device.control_out.is_in ≡ false
      → b.device.control_in.double_buffered ≡ false
      → b.device.control_out.double_buffered ≡ false
      → (recipient_bits s == 2 && s.w_index == 0x80 && not (test_bit s.bm_request_type 7)) ≡ false
      → Answers (
          handle_setup_packet
            (boot_callbacks picoboot_if_cmd_status picoboot_if_reset bytes gitref
              software_git_revision cb b)
            s
            b.device)
  unfolding boot_callbacks
  boot_device-Answers gitref software_git_revision cb b s i o d e n =
      let boot =
        boot_callbacks picoboot_if_cmd_status picoboot_if_reset bytes gitref software_git_revision
          cb b in
      let ready = accept_setup boot b.device in
      handle_setup_packet-Answers boot s b.device i o d e
        (λ k.
          handler-Handled k s (record b { device = ready })
            (accept_setup-IsReadyPipe boot b.device i o d e))
        n
