-- ===== src/BootDevice/Requests/Served.antt =====
-- Each of the four requests to the interfaces of the boot device is served by the handler of its interface.
use pico_bootrom_rp.Common.{
  ℕ, suc, ◌≡◌, refl, true, false, List, [], ◌∷◌, Option, some, ◌==◌, length, test_bit, ap, ◌∙◌,
  arith,
}
use pico_bootrom_rp.Usb.Setup.{
  SetupPacket, no_completion, send_in_ack, find_interface, start_control_in,
  start_single_buffer_control_in_transfer, start_empty_control_in_transfer,
}
use pico_bootrom_rp.Usb.Requests.{
  Callbacks, accept_setup, handle_setup_packet, setup_interface, default_unless,
}
use pico_bootrom_rp.Usb.Pipe.{
  IsReadyPipe, IsSending, start_control_in-IsSending, accept_setup-IsReadyPipe,
}
use pico_bootrom_rp.Task.{TaskQueue}
use pico_bootrom_rp.Msc.{Msc}
use pico_bootrom_rp.Msc.Command.{msc_reset}
use pico_bootrom_rp.Picoboot.{CmdStatus, Picoboot, picoboot_reset}
use pico_bootrom_rp.BootDevice.Requests.{
  BootDevice, clear_msc_halts, answer_max_lun, reset_msc, msc_setup_request_handler, answer_status,
  reset_picoboot, picoboot_setup_request_handler, setup_request_handler, device_of, boot_callbacks,
}

-- The requests: GET_MAX_LUN for some bytes, the mass storage reset, the PICOBOOT status and reset.
pub data Request : Type 0 where
  get_max_lun : ℕ → Request
  mass_storage_reset get_command_status interface_reset : Request

module _ (picoboot_if_cmd_status picoboot_if_reset : ℕ) (bytes : CmdStatus → List ℕ) where
  -- The set-up packet of a request, by the mass storage class and boot/picoboot.h.
  abbrev pub packet : Picoboot → Request → SetupPacket
  packet p (get_max_lun n) = record {
    bm_request_type = 0xa1;
    b_request = 0xfe;
    w_value = 0;
    w_index = 0;
    w_length = suc n;
  }
  packet p mass_storage_reset = record {
    bm_request_type = 0x21;
    b_request = 0xff;
    w_value = 0;
    w_index = 0;
    w_length = 0;
  }
  packet p get_command_status = record {
    bm_request_type = 0xc1;
    b_request = picoboot_if_cmd_status;
    w_value = 0;
    w_index = 1;
    w_length = length (bytes p.status);
  }
  packet p interface_reset = record {
    bm_request_type = 0x41;
    b_request = picoboot_if_reset;
    w_value = 0;
    w_index = 1;
    w_length = 0;
  }

  -- The bytes that the host then reads.
  abbrev pub reply : Picoboot → Request → List ℕ
  reply p (get_max_lun n) = 0 ∷ []
  reply p get_command_status = bytes p.status
  reply p _ = []

  -- The interface, and what becomes of the state of the two.
  abbrev pub interface_of : Request → ℕ
  interface_of (get_max_lun n) = 0
  interface_of mass_storage_reset = 0
  interface_of _ = 1

  abbrev pub msc_after : Msc → Request → Msc
  msc_after s mass_storage_reset = msc_reset s
  msc_after s _ = s

  abbrev pub picoboot_after : Picoboot → TaskQueue → Request → Picoboot
  picoboot_after p queue interface_reset = (picoboot_reset p queue).0
  picoboot_after p queue _ = p

  -- What a handler has made of a request.
  pub record IsServed (b : BootDevice) (r : Request) (after : BootDevice) : Type 0 where
    pub answer : after.device.in_data ≡ reply b.picoboot r
    pub sending : IsSending after.device
    pub msc : after.msc ≡ msc_after b.msc r
    pub picoboot : after.picoboot ≡ picoboot_after b.picoboot b.virtual_disk_queue r

  -- The boot device, with the control pipe ready for an answer.
  abbrev pub on_ready : Callbacks → BootDevice → BootDevice
  on_ready cb b = record b { device = accept_setup cb b.device }

  served :
      (r : Request) (b : BootDevice)
      → IsReadyPipe b.device
      → (after : BootDevice) × (setup_request_handler picoboot_if_cmd_status picoboot_if_reset bytes
            (interface_of r)
            (packet b.picoboot r)
            b
          ≡ some after)
        × IsServed b r after
  unfolding setup_request_handler msc_setup_request_handler picoboot_setup_request_handler test_bit
      answer_max_lun reset_msc clear_msc_halts answer_status reset_picoboot
      start_single_buffer_control_in_transfer start_empty_control_in_transfer start_control_in
  served (get_max_lun n) b h = (
    answer_max_lun b,
    let some_bytes : (suc n == 0) ≡ false = ground arith in rw some_bytes refl,
    record {
      answer = refl;
      sending = start_control_in-IsSending send_in_ack (0 ∷ []) b.device h.in_idle h.toggle;
      msc = refl;
      picoboot = refl;
    },
  )
  served mass_storage_reset b h = (
    reset_msc b,
    refl,
    record {
      answer = refl;
      sending =
          start_control_in-IsSending no_completion [] (clear_msc_halts b.device) h.in_idle h.toggle;
      msc = refl;
      picoboot = refl;
    },
  )
  served get_command_status b h =
      let n = length (bytes b.picoboot.status) in
      let same_request : (picoboot_if_cmd_status == picoboot_if_cmd_status) ≡ true = ground arith in
      let same_length : (n == n) ≡ true = ground arith in
      (
        answer_status picoboot_if_cmd_status picoboot_if_reset bytes b,
        rw (same_request, same_length) refl,
        record {
          answer = refl;
          sending =
              start_control_in-IsSending send_in_ack (bytes b.picoboot.status) b.device h.in_idle
                h.toggle;
          msc = refl;
          picoboot = refl;
        },
      )
  served interface_reset b h =
      let same_request : (picoboot_if_reset == picoboot_if_reset) ≡ true = ground arith in
      (
        reset_picoboot picoboot_if_cmd_status picoboot_if_reset bytes b,
        rw same_request refl,
        record {
          answer = refl;
          sending = start_control_in-IsSending no_completion [] b.device h.in_idle h.toggle;
          msc = refl;
          picoboot = refl;
        },
      )

  -- The device hands the packet of a request to the interface it is for.
  handed_over :
      (r : Request) (cb : Callbacks) (b : BootDevice)
      → (b.device.current_config_num == 0) ≡ false
      → b.device.interface_count ≡ 2
      → handle_setup_packet cb (packet b.picoboot r) b.device
        ≡ default_unless cb
            (cb.setup_request_handler
              (interface_of r)
              (packet b.picoboot r)
              (accept_setup cb b.device))
            (packet b.picoboot r)
            (accept_setup cb b.device)
  unfolding handle_setup_packet setup_interface find_interface accept_setup
  handed_over (get_max_lun n) cb b c i = rw (c, i) refl
  handed_over mass_storage_reset cb b c i = rw (c, i) refl
  handed_over get_command_status cb b c i = rw (c, i) refl
  handed_over interface_reset cb b c i = rw (c, i) refl

  -- On a configured boot device, each of the four requests of its two interfaces (GET_MAX_LUN for any
  -- number of bytes, the mass storage reset, the PICOBOOT status and the PICOBOOT reset) is taken by the
  -- handler of its interface. The host is sent the reply to that request, by a packet on the control IN
  -- endpoint as DATA1; the mass storage reset resets that interface and the PICOBOOT reset the other one,
  -- and no other request changes either. Both control endpoints have one buffer.
  pub boot_device-IsServed :
      (gitref software_git_revision : ℕ) (cb : Callbacks) (b : BootDevice) (r : Request)
      → b.device.control_in.is_in ≡ true
      → b.device.control_out.is_in ≡ false
      → b.device.control_in.double_buffered ≡ false
      → b.device.control_out.double_buffered ≡ false
      → (b.device.current_config_num == 0) ≡ false
      → b.device.interface_count ≡ 2
      → let boot =
          boot_callbacks picoboot_if_cmd_status picoboot_if_reset bytes gitref software_git_revision
            cb b in
        (after : BootDevice) × (setup_request_handler picoboot_if_cmd_status picoboot_if_reset bytes
            (interface_of r)
            (packet b.picoboot r)
            (on_ready boot b)
          ≡ some after)
        × (handle_setup_packet boot (packet b.picoboot r) b.device ≡ after.device)
        × IsServed b r after
  unfolding boot_callbacks device_of default_unless
  boot_device-IsServed gitref software_git_revision cb b r i o d e configured both =
      let boot =
        boot_callbacks picoboot_if_cmd_status picoboot_if_reset bytes gitref software_git_revision
          cb b in
      let ready = on_ready boot b in
      let (after, taken, is_served) =
        served r ready (accept_setup-IsReadyPipe boot b.device i o d e) in
      (
        after,
        taken,
        handed_over r boot b configured both
            ∙ ap
                (λ (x : Option BootDevice).
                  default_unless boot (device_of picoboot_if_cmd_status picoboot_if_reset bytes x)
                    (packet b.picoboot r) ready.device)
                taken,
        record {
          answer = is_served.answer;
          sending = is_served.sending;
          msc = is_served.msc;
          picoboot = is_served.picoboot;
        },
      )
