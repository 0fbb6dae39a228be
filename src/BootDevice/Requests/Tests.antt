-- ===== src/BootDevice/Requests/Tests.antt =====
-- A command status that the host asks for, on the boot device as it is set up.
use pico_bootrom_rp.Common.{ℕ, ◌≡◌, refl, false, List, [], ◌∷◌, none, some, replicate, test_bit}
use pico_bootrom_rp.Task.{reset_task}
use pico_bootrom_rp.Usb.Reset.{endpoint_init_internal, endpoint_hw_init}
use pico_bootrom_rp.Usb.Interfaces.{device_init}
use pico_bootrom_rp.Usb.Setup.{SetupPacket, current_packet_only}
use pico_bootrom_rp.Usb.Requests.{Callbacks, handle_setup_packet}
use pico_bootrom_rp.Usb.Pipe.{Answers}
use pico_bootrom_rp.Msc.{dir_none}
use pico_bootrom_rp.Picoboot.{CmdStatus}
use pico_bootrom_rp.BootDevice.{boot_device_config, boot_device_descriptor}
use pico_bootrom_rp.BootDevice.Requests.{
  BootDevice, setup_request_handler, answer_status, boot_callbacks, msc_setup_request_handler,
  picoboot_setup_request_handler,
}
use pico_bootrom_rp.BootDevice.Requests.Served.{
  get_command_status, packet, on_ready, IsServed, boot_device-IsServed,
}
use pico_bootrom_rp.BootDevice.Requests.Answered.{boot_device-Answers}

abbrev boot : BootDevice
boot = record {
  device = device_init boot_device_descriptor boot_device_config 2 [];
  msc = record {
    csw = record { tag = 0; residue = 0; status = 0 };
    request_sense = record { key = 0; asc = 0; ascq = 0 };
    async_token = 0;
    lba = 0;
    data_phase_length = 0;
    stall_direction_before_csw = dir_none;
    send_csw_on_unstall = false;
    ejected = false;
    actions = [];
  };
  picoboot = record {
    status = record { d_token = 7; d_status_code = 0; b_cmd_id = 3; b_in_progress = false };
    real_token = 0;
    task = reset_task;
    stream = record {
      offset = 0;
      transfer_length = 0;
      chunk_size = 256;
      chunk_buffer = replicate 256 0;
    };
    stream_in = false;
    queue = record { task = reset_task; full = false; disable = false };
    usb = [];
    reboots = [];
  };
  virtual_disk_queue = record { task = reset_task; full = false; disable = false };
}

-- The sixteen bytes of a status.
abbrev status_bytes : CmdStatus → List ℕ
status_bytes c =
    c.d_token ∷ 0 ∷ 0 ∷ 0 ∷ c.d_status_code ∷ 0 ∷ 0 ∷ 0 ∷ c.b_cmd_id ∷ 0 ∷ replicate 6 0

abbrev callbacks : Callbacks
callbacks = record {
  on_packet = λ i. current_packet_only;
  on_stall_change = λ i ep. ep;
  setup_request_handler = λ i s dev. none;
  get_descriptor_string = λ i. [];
}

abbrev get_status : SetupPacket
get_status = record {
  bm_request_type = 0xc1;
  b_request = 0x42;
  w_value = 0;
  w_index = 1;
  w_length = 16;
}

status_taken :
    picoboot_setup_request_handler 0x42 0x41 status_bytes get_status boot
    ≡ some (answer_status 0x42 0x41 status_bytes boot)
unfolding picoboot_setup_request_handler test_bit
status_taken = refl

msc_declines : msc_setup_request_handler get_status boot ≡ none
unfolding msc_setup_request_handler
msc_declines = refl

boot_device-Answers_example : Answers (
    handle_setup_packet
      (boot_callbacks 0x42 0x41 status_bytes 0 0 callbacks boot)
      get_status
      boot.device)
unfolding device_init endpoint_hw_init endpoint_init_internal
boot_device-Answers_example =
    boot_device-Answers 0x42 0x41 status_bytes 0 0 callbacks boot get_status refl refl refl refl
      refl

-- Once the host has set the configuration.
abbrev configured : BootDevice
configured = record boot { device = record boot.device { current_config_num = 1 } }

boot_device-IsServed_example :
    let cb = boot_callbacks 0x42 0x41 status_bytes 0 0 callbacks configured in
    (after : BootDevice) × (setup_request_handler 0x42 0x41 status_bytes 1
        (packet 0x42 0x41 status_bytes configured.picoboot get_command_status)
        (on_ready 0x42 0x41 status_bytes cb configured)
      ≡ some after)
    × (handle_setup_packet cb
          (packet 0x42 0x41 status_bytes configured.picoboot get_command_status)
          configured.device
        ≡ after.device)
    × IsServed 0x42 0x41 status_bytes configured get_command_status after
unfolding device_init endpoint_hw_init endpoint_init_internal
boot_device-IsServed_example =
    boot_device-IsServed 0x42 0x41 status_bytes 0 0 callbacks configured get_command_status refl
      refl refl refl refl refl
