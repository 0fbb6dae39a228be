-- ===== src/BootDevice/Requests.antt =====
-- The requests to the two interfaces of the boot device: msc_setup_request_handler of
-- usb_device_tiny/usb_msc.c, and _picoboot_setup_request_handler of bootrom/usb_boot_device.c.
pub mod Answered
pub mod Served
mod Tests
use pico_bootrom_rp.Common.{
  ℕ, zero, suc, Bool, true, false, ◌&&◌, not, List, [], ◌∷◌, Option, none, some, ◌==◌,
  if◌then◌else◌, test_bit, length,
}
use pico_bootrom_rp.Task.{TaskQueue}
use pico_bootrom_rp.Msc.{Msc}
use pico_bootrom_rp.Msc.Command.{msc_reset}
use pico_bootrom_rp.Picoboot.{CmdStatus, Picoboot, picoboot_reset}
use pico_bootrom_rp.Usb.Buffers.{clear_halt_condition}
use pico_bootrom_rp.Usb.Setup.{
  SetupPacket, no_completion, BulkEndpoint, Device, start_single_buffer_control_in_transfer,
  start_empty_control_in_transfer,
}
use pico_bootrom_rp.Usb.Requests.{Callbacks, type_bits, change_at}
use pico_bootrom_rp.BootDevice.{get_descriptor_string}

-- The device with the static variables of its two interfaces and the queue of the virtual disk. What
-- the two resets ask of the bulk endpoints is in the logs of `msc` and `picoboot`.
pub record BootDevice : Type 0 where
  pub device : Device
  pub msc : Msc
  pub picoboot : Picoboot
  pub virtual_disk_queue : TaskQueue

-- `usb_clear_halt_condition` of `msc_in` and of `msc_out`, the first two of `_endpoints`.
unfoldable pub clear_msc_halts : Device → Device
clear_msc_halts dev =
    let clear = λ (b : BulkEndpoint). clear_halt_condition b.endpoint in
    record dev { endpoints = change_at 1 clear (change_at 0 clear dev.endpoints) }

unfoldable pub answer_max_lun : BootDevice → BootDevice
answer_max_lun b = record b { device = start_single_buffer_control_in_transfer (0 ∷ []) b.device }

unfoldable pub reset_msc : BootDevice → BootDevice
reset_msc b = record b {
  device = start_empty_control_in_transfer no_completion (clear_msc_halts b.device);
  msc = msc_reset b.msc;
}

-- `msc_setup_request_handler`: nothing where it returns false.
unfoldable pub msc_setup_request_handler : SetupPacket → BootDevice → Option BootDevice
msc_setup_request_handler s b =
    if type_bits s == 1
    then (if test_bit s.bm_request_type 7
        then (if s.b_request == 0xfe && s.w_value == 0 && not (s.w_length == 0)
            then some (answer_max_lun b)
            else none)
        else (if s.b_request == 0xff && s.w_value == 0 && s.w_length == 0
            then some (reset_msc b)
            else none))
    else none

-- The requests of boot/picoboot.h, and the bytes of a `struct picoboot_cmd_status`.
module _ (picoboot_if_cmd_status picoboot_if_reset : ℕ) (bytes : CmdStatus → List ℕ) where
  unfoldable pub answer_status : BootDevice → BootDevice
  answer_status b = record b {
    device = start_single_buffer_control_in_transfer (bytes b.picoboot.status) b.device;
  }

  unfoldable pub reset_picoboot : BootDevice → BootDevice
  reset_picoboot b =
      let after = picoboot_reset b.picoboot b.virtual_disk_queue in
      record b {
        device = start_empty_control_in_transfer no_completion b.device;
        picoboot = after.0;
        virtual_disk_queue = after.1;
      }

  -- `_picoboot_setup_request_handler`
  unfoldable pub picoboot_setup_request_handler : SetupPacket → BootDevice → Option BootDevice
  picoboot_setup_request_handler s b =
      if type_bits s == 2
      then (if test_bit s.bm_request_type 7
          then (if s.b_request == picoboot_if_cmd_status
                && s.w_length == length (bytes b.picoboot.status)
              then some (answer_status b)
              else none)
          else (if s.b_request == picoboot_if_reset then some (reset_picoboot b) else none))
      else none

  -- `setup_request_handler` of the interface with that number.
  unfoldable pub setup_request_handler : ℕ → SetupPacket → BootDevice → Option BootDevice
  setup_request_handler zero s b = msc_setup_request_handler s b
  setup_request_handler (suc zero) s b = picoboot_setup_request_handler s b
  setup_request_handler (suc (suc i)) s b = none

  -- The device that a handler leaves.
  unfoldable pub device_of : Option BootDevice → Option Device
  device_of none = none
  device_of (some b) = some b.device

  -- The callbacks of the boot device, as far as its interfaces have set them.
  unfoldable pub boot_callbacks :
      (gitref software_git_revision : ℕ) → Callbacks → BootDevice → Callbacks
  boot_callbacks gitref software_git_revision cb b = record cb {
    setup_request_handler =
        λ i s dev. device_of (setup_request_handler i s (record b { device = dev }));
    get_descriptor_string = get_descriptor_string gitref software_git_revision;
  }
