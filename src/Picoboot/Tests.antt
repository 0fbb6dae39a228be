-- ===== src/Picoboot/Tests.antt =====
-- PICOBOOT commands on the RP2040's address map.
use pico_bootrom_rp.Common.{ℕ, refl, false, [], replicate, none}
use pico_bootrom_rp.Sdk.{rp2040, rp2040-IsStatus}
use pico_bootrom_rp.Task.{reset_task}
use pico_bootrom_rp.Machine.{Machine, Env, FlashFuncs}
use pico_bootrom_rp.Picoboot.{Picoboot, PicobootCmd, cmd_packet, find_entry}
use pico_bootrom_rp.Picoboot.Status.{Outcome, verdict, cmd_packet-Outcome}

abbrev idle : Picoboot
idle = record {
  status = record { d_token = 0; d_status_code = 0; b_cmd_id = 0; b_in_progress = false };
  real_token = 0;
  task = reset_task;
  stream = record {
    offset = 0;
    transfer_length = 0;
    chunk_size = 256;
    chunk_buffer = replicate 256 0;
  };
  stream_in = false;
  queue = record { task = reset_task; full = false; disable = false };
  usb = [];
  reboots = [];
}

-- PC_FLASH_ERASE of one sector.
abbrev erase_cmd : PicobootCmd
erase_cmd = record {
  d_magic = 0x431f_d10b;
  d_token = 5;
  b_cmd_id = 3;
  b_cmd_size = 8;
  d_transfer_length = 0;
  arg0 = 0x1000_1000;
  arg1 = 4096;
  arg2 = 0;
}

abbrev erasing : Picoboot
erasing = cmd_packet rp2040 32 erase_cmd idle

abbrev zeroed : ℕ → ℕ
zeroed a = 0

abbrev idle_funcs : FlashFuncs
idle_funcs = record {
  do_flash_enter_cmd_xip = λ m. (m, 0);
  do_flash_exit_xip = λ m. (m, 0);
  do_flash_erase_sector = λ a m. (m, 0);
  do_flash_erase_range = λ a n m. (m, 0);
  do_flash_page_program = λ a b m. (m, 0);
  do_flash_page_read = λ a b m. (m, 0);
}

abbrev rom_only : Env
rom_only = record {
  user_exec = λ a m. m;
  user_funcs = λ m a. idle_funcs;
  chip_read = λ log a. replicate 256 255;
  table_image = [];
}

abbrev machine : Machine
machine = record {
  mem = zeroed;
  sector = [];
  page = replicate 256 0;
  flash_log = [];
  flash_funcs = none;
  last_mutation_source = 0;
  virtual_disk_queue = record { task = reset_task; full = false; disable = false };
  ejected = false;
  rebooting = false;
}

cmd_packet-Outcome_example :
    Outcome (verdict rp2040 erase_cmd (find_entry rp2040 erase_cmd)) erase_cmd idle erasing
cmd_packet-Outcome_example = cmd_packet-Outcome rp2040 rp2040-IsStatus erase_cmd idle 32 refl refl
