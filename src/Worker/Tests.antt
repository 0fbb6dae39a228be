-- ===== src/Worker/Tests.antt =====
-- Rounds of the worker on the RP2040's address map.
use pico_bootrom_rp.Common.{refl, Bool, true, false, [], none, replicate}
use pico_bootrom_rp.Sdk.{rp2040}
use pico_bootrom_rp.Task.{AsyncTask, TaskQueue, reset_task, write_uf2_page_complete, sector_buffer}
use pico_bootrom_rp.Machine.{Env, FlashFuncs}
use pico_bootrom_rp.Disk.{zero_info}
use pico_bootrom_rp.Worker.{Boot, worker_round}
use pico_bootrom_rp.Worker.Exclusive.{IsUntouched, worker_round-IsUntouched}

abbrev queue_of : AsyncTask → Bool → Bool → TaskQueue
queue_of task full disable = record { task = task; full = full; disable = disable }

abbrev idle_funcs : FlashFuncs
idle_funcs = record {
  do_flash_enter_cmd_xip = λ m. (m, 0);
  do_flash_exit_xip = λ m. (m, 0);
  do_flash_erase_sector = λ a m. (m, 0);
  do_flash_erase_range = λ a n m. (m, 0);
  do_flash_page_program = λ a b m. (m, 0);
  do_flash_page_read = λ a b m. (m, 0);
}

abbrev rom_only : Env
rom_only = record {
  user_exec = λ a m. m;
  user_funcs = λ m a. idle_funcs;
  chip_read = λ log a. replicate 256 255;
  table_image = [];
}

abbrev booted : TaskQueue → TaskQueue → Boot
booted disk_queue picoboot_queue = record {
  machine = record {
    mem = λ a. 0;
    sector = replicate 476 3;
    page = replicate 256 0;
    flash_log = [];
    flash_funcs = none;
    last_mutation_source = 0;
    virtual_disk_queue = disk_queue;
    ejected = false;
    rebooting = false;
  };
  disk = record {
    info = zero_info;
    ram_words = replicate 40 0;
    flash_words = replicate 3855 0;
    page_words = replicate 241 0;
    queue = disk_queue;
    reboots = [];
  };
  picoboot = record {
    status = record { d_token = 0; d_status_code = 0; b_cmd_id = 1; b_in_progress = true };
    real_token = 0;
    task = reset_task;
    stream = record {
      offset = 0;
      transfer_length = 0;
      chunk_size = 256;
      chunk_buffer = replicate 256 0;
    };
    stream_in = false;
    queue = picoboot_queue;
    usb = [];
    reboots = [];
  };
  async_completions = [];
}

-- A page write of the virtual disk, which the host has shut out.
abbrev shut_out : Boot
shut_out =
    booted
      (queue_of
        (record reset_task {
          transfer_addr = 0x1000_0000;
          type = 8;
          buffer = sector_buffer;
          data_length = 256;
          callback = write_uf2_page_complete;
        })
        true true)
      (queue_of reset_task false false)

worker_round-IsUntouched_example : IsUntouched shut_out (worker_round rp2040 rom_only shut_out)
worker_round-IsUntouched_example = worker_round-IsUntouched rp2040 rom_only shut_out refl refl
