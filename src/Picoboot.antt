-- ===== src/Picoboot.antt =====
-- The PICOBOOT interface of bootrom/usb_boot_device.c: a command packet becomes a task, or a stream of
-- tasks of one page each, and a status. What it asks of the USB device is a log of actions.
pub mod Bounded
pub mod Status
mod Tests
use pico_bootrom_rp.Common.{
  ℕ, ◌+◌, ◌-◌, ◌%◌, ◌^◌, Bool, true, false, ◌&&◌, Option, none, some, List, [], ◌∷◌, ◌==◌,
  if◌then◌else◌, get_elem?, test_bit, u8, u32,
}
use pico_bootrom_rp.Sdk.{Sdk}
use pico_bootrom_rp.Task.{
  AsyncTask, TaskQueue, reset_task, queue_task, reset_queue, page_buffer, atc_ack,
  atc_chunk_task_done, at_write, flash_page_size, task_source_picoboot,
}
use pico_bootrom_rp.Disk.{Reboot}
use pico_bootrom_rp.Stream.{Stream, setup_transfer}

-- `struct picoboot_cmd_status` of boot/picoboot.h
pub record CmdStatus : Type 0 where
  pub d_token : ℕ
  pub d_status_code : ℕ
  pub b_cmd_id : ℕ
  pub b_in_progress : Bool

abbrev zero_status : CmdStatus
zero_status = record { d_token = 0; d_status_code = 0; b_cmd_id = 0; b_in_progress = false }

-- `struct picoboot_cmd` of boot/picoboot.h: its union of arguments as the words that they share, so
-- that `dAddr` and `dPC` are the first, `bExclusive` is that one's low byte, `dSize` and `dSP` are
-- the second, and `dDelayMS` is the third.
pub record PicobootCmd : Type 0 where
  pub d_magic : ℕ
  pub d_token : ℕ
  pub b_cmd_id : ℕ
  pub b_cmd_size : ℕ
  pub d_transfer_length : ℕ
  pub arg0 : ℕ
  pub arg1 : ℕ
  pub arg2 : ℕ

-- The calls into usb_device.c and program_flash_generic.c, and the completion of a stream's chunk.
pub data UsbAction : Type 0 where
  soft_reset_in soft_reset_out halt_in halt_out empty_in empty_out : UsbAction
  start_in chain_out chunk_done flash_abort : UsbAction

-- The static variables. The stream's buffer is `_buffer`.
pub record Picoboot : Type 0 where
  pub status : CmdStatus
  pub real_token : ℕ
  pub task : AsyncTask
  pub stream : Stream
  pub stream_in : Bool  -- whether the stream's endpoint is the one to the host
  pub queue : TaskQueue
  pub usb : List UsbAction  -- newest first
  pub reboots : List Reboot

abbrev act : UsbAction → Picoboot → Picoboot
act a b = record b { usb = a ∷ b.usb }

abbrev in_progress : Bool → Picoboot → Picoboot
in_progress running b = record b { status = record b.status { b_in_progress = running } }

-- `_set_cmd_status`
unfoldable pub set_cmd_status : ℕ → Picoboot → Picoboot
set_cmd_status code b = record b { status = record b.status { d_status_code = code } }

-- `_picoboot_ack`: an empty packet against the direction of the command's data.
unfoldable pub picoboot_ack : Picoboot → Picoboot
picoboot_ack b =
    act (if test_bit b.status.b_cmd_id 7 then empty_out else empty_in) (in_progress false b)

-- `_picoboot_reset`, with the virtual disk's queue, which it resets too.
unfoldable pub picoboot_reset : Picoboot → TaskQueue → Picoboot × TaskQueue
picoboot_reset b virtual_disk_queue =
    let softly = act soft_reset_in (act soft_reset_out b) in
    let quiet = if b.status.b_in_progress then act flash_abort softly else softly in
    (
      record quiet { status = zero_status; queue = reset_queue b.queue },
      reset_queue virtual_disk_queue,
    )

-- An entry of `cmd_mapping`: the size of the arguments, the length of the data (0x80 for the size in
-- the arguments), and the type of the task.
pub record CmdEntry : Type 0 where
  pub size : ℕ
  pub length : ℕ
  pub type : ℕ

module _ (sdk : Sdk) where
  unfoldable pub cmd_mapping : List CmdEntry
  cmd_mapping =
      record { size = 0; length = 0; type = 0 }
      ∷ record { size = sdk.sizeof_exclusive_cmd; length = 0; type = 0x10 }
      ∷ record { size = sdk.sizeof_reboot_cmd; length = 0; type = 0 }
      ∷ record { size = sdk.sizeof_range_cmd; length = 0; type = 0x02 }
      ∷ record { size = sdk.sizeof_range_cmd; length = 0x80; type = 0x04 }
      ∷ record { size = sdk.sizeof_range_cmd; length = 0x80; type = 0x08 }
      ∷ record { size = 0; length = 0; type = 0x01 }
      ∷ record { size = 0; length = 0; type = 0x20 }
      ∷ record { size = sdk.sizeof_address_only_cmd; length = 0; type = 0x40 }
      ∷ record { size = sdk.sizeof_address_only_cmd; length = 0; type = 0x80 }
      ∷ []

  -- The command that the packet has, if it has one.
  unfoldable pub find_entry : PicobootCmd → Option CmdEntry
  find_entry cmd =
      if cmd.b_cmd_id % 128 == 0 then none else get_elem? cmd_mapping (cmd.b_cmd_id % 128)

  -- The type of the task, or 0 where the length of the data is not the one that the command has.
  unfoldable pub entry_type : PicobootCmd → CmdEntry → ℕ
  entry_type cmd entry =
      let l = if test_bit entry.length 7 then cmd.arg1 else entry.length in
      if l == cmd.d_transfer_length then entry.type else 0

  unfoldable pub halt_endpoints : Picoboot → Picoboot
  halt_endpoints b = act halt_out (act halt_in b)

  unfoldable pub init_command : PicobootCmd → Picoboot → Picoboot
  init_command cmd b =
      let token = u32 (b.real_token + (2 ^ 32 - 1)) in
      record b {
        real_token = token;
        task = record reset_task {
          token = token;
          picoboot_user_token = cmd.d_token;
          transfer_addr = cmd.arg0;
          erase_addr = cmd.arg0;
          erase_size = cmd.arg1;
          exclusive_param = u8 cmd.arg0;
        };
        status = record {
          d_token = cmd.d_token;
          d_status_code = sdk.picoboot_unknown_cmd;
          b_cmd_id = cmd.b_cmd_id;
          b_in_progress = false;
        };
      }

  -- The stream for the data of a command.
  unfoldable pub start_stream : PicobootCmd → ℕ → Picoboot → Picoboot
  start_stream cmd type b =
      let set = record b {
        task = record b.task { buffer = page_buffer };
        stream = (setup_transfer b.stream.chunk_buffer flash_page_size cmd.d_transfer_length).0;
      } in
      if test_bit type at_write
      then act chain_out (record set { stream_in = false })
      else act start_in (record set { stream_in = true })

  unfoldable pub queue_command : Picoboot → Picoboot
  queue_command b =
      let (queue, task) = queue_task b.queue b.task atc_ack in
      record b { queue = queue; task = task }

  unfoldable pub start_command : PicobootCmd → ℕ → Picoboot → Picoboot
  start_command cmd type b =
      let typed =
        in_progress true
          (record b { task = record b.task { type = type; source = task_source_picoboot } }) in
      if cmd.d_transfer_length == 0 then queue_command typed else start_stream cmd type typed

  unfoldable pub reboot_command : PicobootCmd → Picoboot → Picoboot
  reboot_command cmd b = picoboot_ack (record b {
    reboots = record { addr = cmd.arg0; sp = cmd.arg1; delay_ms = cmd.arg2 } ∷ b.reboots;
  })

  unfoldable pub run_entry : PicobootCmd → CmdEntry → Picoboot → Picoboot
  run_entry cmd entry b =
      if cmd.b_cmd_size == entry.size
      then (let ok = set_cmd_status sdk.picoboot_ok b in
          if cmd.b_cmd_id == sdk.pc_reboot
          then reboot_command cmd ok
          else if entry_type cmd entry == 0
          then halt_endpoints (set_cmd_status sdk.picoboot_invalid_transfer_length ok)
          else start_command cmd (entry_type cmd entry) ok)
      else halt_endpoints (set_cmd_status sdk.picoboot_invalid_cmd_length b)

  unfoldable pub run_found : PicobootCmd → Option CmdEntry → Picoboot → Picoboot
  run_found cmd none b = halt_endpoints b
  run_found cmd (some entry) b = run_entry cmd entry b

  -- `_picoboot_cmd_packet_internal`, for a packet of `len` bytes.
  unfoldable pub cmd_packet : ℕ → PicobootCmd → Picoboot → Picoboot
  cmd_packet len cmd b =
      if len == sdk.sizeof_picoboot_cmd && cmd.d_magic == sdk.picoboot_magic
      then run_found cmd (find_entry cmd) (init_command cmd b)
      else halt_endpoints b

-- `_picoboot_on_stream_chunk`
unfoldable pub on_stream_chunk : ℕ → Picoboot → Picoboot
on_stream_chunk chunk_len b =
    let (queue, task) =
      queue_task b.queue (record b.task { data_length = chunk_len }) atc_chunk_task_done in
    record b { queue = queue; task = record task { check_last_mutation_source = true } }

-- `_atc_ack`
unfoldable pub on_ack : AsyncTask → Picoboot → Picoboot
on_ack task b = if task.picoboot_user_token == b.task.picoboot_user_token then picoboot_ack b else b

-- The halt of the stream's endpoint where a chunk's task has failed.
unfoldable pub fail_stream : Picoboot → Picoboot
fail_stream b = in_progress false (act (if b.stream_in then halt_in else halt_out) b)

-- `_atc_chunk_task_done`
unfoldable pub on_chunk_task_done : AsyncTask → Picoboot → Picoboot
on_chunk_task_done task b =
    if task.picoboot_user_token == b.task.picoboot_user_token
    then (let saved = set_cmd_status task.result b in
        let checked = if task.result == 0 then saved else fail_stream saved in
        act chunk_done (record checked {
          task = record checked.task {
            transfer_addr = u32 (checked.task.transfer_addr + task.data_length);
          };
        }))
    else b
