-- ===== src/Task.antt =====
-- The task and the one-place queue of bootrom/async_task.h, and the functions of
-- bootrom/async_task.c that move a task through a queue.
use pico_bootrom_rp.Common.{ℕ, ◌≤◌, ◌<◌, ◌^◌, Bool, true, false, Option, none, some, if◌then◌else◌}

-- The functions that are stored as a callback.
pub data Callback : Type 0 where
  null_callback write_uf2_page_complete atc_ack atc_chunk_task_done : Callback

-- What `data` points to: nothing, the sector buffer of the mass storage interface (the data of its
-- UF2 block), or the page buffer of the PICOBOOT interface.
pub data Buffer : Type 0 where
  null_buffer sector_buffer page_buffer : Buffer

-- `struct async_task`
pub record AsyncTask : Type 0 where
  pub token : ℕ
  pub result : ℕ
  pub callback : Callback
  pub transfer_addr : ℕ
  pub erase_addr : ℕ
  pub erase_size : ℕ
  pub buffer : Buffer
  pub data_length : ℕ
  pub picoboot_user_token : ℕ
  pub type : ℕ
  pub exclusive_param : ℕ
  pub source : ℕ
  pub check_last_mutation_source : Bool

-- What the code that queues tasks ensures: 32-bit erase fields and at most a page of data.
pub record IsBounded (task : AsyncTask) : Type 0 where
  pub page : task.data_length ≤ 256
  pub addr32 : task.erase_addr < 2 ^ 32
  pub size32 : task.erase_size < 2 ^ 32

-- The bits of `type`, by their positions.
abbrev pub at_exit_xip : ℕ
at_exit_xip = 0

abbrev pub at_flash_erase : ℕ
at_flash_erase = 1

abbrev pub at_read : ℕ
at_read = 2

abbrev pub at_write : ℕ
at_write = 3

abbrev pub at_exclusive : ℕ
at_exclusive = 4

abbrev pub at_enter_cmd_xip : ℕ
at_enter_cmd_xip = 5

abbrev pub at_exec : ℕ
at_exec = 6

abbrev pub at_vectorize_flash : ℕ
at_vectorize_flash = 7

abbrev pub flash_page_size : ℕ
flash_page_size = 256

abbrev pub flash_sector_erase_size : ℕ
flash_sector_erase_size = 4096

-- `enum task_source`
abbrev pub task_source_virtual_disk : ℕ
task_source_virtual_disk = 1

abbrev pub task_source_picoboot : ℕ
task_source_picoboot = 2

-- `reset_task`: every field is zeroed.
abbrev pub reset_task : AsyncTask
reset_task = record {
  token = 0;
  result = 0;
  callback = null_callback;
  transfer_addr = 0;
  erase_addr = 0;
  erase_size = 0;
  buffer = null_buffer;
  data_length = 0;
  picoboot_user_token = 0;
  type = 0;
  exclusive_param = 0;
  source = 0;
  check_last_mutation_source = false;
}

-- `struct async_task_queue`
pub record TaskQueue : Type 0 where
  pub task : AsyncTask
  pub full : Bool
  pub disable : Bool

-- The task is copied into the queue, over one that is still there. The caller's task gets the
-- callback too.
unfoldable pub queue_task : TaskQueue → AsyncTask → Callback → TaskQueue × AsyncTask
queue_task queue task callback =
    let queued = record task { callback = callback } in
    (record queue { task = queued; full = true }, queued)

-- `none` where the C function returns false and leaves `*task_out` alone.
unfoldable pub dequeue_task : TaskQueue → TaskQueue × Option AsyncTask
dequeue_task queue =
    if queue.full then (record queue { full = false }, some queue.task) else (queue, none)

unfoldable pub async_disable_queue : TaskQueue → Bool → TaskQueue
async_disable_queue queue disable = record queue { disable = disable }

unfoldable pub reset_queue : TaskQueue → TaskQueue
unfolding async_disable_queue
reset_queue queue = async_disable_queue (record queue { full = false }) false
