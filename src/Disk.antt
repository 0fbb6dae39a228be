-- ===== src/Disk.antt =====
-- The write side of bootrom/virtual_disk.c: UF2 blocks that arrive as sectors are tracked in a bit
-- set and queued as tasks, and the chip is rebooted when all of a transfer's blocks are written.
pub mod Page
pub mod Tracking
pub mod Cleared
pub mod Transfer
pub mod Write
pub mod Start
pub mod Sectors
mod Tests
use pico_bootrom_rp.Common.{
  ℕ, ◌+◌, ◌-◌, ◌*◌, ◌/◌, ◌%◌, ◌^◌, Bool, true, false, not, ◌&&◌, ◌||◌, List, [], ◌∷◌, ltb, leb,
  ◌==◌, if◌then◌else◌, u32, test_bit, set_bit, same, Option, none, some,
}
use pico_bootrom_rp.Common.Bits.{bits_test, bits_set}
use pico_bootrom_rp.Sdk.{Sdk}
use pico_bootrom_rp.Address.{is_address_ram, is_address_flash}
use pico_bootrom_rp.Task.{
  AsyncTask, TaskQueue, write_uf2_page_complete, sector_buffer, at_exit_xip, at_flash_erase,
  at_write, flash_page_size, flash_sector_erase_size, task_source_virtual_disk, reset_task,
  queue_task,
}

-- `struct uf2_block` of boot/uf2.h
pub record Uf2Block : Type 0 where
  pub magic_start0 : ℕ
  pub magic_start1 : ℕ
  pub flags : ℕ
  pub target_addr : ℕ
  pub payload_size : ℕ
  pub block_no : ℕ
  pub num_blocks : ℕ
  pub file_size : ℕ
  pub bytes : List ℕ
  pub magic_end : ℕ

-- What `valid_blocks` points to: nothing, `uf2_valid_ram_blocks`, or FLASH_VALID_BLOCKS_BASE.
pub data Bitmap : Type 0 where
  null_bitmap ram_blocks flash_blocks : Bitmap

-- `struct uf2_info`. `cleared_pages` is null or FLASH_CLEARED_PAGES_BASE.
pub record Uf2Info : Type 0 where
  pub valid_blocks : Bitmap
  pub max_valid_blocks : ℕ
  pub cleared_pages : Bool
  pub max_cleared_pages : ℕ
  pub num_blocks : ℕ
  pub token : ℕ
  pub valid_block_count : ℕ
  pub lowest_addr : ℕ
  pub block_no : ℕ
  pub next_task : AsyncTask
  pub ram : Bool

-- `memset0(&_uf2_info, sizeof(_uf2_info))`
abbrev pub zero_info : Uf2Info
zero_info = record {
  valid_blocks = null_bitmap;
  max_valid_blocks = 0;
  cleared_pages = false;
  max_cleared_pages = 0;
  num_blocks = 0;
  token = 0;
  valid_block_count = 0;
  lowest_addr = 0;
  block_no = 0;
  next_task = reset_task;
  ram = false;
}

-- The arguments of `safe_reboot`.
pub record Reboot : Type 0 where
  pub addr : ℕ
  pub sp : ℕ
  pub delay_ms : ℕ

-- The static variables of the file, the two bitmaps in the XIP cache RAM, and the queue.
pub record Disk : Type 0 where
  pub info : Uf2Info
  pub ram_words : List ℕ
  pub flash_words : List ℕ
  pub page_words : List ℕ
  pub queue : TaskQueue
  pub reboots : List Reboot  -- the calls of `safe_reboot`, the newest first

abbrev pub max_ram_uf2_blocks : ℕ
max_ram_uf2_blocks = 1280

abbrev pub flash_max_valid_blocks : Sdk → ℕ
flash_max_valid_blocks sdk =
    (sdk.xip_sram_end - sdk.xip_sram_base)
    * 8
    * flash_sector_erase_size
    / (flash_page_size + flash_sector_erase_size)
    / 32
    * 32

abbrev pub flash_max_cleared_pages : Sdk → ℕ
flash_max_cleared_pages sdk = flash_max_valid_blocks sdk * flash_page_size / flash_sector_erase_size

abbrev pub words_of : Disk → Bitmap → List ℕ
words_of d null_bitmap = []
words_of d ram_blocks = d.ram_words
words_of d flash_blocks = d.flash_words

abbrev pub set_words : Disk → Bitmap → List ℕ → Disk
set_words d null_bitmap ws = d
set_words d ram_blocks ws = record d { ram_words = ws }
set_words d flash_blocks ws = record d { flash_words = ws }

-- The words after the first `n` bytes of the array are zeroed.
unfoldable pub clear_bytes : ℕ → List ℕ → List ℕ
clear_bytes n [] = []
clear_bytes n (w ∷ ws) =
    (if leb 4 n then 0 else w / 2 ^ (8 * n) * 2 ^ (8 * n)) ∷ clear_bytes (n - 4) ws

-- `_clear_bitset`
unfoldable pub clear_bitset : List ℕ → ℕ → List ℕ
clear_bitset ws count = clear_bytes (count / 8) ws

abbrev pub set_num_blocks : Disk → ℕ → Disk
set_num_blocks d n = record d { info = record d.info { num_blocks = n } }

unfoldable pub vd_reset : Disk → Disk
vd_reset d = set_num_blocks d 0

-- `AT_WRITE`, and with it `AT_EXIT_XIP`.
abbrev pub write_type : ℕ
write_type = 0x08

abbrev pub exit_xip_write_type : ℕ
exit_xip_write_type = 0x09

module _ (sdk : Sdk) where
  -- Whether the whole page at the address is RAM, or flash. The XIP cache RAM counts as both.
  unfoldable pub page_in_ram : ℕ → Bool
  page_in_ram addr = is_address_ram sdk addr && is_address_ram sdk (u32 (addr + 255))

  unfoldable pub page_in_flash : ℕ → Bool
  page_in_flash addr = is_address_flash sdk addr && is_address_flash sdk (u32 (addr + 255))

  -- The block that `_update_current_uf2_info` calls garbage.
  unfoldable pub is_garbage : Uf2Block → Bool
  is_garbage uf2 =
      not (
        not (uf2.num_blocks == 0) && (page_in_ram uf2.target_addr || page_in_flash uf2.target_addr))
      || (page_in_flash uf2.target_addr && not (uf2.target_addr % flash_page_size == 0))

  abbrev pub bitmap_for : Bool → Bitmap
  bitmap_for true = ram_blocks
  bitmap_for false = flash_blocks

  abbrev pub max_blocks_for : Bool → ℕ
  max_blocks_for true = max_ram_uf2_blocks
  max_blocks_for false = flash_max_valid_blocks sdk

  -- `_clear_bitset(_uf2_info.valid_blocks, _uf2_info.max_valid_blocks)`
  unfoldable pub clear_valid_blocks : Disk → Bool → Disk
  clear_valid_blocks d ram =
      set_words d (bitmap_for ram) (clear_bitset (words_of d (bitmap_for ram)) (max_blocks_for ram))

  -- The reset of `_uf2_info` for a transfer of another size, up to the test for one that is too big.
  unfoldable pub begin_transfer : Disk → Uf2Block → Disk
  begin_transfer d uf2 =
      let ram = page_in_ram uf2.target_addr in
      let cleared = clear_valid_blocks d ram in
      let base = record zero_info {
        valid_blocks = bitmap_for ram;
        max_valid_blocks = max_blocks_for ram;
        ram = ram;
      } in
      if page_in_flash uf2.target_addr
      then record cleared {
        info = record base {
          cleared_pages = true;
          max_cleared_pages = flash_max_cleared_pages sdk;
        };
        page_words = clear_bitset cleared.page_words (flash_max_cleared_pages sdk);
      }
      else record cleared { info = base }

  unfoldable pub start_transfer : Disk → ℕ → Disk
  start_transfer d n = record d {
    info = record d.info { num_blocks = n; valid_block_count = 0; lowest_addr = 0xffff_ffff };
  }

  -- The task for the block, with the type bits gathered so far.
  unfoldable pub prepare_task : Disk → Uf2Block → ℕ → ℕ → Disk
  prepare_task d uf2 token type = record d {
    info = record d.info {
      block_no = uf2.block_no;
      token = token;
      next_task = record reset_task {
        token = token;
        transfer_addr = uf2.target_addr;
        type = type;
        buffer = sector_buffer;
        callback = write_uf2_page_complete;
        data_length = flash_page_size;
        source = task_source_virtual_disk;
      };
    };
  }

  -- The tests after the reset, for the transfer that is now current.
  unfoldable pub accept_block : Disk → Uf2Block → ℕ → ℕ → Disk × Bool
  accept_block d uf2 token type =
      if same (page_in_ram uf2.target_addr) d.info.ram
      then if ltb uf2.block_no uf2.num_blocks
        then (prepare_task d uf2 token type, true)
        else (set_num_blocks d 0, false)
      else (set_num_blocks d 0, false)

  -- `_update_current_uf2_info`
  unfoldable pub update_current_uf2_info : Disk → Uf2Block → ℕ → Disk × Bool
  update_current_uf2_info d uf2 token =
      if is_garbage uf2
      then (set_num_blocks d 0, false)
      else if d.queue.disable
      then (set_num_blocks d 0, false)
      else if d.info.num_blocks == uf2.num_blocks
      then accept_block d uf2 token write_type
      else let fresh = begin_transfer d uf2 in
        if ltb fresh.info.max_valid_blocks uf2.num_blocks
        then (fresh, false)
        else accept_block (start_transfer fresh uf2.num_blocks) uf2 token
            (if page_in_flash uf2.target_addr then exit_xip_write_type else write_type)

  -- The address to start at: the lowest one, but RAM before the XIP cache.
  unfoldable pub update_lowest : ℕ → ℕ → ℕ
  update_lowest lowest addr =
      let xip_cache_next = ltb addr sdk.sram_base in
      let xip_cache_lowest = ltb lowest sdk.sram_base in
      if (ltb addr lowest && same xip_cache_next xip_cache_lowest)
        || (xip_cache_lowest && not xip_cache_next)
      then addr
      else lowest
