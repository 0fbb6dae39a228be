-- ===== src/Disk/Page.antt =====
-- `_write_uf2_page` and `vd_write_block` of bootrom/virtual_disk.c, and the completion of a page.
use pico_bootrom_rp.Common.{
  ℕ, ◌+◌, ◌*◌, ◌/◌, Bool, true, false, not, ◌&&◌, ◌∷◌, ◌==◌, if◌then◌else◌, u32, test_bit, set_bit,
}
use pico_bootrom_rp.Common.Bits.{bits_test, bits_set}
use pico_bootrom_rp.Sdk.{Sdk}
use pico_bootrom_rp.Task.{
  AsyncTask, write_uf2_page_complete, at_flash_erase, flash_sector_erase_size, queue_task,
}
use pico_bootrom_rp.Disk.{
  words_of, set_words, update_current_uf2_info, update_lowest, Disk, Uf2Block,
}

-- The sector of the page is erased the first time that the page number comes up.
unfoldable pub mark_page : Disk → Disk
mark_page d =
    let page_no = u32 (d.info.block_no * 256) / flash_sector_erase_size in
    let task = d.info.next_task in
    if d.info.ram then d else if bits_test d.page_words page_no then d else record d {
      page_words = bits_set d.page_words page_no;
      info = record d.info {
        next_task = record task {
          erase_addr = task.transfer_addr / flash_sector_erase_size * flash_sector_erase_size;
          erase_size = flash_sector_erase_size;
          type = set_bit task.type at_flash_erase;
        };
      };
    }

-- `queue_task` on the virtual disk's queue, and the flag that is set behind it.
unfoldable pub queue_next : Disk → Disk
queue_next d =
    let (queue, task) = queue_task d.queue d.info.next_task write_uf2_page_complete in
    record d {
      queue = queue;
      info = record d.info { next_task = record task { check_last_mutation_source = true } };
    }

-- `valid_block_count++` and the block's bit.
unfoldable pub count_block : Disk → Disk
count_block d =
    let counted = record d {
      info = record d.info { valid_block_count = u32 (d.info.valid_block_count + 1) };
    } in
    set_words counted d.info.valid_blocks
      (bits_set (words_of d d.info.valid_blocks) d.info.block_no)

module _ (sdk : Sdk) where
  unfoldable pub lower_start : Disk → Disk
  lower_start d = record d {
    info = record d.info {
      lowest_addr = update_lowest sdk d.info.lowest_addr d.info.next_task.transfer_addr;
    };
  }

  -- `_write_uf2_page`
  unfoldable pub write_uf2_page : Disk → Disk × Bool
  write_uf2_page d =
      if bits_test (words_of d d.info.valid_blocks) d.info.block_no
      then (d, false)
      else (queue_next (count_block (mark_page (lower_start d))), true)

  -- The tests of `vd_write_block` on the sector.
  unfoldable pub is_rp2040_block : Uf2Block → Bool
  is_rp2040_block uf2 =
      uf2.magic_start0 == sdk.uf2_magic_start0
      && uf2.magic_start1 == sdk.uf2_magic_start1
      && uf2.magic_end == sdk.uf2_magic_end
      && test_bit uf2.flags sdk.uf2_flag_family_id_present_bit
      && uf2.file_size == sdk.rp2040_family_id
      && not (test_bit uf2.flags sdk.uf2_flag_not_main_flash_bit)
      && uf2.payload_size == 256

  unfoldable pub vd_write_block : ℕ → Disk → Uf2Block → Disk × Bool
  vd_write_block token d uf2 =
      if is_rp2040_block uf2
      then (let (d', current) = update_current_uf2_info sdk d uf2 token in
          if current then write_uf2_page d' else (d', false))
      else (d, false)

  -- `_write_uf2_page_complete`, less the call of `vd_async_complete` at its end.
  unfoldable pub write_uf2_page_done : Disk → AsyncTask → Disk
  write_uf2_page_done d task =
      if task.token == d.info.token
        && (task.result == 0 && d.info.valid_block_count == d.info.num_blocks)
      then record d {
        reboots =
            record {
              addr = if d.info.ram then d.info.lowest_addr else 0;
              sp = sdk.sram_end;
              delay_ms = 1000;
            }
            ∷ d.reboots;
      }
      else d
