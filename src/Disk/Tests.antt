-- ===== src/Disk/Tests.antt =====
-- Transfers of UF2 blocks on the RP2040's address map.
use pico_bootrom_rp.Common.{
  ℕ, ◌+◌, ◌*◌, ◌≡◌, refl, Bool, true, false, [], ◌∷◌, arith, inl, replicate, length,
  length-replicate, ◌↔◌, test_bit, set_bit, ap,
}
use pico_bootrom_rp.Common.Bits.{bits_test, bits_set}
use pico_bootrom_rp.Sdk.{rp2040, rp2040-IsMap}
use pico_bootrom_rp.Address.{is_address_ram, is_address_flash}
use pico_bootrom_rp.Task.{AsyncTask, reset_task, queue_task}
use pico_bootrom_rp.Disk.{
  Disk, Uf2Block, zero_info, update_current_uf2_info, is_garbage, page_in_ram, page_in_flash,
  begin_transfer, clear_valid_blocks, start_transfer, accept_block, prepare_task, clear_bitset,
  clear_bytes, update_lowest,
}
use pico_bootrom_rp.Disk.Page.{
  vd_write_block, write_uf2_page_done, write_uf2_page, lower_start, mark_page, count_block,
  queue_next, is_rp2040_block,
}
use pico_bootrom_rp.Disk.Transfer.{IsTracked}
use pico_bootrom_rp.Disk.Write.{vd_write_block-IsTracked, AllQueued, write_uf2_page_done-AllQueued}
use pico_bootrom_rp.Disk.Start.{rank, lowest_of, least, none_left, below, rank-lowest_of}
use pico_bootrom_rp.Disk.Sectors.{HoldsTask, vd_write_block-HoldsTask}

-- Before any transfer, all bits clear.
abbrev idle : Disk
idle = record {
  info = zero_info;
  ram_words = replicate 40 0;
  flash_words = replicate 3855 0;
  page_words = replicate 241 0;
  queue = record { task = reset_task; full = false; disable = false };
  reboots = [];
}

-- Block 1 of 2 of a binary in RAM.
abbrev ram_block : Uf2Block
ram_block = record {
  magic_start0 = 0x0a32_4655;
  magic_start1 = 0x9e5d_5157;
  flags = 0x2000;
  target_addr = 0x2000_0100;
  payload_size = 256;
  block_no = 1;
  num_blocks = 2;
  file_size = 0xe48b_ff56;
  bytes = [];
  magic_end = 0x0ab1_6f30;
}

abbrev written : Disk × Bool
written = vd_write_block rp2040 9 idle ram_block

written-num_blocks : written.0.info.num_blocks ≡ 2
unfolding vd_write_block update_current_uf2_info is_garbage page_in_ram page_in_flash is_address_ram
    is_address_flash begin_transfer clear_valid_blocks start_transfer accept_block prepare_task
    clear_bitset clear_bytes write_uf2_page lower_start update_lowest mark_page count_block
    queue_next queue_task is_rp2040_block bits_test bits_set test_bit set_bit
written-num_blocks = refl

written-asynchronous : written.1 ≡ true
unfolding vd_write_block update_current_uf2_info is_garbage page_in_ram page_in_flash is_address_ram
    is_address_flash begin_transfer clear_valid_blocks start_transfer accept_block prepare_task
    clear_bitset clear_bytes write_uf2_page lower_start update_lowest mark_page count_block
    queue_next queue_task is_rp2040_block bits_test bits_set test_bit set_bit
written-asynchronous = refl

idle-IsTracked : IsTracked rp2040 idle
idle-IsTracked = record {
  ram_room = refl;
  flash_room = ap (λ n. n * 32) (length-replicate {A = ℕ} 3855 0);
  state = inl refl;
}

vd_write_block-IsTracked_example : IsTracked rp2040 written.0
vd_write_block-IsTracked_example =
    vd_write_block-IsTracked rp2040 9 idle ram_block rp2040-IsMap idle-IsTracked

abbrev no_error : AsyncTask
no_error = record reset_task { token = 9 }

write_uf2_page_done-AllQueued_example :
    (length (write_uf2_page_done rp2040 written.0 no_error).reboots ≡ length written.0.reboots + 1)
    ↔ ((no_error.token ≡ written.0.info.token) × (no_error.result ≡ 0) × AllQueued rp2040 written.0)
write_uf2_page_done-AllQueued_example =
    write_uf2_page_done-AllQueued rp2040 written.0 no_error
      (vd_write_block-IsTracked rp2040 9 idle ram_block rp2040-IsMap idle-IsTracked)
      (let n = written-num_blocks in omega arith)

vd_write_block-HoldsTask_example : HoldsTask rp2040 ram_block 9 written.0
vd_write_block-HoldsTask_example =
    vd_write_block-HoldsTask rp2040 ram_block 9 idle written-asynchronous

-- A block for the XIP cache and then one for RAM.
rank-lowest_of_example :
    rank rp2040 (lowest_of rp2040 0xffff_ffff (0x1500_0000 ∷ 0x2000_0000 ∷ []))
    ≡ least rp2040 (rank rp2040 0xffff_ffff) (0x1500_0000 ∷ 0x2000_0000 ∷ [])
rank-lowest_of_example =
    rank-lowest_of rp2040 0xffff_ffff (0x1500_0000 ∷ 0x2000_0000 ∷ []) (omega arith)
      (below (omega arith) (below (omega arith) none_left))
