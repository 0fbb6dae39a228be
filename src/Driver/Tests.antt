-- ===== src/Driver/Tests.antt =====
-- A flash chip of 2 MB, and a range that begins and ends at no block's boundary.
use pico_bootrom_rp.Common.{
  ℕ, zero, ◌+◌, ◌≡◌, ◌≤◌, ◌<◌, ◌^◌, suc, refl, Bool, false, List, [], ◌∷◌, some, arith,
}
use pico_bootrom_rp.Driver.{
  SpiOp, or_bits, and_bits, cmd_addr_bytes, flash_range_erase, erase_blocks, flash_user_erase,
  flash_sector_erase, flash_size_log2, bytes_to_u32le, array_size_log2, shift_count,
}
use pico_bootrom_rp.Driver.Range.{Reaches, flash_range_erase-Reaches}
use pico_bootrom_rp.Driver.Size.{IsSize, flash_size_log2-IsSize, array_size_log2-log2}

abbrev never : List SpiOp → Bool
never log = false

flash_range_erase-Reaches_example :
    Reaches 16 0xd8 0xf000
      (0xf000 + 0x11800)
      []
      (flash_range_erase never 0xf000 0x11800 (2 ^ 16) 0xd8 [])
flash_range_erase-Reaches_example =
    flash_range_erase-Reaches never 16 0xd8 0xf000 0x11800 [] (λ history. refl) (omega arith)
      (omega arith) (omega arith) refl

-- A sector, a block of 64 kB and another sector.
erase_test :
    flash_range_erase never 0xf000 0x11800 0x10000 0xd8 []
    ≡ flash_sector_erase 0x20000 (flash_user_erase 0x10000 0xd8 (flash_sector_erase 0xf000 []))
unfolding flash_range_erase erase_blocks and_bits flash_user_erase flash_sector_erase
erase_test = refl

cmd_addr_test : cmd_addr_bytes 0x20 0x01f000 ≡ (0x20 ∷ 0x01 ∷ 0xf0 ∷ 0x00 ∷ [])
unfolding cmd_addr_bytes or_bits
cmd_addr_test = refl

-- 16 Mbit by its parameter table.
abbrev sfdp : ℕ → ℕ → List ℕ
sfdp zero n = 0x53 ∷ 0x46 ∷ 0x44 ∷ 0x50 ∷ 6 ∷ 1 ∷ 1 ∷ 255 ∷ 0 ∷ 6 ∷ 1 ∷ 16 ∷ 128 ∷ 0 ∷ 0 ∷ 255 ∷ []
sfdp (suc addr) n = 0xe5 ∷ 0x20 ∷ 0xf9 ∷ 0xff ∷ 0xff ∷ 0xff ∷ 0xff ∷ 0x00 ∷ []

size_test : flash_size_log2 sfdp (0xef ∷ 0x40 ∷ 0x15 ∷ []) ≡ some 21
unfolding flash_size_log2 bytes_to_u32le array_size_log2 shift_count
size_test = refl

flash_size_log2-IsSize_example : IsSize (flash_size_log2 sfdp (0xef ∷ 0x40 ∷ 0x15 ∷ []))
flash_size_log2-IsSize_example = flash_size_log2-IsSize sfdp (0xef ∷ 0x40 ∷ 0x15 ∷ [])

array_size_log2-log2_example :
    (2 ^ array_size_log2 0xffffff ≤ 0xffffff + 1)
    × (0xffffff + 1 < 2 ^ suc (array_size_log2 0xffffff))
array_size_log2-log2_example = array_size_log2-log2 0xffffff (omega arith)
