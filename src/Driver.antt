-- ===== src/Driver.antt =====
-- bootrom/program_flash_generic.c: the flash chip is erased, programmed and measured by commands over
-- SPI. What goes over the wire is a log. Timing is left out.
pub mod Range
pub mod Size
pub mod PutGet
pub mod Modes
mod Tests
use pico_bootrom_rp.Common.{
  ℕ, zero, suc, ◌+◌, ◌-◌, ◌*◌, ◌/◌, ◌%◌, ◌^◌, Bool, true, false, not, ◌&&◌, ◌||◌, Option, none,
  some, List, [], ◌∷◌, ◌++◌, ltb, leb, ◌==◌, if◌then◌else◌, take, drop, get_or, u32,
}

-- A transfer of these bytes with the chip selected, or the polling of the chip until it is ready.
pub data SpiOp : Type 0 where
  transfer : List ℕ → SpiOp
  wait_ready : SpiOp

-- `a | b` of words of this many bits.
unfoldable pub or_bits : ℕ → ℕ → ℕ → ℕ
or_bits zero a b = 0
or_bits (suc n) a b = or_bits n (a / 2) (b / 2) * 2 + (if a % 2 == 1 || b % 2 == 1 then 1 else 0)

-- `a & b` of words of this many bits.
unfoldable pub and_bits : ℕ → ℕ → ℕ → ℕ
and_bits zero a b = 0
and_bits (suc n) a b = and_bits n (a / 2) (b / 2) * 2 + (if a % 2 == 1 && b % 2 == 1 then 1 else 0)

-- `flash_put_cmd_addr`: the command is put into the top byte of the address.
unfoldable pub cmd_addr_bytes : ℕ → ℕ → List ℕ
cmd_addr_bytes cmd addr =
    or_bits 8 (addr / 2 ^ 24 % 256) (cmd % 256)
    ∷ addr / 2 ^ 16 % 256
    ∷ addr / 2 ^ 8 % 256
    ∷ addr % 256
    ∷ []

-- `flash_enable_write`
unfoldable pub flash_enable_write : List SpiOp → List SpiOp
flash_enable_write log = transfer (0x06 ∷ []) ∷ log

unfoldable pub flash_page_program : ℕ → List ℕ → List SpiOp → List SpiOp
flash_page_program addr bytes log =
    wait_ready ∷ transfer (cmd_addr_bytes 0x02 addr ++ take 256 bytes) ∷ flash_enable_write log

unfoldable pub flash_user_erase : ℕ → ℕ → List SpiOp → List SpiOp
flash_user_erase addr cmd log =
    wait_ready ∷ transfer (cmd_addr_bytes cmd addr) ∷ flash_enable_write log

unfoldable pub flash_sector_erase : ℕ → List SpiOp → List SpiOp
flash_sector_erase addr log = flash_user_erase addr 0x20 log

-- `aborted` is what `flash_was_aborted` reads, behind these transfers.
module _ (aborted : List SpiOp → Bool) where
  -- The loop of `flash_range_program`.
  unfoldable pub program_pages : ℕ → ℕ → ℕ → List ℕ → List SpiOp → List SpiOp
  program_pages zero addr goal bytes log = log
  program_pages (suc fuel) addr goal bytes log = elim (ltb addr goal && not (aborted log)) [
    | true ↦
        program_pages fuel (u32 (addr + 256)) goal (drop 256 bytes)
          (flash_page_program addr bytes log)
    | false ↦ log
  ]

  unfoldable pub flash_range_program : ℕ → List ℕ → ℕ → List SpiOp → List SpiOp
  flash_range_program addr bytes count log =
      program_pages (count / 256 + 2) addr (u32 (addr + count)) bytes log

  -- The loop of `flash_range_erase`, with `block_size - 1` modulo 2^32.
  unfoldable pub erase_blocks : ℕ → ℕ → ℕ → ℕ → ℕ → List SpiOp → List SpiOp
  erase_blocks zero addr goal block_size block_cmd log = log
  erase_blocks (suc fuel) addr goal block_size block_cmd log =
      elim (ltb addr goal && not (aborted log)) [
        | true ↦
            elim (and_bits 32 addr (u32 (block_size + (2 ^ 32 - 1))) == 0
              && leb block_size (goal - addr)) [
                | true ↦
                    erase_blocks fuel (u32 (addr + block_size)) goal block_size block_cmd
                      (flash_user_erase addr block_cmd log)
                | false ↦
                    erase_blocks fuel (u32 (addr + 4096)) goal block_size block_cmd
                      (flash_sector_erase addr log)
              ]
        | false ↦ log
      ]

  unfoldable pub flash_range_erase : ℕ → ℕ → ℕ → ℕ → List SpiOp → List SpiOp
  flash_range_erase addr count block_size block_cmd log =
      erase_blocks (count / 4096 + 2) addr (u32 (addr + count)) block_size block_cmd log

-- `bytes_to_u32le`
unfoldable pub bytes_to_u32le : List ℕ → ℕ
bytes_to_u32le b =
    get_or b 0 0 + get_or b 1 0 * 2 ^ 8 + get_or b 2 0 * 2 ^ 16 + get_or b 3 0 * 2 ^ 24

-- `while (word >>= 1) ++ctr;`
unfoldable pub shift_count : ℕ → ℕ → ℕ
shift_count zero word = 0
shift_count (suc fuel) word = elim (word / 2 == 0) [
  | true ↦ 0
  | false ↦ shift_count fuel (word / 2) + 1
]

-- The array size of the parameter table, as the logarithm of its number of bits.
unfoldable pub array_size_log2 : ℕ → ℕ
array_size_log2 word = if leb (2 ^ 31) word then word - 2 ^ 31 else shift_count 32 (word + 1)

-- The size from the JEDEC ID.
unfoldable pub jedec_size_log2 : List ℕ → Option ℕ
jedec_size_log2 id =
    if ltb (get_or id 2 0) 8 || ltb 34 (get_or id 2 0) then none else some (get_or id 2 0)

-- `flash_size_log2`, with `none` for its negative result: `sfdp` is what `flash_read_sfdp` gives at an
-- address, and `id` what the chip answers to the command for its JEDEC ID.
unfoldable pub flash_size_log2 : (ℕ → ℕ → List ℕ) → List ℕ → Option ℕ
flash_size_log2 sfdp id =
    let header = sfdp 0 16 in
    if not (bytes_to_u32le header == 0x5044_4653)
    then jedec_size_log2 id
    else if not (get_or header 8 0 == 0)
    then jedec_size_log2 id
    else let table = sfdp (bytes_to_u32le (drop 12 header) % 2 ^ 24) 8 in
      let size = array_size_log2 (bytes_to_u32le (drop 4 table)) in
      if ltb size 11 || ltb 37 size then jedec_size_log2 id else some (size - 3)
