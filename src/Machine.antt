-- ===== src/Machine.antt =====
-- What the tasks of bootrom/async_task.c act on: the memory, the buffers that a task's `data` points
-- to, the flash chip behind the functions of program_flash_generic.c, and the static variables.
-- A call into program_flash_generic.c is one entry of the log. The code that the host has loaded
-- into RAM, and what the chip returns when it is read, are parameters (`Env`).
use pico_bootrom_rp.Common.{
  ℕ, zero, suc, ◌+◌, ◌-◌, Bool, ◌&&◌, Option, List, [], ◌∷◌, ltb, leb, if◌then◌else◌, length,
  get_or,
}
use pico_bootrom_rp.Task.{TaskQueue, Buffer, null_buffer, sector_buffer, page_buffer}

-- The calls of the flash driver, addresses being offsets into the flash.
pub data FlashOp : Type 0 where
  enter_cmd_xip exit_xip : FlashOp
  sector_erase : ℕ → FlashOp
  page_program : ℕ → List ℕ → FlashOp
  read_data : ℕ → FlashOp

pub record Machine : Type 0 where
  pub mem : ℕ → ℕ
  pub sector : List ℕ  -- the data of the UF2 block in `_sector_buf`
  pub page : List ℕ  -- `_buffer` of the PICOBOOT interface
  pub flash_log : List FlashOp  -- newest first
  pub flash_funcs : Option ℕ  -- `none` for `&default_flash_funcs`, else the table's address in RAM
  pub last_mutation_source : ℕ
  pub virtual_disk_queue : TaskQueue
  pub ejected : Bool
  pub rebooting : Bool

-- `struct flash_funcs`: each entry returns a status, 0 for success.
pub record FlashFuncs : Type 0 where
  pub do_flash_enter_cmd_xip : Machine → Machine × ℕ
  pub do_flash_exit_xip : Machine → Machine × ℕ
  pub do_flash_erase_sector : ℕ → Machine → Machine × ℕ
  pub do_flash_erase_range : ℕ → ℕ → Machine → Machine × ℕ
  pub do_flash_page_program : ℕ → Buffer → Machine → Machine × ℕ
  pub do_flash_page_read : ℕ → Buffer → Machine → Machine × ℕ

abbrev pub sizeof_flash_funcs : ℕ
sizeof_flash_funcs = 28

-- What is not code of the boot ROM: the routines at an address in RAM, the chip, and the bytes that
-- the linker gives the table of flash functions.
pub record Env : Type 0 where
  pub user_exec : ℕ → Machine → Machine
  pub user_funcs : Machine → ℕ → FlashFuncs
  pub chip_read : List FlashOp → ℕ → List ℕ
  pub table_image : List ℕ

abbrev pub buffer_bytes : Machine → Buffer → List ℕ
buffer_bytes m null_buffer = []
buffer_bytes m sector_buffer = m.sector
buffer_bytes m page_buffer = m.page

abbrev pub set_buffer : Machine → Buffer → List ℕ → Machine
set_buffer m null_buffer bytes = m
set_buffer m sector_buffer bytes = record m { sector = bytes }
set_buffer m page_buffer bytes = record m { page = bytes }

-- `memcpy` to and from memory.
unfoldable pub write_mem : (ℕ → ℕ) → ℕ → List ℕ → ℕ → ℕ
write_mem mem addr bytes a =
    if leb addr a && ltb a (addr + length bytes) then get_or bytes (a - addr) 0 else mem a

unfoldable pub read_mem : (ℕ → ℕ) → ℕ → ℕ → List ℕ
read_mem mem addr zero = []
read_mem mem addr (suc n) = mem addr ∷ read_mem mem (addr + 1) n

-- `to` with its first bytes replaced by `bytes`.
unfoldable pub overlay : List ℕ → List ℕ → List ℕ
overlay [] to = to
overlay (b ∷ bytes) [] = b ∷ bytes
overlay (b ∷ bytes) (t ∷ to) = b ∷ overlay bytes to
