-- ===== src/Execute/Tests.antt =====
-- Tasks that the PICOBOOT interface and the virtual disk queue, on the RP2040's address map.
use pico_bootrom_rp.Common.{
  ℕ, ◌*◌, ◌-◌, ◌≡◌, refl, false, none, [], ◌∷◌, arith, test_bit, set_bit, replicate, ◌++◌,
}
use pico_bootrom_rp.Sdk.{rp2040, rp2040-IsMap, rp2040-IsStatus}
use pico_bootrom_rp.Task.{AsyncTask, reset_task, page_buffer}
use pico_bootrom_rp.Machine.{Machine, Env, FlashFuncs, sector_erase}
use pico_bootrom_rp.Flash.{default_erase_range}
use pico_bootrom_rp.Flash.Erase.{
  erasures, default_erase_range-erasures, default_erase_range-wrapped,
}
use pico_bootrom_rp.Execute.{execute}
use pico_bootrom_rp.Execute.Safety.{IsSafe}
use pico_bootrom_rp.Execute.Confined.{execute-IsSafe}
use pico_bootrom_rp.Execute.Verdict.{first_match, rules, execute-rules}
use pico_bootrom_rp.Execute.CmdXip.{execute-enter_cmd_xip}

abbrev zeroed : ℕ → ℕ
zeroed a = 0

-- A host whose own flash functions do nothing: no table of its own is installed here.
abbrev idle_funcs : FlashFuncs
idle_funcs = record {
  do_flash_enter_cmd_xip = λ m. (m, 0);
  do_flash_exit_xip = λ m. (m, 0);
  do_flash_erase_sector = λ a m. (m, 0);
  do_flash_erase_range = λ a n m. (m, 0);
  do_flash_page_program = λ a b m. (m, 0);
  do_flash_page_read = λ a b m. (m, 0);
}

-- An erased chip, and routines that do nothing.
abbrev rom_only : Env
rom_only = record {
  user_exec = λ a m. m;
  user_funcs = λ m a. idle_funcs;
  chip_read = λ log a. replicate 256 255;
  table_image = [];
}

abbrev machine : Machine
machine = record {
  mem = zeroed;
  sector = [];
  page = replicate 256 7;
  flash_log = [];
  flash_funcs = none;
  last_mutation_source = 0;
  virtual_disk_queue = record { task = reset_task; full = false; disable = false };
  ejected = false;
  rebooting = false;
}

-- A page of flash is written, and its sector erased before.
abbrev page_write : AsyncTask
page_write = record reset_task {
  token = 1;
  transfer_addr = 0x1000_1000;
  erase_addr = 0x1000_1000;
  erase_size = 4096;
  buffer = page_buffer;
  data_length = 256;
  type = 0x0a;
  source = 2;
}

page_write-no_exec : test_bit page_write.type 6 ≡ false
unfolding test_bit
page_write-no_exec = refl

page_write-no_table : test_bit page_write.type 7 ≡ false
unfolding test_bit
page_write-no_table = refl

machine-IsSafe : IsSafe rp2040 zeroed machine
machine-IsSafe = record { rom_table = refl; ops = tt; outside = λ a out. refl }

default_erase_range-erasures_example :
    default_erase_range rp2040 rom_only 0x1000_2000 (2 * 4096) machine
    ≡ (record machine { flash_log = erasures (0x1000_2000 - 0x1000_0000) 2 ++ [] }, 0)
default_erase_range-erasures_example =
    default_erase_range-erasures rp2040 rom_only 2 0x1000_2000 machine rp2040-IsMap rp2040-IsStatus
      (omega arith) (omega arith) (omega arith) refl

erasures_test : erasures 0x2000 2 ≡ (sector_erase 0x3000 ∷ sector_erase 0x2000 ∷ [])
unfolding erasures
erasures_test = refl

-- From the second sector on, one sector less than the whole address space.
default_erase_range-wrapped_test :
    default_erase_range rp2040 rom_only 0x1000_1000 0xffff_f000 machine ≡ (machine, 0)
default_erase_range-wrapped_test =
    default_erase_range-wrapped rp2040 rom_only 0x1000_1000 0xffff_f000 machine (omega arith)

execute-IsSafe_example : IsSafe rp2040 zeroed (execute rp2040 rom_only page_write machine).0
execute-IsSafe_example =
    execute-IsSafe rp2040 rom_only zeroed rp2040-IsMap rp2040-IsStatus page_write machine
      (record { page = omega arith; addr32 = omega arith; size32 = omega arith }) page_write-no_exec
      page_write-no_table machine-IsSafe

execute-rules_example :
    (execute rp2040 rom_only page_write machine).1
    ≡ first_match (rules rp2040 rom_only page_write false 0) 0
execute-rules_example =
    execute-rules rp2040 rom_only page_write machine rp2040-IsStatus page_write-no_exec
      page_write-no_table refl

-- The task of the PICOBOOT command PC_ENTER_CMD_XIP has no type bit but its own.
no_type-reads : test_bit reset_task.type 2 ≡ false
unfolding test_bit
no_type-reads = refl

no_type-writes : test_bit reset_task.type 3 ≡ false
unfolding test_bit
no_type-writes = refl

execute-enter_cmd_xip_example :
    execute rp2040 rom_only (record reset_task { type = set_bit 0 5 }) machine
    ≡ execute rp2040 rom_only reset_task machine
execute-enter_cmd_xip_example =
    execute-enter_cmd_xip rp2040 rom_only reset_task machine no_type-reads no_type-writes
