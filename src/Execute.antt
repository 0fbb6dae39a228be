-- ===== src/Execute.antt =====
-- `_execute_task` of bootrom/async_task.c.
pub mod Keeps
pub mod Safety
pub mod Confined
pub mod Codes
pub mod Verdict
pub mod CmdXip
mod Tests
use pico_bootrom_rp.Common.{
  ℕ, ◌+◌, ◌-◌, ◌%◌, Bool, true, not, ◌&&◌, ◌||◌, Option, none, some, ltb, ◌==◌, if◌then◌else◌, take,
  max, min, u32, test_bit, set_bit, ◌≡◌, ap,
}
use pico_bootrom_rp.Sdk.{Sdk}
use pico_bootrom_rp.Address.{is_address_ram, is_address_flash, is_address_rom}
use pico_bootrom_rp.Task.{
  AsyncTask, at_exit_xip, at_flash_erase, at_read, at_write, at_exclusive, at_enter_cmd_xip,
  at_exec, at_vectorize_flash, async_disable_queue, flash_page_size, flash_sector_erase_size,
}
use pico_bootrom_rp.Machine.{
  Machine, Env, sizeof_flash_funcs, buffer_bytes, set_buffer, write_mem, read_mem, overlay,
}
use pico_bootrom_rp.Flash.{current_funcs}

-- A piece of the function body: it goes on (`none`) or returns a status code.
abbrev pub Piece : Type 0
Piece = Machine → Machine × Option ℕ

-- What follows a piece runs only where it has not returned.
unfoldable pub resume : Machine × Option ℕ → Piece → Machine × Option ℕ
resume (m, none) g = g m
resume (m, some c) g = (m, some c)

infixr 40 ◌then_◌
unfoldable pub ◌then_◌ : Piece → Piece → Piece
unfolding resume
◌then_◌ f g m = resume (f m) g

unfoldable pub when : Bool → Piece → Piece
when test piece m = if test then piece m else (m, none)

abbrev pub return_if : Bool → ℕ → Piece
return_if test code m = if test then (m, some code) else (m, none)

-- `ret = f(); if (ret) return ret;`
unfoldable pub checked : (Machine → Machine × ℕ) → Piece
checked f m = let (m', ret) = f m in if ret == 0 then (m', none) else (m', some ret)

module _ (sdk : Sdk) where
  -- Both bounds are inclusive: the bitmaps of the virtual disk lie there.
  unfoldable pub is_address_safe_for_vectoring : ℕ → Bool
  is_address_safe_for_vectoring addr =
      is_address_ram sdk addr
      && (ltb addr sdk.xip_sram_base
          || ltb (sdk.xip_sram_base + (sdk.xip_sram_end - sdk.xip_sram_base)) addr)

module _ (sdk : Sdk) (env : Env) (task : AsyncTask) where
  open task use {transfer_addr, erase_addr, erase_size, data_length, type}

  abbrev pub end_addr : ℕ
  end_addr = u32 (transfer_addr + data_length)

  unfoldable pub vectorize : Piece
  vectorize m =
      if test_bit transfer_addr 0
      then (m, some sdk.picoboot_bad_alignment)
      else if is_address_safe_for_vectoring sdk transfer_addr
          && is_address_safe_for_vectoring sdk (u32 (transfer_addr + sizeof_flash_funcs))
      then (
        record m {
          mem = write_mem m.mem transfer_addr env.table_image;
          flash_funcs = some transfer_addr;
        },
        none,
      )
      else (m, some sdk.picoboot_invalid_address)

  unfoldable pub set_exclusive : Piece
  set_exclusive m = (
    record m {
      virtual_disk_queue =
          async_disable_queue m.virtual_disk_queue (not (task.exclusive_param == 0));
      ejected = if task.exclusive_param == sdk.exclusive_and_eject then true else m.ejected;
    },
    none,
  )

  -- The routine is called with the Thumb bit set.
  unfoldable pub exec : Piece
  exec m = (env.user_exec (set_bit transfer_addr 0) m, none)

  unfoldable pub check_mutation_source : Piece
  check_mutation_source m =
      if task.check_last_mutation_source && not (m.last_mutation_source == task.source)
      then (m, some sdk.picoboot_interleaved_write)
      else (record m { last_mutation_source = task.source }, none)

  unfoldable pub erase : Piece
  erase m =
      if not (erase_addr % flash_sector_erase_size == 0)
      then (m, some sdk.picoboot_bad_alignment)
      else if not (erase_size % flash_sector_erase_size == 0)
      then (m, some sdk.picoboot_bad_alignment)
      else if not
          (is_address_flash sdk erase_addr && is_address_flash sdk (u32 (erase_addr + erase_size)))
      then (m, some sdk.picoboot_invalid_address)
      else checked ((current_funcs sdk env m).do_flash_erase_range erase_addr erase_size) m

  -- The condition of `direct_access = true`.
  unfoldable pub is_direct : Bool
  is_direct =
      (is_address_ram sdk transfer_addr && is_address_ram sdk end_addr)
      || (not (test_bit type at_write) && is_address_rom transfer_addr && is_address_rom end_addr)

  unfoldable pub check_range : Piece
  check_range m =
      if is_direct
      then (m, none)
      else if is_address_flash sdk transfer_addr && is_address_flash sdk end_addr
      then return_if (not (transfer_addr % flash_page_size == 0)) sdk.picoboot_bad_alignment m
      else (m, some sdk.picoboot_invalid_address)

  -- A table in RAM that the write overlaps is given up for the one in ROM.
  unfoldable pub revert_from : Option ℕ → Machine → Machine
  revert_from none m = m
  revert_from (some table) m =
      if ltb (max table transfer_addr) (min (u32 (table + sizeof_flash_funcs)) end_addr)
      then record m { flash_funcs = none }
      else m

  unfoldable pub revert_vectors : Machine → Machine
  unfolding revert_from
  revert_vectors m = revert_from m.flash_funcs m

  pub revert_vectors-default : (m : Machine) → m.flash_funcs ≡ none → revert_vectors m ≡ m
  unfolding revert_vectors
  revert_vectors-default m e = ap (λ o. revert_from o m) e

  unfoldable pub write : Piece
  unfolding revert_vectors
  write m =
      if is_direct
      then (
        let r = revert_vectors m in
            record r {
              mem = write_mem r.mem transfer_addr (take data_length (buffer_bytes r task.buffer));
            },
        none,
      )
      else checked ((current_funcs sdk env m).do_flash_page_program transfer_addr task.buffer) m

  unfoldable pub read : Piece
  read m =
      if is_direct
      then (
        set_buffer m task.buffer
            (overlay (read_mem m.mem transfer_addr data_length) (buffer_bytes m task.buffer)),
        none,
      )
      else checked ((current_funcs sdk env m).do_flash_page_read transfer_addr task.buffer) m

  -- The last block of the function: `AT_ENTER_CMD_XIP` is tested inside it.
  unfoldable pub access : Piece
  access =
      check_range
      then_ when (test_bit type at_write) write
      then_ when (test_bit type at_read) read
      then_ when (test_bit type at_enter_cmd_xip)
          (λ m. checked (current_funcs sdk env m).do_flash_enter_cmd_xip m)

  unfoldable pub task_body : Piece
  task_body =
      when (test_bit type at_vectorize_flash) vectorize
      then_ when (test_bit type at_exclusive) set_exclusive
      then_ when (test_bit type at_exit_xip)
          (λ m. checked (current_funcs sdk env m).do_flash_exit_xip m)
      then_ when (test_bit type at_exec) exec
      then_ when (test_bit type at_write || test_bit type at_flash_erase) check_mutation_source
      then_ when (test_bit type at_flash_erase) erase
      then_ when (test_bit type at_write || test_bit type at_read) access

  unfoldable pub execute : Machine → Machine × ℕ
  execute m =
      if m.rebooting
      then (m, sdk.picoboot_rebooting)
      else let (m', code) = task_body m in (m', elim code [ none ↦ sdk.picoboot_ok | some c ↦ c ])
