-- ===== src/Flash.antt =====
-- The default flash functions of bootrom/async_task.c and the table that calls go through.
pub mod Erase
use pico_bootrom_rp.Common.{
  ℕ, zero, suc, ◌+◌, ◌-◌, ◌*◌, ◌/◌, ◌^◌, Bool, true, false, ◌&&◌, Option, none, some, List, ◌∷◌,
  ltb, ◌==◌, ◌≡◌, ap, if◌then◌else◌, take, u32,
}
use pico_bootrom_rp.Sdk.{Sdk}
use pico_bootrom_rp.Task.{Buffer, flash_page_size, flash_sector_erase_size}
use pico_bootrom_rp.Machine.{
  FlashOp, enter_cmd_xip, exit_xip, sector_erase, page_program, read_data, Machine, FlashFuncs, Env,
  buffer_bytes, set_buffer, overlay,
}

abbrev pub logged : FlashOp → Machine → Machine × ℕ
logged op m = (record m { flash_log = op ∷ m.flash_log }, 0)

unfoldable pub default_enter_cmd_xip : Machine → Machine × ℕ
default_enter_cmd_xip m = logged enter_cmd_xip m

unfoldable pub default_exit_xip : Machine → Machine × ℕ
default_exit_xip m = logged exit_xip m

module _ (sdk : Sdk) where
  -- `addr - XIP_MAIN_BASE` in 32 bits.
  unfoldable pub flash_offset : ℕ → ℕ
  flash_offset addr = u32 (addr + 2 ^ 32 - sdk.xip_main_base)

  unfoldable pub default_erase_sector : ℕ → Machine → Machine × ℕ
  default_erase_sector addr m = logged (sector_erase (flash_offset addr)) m

  unfoldable pub default_page_program : ℕ → Buffer → Machine → Machine × ℕ
  default_page_program addr buffer m =
      logged (page_program (flash_offset addr) (take flash_page_size (buffer_bytes m buffer))) m

module _ (sdk : Sdk) (env : Env) where
  -- The chip fills the first 256 bytes of the buffer.
  unfoldable pub default_page_read : ℕ → Buffer → Machine → Machine × ℕ
  default_page_read addr buffer m =
      let bytes = take flash_page_size (env.chip_read m.flash_log (flash_offset sdk addr)) in
      let filled = set_buffer m buffer (overlay bytes (buffer_bytes m buffer)) in
      logged (read_data (flash_offset sdk addr)) filled

  -- `flash_funcs->do_flash_erase_sector(addr)`
  unfoldable pub call_erase_sector : ℕ → Machine → Machine × ℕ
  unfolding default_erase_sector
  call_erase_sector addr m = elim m.flash_funcs [
    | none ↦ default_erase_sector sdk addr m
    | some table ↦ (env.user_funcs m table).do_flash_erase_sector addr m
  ]

  -- The loop of `_do_flash_erase_range`. The fuel is spent only where the loop goes on.
  unfoldable pub erase_sectors : ℕ → ℕ → ℕ → ℕ → Machine → Machine × ℕ
  erase_sectors zero addr end ret m = (m, ret)
  erase_sectors (suc fuel) addr end ret m = elim (ltb addr end && ret == 0) [
    | true ↦
        let (m', ret') = call_erase_sector addr m in
        erase_sectors fuel (u32 (addr + flash_sector_erase_size)) end ret' m'
    | false ↦ (m, ret)
  ]

  -- A range of `len` bytes takes at most `len / 4096 + 1` rounds.
  unfoldable pub default_erase_range : ℕ → ℕ → Machine → Machine × ℕ
  unfolding erase_sectors
  default_erase_range addr len m =
      erase_sectors (len / flash_sector_erase_size + 2) addr (u32 (addr + len)) sdk.picoboot_ok m

  unfoldable pub default_flash_funcs : FlashFuncs
  unfolding default_enter_cmd_xip default_exit_xip default_erase_sector default_erase_range
      default_page_program default_page_read
  default_flash_funcs = record {
    do_flash_enter_cmd_xip = default_enter_cmd_xip;
    do_flash_exit_xip = default_exit_xip;
    do_flash_erase_sector = default_erase_sector sdk;
    do_flash_erase_range = default_erase_range;
    do_flash_page_program = default_page_program sdk;
    do_flash_page_read = default_page_read;
  }

  -- `flash_funcs`: the table in ROM, or the one that the host has placed in RAM.
  unfoldable pub current_funcs : Machine → FlashFuncs
  unfolding default_flash_funcs
  current_funcs m = elim m.flash_funcs [
    | none ↦ default_flash_funcs
    | some table ↦ env.user_funcs m table
  ]

  pub current_funcs-default :
      (m : Machine) → m.flash_funcs ≡ none → current_funcs m ≡ default_flash_funcs
  unfolding current_funcs
  current_funcs-default m e = ap table_of e
    where
      table_of : Option ℕ → FlashFuncs
      table_of o = elim o [ none ↦ default_flash_funcs | some table ↦ env.user_funcs m table ]
