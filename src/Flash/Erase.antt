-- ===== src/Flash/Erase.antt =====
-- The erase loop of bootrom/async_task.c ends, and erases each sector of its range once.
use mathlib.Core.List.{append_assoc}
use pico_bootrom_rp.Common.{
  ℕ, zero, suc, ◌+◌, ◌-◌, ◌*◌, ◌/◌, ◌^◌, ◌≤◌, ◌<◌, ◌≡◌, refl, none, List, [], ◌∷◌, ◌++◌, arith, u32,
  false, ltb, lt→ltb,
}
use pico_bootrom_rp.Sdk.{Sdk, IsMap, IsStatus}
use pico_bootrom_rp.Machine.{FlashOp, sector_erase, Machine, Env}
use pico_bootrom_rp.Flash.{flash_offset, call_erase_sector, erase_sectors, default_erase_range}

-- The erasures of `n` sectors from the flash offset `offset` on, the last one first.
unfoldable pub erasures : ℕ → ℕ → List FlashOp
erasures offset zero = []
erasures offset (suc n) = erasures (offset + 4096) n ++ (sector_erase offset ∷ [])

module _ (sdk : Sdk) (env : Env) where
  pub call_erase_sector-default :
      (addr : ℕ) (m : Machine)
      → m.flash_funcs ≡ none
      → call_erase_sector sdk env addr m
        ≡ (record m { flash_log = sector_erase (flash_offset sdk addr) ∷ m.flash_log }, 0)
  unfolding call_erase_sector
  call_erase_sector-default addr m d = ground arith

  call_default :
      (addr : ℕ) (m : Machine)
      → sdk.xip_main_base ≤ addr
      → addr < 2 ^ 32
      → m.flash_funcs ≡ none
      → call_erase_sector sdk env addr m
        ≡ (record m { flash_log = sector_erase (addr - sdk.xip_main_base) ∷ m.flash_log }, 0)
  unfolding call_erase_sector flash_offset
  call_default addr m lo hi d =
      let e : flash_offset sdk addr ≡ addr - sdk.xip_main_base = omega arith in ground (arith, e)

  erase_sectors-erasures :
      (n fuel addr end : ℕ) (m : Machine)
      → sdk.xip_main_base ≤ addr
      → addr + n * 4096 ≡ end
      → end < 2 ^ 32
      → n < fuel
      → m.flash_funcs ≡ none
      → erase_sectors sdk env fuel addr end 0 m
        ≡ (record m { flash_log = erasures (addr - sdk.xip_main_base) n ++ m.flash_log }, 0)
  unfolding erase_sectors erasures
  erase_sectors-erasures n zero addr end m lo e hi f d = absurd (omega arith)
  erase_sectors-erasures zero (suc fuel) addr end m lo e hi f d = ground arith
  erase_sectors-erasures (suc n) (suc fuel) addr end m lo e hi f d =
      let base = sdk.xip_main_base in
      let op = sector_erase (addr - base) in
      let wrap : u32 (addr + 4096) ≡ addr + 4096 = omega arith in
      let shift : addr + 4096 - base ≡ addr - base + 4096 = omega arith in
      let rest =
        erase_sectors-erasures n fuel (addr + 4096) end (record m { flash_log = op ∷ m.flash_log })
          (omega arith) (omega arith) hi (omega arith) d in
      rw
        (lt→ltb addr end (omega arith), call_default addr m lo (omega arith) d, wrap, erase_sectors)
        (rw rest (rw (shift, append_assoc)))

-- The erasure of `n` sectors in the flash window: the calls of the flash driver.
pub default_erase_range-in_window :
    (sdk : Sdk) (env : Env) (n addr : ℕ) (m : Machine)
    → IsMap sdk
    → IsStatus sdk
    → sdk.xip_main_base ≤ addr
    → addr + n * 4096 ≤ sdk.sram_base
    → m.flash_funcs ≡ none
    → default_erase_range sdk env addr (n * 4096) m
      ≡ (record m { flash_log = erasures (addr - sdk.xip_main_base) n ++ m.flash_log }, 0)
unfolding default_erase_range
default_erase_range-in_window sdk env n addr m map status lo hi d =
    let wrap : u32 (addr + n * 4096) ≡ addr + n * 4096 = omega arith in
    simp (status.ok_zero, wrap)
      (erase_sectors-erasures sdk env n (n * 4096 / 4096 + 2) addr (addr + n * 4096) m lo refl
        (omega arith) (omega arith) d)

-- The erasure of `n` sectors within 16 MB of flash, the addresses that the driver's commands have room
-- for, by the functions in ROM, succeeds. It calls the flash driver to erase each of those sectors once,
-- in order, and nothing else, and changes nothing else.
pub default_erase_range-erasures :
    (sdk : Sdk) (env : Env) (n addr : ℕ) (m : Machine)
    → IsMap sdk
    → IsStatus sdk
    → sdk.xip_main_base ≤ addr
    → addr + n * 4096 ≤ sdk.xip_main_base + 0x1000000
    → sdk.xip_main_base + 0x1000000 ≤ sdk.sram_base
    → m.flash_funcs ≡ none
    → default_erase_range sdk env addr (n * 4096) m
      ≡ (record m { flash_log = erasures (addr - sdk.xip_main_base) n ++ m.flash_log }, 0)
default_erase_range-erasures sdk env n addr m map status lo hi window d =
    default_erase_range-in_window sdk env n addr m map status lo (omega arith) d

-- A range whose end wraps round to its start or below erases nothing, and succeeds all the same.
pub default_erase_range-wrapped :
    (sdk : Sdk) (env : Env) (addr len : ℕ) (m : Machine)
    → u32 (addr + len) ≤ addr
    → default_erase_range sdk env addr len m ≡ (m, sdk.picoboot_ok)
unfolding default_erase_range
default_erase_range-wrapped sdk env addr len m h =
    let fuel : len / 4096 + 2 ≡ suc (len / 4096 + 1) = omega arith in
    simp fuel (stops (len / 4096 + 1) (ground arith))
  where
    stops :
        (f : ℕ)
        → ltb addr (u32 (addr + len)) ≡ false
        → erase_sectors sdk env (suc f) addr (u32 (addr + len)) sdk.picoboot_ok m
          ≡ (m, sdk.picoboot_ok)
    stops f e = rw (e, erase_sectors)
