-- ===== src/Execute/Safety.antt =====
-- What a task may touch: the memory that is RAM, and the flash behind its window, in whole sectors
-- and pages.
use native.Mathlib.Decide.{dec_lt}
use pico_bootrom_rp.Common.{
  ℕ, zero, suc, ◌+◌, ◌-◌, ◌*◌, ◌/◌, ◌%◌, ◌^◌, ◌≤◌, ◌<◌, ◌≡◌, ap, true, false, not, ◌&&◌, Option,
  none, some, List, [], ◌∷◌, ◌++◌, arith, ◌==◌, if-by, length, u32,
}
use pico_bootrom_rp.Sdk.{Sdk, IsMap, IsStatus}
use pico_bootrom_rp.Address.{is_address_ram, is_address_flash}
use pico_bootrom_rp.Task.{AsyncTask}
use pico_bootrom_rp.Machine.{
  FlashOp, enter_cmd_xip, exit_xip, sector_erase, page_program, read_data, Machine, Env,
}
use pico_bootrom_rp.Flash.{
  default_erase_range, default_flash_funcs, current_funcs, current_funcs-default,
}
use pico_bootrom_rp.Flash.Erase.{
  erasures, default_erase_range-in_window, default_erase_range-wrapped,
}
use pico_bootrom_rp.Execute.{checked, set_exclusive, check_mutation_source, erase}
use pico_bootrom_rp.Execute.Keeps.{Keeps, keeps, Keeps-checked}

-- The chip is driven in whole sectors and pages, inside the window below the RAM.
abbrev pub IsValidOp : Sdk → FlashOp → Type 0
IsValidOp sdk enter_cmd_xip = Unit {0}
IsValidOp sdk exit_xip = Unit {0}
IsValidOp sdk (sector_erase o) = (o % 4096 ≡ 0) × (o + 4096 ≤ sdk.sram_base - sdk.xip_main_base)
IsValidOp sdk (page_program o bytes) =
    (o % 256 ≡ 0) × (o + 256 ≤ sdk.sram_base - sdk.xip_main_base) × (length bytes ≤ 256)
IsValidOp sdk (read_data o) = (o % 256 ≡ 0) × (o + 256 ≤ sdk.sram_base - sdk.xip_main_base)

abbrev pub AllValid : Sdk → List FlashOp → Type 0
AllValid sdk [] = Unit
AllValid sdk (op ∷ ops) = IsValidOp sdk op × AllValid sdk ops

AllValid-append :
    (sdk : Sdk) (xs ys : List FlashOp) → AllValid sdk xs → AllValid sdk ys → AllValid sdk (xs ++ ys)
AllValid-append sdk [] ys hx hy = hy
AllValid-append sdk (x ∷ xs) ys hx hy = (hx.0, AllValid-append sdk xs ys hx.1 hy)

AllValid-erasures :
    (sdk : Sdk) (n offset : ℕ)
    → offset % 4096 ≡ 0
    → offset + n * 4096 ≤ sdk.sram_base - sdk.xip_main_base
    → AllValid sdk (erasures offset n)
unfolding erasures
AllValid-erasures sdk zero offset a h = tt
AllValid-erasures sdk (suc n) offset a h =
    AllValid-append sdk (erasures (offset + 4096) n) (sector_erase offset ∷ [])
      (AllValid-erasures sdk n (offset + 4096) (omega arith) (omega arith)) ((a, omega arith), tt)

-- The table in ROM is in force, the calls of the flash driver so far are valid, and the memory that
-- is not RAM is as it was in `mem`.
pub record IsSafe (sdk : Sdk) (mem : ℕ → ℕ) (m : Machine) : Type 0 where
  pub rom_table : m.flash_funcs ≡ none
  pub ops : AllValid sdk m.flash_log
  pub outside : (a : ℕ) → is_address_ram sdk a ≡ false → m.mem a ≡ mem a

module _ (sdk : Sdk) (env : Env) (mem : ℕ → ℕ) (map : IsMap sdk) (status : IsStatus sdk) where
  abbrev Safe : Machine → Type 0
  Safe = IsSafe sdk mem

  pub logged-IsSafe :
      (op : FlashOp) (m : Machine)
      → IsValidOp sdk op
      → Safe m
      → Safe (record m { flash_log = op ∷ m.flash_log })
  logged-IsSafe op m v s = record { rom_table = s.rom_table; ops = (v, s.ops); outside = s.outside }

  pub exit-Keeps : Keeps Safe (λ m. checked (current_funcs sdk env m).do_flash_exit_xip m)
  unfolding default_flash_funcs
  exit-Keeps = keeps λ m s.
      Keeps-checked Safe (current_funcs sdk env m).do_flash_exit_xip m
        (rw (current_funcs-default sdk env m s.rom_table) (logged-IsSafe exit_xip m tt s))

  pub enter-Keeps : Keeps Safe (λ m. checked (current_funcs sdk env m).do_flash_enter_cmd_xip m)
  unfolding default_flash_funcs
  enter-Keeps = keeps λ m s.
      Keeps-checked Safe (current_funcs sdk env m).do_flash_enter_cmd_xip m
        (rw (current_funcs-default sdk env m s.rom_table) (logged-IsSafe enter_cmd_xip m tt s))

  module _ (task : AsyncTask) where
    open task use {transfer_addr, erase_addr, erase_size, data_length, type}

    pub exclusive-Keeps : Keeps Safe (set_exclusive sdk env task)
    unfolding set_exclusive
    exclusive-Keeps =
        keeps λ m s. record { rom_table = s.rom_table; ops = s.ops; outside = s.outside }

    pub mutation-Keeps : Keeps Safe (check_mutation_source sdk env task)
    unfolding check_mutation_source
    mutation-Keeps = keeps λ m s.
        if-by (λ (r : Machine × Option ℕ). Safe r.0)
          (task.check_last_mutation_source && not (m.last_mutation_source == task.source))
          (m, some sdk.picoboot_interleaved_write)
          (record m { last_mutation_source = task.source }, none) (λ _. s)
          (λ _. record { rom_table = s.rom_table; ops = s.ops; outside = s.outside })

    erase_range-IsSafe :
        (m : Machine)
        → Safe m
        → erase_addr % 4096 ≡ 0
        → erase_size % 4096 ≡ 0
        → is_address_flash sdk erase_addr ≡ true
        → is_address_flash sdk (u32 (erase_addr + erase_size)) ≡ true
        → erase_addr < 2 ^ 32
        → erase_size < 2 ^ 32
        → Safe (default_erase_range sdk env erase_addr erase_size m).0
    unfolding is_address_flash
    erase_range-IsSafe m s a b c d p q = elim (dec_lt (erase_addr + erase_size) (2 ^ 32)) [
      | no wraps ↦ rw (default_erase_range-wrapped sdk env erase_addr erase_size m (omega arith)) s
      | yes fits ↦
          let n = erase_size / 4096 in
          let whole : erase_size ≡ n * 4096 = omega arith in
          let low : sdk.xip_main_base ≤ erase_addr = ground arith in
          let high : erase_addr + n * 4096 ≤ sdk.sram_base = ground arith in
          let aligned = map.flash_aligned in
          let done =
            default_erase_range-in_window sdk env n erase_addr m map status low high s.rom_table in
          rw (ap (λ k. default_erase_range sdk env erase_addr k m) whole, done)
            (record {
              rom_table = s.rom_table;
              ops =
                  AllValid-append sdk (erasures (erase_addr - sdk.xip_main_base) n) m.flash_log
                    (AllValid-erasures sdk n (erase_addr - sdk.xip_main_base) (omega arith)
                      (omega arith))
                    s.ops;
              outside = s.outside;
            })
    ]

    pub erase-Keeps : erase_addr < 2 ^ 32 → erase_size < 2 ^ 32 → Keeps Safe (erase sdk env task)
    unfolding erase default_flash_funcs
    erase-Keeps p q = keeps λ m s.
        if-by (λ (r : Machine × Option ℕ). Safe r.0) (not (erase_addr % 4096 == 0)) _ _ (λ _. s)
          λ a.
            if-by (λ (r : Machine × Option ℕ). Safe r.0) (not (erase_size % 4096 == 0)) _ _ (λ _. s)
              λ b.
                if-by (λ (r : Machine × Option ℕ). Safe r.0)
                  (not (
                    is_address_flash sdk erase_addr
                    && is_address_flash sdk (u32 (erase_addr + erase_size))))
                  _ _ (λ _. s)
                  λ c.
                    Keeps-checked Safe
                      ((current_funcs sdk env m).do_flash_erase_range erase_addr erase_size) m
                      (rw (current_funcs-default sdk env m s.rom_table) (
                        erase_range-IsSafe m s (ground arith) (ground arith) (ground arith)
                          (ground arith) p q))
