-- ===== src/Watchdog.antt =====
-- usb_device_tiny/runtime.c: watchdog_reboot, which has the chip restart at an address; bootrom_main.c:
-- reset_usb_boot; and bootrom_rt0.S: check_wdog, which the restart goes through.
pub mod Restart
mod Tests
use pico_bootrom_rp.Common.{
  ℕ, zero, suc, ◌+◌, ◌-◌, ◌*◌, ◌^◌, Bool, true, false, ◌&&◌, not, Option, none, some, ◌==◌,
  if◌then◌else◌, u32, set_bit, xor_bits,
}

-- The registers of the watchdog that the code writes, the flags of `ctrl` that let debuggers pause it as
-- one, whether a reset by it leaves the two oscillators alone, whether clk_ref runs from the crystal,
-- and `rebooting`.
pub record Watchdog : Type 0 where
  pub scratch0 : ℕ
  pub scratch1 : ℕ
  pub scratch4 : ℕ
  pub scratch5 : ℕ
  pub scratch6 : ℕ
  pub scratch7 : ℕ
  pub load : ℕ
  pub tick : ℕ
  pub tick_enable : Bool
  pub pause : Bool
  pub enable : Bool
  pub keeps_oscillators : Bool
  pub ref_is_xosc : Bool
  pub rebooting : Bool

abbrev pub magic : ℕ
magic = 0xb007_c0d3

-- `-x` on a `uint32_t`.
abbrev pub neg32 : ℕ → ℕ
neg32 x = u32 (2 ^ 32 - x)

-- The scratch registers that `watchdog_reboot` writes.
unfoldable pub set_entry : ℕ → ℕ → Watchdog → Watchdog
set_entry pc sp w =
    let thumb = set_bit pc 0 in
    if pc == 0 then record w { scratch4 = 0 } else record w {
      scratch4 = magic;
      scratch5 = xor_bits 32 thumb (neg32 magic);
      scratch6 = sp;
      scratch7 = thumb;
    }

-- `watchdog_reboot`, whether it runs on an FPGA first.
unfoldable pub watchdog_reboot : Bool → ℕ → ℕ → ℕ → Watchdog → Watchdog
watchdog_reboot running_on_fpga pc sp delay_ms w =
    record (set_entry pc sp
      (record w { keeps_oscillators = true; enable = false; pause = false })) {
        load = u32 (delay_ms * 1000);
        ref_is_xosc = if running_on_fpga then w.ref_is_xosc else true;
        tick = 12;
        tick_enable = true;
        enable = true;
        rebooting = true;
      }

-- `reset_usb_boot`, with the address of `_usb_boot_reboot_wrapper` and the end of the RAM.
unfoldable pub reset_usb_boot : Bool → ℕ → ℕ → ℕ → ℕ → Watchdog → Watchdog
reset_usb_boot running_on_fpga wrapper sram_end gpio_mask disable_mask w =
    watchdog_reboot running_on_fpga wrapper sram_end 10
      (record w { scratch0 = gpio_mask; scratch1 = disable_mask })

-- What the boot goes on with: code at an address with a stack pointer, or `main`.
pub data Entry : Type 0 where
  enter : ℕ → ℕ → Entry
  enter_main : Entry

-- `check_wdog`
unfoldable pub check_wdog : Watchdog → Watchdog × Entry
check_wdog w =
    if w.scratch4 == magic && u32 (magic + xor_bits 32 w.scratch5 w.scratch7) == 0
    then (record w { scratch4 = 0 }, enter w.scratch7 w.scratch6)
    else (w, enter_main)

-- `_usb_boot_reboot_wrapper`: the arguments of `_usb_boot`.
unfoldable pub usb_boot_reboot_wrapper : Watchdog → ℕ × ℕ
usb_boot_reboot_wrapper w = (w.scratch0, w.scratch1)
