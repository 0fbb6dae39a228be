-- ===== src/Boot/Tests.antt =====
-- A flash chip that answers in one SPI mode only.
use pico_bootrom_rp.Common.{
  ℕ, ◌≡◌, refl, Bool, true, false, List, [], ◌∷◌, ◌++◌, some, ltb, ◌==◌, if◌then◌else◌, codes,
  replicate, xor_bits,
}
use pico_bootrom_rp.Boot.{
  crc_bits, crc32_small, boot2_sum, checks, attempted, flash_boot_from, flash_boot, main,
}
use pico_bootrom_rp.Boot.ClockSetup.{Clocks, Crystal, usb_clock_setup}
use pico_bootrom_rp.Boot.Safe.{IsSafe, usb_clock_setup-IsSafe}
use pico_bootrom_rp.Boot.Choice.{Chosen, main-Chosen}

-- The check value of the CRC-32 with this polynomial and start, most significant bit first.
crc_test : crc32_small (codes "123456789") 0xffff_ffff ≡ 0x0376_e6e7
unfolding crc32_small crc_bits xor_bits
crc_test = refl

abbrev stage : List ℕ
stage = replicate 252 0 ++ (154 ∷ 57 ∷ 101 ∷ 112 ∷ [])

abbrev chip : ℕ → ℕ → List ℕ
chip attempt cpol_cpha = if cpol_cpha == 3 then stage else replicate 256 0

chip_test : flash_boot chip ≡ some stage
unfolding flash_boot flash_boot_from attempted checks boot2_sum crc32_small crc_bits xor_bits
chip_test = refl

-- A pin that is low at its first two samples, and a 12 MHz crystal.
abbrev pin : ℕ → Bool
pin i = ltb 1 i

abbrev crystal : Crystal
crystal = record { mhz = 12; stable = true; locks = true }

-- The clocks behind a reset.
abbrev reset_clocks : Clocks
reset_clocks = record {
  rosc_enabled = true;
  ref_rosc = true;
  ref_runs = false;
  resus = false;
  sys_aux = false;
  sys_aux_pll = true;
  sys_div = 1;
  usb_div = 1;
  usb_pll = false;
  xosc_enabled = false;
  pll_refdiv = 1;
  pll_fbdiv = 0;
  pll_postdiv1 = 7;
  pll_postdiv2 = 7;
  pll_powered = false;
  pll_post_powered = false;
  glitched = false;
}

main-Chosen_example :
    Chosen false crystal pin chip reset_clocks (main false crystal pin chip reset_clocks)
main-Chosen_example = main-Chosen false crystal pin chip reset_clocks

usb_clock_setup-IsSafe_example :
    IsSafe
      (record crystal { stable = false })
      reset_clocks
      (usb_clock_setup (record crystal { stable = false }) reset_clocks)
usb_clock_setup-IsSafe_example =
    usb_clock_setup-IsSafe (record crystal { stable = false }) reset_clocks refl
