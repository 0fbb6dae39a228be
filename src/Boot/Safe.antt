-- ===== src/Boot/Safe.antt =====
-- The clocks that the USB boot leaves behind, with and without a usable crystal.
use pico_bootrom_rp.Common.{ℕ, ◌*◌, ◌≡◌, ◌⊎◌, inl, inr, refl, Bool, true, false, ◌&&◌, ◌||◌, arith}
use pico_bootrom_rp.Boot.ClockSetup.{
  Clocks, Crystal, on_rosc, apply, ends, run_clocks, clock_ops, usb_clock_setup, pll_mhz,
}

-- clk_sys and clk_usb run from the PLL at four times the crystal's frequency.
pub record IsRunning (x : Crystal) (c : Clocks) : Type 0 where
  pub sys : (c.sys_aux && c.sys_aux_pll) ≡ true
  pub usb : c.usb_pll ≡ true
  pub sys_div : c.sys_div ≡ 1
  pub usb_div : c.usb_div ≡ 1
  pub mhz : pll_mhz x c ≡ x.mhz * 4

abbrev pub IsSafe : Crystal → Clocks → Clocks × Bool → Type 0
IsSafe x before after =
    (after.0.glitched ≡ before.glitched)
    × ((((x.stable && x.locks) ≡ true) × (after.1 ≡ true) × IsRunning x after.0)
        ⊎ (((x.stable && x.locks) ≡ false)
            × (after.1 ≡ false)
            × (on_rosc after.0 ≡ true)
            × (after.0.sys_div ≡ 1)
            × (after.0.resus ≡ true)))

crystal-IsSafe :
    (mhz : ℕ) (stable locks : Bool) (before : Clocks)
    → (before.ref_rosc || before.ref_runs) ≡ true
    → let x : Crystal = record { mhz = mhz; stable = stable; locks = locks } in
      IsSafe x before (usb_clock_setup x before)
unfolding usb_clock_setup run_clocks clock_ops apply ends pll_mhz
crystal-IsSafe mhz true true before h = rw h (
  ground arith,
  inl (
    refl,
    refl,
    record { sys = refl; usb = refl; sys_div = refl; usb_div = refl; mhz = omega arith },
  ),
)
crystal-IsSafe mhz true false before h = rw h (ground arith, inr (refl, refl, refl, refl, refl))
crystal-IsSafe mhz false locks before h = rw h (ground arith, inr (refl, refl, refl, refl, refl))

-- If clk_ref runs from the ring oscillator, or from another source that has not stopped, whatever the other clocks
-- are: the set-up ends exactly when the crystal becomes stable and the PLL locks, and then the clocks
-- run from the PLL, at 48 MHz with a crystal of 12 MHz. If it waits for ever, clk_sys runs from the ring
-- oscillator, undivided, and is resuscitated if it stops. Either way the crystal, the PLL and the dividers
-- were only changed while clk_sys ran from the ring oscillator.
pub usb_clock_setup-IsSafe :
    (x : Crystal) (before : Clocks)
    → (before.ref_rosc || before.ref_runs) ≡ true
    → IsSafe x before (usb_clock_setup x before)
usb_clock_setup-IsSafe x before h = crystal-IsSafe x.mhz x.stable x.locks before h
