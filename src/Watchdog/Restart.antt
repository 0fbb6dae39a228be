-- ===== src/Watchdog/Restart.antt =====
-- A reboot arrives where it was sent to.
use pico_bootrom_rp.Common.{
  ℕ, ◌+◌, ◌≡◌, ◌≢◌, refl, Bool, false, ◌==◌, if◌then◌else◌, u32, set_bit, xor_bits, arith,
  Bool-cases, inl, inr,
}
use pico_bootrom_rp.Common.Bits.{xor_bits-cancel}
use pico_bootrom_rp.Watchdog.{
  Watchdog, enter, enter_main, magic, neg32, set_entry, watchdog_reboot, reset_usb_boot, check_wdog,
  usb_boot_reboot_wrapper,
}

-- The check passes on what `watchdog_reboot` writes.
magic-passes : (thumb : ℕ) → u32 (magic + xor_bits 32 (xor_bits 32 thumb (neg32 magic)) thumb) ≡ 0
magic-passes thumb =
    let back = xor_bits-cancel 32 thumb (neg32 magic) (omega arith) in omega (arith, back)

-- After a reboot to an address the check enters that address, in thumb mode and with that stack pointer,
-- and after a reboot to address 0 it enters `main`; either way the next restart enters `main`.
pub check_wdog-watchdog_reboot :
    (fpga : Bool) (pc sp delay_ms : ℕ) (w : Watchdog)
    → let after = check_wdog (watchdog_reboot fpga pc sp delay_ms w) in
      (after.1 ≡ (if pc == 0 then enter_main else enter (set_bit pc 0) sp))
      × ((check_wdog after.0).1 ≡ enter_main)
unfolding watchdog_reboot set_entry check_wdog
check_wdog-watchdog_reboot fpga pc sp delay_ms w = elim (Bool-cases (pc == 0)) [
  | inl e ↦ rw e (refl, refl)
  | inr e ↦ rw (e, magic-passes (set_bit pc 0)) (refl, refl)
]

-- Code that asks for the USB boot gets there on the restart, with its two masks.
pub reset_usb_boot-arrives :
    (fpga : Bool) (wrapper sram_end gpio_mask disable_mask : ℕ) (w : Watchdog)
    → wrapper ≢ 0
    → let after = check_wdog (reset_usb_boot fpga wrapper sram_end gpio_mask disable_mask w) in
      (after.1 ≡ enter (set_bit wrapper 0) sram_end)
      × (usb_boot_reboot_wrapper after.0 ≡ (gpio_mask, disable_mask))
unfolding reset_usb_boot watchdog_reboot set_entry check_wdog usb_boot_reboot_wrapper
reset_usb_boot-arrives fpga wrapper sram_end gpio_mask disable_mask w h =
    let e : (wrapper == 0) ≡ false = ground arith in
    rw (e, magic-passes (set_bit wrapper 0)) (refl, refl)
