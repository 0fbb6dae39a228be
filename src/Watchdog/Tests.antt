-- ===== src/Watchdog/Tests.antt =====
-- A reboot into RAM, and one into the USB boot.
use pico_bootrom_rp.Common.{◌≡◌, refl, false, arith, set_bit, xor_bits}
use pico_bootrom_rp.Watchdog.{
  Watchdog, enter, enter_main, set_entry, watchdog_reboot, reset_usb_boot, check_wdog,
  usb_boot_reboot_wrapper,
}
use pico_bootrom_rp.Watchdog.Restart.{check_wdog-watchdog_reboot, reset_usb_boot-arrives}

abbrev idle : Watchdog
idle = record {
  scratch0 = 0;
  scratch1 = 0;
  scratch4 = 0;
  scratch5 = 0;
  scratch6 = 0;
  scratch7 = 0;
  load = 0;
  tick = 0;
  tick_enable = false;
  pause = false;
  enable = false;
  keeps_oscillators = false;
  ref_is_xosc = false;
  rebooting = false;
}

scratch_test : (watchdog_reboot false 0x2000_0000 0x2004_2000 500 idle).scratch5 ≡ 0x6ff8_3f2c
unfolding watchdog_reboot set_entry xor_bits set_bit
scratch_test = refl

check_wdog-watchdog_reboot_example :
    let after = check_wdog (watchdog_reboot false 0x2000_0000 0x2004_2000 500 idle) in
    (after.1 ≡ enter (set_bit 0x2000_0000 0) 0x2004_2000) × ((check_wdog after.0).1 ≡ enter_main)
check_wdog-watchdog_reboot_example =
    check_wdog-watchdog_reboot false 0x2000_0000 0x2004_2000 500 idle

reset_usb_boot-arrives_example :
    let after = check_wdog (reset_usb_boot false 0x1234 0x2004_2000 0x200_0000 1 idle) in
    (after.1 ≡ enter (set_bit 0x1234 0) 0x2004_2000)
    × (usb_boot_reboot_wrapper after.0 ≡ (0x200_0000, 1))
reset_usb_boot-arrives_example =
    reset_usb_boot-arrives false 0x1234 0x2004_2000 0x200_0000 1 idle (omega arith)
