-- ===== src/Address.antt =====
-- The address tests of bootrom/usb_boot_device.h, which every access of a task passes. Both ends
-- of a range are inclusive there.
use pico_bootrom_rp.Common.{ℕ, Bool, ◌&&◌, ◌||◌, leb, ltb}
use pico_bootrom_rp.Sdk.{Sdk}

module _ (sdk : Sdk) where
  open sdk use {xip_main_base, xip_sram_base, xip_sram_end, sram_base, sram_end}

  unfoldable pub is_address_ram : ℕ → Bool
  is_address_ram addr =
      (leb sram_base addr && leb addr sram_end) || (leb xip_sram_base addr && leb addr xip_sram_end)

  unfoldable pub is_address_flash : ℕ → Bool
  is_address_flash addr = leb xip_main_base addr && leb addr sram_base

unfoldable pub is_address_rom : ℕ → Bool
is_address_rom addr = ltb addr 8192
