-- ===== src/Boot.antt =====
-- bootrom/bootrom_main.c: what the chip boots into, and bootrom_misc.S: the checksum of the second stage.
pub mod ClockSetup
pub mod Choice
pub mod Safe
mod Tests
use pico_bootrom_rp.Common.{
  ℕ, zero, suc, ◌+◌, ◌-◌, ◌*◌, ◌/◌, ◌%◌, ◌^◌, Bool, true, false, List, [], ◌∷◌, Option, none, some,
  ltb, leb, ◌==◌, if◌then◌else◌, take, drop, get_or, test_bit, xor_bits,
}
use pico_bootrom_rp.Boot.ClockSetup.{Clocks, Crystal, usb_clock_setup}

-- The shifts of `crc32_small` for one byte, which stands in the top bits.
unfoldable pub crc_bits : ℕ → ℕ → ℕ
crc_bits zero r = r
crc_bits (suc n) r =
    let shifted = r * 2 % 2 ^ 32 in
    crc_bits n (if leb (2 ^ 31) r then xor_bits 32 shifted 0x4c1_1db7 else shifted)

-- `crc32_small`
unfoldable pub crc32_small : List ℕ → ℕ → ℕ
crc32_small [] sum = sum
crc32_small (b ∷ bytes) sum =
    let top = xor_bits 8 b (sum / 2 ^ 24) * 2 ^ 24 in
    crc32_small bytes (xor_bits 32 (sum * 2 ^ 8 % 2 ^ 32) (crc_bits 8 top))

abbrev pub flash_max_attempts : ℕ
flash_max_attempts = 128

abbrev pub boot2_size_bytes : ℕ
boot2_size_bytes = 256

-- The word at the end of the second stage.
unfoldable pub boot2_sum : List ℕ → ℕ
boot2_sum boot2 =
    let tail = drop (boot2_size_bytes - 4) boot2 in
    get_or tail 0 0 + get_or tail 1 0 * 2 ^ 8 + get_or tail 2 0 * 2 ^ 16 + get_or tail 3 0 * 2 ^ 24

-- Whether the checksum is right.
unfoldable pub checks : List ℕ → Bool
checks boot2 = crc32_small (take (boot2_size_bytes - 4) boot2) 0xffff_ffff == boot2_sum boot2

-- What the chip goes on with: the second stage, with its exit pointer in `lr`; the USB boot, with
-- the masks of the activity pin and of the disabled interfaces; or a wait for a clock that never
-- comes, with the clocks as they then are.
pub data Outcome : Type 0 where
  boot2 : List ℕ → ℕ → Outcome
  usb_boot : Clocks → ℕ → ℕ → Outcome
  waits : Clocks → Outcome

-- What the flash chip returns on an attempt in a SPI mode, CPOL and CPHA as two bits.
module _ (flash : ℕ → ℕ → List ℕ) where
  -- `cpol_cpha`, and `flash_read_data` in that mode.
  unfoldable pub attempted : ℕ → List ℕ
  attempted attempt = take boot2_size_bytes (flash attempt (attempt % 4))

  -- The loop of `_flash_boot`, with the attempts left.
  unfoldable pub flash_boot_from : ℕ → ℕ → Option (List ℕ)
  flash_boot_from attempt zero = none
  flash_boot_from attempt (suc left) = elim (checks (attempted attempt)) [
    | true ↦ some (attempted attempt)
    | false ↦ flash_boot_from (attempt + 1) left
  ]

  -- `_flash_boot`: the second stage that it enters, or nothing where it returns.
  unfoldable pub flash_boot : Option (List ℕ)
  flash_boot = flash_boot_from 0 flash_max_attempts

-- `sum` in `main`, of the samples of the pin that are left.
unfoldable pub sample_sum : (ℕ → Bool) → ℕ → ℕ → ℕ
sample_sum pin i zero = 0
sample_sum pin i (suc left) = (if pin i then 1 else 0) + sample_sum pin (i + 1) left

-- `_usb_boot`, up to the worker.
unfoldable pub usb_boot_after : Bool → ℕ → ℕ → Clocks × Bool → Outcome
usb_boot_after running_on_fpga gpio_mask disable_mask (c, true) = usb_boot c gpio_mask disable_mask
usb_boot_after running_on_fpga gpio_mask disable_mask (c, false) = waits c

unfoldable pub usb_boot_setup : Bool → Crystal → ℕ → ℕ → Clocks → Outcome
usb_boot_setup running_on_fpga crystal gpio_mask disable_mask c =
    usb_boot_after running_on_fpga gpio_mask disable_mask
      (if running_on_fpga then (c, true) else usb_clock_setup crystal c)

-- The end of `main`, behind `_flash_boot`.
unfoldable pub boot_after : Bool → Crystal → Clocks → Option (List ℕ) → Outcome
boot_after running_on_fpga crystal c none = usb_boot_setup running_on_fpga crystal 0 0 c
boot_after running_on_fpga crystal c (some stage) = boot2 stage 0

-- `main`
unfoldable pub main : Bool → Crystal → (ℕ → Bool) → (ℕ → ℕ → List ℕ) → Clocks → Outcome
main running_on_fpga crystal pin flash c =
    boot_after running_on_fpga crystal c
      (if leb 5 (sample_sum pin 0 9) then flash_boot flash else none)
