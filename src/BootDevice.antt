-- ===== src/BootDevice.antt =====
-- bootrom/usb_boot_device.c: the descriptors of the boot device, its strings, and how it is set up.
pub mod Serial
pub mod Requests
mod Tests
use pico_bootrom_rp.Common.{
  ℕ, zero, suc, ◌+◌, ◌-◌, ◌*◌, ◌/◌, ◌%◌, Bool, true, false, List, [], ◌∷◌, ◌++◌, Option, none, some,
  ◌>>=◌, ltb, leb, ◌==◌, if◌then◌else◌, u8, u32, length, get_or, drop, replicate, codes, set,
  get_elem?,
}
use pico_bootrom_rp.Usb.Setup.{BulkEndpoint, Device}
use pico_bootrom_rp.Usb.Interfaces.{Endpoints, interface_init, device_init}

-- `#define to_hex_digit(x)`, as a character code.
unfoldable pub to_hex_digit : ℕ → ℕ
to_hex_digit x = if ltb x 10 then 0x30 + x else 0x41 + x - 10

-- The loop of `_write_six_msb_hex_chars`, for the characters that are left.
unfoldable pub write_hex_chars : ℕ → ℕ → List ℕ
write_hex_chars zero val = []
write_hex_chars (suc i) val =
    to_hex_digit (val / 0x1000_0000) ∷ write_hex_chars i (u32 (val * 0x10))

-- `_write_six_msb_hex_chars`
unfoldable pub write_six_msb_hex_chars : ℕ → List ℕ
write_six_msb_hex_chars val = write_hex_chars 6 val

-- `serial_number_string` up to its zero, from the revision of the hardware and that of the software.
unfoldable pub serial_number_string : ℕ → ℕ → List ℕ
serial_number_string gitref software_git_revision =
    write_six_msb_hex_chars gitref ++ write_six_msb_hex_chars software_git_revision

unfoldable pub descriptor_strings : ℕ → ℕ → List (List ℕ)
descriptor_strings gitref software_git_revision =
    []
    ∷ codes "Raspberry Pi"
    ∷ codes "RP2 Boot"
    ∷ serial_number_string gitref software_git_revision
    ∷ []

-- `_get_descriptor_string`
unfoldable pub get_descriptor_string : ℕ → ℕ → ℕ → List ℕ
get_descriptor_string gitref software_git_revision index =
    let strings = descriptor_strings gitref software_git_revision in
    let i = if leb (length strings) index then 0 else index in get_or strings i []

-- `desc`, `ep1_desc` and `ep2_desc` of the mass storage interface.
abbrev pub msc_interface_desc : List ℕ
msc_interface_desc =
    (0x09 ∷ 0x04 ∷ 0x00 ∷ 0x00 ∷ 0x02 ∷ 0x08 ∷ 0x06 ∷ 0x50 ∷ 0x00 ∷ [])
    ++ ((0x07 ∷ 0x05 ∷ 0x81 ∷ 0x02 ∷ 0x40 ∷ 0x00 ∷ 0x00 ∷ [])
        ++ (0x07 ∷ 0x05 ∷ 0x02 ∷ 0x02 ∷ 0x40 ∷ 0x00 ∷ 0x00 ∷ []))

-- The same of the PICOBOOT interface.
abbrev pub picoboot_interface_desc : List ℕ
picoboot_interface_desc =
    (0x09 ∷ 0x04 ∷ 0x01 ∷ 0x00 ∷ 0x02 ∷ 0xff ∷ 0x00 ∷ 0x00 ∷ 0x00 ∷ [])
    ++ ((0x07 ∷ 0x05 ∷ 0x03 ∷ 0x02 ∷ 0x40 ∷ 0x00 ∷ 0x00 ∷ [])
        ++ (0x07 ∷ 0x05 ∷ 0x84 ∷ 0x02 ∷ 0x40 ∷ 0x00 ∷ 0x00 ∷ []))

-- `interface_desc`
abbrev pub interface_desc : List ℕ
interface_desc = msc_interface_desc ++ picoboot_interface_desc

-- `boot_device_config`, with its size in `wTotalLength`.
abbrev pub boot_device_config : List ℕ
boot_device_config =
    let total = 9 + length interface_desc in
    (0x09 ∷ 0x02 ∷ u8 total ∷ total / 0x100 ∷ 2 ∷ 0x01 ∷ 0x00 ∷ 0x80 ∷ 0xfa ∷ []) ++ interface_desc

-- `VENDOR_ID` and `PRODUCT_ID`
abbrev pub vendor_id : ℕ
vendor_id = 0x2e8a

abbrev pub product_id : ℕ
product_id = 0x0003

abbrev pub boot_device_descriptor : List ℕ
boot_device_descriptor =
    18
    ∷ 0x01
    ∷ 0x10
    ∷ 0x01
    ∷ 0x00
    ∷ 0x00
    ∷ 0x00
    ∷ 0x40
    ∷ u8 vendor_id
    ∷ vendor_id / 0x100
    ∷ u8 product_id
    ∷ product_id / 0x100
    ∷ 0x00
    ∷ 0x01
    ∷ 0x01
    ∷ 0x02
    ∷ 3
    ∷ 0x01
    ∷ []

-- `USB_MAX_ENDPOINTS`
abbrev pub usb_max_endpoints : ℕ
usb_max_endpoints = 5

-- `usb_set_default_transfer` of the endpoint with that number, with the packet count of the transfer's type.
unfoldable pub with_default_transfer : ℕ → ℕ → Endpoints → Endpoints
with_default_transfer num count [] = []
with_default_transfer zero count (none ∷ eps) = none ∷ eps
with_default_transfer zero count (some b ∷ eps) =
    some (record b { default_transfer = some count }) ∷ eps
with_default_transfer (suc num) count (e ∷ eps) = e ∷ with_default_transfer num count eps

-- `usb_boot_device_init` up to `usb_device_start`: the interfaces begin behind the configuration's nine
-- bytes, `picoboot_out` is endpoint 3.
unfoldable pub usb_boot_device_init : Option Device
usb_boot_device_init = do
  with_msc ← interface_init (drop 9 boot_device_config) 2 true (replicate usb_max_endpoints none)
  with_picoboot ←
      interface_init (drop (9 + length msc_interface_desc) boot_device_config) 2 true with_msc
  let eps = with_default_transfer 3 1 with_picoboot
  some (device_init boot_device_descriptor boot_device_config 2 eps)
