-- ===== src/BootDevice/Tests.antt =====
-- The boot device as it is set up.
use pico_bootrom_rp.Common.{
  ℕ, ◌+◌, ◌*◌, ◌/◌, ◌≡◌, refl, true, List, [], ◌∷◌, Option, none, some, map, arith, length, codes,
  replicate, ◌++◌,
}
use pico_bootrom_rp.Usb.Setup.{Device, BulkEndpoint}
use pico_bootrom_rp.Usb.Interfaces.{
  stop_at, next_descriptor, ep_num_of, endpoint_of, init_endpoints, interface_init, present,
  visited, device_init,
}
use pico_bootrom_rp.Usb.Interfaces.Descriptors.{
  Descriptor, endpoint_descriptor, other_descriptor, encode, encode_all, endpoints_of,
  interface_init-endpoints_of,
}
use pico_bootrom_rp.Usb.Reset.{
  endpoint_init_internal, buffer_bytes, endpoint_hw_init, for_each_hw_init,
}
use pico_bootrom_rp.BootDevice.{
  usb_max_endpoints, boot_device_config, boot_device_descriptor, with_default_transfer,
  usb_boot_device_init, serial_number_string, get_descriptor_string, to_hex_digit, write_hex_chars,
  write_six_msb_hex_chars, descriptor_strings,
}
use pico_bootrom_rp.BootDevice.Serial.{hex_value, all_upper_hex, serial_number_string-value}

total_length_test : length boot_device_config ≡ 55
total_length_test = refl

descriptor_length_test : length boot_device_descriptor ≡ 18
descriptor_length_test = refl

serial_test : serial_number_string 0xe0c9_1234 0x0a1b_2c3d ≡ codes "E0C9120A1B2C"
unfolding serial_number_string write_six_msb_hex_chars write_hex_chars to_hex_digit
serial_test = refl

string_test : get_descriptor_string 0 0 2 ≡ codes "RP2 Boot"
unfolding get_descriptor_string descriptor_strings
string_test = refl

unknown_string_test : get_descriptor_string 0 0 4 ≡ []
unfolding get_descriptor_string descriptor_strings
unknown_string_test = refl

addresses : Option Device → List ℕ
addresses none = []
addresses (some dev) = map (λ (b : BulkEndpoint). b.address) dev.endpoints

offsets : Option Device → List ℕ
offsets none = []
offsets (some dev) = map (λ (b : BulkEndpoint). b.endpoint.dpram_buffer_offset) dev.endpoints

addresses_test : addresses usb_boot_device_init ≡ 0x81 ∷ 0x02 ∷ 0x03 ∷ 0x84 ∷ []
unfolding usb_boot_device_init interface_init init_endpoints next_descriptor stop_at ep_num_of
    endpoint_of with_default_transfer device_init present visited addresses for_each_hw_init
    endpoint_hw_init
addresses_test = refl

offsets_test : offsets usb_boot_device_init ≡ 0x180 ∷ 0x200 ∷ 0x280 ∷ 0x300 ∷ []
unfolding usb_boot_device_init interface_init init_endpoints next_descriptor stop_at ep_num_of
    endpoint_of with_default_transfer device_init present visited offsets for_each_hw_init
    endpoint_hw_init endpoint_init_internal buffer_bytes
offsets_test = refl

serial_number_string-value_example :
    (length (serial_number_string 0xe0c9_1234 0x0a1b_2c3d) ≡ 12)
    × (all_upper_hex (serial_number_string 0xe0c9_1234 0x0a1b_2c3d) ≡ true)
    × (hex_value 0 (serial_number_string 0xe0c9_1234 0x0a1b_2c3d)
        ≡ 0xe0c9_1234 / 0x100 * 0x100_0000 + 0x0a1b_2c3d / 0x100)
serial_number_string-value_example =
    serial_number_string-value 0xe0c9_1234 0x0a1b_2c3d (omega arith) (omega arith)

-- The descriptors behind that of the PICOBOOT interface, with one of another type between them.
abbrev picoboot_descriptors : List Descriptor
picoboot_descriptors =
    endpoint_descriptor 0x03 2 64 0
    ∷ other_descriptor 0x24 (0 ∷ 1 ∷ [])
    ∷ endpoint_descriptor 0x84 2 64 0
    ∷ []

interface_init-endpoints_of_example :
    interface_init
      (encode (other_descriptor 4 (1 ∷ 0 ∷ 2 ∷ 0xff ∷ 0 ∷ 0 ∷ 0 ∷ []))
        ++ encode_all picoboot_descriptors)
      2
      true
      (replicate usb_max_endpoints none)
    ≡ endpoints_of true 2 picoboot_descriptors (replicate usb_max_endpoints none)
interface_init-endpoints_of_example =
    interface_init-endpoints_of (1 ∷ 0 ∷ 2 ∷ 0xff ∷ 0 ∷ 0 ∷ 0 ∷ []) 2 true picoboot_descriptors
      (replicate usb_max_endpoints none) (omega arith)
      (omega arith, ((refl, omega arith), (omega arith, tt)))
