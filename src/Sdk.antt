-- ===== src/Sdk.antt =====
-- The constants that the code takes from the headers of the Pico SDK, a git submodule of the
-- repository: hardware/regs/addressmap.h, boot/picoboot.h and boot/uf2.h. They are parameters of
-- the models, with the documented facts that the code relies on.
use pico_bootrom_rp.Common.{ℕ, ◌+◌, ◌^◌, ◌%◌, ◌≤◌, ◌<◌, ◌≡◌, ◌≢◌, arith}

pub record Sdk : Type 0 where
  pub xip_main_base : ℕ
  pub xip_sram_base : ℕ
  pub xip_sram_end : ℕ
  pub sram_base : ℕ
  pub sram_end : ℕ
  pub picoboot_magic : ℕ
  pub picoboot_ok : ℕ
  pub picoboot_unknown_cmd : ℕ
  pub picoboot_invalid_cmd_length : ℕ
  pub picoboot_invalid_transfer_length : ℕ
  pub picoboot_invalid_address : ℕ
  pub picoboot_bad_alignment : ℕ
  pub picoboot_interleaved_write : ℕ
  pub picoboot_rebooting : ℕ
  pub exclusive_and_eject : ℕ
  pub pc_reboot : ℕ
  pub sizeof_picoboot_cmd : ℕ
  pub sizeof_exclusive_cmd : ℕ
  pub sizeof_reboot_cmd : ℕ
  pub sizeof_range_cmd : ℕ
  pub sizeof_address_only_cmd : ℕ
  pub uf2_magic_start0 : ℕ
  pub uf2_magic_start1 : ℕ
  pub uf2_magic_end : ℕ
  pub rp2040_family_id : ℕ
  pub uf2_flag_not_main_flash_bit : ℕ  -- the position of the one bit of the mask
  pub uf2_flag_family_id_present_bit : ℕ

-- The address map of the data sheet: flash below RAM, the XIP cache RAM in between, and all of it
-- in 32 bits. The flash window and the RAM begin at a multiple of the erase size.
pub record IsMap (sdk : Sdk) : Type 0 where
  pub flash_first : 8192 < sdk.xip_main_base
  pub flash_room : sdk.xip_main_base + 0x100_0000 ≤ sdk.xip_sram_base
  pub cache_size : sdk.xip_sram_end ≡ sdk.xip_sram_base + 0x4000
  pub cache_below : sdk.xip_sram_end + 0x1000 ≤ sdk.sram_base
  pub sram_room : sdk.sram_base + 0x1000 ≤ sdk.sram_end
  pub fits : sdk.sram_end + 0x1000 < 2 ^ 32
  pub flash_aligned : sdk.xip_main_base % 4096 ≡ 0
  pub sram_aligned : sdk.sram_base % 4096 ≡ 0

-- The status codes of boot/picoboot.h: only success is 0.
pub record IsStatus (sdk : Sdk) : Type 0 where
  pub ok_zero : sdk.picoboot_ok ≡ 0
  pub address_ne : sdk.picoboot_invalid_address ≢ 0
  pub alignment_ne : sdk.picoboot_bad_alignment ≢ 0
  pub interleaved_ne : sdk.picoboot_interleaved_write ≢ 0
  pub rebooting_ne : sdk.picoboot_rebooting ≢ 0
  pub unknown_ne : sdk.picoboot_unknown_cmd ≢ 0
  pub cmd_length_ne : sdk.picoboot_invalid_cmd_length ≢ 0
  pub transfer_length_ne : sdk.picoboot_invalid_transfer_length ≢ 0

-- The values of the SDK for the RP2040.
abbrev pub rp2040 : Sdk
rp2040 = record {
  xip_main_base = 0x1000_0000;
  xip_sram_base = 0x1500_0000;
  xip_sram_end = 0x1500_4000;
  sram_base = 0x2000_0000;
  sram_end = 0x2004_2000;
  picoboot_magic = 0x431f_d10b;
  picoboot_ok = 0;
  picoboot_unknown_cmd = 1;
  picoboot_invalid_cmd_length = 2;
  picoboot_invalid_transfer_length = 3;
  picoboot_invalid_address = 4;
  picoboot_bad_alignment = 5;
  picoboot_interleaved_write = 6;
  picoboot_rebooting = 7;
  exclusive_and_eject = 2;
  pc_reboot = 2;
  sizeof_picoboot_cmd = 32;
  sizeof_exclusive_cmd = 1;
  sizeof_reboot_cmd = 12;
  sizeof_range_cmd = 8;
  sizeof_address_only_cmd = 4;
  uf2_magic_start0 = 0x0a32_4655;
  uf2_magic_start1 = 0x9e5d_5157;
  uf2_magic_end = 0x0ab1_6f30;
  rp2040_family_id = 0xe48b_ff56;
  uf2_flag_not_main_flash_bit = 0;
  uf2_flag_family_id_present_bit = 13;
}

pub rp2040-IsMap : IsMap rp2040
rp2040-IsMap = omega arith

pub rp2040-IsStatus : IsStatus rp2040
rp2040-IsStatus = omega arith
