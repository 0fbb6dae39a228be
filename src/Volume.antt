-- ===== src/Volume.antt =====
-- The read side of bootrom/virtual_disk.c: the sectors of a FAT16 volume that the code makes up as they
-- are asked for, with the constants of virtual_disk.h, and the serial number of usb_boot_device.c.
pub mod Host
pub mod Layout
pub mod Bytes
pub mod Files
pub mod Sectors
mod Tests
use pico_bootrom_rp.Common.{
  ℕ, zero, suc, ◌+◌, ◌-◌, ◌*◌, ◌/◌, ◌%◌, ◌^◌, Bool, true, false, ◌||◌, List, [], ◌∷◌, ◌++◌, ltb,
  leb, ◌==◌, if◌then◌else◌, take, drop, length, replicate, codes,
}
use mathlib.Core.List.{flatten}
use pico_bootrom_rp.Text.Inflate.{poor_mans_text_decompress}

abbrev pub sector_size : ℕ
sector_size = 512

abbrev pub volume_size : ℕ
volume_size = 128 * 1024 * 1024

abbrev pub sector_count : ℕ
sector_count = volume_size / sector_size

abbrev pub volume_sector_count : ℕ
volume_sector_count = sector_count - 1

abbrev pub cluster_size : ℕ
cluster_size = 4096

abbrev pub cluster_shift : ℕ
cluster_shift = 3

abbrev pub cluster_count : ℕ
cluster_count = volume_size / cluster_size

abbrev pub fat_count : ℕ
fat_count = 2

abbrev pub max_root_directory_entries : ℕ
max_root_directory_entries = 512

abbrev pub root_directory_sectors : ℕ
root_directory_sectors = max_root_directory_entries * 32 / sector_size

abbrev pub sectors_per_fat : ℕ
sectors_per_fat = 2 * (cluster_count + sector_size - 1) / sector_size

-- What the sectors are made of: `serial_number_string`, and of the generated header the two texts and
-- where the first of them has the place of the serial number.
pub record Contents : Type 0 where
  pub serial_number_string : List ℕ
  pub welcome_html_z : List ℕ
  pub welcome_html_len : ℕ
  pub welcome_html_version_offset_1 : ℕ
  pub welcome_html_version_offset_2 : ℕ
  pub info_uf2_txt : List ℕ

-- `lsb_hword` and `lsb_word`
abbrev pub lsb_hword : ℕ → List ℕ
lsb_hword x = x % 256 ∷ x / 256 % 256 ∷ []

abbrev pub lsb_word : ℕ → List ℕ
lsb_word x = x % 256 ∷ x / 256 % 256 ∷ x / 2 ^ 16 % 256 ∷ x / 2 ^ 24 % 256 ∷ []

-- `memcpy(buf + at, bytes, length)`. A copy beyond the end of the buffer makes the list longer.
unfoldable pub memcpy_at : ℕ → List ℕ → List ℕ → List ℕ
memcpy_at zero [] buf = buf
memcpy_at zero (b ∷ bytes) [] = b ∷ memcpy_at zero bytes []
memcpy_at zero (b ∷ bytes) (x ∷ buf) = b ∷ memcpy_at zero bytes buf
memcpy_at (suc at) bytes [] = 0 ∷ memcpy_at at bytes []
memcpy_at (suc at) bytes (x ∷ buf) = x ∷ memcpy_at at bytes buf

-- `memset0(buf, SECTOR_SIZE)`
unfoldable pub zero_sector : List ℕ
zero_sector = replicate sector_size 0

abbrev pub boot_label : List ℕ
boot_label = codes "RPI-RP2    "

-- `boot_sector`
unfoldable pub boot_sector : List ℕ
unfolding flatten
boot_sector = flatten (
    (0xeb ∷ 0x3c ∷ 0x90 ∷ [])
    ∷ codes "MSWIN4.1"
    ∷ lsb_hword 512
    ∷ (cluster_size / sector_size ∷ [])
    ∷ lsb_hword 1
    ∷ (fat_count ∷ [])
    ∷ lsb_hword max_root_directory_entries
    ∷ lsb_hword 0
    ∷ (0xf8 ∷ [])
    ∷ lsb_hword sectors_per_fat
    ∷ lsb_hword 1
    ∷ lsb_hword 1
    ∷ lsb_word (sector_count - volume_sector_count)
    ∷ lsb_word volume_sector_count
    ∷ (0 ∷ 0 ∷ 0x29 ∷ 0 ∷ 0 ∷ 0 ∷ 0 ∷ [])
    ∷ boot_label
    ∷ codes "FAT16   "
    ∷ (0xeb ∷ 0xfe ∷ [])
    ∷ [])

-- `init_dir_entry` of the entry at this offset, with RASPBERRY_PI_TIME_FRAC, RASPBERRY_PI_TIME,
-- RASPBERRY_PI_DATE and ATTR_READONLY | ATTR_ARCHIVE.
unfoldable pub init_dir_entry : ℕ → List ℕ → ℕ → ℕ → List ℕ → List ℕ
unfolding memcpy_at
init_dir_entry at fn cluster len buf =
    let time = 16 * 2 ^ 11 + 20 * 2 ^ 5 + 51 / 2 in
    let date = 28 * 2 ^ 9 + 9 * 2 ^ 5 + 5 in
    let created =
      memcpy_at (at + 13) (100 ∷ []) (memcpy_at (at + 14) (lsb_hword time ++ lsb_hword date) buf) in
    let modified = memcpy_at (at + 22) (lsb_hword time ++ lsb_hword date) created in
    let named = memcpy_at at (take 11 fn) modified in
    memcpy_at (at + 28) (lsb_word len)
      (memcpy_at (at + 26) (lsb_hword cluster) (memcpy_at (at + 11) (0x21 ∷ []) named))

-- The sector with the partition table: `_ptable_data4` is four bytes behind its start, 66 bytes
-- before the end of the sector.
unfoldable pub partition_sector : ℕ → List ℕ
unfolding memcpy_at zero_sector
partition_sector sn =
    let ptable = sector_size - 2 - 64 in
    let data4 =
      (0xe ∷ 0 ∷ 0 ∷ 0 ∷ [])
      ++ (lsb_word 1
          ++ ((sector_count - 1) % 256
              ∷ (sector_count - 1) / 2 ^ 8 % 256
              ∷ (sector_count - 1) / 2 ^ 16 % 256
              ∷ [])) in
    memcpy_at 0x1b8 (lsb_word sn)
      (memcpy_at (ptable + 64) (0x55 ∷ 0xaa ∷ []) (memcpy_at (ptable + 4) data4 zero_sector))

unfoldable pub volume_sector : ℕ → List ℕ
unfolding memcpy_at boot_sector zero_sector
volume_sector sn = memcpy_at 0x27 (lsb_word sn) (memcpy_at 0 boot_sector zero_sector)

-- `while (lba >= SECTORS_PER_FAT) lba -= SECTORS_PER_FAT;`
unfoldable pub mirror : ℕ → ℕ → ℕ
mirror zero lba = lba
mirror (suc fuel) lba = elim (leb sectors_per_fat lba) [
  | true ↦ mirror fuel (lba - sectors_per_fat)
  | false ↦ lba
]

-- A sector of a FAT: the four entries that are in use.
unfoldable pub fat_sector : ℕ → List ℕ
unfolding memcpy_at zero_sector
fat_sector lba =
    if lba == 0
    then memcpy_at 0
        (lsb_hword 0xfff8 ++ (lsb_hword 0xffff ++ (lsb_hword 0xffff ++ lsb_hword 0xffff)))
        zero_sector
    else zero_sector

module _ (c : Contents) where
  unfoldable pub root_sector : ℕ → List ℕ
  unfolding init_dir_entry memcpy_at boot_sector zero_sector
  root_sector lba =
      if lba == 0
      then init_dir_entry 64 (codes "INFO_UF2TXT") 3 (length c.info_uf2_txt) (
          init_dir_entry 32 (codes "INDEX   HTM") 2 c.welcome_html_len
            (memcpy_at 11 (0x28 ∷ []) (memcpy_at 0 (take 11 (drop 0x2b boot_sector)) zero_sector)))
      else zero_sector

  -- The text of INDEX.HTM, with the serial number at its two places.
  unfoldable pub welcome_sector : List ℕ
  welcome_sector = memcpy_at c.welcome_html_version_offset_2 (take 12 c.serial_number_string) (
      memcpy_at c.welcome_html_version_offset_1 (take 12 c.serial_number_string)
        (memcpy_at 0 (poor_mans_text_decompress c.welcome_html_z) zero_sector))

  unfoldable pub file_sector : ℕ → List ℕ
  file_sector lba =
      let cluster = lba / 2 ^ cluster_shift in
      let cluster_offset = lba - cluster * 2 ^ cluster_shift in
      if cluster_offset == 0
      then (if cluster == 0
          then welcome_sector
          else if cluster == 1
          then memcpy_at 0 c.info_uf2_txt zero_sector
          else zero_sector)
      else zero_sector

  -- The sectors from the first of the FATs on.
  unfoldable pub data_sector : ℕ → List ℕ
  data_sector lba =
      if ltb lba (sectors_per_fat * fat_count)
      then fat_sector (mirror fat_count lba)
      else let in_root = lba - sectors_per_fat * fat_count in
        if ltb in_root root_directory_sectors
        then root_sector in_root
        else file_sector (in_root - root_directory_sectors)

  -- `vd_read_block`, with the serial number that `msc_get_serial_number32` returns.
  unfoldable pub sector : ℕ → ℕ → List ℕ
  sector sn lba =
      if lba == 0
      then partition_sector sn
      else if lba - 1 == 0
      then volume_sector sn
      else data_sector (lba - 1 - 1)

-- `boot_device_state`
pub record SerialNumber : Type 0 where
  pub serial_number32 : ℕ
  pub serial_number_valid : Bool

-- `msc_get_serial_number32`, when `time_us_32` returns `now`: the state behind it. What it returns
-- is the number of that state.
unfoldable pub msc_get_serial_number32 : ℕ → SerialNumber → SerialNumber
msc_get_serial_number32 now s =
    if s.serial_number_valid
    then s
    else record { serial_number32 = now; serial_number_valid = true }

-- `vd_read_block`, which asks for the serial number only where it needs it.
unfoldable pub vd_read_block : Contents → ℕ → ℕ → SerialNumber → SerialNumber × List ℕ
vd_read_block c now lba s =
    let after = if lba == 0 || lba == 1 then msc_get_serial_number32 now s else s in
    (after, sector c after.serial_number32 lba)
