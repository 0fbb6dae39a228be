-- ===== src/Volume/Tests.antt =====
-- A small page with two places for the serial number.
use pico_bootrom_rp.Common.{ℕ, ◌+◌, ◌≡◌, refl, List, some, codes, length, false, arith}
use pico_bootrom_rp.Text.{is_text, compress_from}
use pico_bootrom_rp.Volume.{
  Contents, SerialNumber, sector, data_sector, mirror, memcpy_at, vd_read_block,
}
use pico_bootrom_rp.Volume.Host.{read_file}
use pico_bootrom_rp.Volume.Sectors.{vd_read_block-IsSector}
use pico_bootrom_rp.Volume.Files.{IsGenerated, numbered, read_file-contents}

abbrev page : List ℕ
page = codes "<a v=aabbccddeeff>aabbccddeeff</a>"

abbrev contents : Contents
contents = record {
  serial_number_string = codes "E0B1C2D3F4A5";
  welcome_html_z = compress_from page (length page + 1) 0;
  welcome_html_len = 34;
  welcome_html_version_offset_1 = 5;
  welcome_html_version_offset_2 = 18;
  info_uf2_txt = codes "Board-ID: RPI-RP2";
}

contents-IsGenerated : IsGenerated contents page
unfolding is_text
contents-IsGenerated = record {
  ascii = refl;
  compressed = refl;
  len = refl;
  place_1 = omega arith;
  place_2 = omega arith;
  welcome_fits = omega arith;
  info_fits = omega arith;
}

numbered_test : numbered contents page ≡ codes "<a v=E0B1C2D3F4A5>E0B1C2D3F4A5</a>"
unfolding memcpy_at
numbered_test = refl

read_file-contents_example :
    (read_file (sector contents 7) (codes "INDEX   HTM") ≡ some (numbered contents page))
    × (read_file (sector contents 7) (codes "INFO_UF2TXT") ≡ some (codes "Board-ID: RPI-RP2"))
read_file-contents_example = read_file-contents contents page contents-IsGenerated 7

abbrev unset : SerialNumber
unset = record { serial_number32 = 0; serial_number_valid = false }

-- A sector of the second FAT.
fat_test : sector contents 7 (2 + 129) ≡ sector contents 7 2
unfolding sector data_sector mirror
fat_test = refl

vd_read_block-IsSector_example : length (vd_read_block contents 5 300 unset).1 ≡ 512
vd_read_block-IsSector_example =
    vd_read_block-IsSector contents page contents-IsGenerated 5 300 unset
