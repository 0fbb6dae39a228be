-- ===== src/Volume/Files.antt =====
-- What a host reads: the two files, and 512 bytes from every sector.
use pico_bootrom_rp.Common.{
  ℕ, suc, ◌+◌, ◌-◌, ◌*◌, ◌%◌, ◌^◌, ◌≤◌, ◌<◌, ◌≡◌, ◌∙◌, refl, ap, List, [], ◌++◌, some, true, false,
  leb, codes, take, drop, length, length-take, arith,
}
use pico_bootrom_rp.Text.{is_text, compress_from}
use pico_bootrom_rp.Text.Inflate.{inflate-compress}
use pico_bootrom_rp.Volume.{
  Contents, sector, data_sector, root_sector, welcome_sector, file_sector, zero_sector, memcpy_at,
}
use pico_bootrom_rp.Volume.Host.{
  read_word, read_hword, read_cluster, read_sectors, next_cluster, read_chain, read_entry,
  read_file,
}
use pico_bootrom_rp.Volume.Layout.{
  root_entries_lem, sectors_per_cluster_lem, clusters_start_lem, next_cluster-two,
  next_cluster-three, entry_sector_lem, entry_offset_lem, find_entry-index, find_entry-info,
}
use pico_bootrom_rp.Volume.Bytes.{length-memcpy_at, memcpy_at-append, memcpy_at-start, take-append}
use mathlib.Core.List.{append_assoc}

-- A chain of one cluster.
read_chain-one :
    (disk : ℕ → List ℕ) (k fuel : ℕ)
    → leb 0xfff8 k ≡ false
    → next_cluster disk k ≡ 0xffff
    → read_chain disk (suc (suc fuel)) k ≡ read_cluster disk k ++ []
unfolding read_chain
read_chain-one disk k fuel h e = rw (read_chain, h, e) refl

-- A text at the start of a sector comes first in its cluster.
module _ (c : Contents) (sn : ℕ) where
  abbrev rest_of_cluster : ℕ → List ℕ → List ℕ
  rest_of_cluster k rest = rest ++ read_sectors (sector c sn) (292 + (k - 2) * 8 + 1) 7

  cluster-start :
      (k : ℕ) (text rest : List ℕ)
      → sector c sn (292 + (k - 2) * 8) ≡ text ++ rest
      → read_cluster (sector c sn) k ≡ text ++ rest_of_cluster k rest
  unfolding read_cluster read_sectors
  cluster-start k text rest e =
      rw (clusters_start_lem c sn, sectors_per_cluster_lem c sn, e) (append_assoc text rest _)

  -- What the entry says: the length and the cluster.
  read_entry-one :
      (k cluster : ℕ) (text more : List ℕ)
      → k < 16
      → read_word (root_sector c 0) (k * 32 + 28) ≡ length text
      → read_hword (root_sector c 0) (k * 32 + 26) ≡ cluster
      → leb 0xfff8 cluster ≡ false
      → next_cluster (sector c sn) cluster ≡ 0xffff
      → read_cluster (sector c sn) cluster ≡ text ++ more
      → read_entry (sector c sn) (some k) ≡ some text
  unfolding read_entry
  read_entry-one k cluster text more h size first small last same =
      let chain = read_chain-one (sector c sn) cluster (2 ^ 16 - 2) small last in
      rw (entry_sector_lem c sn k h, entry_offset_lem c sn k h, size, first, chain, same)
        (ap some (
          ap (λ (l : List ℕ). take (length text) l) (append_assoc text more [])
          ∙ take-append text (more ++ [])))

  -- The sector where the first file begins.
  welcome-sector : sector c sn 292 ≡ welcome_sector c
  unfolding sector data_sector file_sector
  welcome-sector = refl

  info-sector : sector c sn 300 ≡ memcpy_at 0 c.info_uf2_txt zero_sector
  unfolding sector data_sector file_sector
  info-sector = refl

  index_word : read_word (root_sector c 0) 60 ≡ c.welcome_html_len % 2 ^ 32
  unfolding root_sector
  index_word = omega arith

  info_word : read_word (root_sector c 0) 92 ≡ length c.info_uf2_txt % 2 ^ 32
  unfolding root_sector
  info_word = omega arith

  read_entry-info :
      length c.info_uf2_txt ≤ 512 → read_entry (sector c sn) (some 2) ≡ some c.info_uf2_txt
  unfolding root_sector zero_sector
  read_entry-info fits =
      let rest = drop (length c.info_uf2_txt) zero_sector in
      let start = memcpy_at-start c.info_uf2_txt zero_sector fits in
      read_entry-one 2 3 c.info_uf2_txt (rest_of_cluster 3 rest) (omega arith)
        (info_word ∙ omega arith) refl refl (next_cluster-three c sn)
        (cluster-start 3 c.info_uf2_txt rest (info-sector ∙ start))

-- The text with the serial number at its two places.
abbrev pub numbered : Contents → List ℕ → List ℕ
numbered c text =
    memcpy_at c.welcome_html_version_offset_2 (take 12 c.serial_number_string)
      (memcpy_at c.welcome_html_version_offset_1 (take 12 c.serial_number_string) text)

-- The header that the generator writes for this text: its compressed form, its length, and places for
-- the serial number within it. Both files fit into a sector.
pub record IsGenerated (c : Contents) (text : List ℕ) : Type 0 where
  pub ascii : is_text text ≡ true
  pub compressed : c.welcome_html_z ≡ compress_from text (length text + 1) 0
  pub len : c.welcome_html_len ≡ length text
  pub place_1 : c.welcome_html_version_offset_1 + 12 ≤ length text
  pub place_2 : c.welcome_html_version_offset_2 + 12 ≤ length text
  pub welcome_fits : length text ≤ 512
  pub info_fits : length c.info_uf2_txt ≤ 512

module _ (c : Contents) (text : List ℕ) (g : IsGenerated c text) where
  abbrev string : List ℕ
  string = take 12 c.serial_number_string

  pub welcome_sector-numbered : welcome_sector c ≡ numbered c text ++ drop (length text) zero_sector
  unfolding welcome_sector zero_sector
  welcome_sector-numbered =
      let rest = drop (length text) zero_sector in
      let short = length-take 12 c.serial_number_string in
      let inside_1 = g.place_1 in
      let inside_2 = g.place_2 in
      let same = length-memcpy_at c.welcome_html_version_offset_1 string text (omega arith) in
      rw
        (
          g.compressed,
          inflate-compress text g.ascii,
          memcpy_at-start text zero_sector g.welcome_fits,
          memcpy_at-append c.welcome_html_version_offset_1 string text rest (omega arith),
        )
        (memcpy_at-append c.welcome_html_version_offset_2 string
          (memcpy_at c.welcome_html_version_offset_1 string text) rest (omega arith))

  pub length-numbered : length (numbered c text) ≡ length text
  length-numbered =
      let short = length-take 12 c.serial_number_string in
      let inside_1 = g.place_1 in
      let inside_2 = g.place_2 in
      let once = length-memcpy_at c.welcome_html_version_offset_1 string text (omega arith) in
      length-memcpy_at c.welcome_html_version_offset_2 string
        (memcpy_at c.welcome_html_version_offset_1 string text) (omega arith)
      ∙ once

  read_entry-index : (sn : ℕ) → read_entry (sector c sn) (some 1) ≡ some (numbered c text)
  unfolding root_sector
  read_entry-index sn =
      let rest = drop (length text) zero_sector in
      let fits = g.welcome_fits in
      let size = g.len in
      let same = length-numbered in
      read_entry-one c sn 1 2 (numbered c text) (rest_of_cluster c sn 2 rest) (omega arith)
        (index_word c sn ∙ omega arith) refl refl (next_cluster-two c sn)
        (cluster-start c sn 2 (numbered c text) rest
          (welcome-sector c sn ∙ welcome_sector-numbered))

  -- A host that follows the partition table, the parameters of the volume, its root directory and its
  -- FAT reads as INDEX.HTM the text that was compressed into the ROM, with the serial number at its two
  -- places, and as INFO_UF2.TXT the other text, whatever the serial number of the volume.
  pub read_file-contents :
      (sn : ℕ)
      → (read_file (sector c sn) (codes "INDEX   HTM") ≡ some (numbered c text))
        × (read_file (sector c sn) (codes "INFO_UF2TXT") ≡ some c.info_uf2_txt)
  unfolding read_file
  read_file-contents sn = (
    rw (root_entries_lem c sn, find_entry-index c sn) (read_entry-index sn),
    rw (root_entries_lem c sn, find_entry-info c sn) (read_entry-info c sn g.info_fits),
  )
