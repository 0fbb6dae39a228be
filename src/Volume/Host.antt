-- ===== src/Volume/Host.antt =====
-- How a host reads a file from a FAT16 volume, by the rules of the file system and not by this code: it
-- finds the volume by the partition table, and the parts of the volume by its first sector.
use pico_bootrom_rp.Common.{
  ℕ, zero, suc, ◌+◌, ◌-◌, ◌*◌, ◌/◌, ◌%◌, ◌^◌, List, [], ◌∷◌, ◌++◌, Option, none, some, leb, ◌==◌,
  take, get_or, Bool, true, false, ◌&&◌,
}

-- Little-endian numbers in a sector.
abbrev pub read_hword : List ℕ → ℕ → ℕ
read_hword s i = get_or s i 0 + get_or s (i + 1) 0 * 256

abbrev pub read_word : List ℕ → ℕ → ℕ
read_word s i = read_hword s i + read_hword s (i + 2) * 2 ^ 16

-- Whether the bytes of a list at an offset are these.
unfoldable pub has_bytes : List ℕ → ℕ → List ℕ → Bool
has_bytes s i [] = true
has_bytes s i (b ∷ bs) = get_or s i 0 == b && has_bytes s (i + 1) bs

-- A disk as the sectors by their numbers.
module _ (disk : ℕ → List ℕ) where
  -- The first partition of the partition table: its first sector, and how many it has.
  unfoldable pub partition_start : ℕ
  partition_start = read_word (disk 0) 0x1c6

  unfoldable pub partition_size : ℕ
  partition_size = read_word (disk 0) 0x1ca

  -- The first sector of the volume, with the fields that say where its parts are.
  unfoldable pub parameters : List ℕ
  parameters = disk partition_start

  unfoldable pub bytes_per_sector : ℕ
  bytes_per_sector = read_hword parameters 0xb

  unfoldable pub sectors_per_cluster : ℕ
  sectors_per_cluster = get_or parameters 0xd 0

  unfoldable pub root_entries : ℕ
  root_entries = read_hword parameters 0x11

  unfoldable pub fat_start : ℕ
  fat_start = partition_start + read_hword parameters 0xe

  unfoldable pub root_start : ℕ
  root_start = fat_start + get_or parameters 0x10 0 * read_hword parameters 0x16

  unfoldable pub clusters_start : ℕ
  clusters_start = root_start + root_entries * 32 / bytes_per_sector

  -- The sector and the offset of entry `k` of the root directory.
  unfoldable pub entry_sector : ℕ → List ℕ
  entry_sector k = disk (root_start + k * 32 / bytes_per_sector)

  unfoldable pub entry_offset : ℕ → ℕ
  entry_offset k = k * 32 % bytes_per_sector

  -- The entry of this name among the next ones: a first byte of 0 ends the directory.
  unfoldable pub find_entry : List ℕ → ℕ → ℕ → Option ℕ
  find_entry name k zero = none
  find_entry name k (suc left) = elim (get_or (entry_sector k) (entry_offset k) 0 == 0) [
    | true ↦ none
    | false ↦ elim (has_bytes (entry_sector k) (entry_offset k) name) [
      | true ↦ some k
      | false ↦ find_entry name (k + 1) left
    ]
  ]

  -- The bytes of the next sectors.
  unfoldable pub read_sectors : ℕ → ℕ → List ℕ
  read_sectors lba zero = []
  read_sectors lba (suc n) = disk lba ++ read_sectors (lba + 1) n

  unfoldable pub read_cluster : ℕ → List ℕ
  read_cluster c = read_sectors (clusters_start + (c - 2) * sectors_per_cluster) sectors_per_cluster

  -- The entry of a cluster in the first FAT.
  unfoldable pub next_cluster : ℕ → ℕ
  next_cluster c =
      read_hword (disk (fat_start + c * 2 / bytes_per_sector)) (c * 2 % bytes_per_sector)

  -- The clusters of a chain, up to an end mark. A FAT has less than `2 ^ 16` entries.
  unfoldable pub read_chain : ℕ → ℕ → List ℕ
  read_chain zero c = []
  read_chain (suc fuel) c = elim (leb 0xfff8 c) [
    | true ↦ []
    | false ↦ read_cluster c ++ read_chain fuel (next_cluster c)
  ]

  unfoldable pub read_entry : Option ℕ → Option (List ℕ)
  read_entry none = none
  read_entry (some k) =
      let s = entry_sector k in
      let at = entry_offset k in
      some (take (read_word s (at + 28)) (read_chain (2 ^ 16) (read_hword s (at + 26))))

  -- The file of this name in the root directory.
  unfoldable pub read_file : List ℕ → Option (List ℕ)
  read_file name = read_entry (find_entry name 0 root_entries)
