-- ===== src/Volume/Layout.antt =====
-- Where a host finds the parts of the volume, and the two files in them.
use pico_bootrom_rp.Common.{
  ℕ, suc, ◌+◌, ◌*◌, ◌/◌, ◌<◌, ◌≡◌, refl, List, some, codes, arith, Bool, true, false, ◌==◌, ◌∙◌,
  get_or,
}
use pico_bootrom_rp.Volume.{
  Contents, sector, partition_sector, volume_sector, data_sector, fat_sector, mirror, root_sector,
}
use pico_bootrom_rp.Volume.Host.{
  partition_start, parameters, bytes_per_sector, sectors_per_cluster, root_entries, fat_start,
  root_start, clusters_start, entry_sector, entry_offset, find_entry, has_bytes, next_cluster,
}

module _ (c : Contents) (sn : ℕ) where
  pub partition_start_lem : partition_start (sector c sn) ≡ 1
  unfolding partition_start sector partition_sector
  partition_start_lem = refl

  parameters_lem : parameters (sector c sn) ≡ volume_sector sn
  unfolding parameters sector
  parameters_lem = rw partition_start_lem refl

  pub bytes_per_sector_lem : bytes_per_sector (sector c sn) ≡ 512
  unfolding bytes_per_sector volume_sector
  bytes_per_sector_lem = rw parameters_lem refl

  pub sectors_per_cluster_lem : sectors_per_cluster (sector c sn) ≡ 8
  unfolding sectors_per_cluster volume_sector
  sectors_per_cluster_lem = rw parameters_lem refl

  pub root_entries_lem : root_entries (sector c sn) ≡ 512
  unfolding root_entries volume_sector
  root_entries_lem = rw parameters_lem refl

  fat_start_lem : fat_start (sector c sn) ≡ 2
  unfolding fat_start volume_sector
  fat_start_lem = rw (partition_start_lem, parameters_lem) refl

  root_start_lem : root_start (sector c sn) ≡ 260
  unfolding root_start volume_sector
  root_start_lem = rw (fat_start_lem, parameters_lem) refl

  pub clusters_start_lem : clusters_start (sector c sn) ≡ 292
  unfolding clusters_start
  clusters_start_lem = rw (root_start_lem, root_entries_lem, bytes_per_sector_lem) refl

  -- Both files have one cluster.
  pub next_cluster-two : next_cluster (sector c sn) 2 ≡ 0xffff
  unfolding next_cluster sector data_sector fat_sector mirror
  next_cluster-two = rw (fat_start_lem, bytes_per_sector_lem) refl

  pub next_cluster-three : next_cluster (sector c sn) 3 ≡ 0xffff
  unfolding next_cluster sector data_sector fat_sector mirror
  next_cluster-three = rw (fat_start_lem, bytes_per_sector_lem) refl

  pub entry_sector_lem : (k : ℕ) → k < 16 → entry_sector (sector c sn) k ≡ root_sector c 0
  unfolding entry_sector
  entry_sector_lem k h =
      let first : 260 + k * 32 / 512 ≡ 260 = omega arith in
      rw (root_start_lem, bytes_per_sector_lem, first) (unfold sector data_sector in refl)

  pub entry_offset_lem : (k : ℕ) → k < 16 → entry_offset (sector c sn) k ≡ k * 32
  unfolding entry_offset
  entry_offset_lem k h = rw bytes_per_sector_lem (omega arith)

  -- The directory's sector and the entry's offset in place of what the host computes.
  abbrev is_end : ℕ → Bool
  is_end k = get_or (root_sector c 0) (k * 32) 0 == 0

  abbrev is_named : List ℕ → ℕ → Bool
  is_named name k = has_bytes (root_sector c 0) (k * 32) name

  find_entry-here :
      (name : List ℕ) (k n : ℕ)
      → k < 16
      → is_end k ≡ false
      → is_named name k ≡ true
      → find_entry (sector c sn) name k (suc n) ≡ some k
  unfolding find_entry
  find_entry-here name k n h e m =
      let disk : ℕ → List ℕ = sector c sn in
      let there = entry_sector_lem k h in
      let at = entry_offset_lem k h in
      let goes_on : (get_or (entry_sector disk k) (entry_offset disk k) 0 == 0) ≡ false =
        rw (there, at) e in
      let tested : has_bytes (entry_sector disk k) (entry_offset disk k) name ≡ true =
        rw (there, at) m in
      rw (find_entry, goes_on, tested) refl

  find_entry-next :
      (name : List ℕ) (k n : ℕ)
      → k < 16
      → is_end k ≡ false
      → is_named name k ≡ false
      → find_entry (sector c sn) name k (suc n) ≡ find_entry (sector c sn) name (k + 1) n
  unfolding find_entry
  find_entry-next name k n h e m =
      let disk : ℕ → List ℕ = sector c sn in
      let there = entry_sector_lem k h in
      let at = entry_offset_lem k h in
      let goes_on : (get_or (entry_sector disk k) (entry_offset disk k) 0 == 0) ≡ false =
        rw (there, at) e in
      let tested : has_bytes (entry_sector disk k) (entry_offset disk k) name ≡ false =
        rw (there, at) m in
      rw (find_entry, goes_on, tested) refl

  pub find_entry-index : find_entry (sector c sn) (codes "INDEX   HTM") 0 512 ≡ some 1
  unfolding has_bytes root_sector
  find_entry-index =
      find_entry-next (codes "INDEX   HTM") 0 511 (omega arith) refl refl
      ∙ find_entry-here (codes "INDEX   HTM") 1 510 (omega arith) refl refl

  pub find_entry-info : find_entry (sector c sn) (codes "INFO_UF2TXT") 0 512 ≡ some 2
  unfolding has_bytes root_sector
  find_entry-info =
      find_entry-next (codes "INFO_UF2TXT") 0 511 (omega arith) refl refl
      ∙ find_entry-next (codes "INFO_UF2TXT") 1 510 (omega arith) refl refl
      ∙ find_entry-here (codes "INFO_UF2TXT") 2 509 (omega arith) refl refl
