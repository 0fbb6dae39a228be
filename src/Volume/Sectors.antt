-- ===== src/Volume/Sectors.antt =====
-- Every sector is 512 bytes long, and the volume has one serial number.
use pico_bootrom_rp.Common.{
  ℕ, ◌<◌, ◌-◌, ◌*◌, ◌/◌, ◌%◌, ◌≡◌, ◌∙◌, refl, ap, List, [], ◌∷◌, ◌==◌, length, length-append,
  length-drop, drop, if-by, arith, ltb,
}
use pico_bootrom_rp.Volume.{
  Contents, SerialNumber, sector, partition_sector, volume_sector, data_sector, fat_sector, mirror,
  root_sector, file_sector, welcome_sector, zero_sector, memcpy_at, vd_read_block, sectors_per_fat,
  fat_count,
}
use pico_bootrom_rp.Volume.Files.{IsGenerated, numbered, welcome_sector-numbered, length-numbered}
use pico_bootrom_rp.Volume.Bytes.{length-memcpy_at}

abbrev IsSector : List ℕ → Type 0
IsSector s = length s ≡ 512

zero_sector-IsSector : IsSector zero_sector
unfolding zero_sector
zero_sector-IsSector = refl

partition_sector-IsSector : (sn : ℕ) → IsSector (partition_sector sn)
unfolding partition_sector
partition_sector-IsSector sn = refl

volume_sector-IsSector : (sn : ℕ) → IsSector (volume_sector sn)
unfolding volume_sector
volume_sector-IsSector sn = refl

fat_sector-IsSector : (lba : ℕ) → IsSector (fat_sector lba)
unfolding fat_sector
fat_sector-IsSector lba = if-by IsSector (lba == 0) _ _ (λ e. refl) λ e. refl

-- The loop that goes back to the first FAT ends after at most one round for each further FAT.
pub mirror_lem :
    (lba : ℕ) → lba < sectors_per_fat * fat_count → mirror fat_count lba ≡ lba % sectors_per_fat
unfolding mirror
mirror_lem lba h = ground arith

module _ (c : Contents) (text : List ℕ) (g : IsGenerated c text) where
  root_sector-IsSector : (lba : ℕ) → IsSector (root_sector c lba)
  unfolding root_sector
  root_sector-IsSector lba = if-by IsSector (lba == 0) _ _ (λ e. refl) λ e. refl

  welcome_sector-IsSector : IsSector (welcome_sector c)
  unfolding zero_sector
  welcome_sector-IsSector =
      let fits = g.welcome_fits in
      let same = length-numbered c text g in
      let rest = drop (length text) zero_sector in
      ap (λ (l : List ℕ). length l) (welcome_sector-numbered c text g)
      ∙ (length-append (numbered c text) rest
          ∙ omega (arith, length-drop (length text) zero_sector))

  info_text-IsSector : IsSector (memcpy_at 0 c.info_uf2_txt zero_sector)
  unfolding zero_sector
  info_text-IsSector =
      let fits = g.info_fits in length-memcpy_at 0 c.info_uf2_txt zero_sector (omega arith)

  file_sector-IsSector : (lba : ℕ) → IsSector (file_sector c lba)
  unfolding file_sector
  file_sector-IsSector lba =
      if-by IsSector (lba - lba / 8 * 8 == 0) _ _
        (λ e.
          if-by IsSector (lba / 8 == 0) _ _ (λ z. welcome_sector-IsSector)
            λ z.
              if-by IsSector (lba / 8 == 1) _ _ (λ o. info_text-IsSector) λ o. zero_sector-IsSector)
        λ e. zero_sector-IsSector

  data_sector-IsSector : (lba : ℕ) → IsSector (data_sector c lba)
  unfolding data_sector
  data_sector-IsSector lba =
      if-by IsSector (ltb lba 258) _ _ (λ e. fat_sector-IsSector _)
        λ e.
          if-by IsSector (ltb (lba - 258) 32) _ _ (λ r. root_sector-IsSector _)
            λ r. file_sector-IsSector _

  sector-IsSector : (sn lba : ℕ) → IsSector (sector c sn lba)
  unfolding sector
  sector-IsSector sn lba =
      if-by IsSector (lba == 0) _ _ (λ e. partition_sector-IsSector sn)
        λ e.
          if-by IsSector (lba - 1 == 0) _ _ (λ f. volume_sector-IsSector sn)
            λ f. data_sector-IsSector (lba - 1 - 1)

  -- Every block that a host reads is 512 bytes long, so that no copy goes beyond the end of the buffer,
  -- if the texts and the places of the serial number are as the generator writes them.
  pub vd_read_block-IsSector :
      (now lba : ℕ) (s : SerialNumber) → length (vd_read_block c now lba s).1 ≡ 512
  unfolding vd_read_block
  vd_read_block-IsSector now lba s = sector-IsSector _ lba

-- The state behind a sequence of reads, each with the time that it happens at and the block.
unfoldable pub reads : Contents → List (ℕ × ℕ) → SerialNumber → SerialNumber
reads c [] s = s
reads c ((now, lba) ∷ rest) s = reads c rest (vd_read_block c now lba s).0
