-- ===== src/Disk/Start.antt =====
-- The address that a RAM binary is started at: the lowest one written, RAM before the XIP cache.
use pico_bootrom_rp.Common.{
  ℕ, ◌+◌, ◌^◌, ◌<◌, ◌≡◌, refl, List, [], ◌∷◌, ltb, if◌then◌else◌, arith, min,
}
use pico_bootrom_rp.Sdk.{Sdk}
use pico_bootrom_rp.Disk.{Disk, update_lowest}
use pico_bootrom_rp.Disk.Page.{lower_start}

module _ (sdk : Sdk) where
  -- The order in which start addresses are preferred: an address below RAM comes after all of RAM.
  unfoldable pub rank : ℕ → ℕ
  rank a = if ltb a sdk.sram_base then a + 2 ^ 32 else a

  rank-update_lowest :
      (lowest addr : ℕ)
      → lowest < 2 ^ 32
      → addr < 2 ^ 32
      → rank (update_lowest sdk lowest addr) ≡ min (rank lowest) (rank addr)
  unfolding rank update_lowest
  rank-update_lowest lowest addr l a = ground arith

  -- `lowest_addr` after the blocks for the given addresses, from the start of a transfer.
  unfoldable pub lowest_of : ℕ → List ℕ → ℕ
  lowest_of lowest [] = lowest
  lowest_of lowest (a ∷ addrs) = lowest_of (update_lowest sdk lowest a) addrs

  abbrev pub least : ℕ → List ℕ → ℕ
  least best [] = best
  least best (a ∷ addrs) = least (min best (rank a)) addrs

  pub data AllBelow (bound : ℕ) : List ℕ → Type 0 where
    none_left : AllBelow bound []
    below : {a : ℕ} {addrs : List ℕ} → a < bound → AllBelow bound addrs → AllBelow bound (a ∷ addrs)

  bound-update_lowest :
      (lowest addr : ℕ) → lowest < 2 ^ 32 → addr < 2 ^ 32 → update_lowest sdk lowest addr < 2 ^ 32
  unfolding update_lowest
  bound-update_lowest lowest addr l a = ground arith

  -- The start address kept over any sequence of blocks, at addresses of 32 bits, is the first in
  -- the order of preference among the one that it began with and theirs.
  pub rank-lowest_of :
      (lowest : ℕ) (addrs : List ℕ)
      → lowest < 2 ^ 32
      → AllBelow (2 ^ 32) addrs
      → rank (lowest_of lowest addrs) ≡ least (rank lowest) addrs
  unfolding lowest_of
  rank-lowest_of lowest [] l none_left = refl
  rank-lowest_of lowest (a ∷ addrs) l (below b bs) =
      rw (rank-lowest_of (update_lowest sdk lowest a) addrs (bound-update_lowest lowest a l b) bs)
        (rw (rank-update_lowest lowest a l b) refl)

  -- The step of the model of `_write_uf2_page` that keeps `lowest_addr` is that of the sequence.
  lower_start-lowest_of :
      (d : Disk)
      → (lower_start sdk d).info.lowest_addr
        ≡ lowest_of d.info.lowest_addr (d.info.next_task.transfer_addr ∷ [])
  unfolding lower_start lowest_of
  lower_start-lowest_of d = refl
