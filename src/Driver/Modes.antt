-- ===== src/Driver/Modes.antt =====
-- bootrom/program_flash_generic.c: the registers of the SPI controller and of its pins, which decide in
-- what mode the flash chip is spoken to.
pub mod Sessions
mod Tests
use pico_bootrom_rp.Common.{
  ℕ, zero, suc, Bool, true, false, ◌&&◌, ◌||◌, not, List, [], ◌∷◌, ◌==◌, if◌then◌else◌, replicate,
  take,
}

-- `SSI_CTRLR0_TMOD`
pub data Tmod : Type 0 where
  tx_and_rx eeprom_read : Tmod

-- `ctrlr0`, for standard 1-bit frames: the clocks of a data frame less one, and the transfer mode.
pub record Ctrlr0 : Type 0 where
  pub dfs_32 : ℕ
  pub tmod : Tmod

-- `spi_ctrlr0`, for command and address in serial format.
pub record SpiCtrlr0 : Type 0 where
  pub xip_cmd : ℕ
  pub inst_l : ℕ
  pub addr_l : ℕ

-- `outover_t`
pub data Outover : Type 0 where
  outover_normal outover_invert outover_low outover_high : Outover

-- The control of a pad: output disable, pull-up, pull-down, and the other bits.
pub record Padctrl : Type 0 where
  pub od : Bool
  pub pue : Bool
  pub pde : Bool
  pub other : ℕ

-- Bytes put on the wire, with the chip select and the pull-up of SD0 at that time.
pub record Sent : Type 0 where
  pub cs : Outover
  pub pulled_up : Bool
  pub bytes : List ℕ

-- The registers, what went over the wire (the newest first), and two faults: a mode written while the
-- controller was enabled, and bytes sent while it was not in the mode where each sends one back.
pub record Qspi : Type 0 where
  pub ssienr : Bool
  pub baudr : ℕ
  pub ctrlr0 : Ctrlr0
  pub spi_ctrlr0 : SpiCtrlr0
  pub ser : ℕ
  pub sd0 : Padctrl
  pub sd1 : Padctrl
  pub sd2 : Padctrl
  pub sd3 : Padctrl
  pub ss_outover : Outover
  pub sd1_inover_low : Bool
  pub cache_enabled : Bool
  pub sent : List Sent
  pub mode_fault : Bool
  pub send_fault : Bool

unfoldable pub is_tx_and_rx : Tmod → Bool
is_tx_and_rx tx_and_rx = true
is_tx_and_rx eeprom_read = false

-- Frames of one byte, each of which brings one back.
unfoldable pub is_serial : Ctrlr0 → Bool
is_serial c = c.dfs_32 == 7 && is_tx_and_rx c.tmod

unfoldable pub set_ssienr : Bool → Qspi → Qspi
set_ssienr on q = record q { ssienr = on }

unfoldable pub set_ctrlr0 : Ctrlr0 → Qspi → Qspi
set_ctrlr0 c q = record q { ctrlr0 = c; mode_fault = q.mode_fault || q.ssienr }

unfoldable pub set_spi_ctrlr0 : SpiCtrlr0 → Qspi → Qspi
set_spi_ctrlr0 c q = record q { spi_ctrlr0 = c; mode_fault = q.mode_fault || q.ssienr }

unfoldable pub set_baudr : ℕ → Qspi → Qspi
set_baudr b q = record q { baudr = b; mode_fault = q.mode_fault || q.ssienr }

-- `flash_init_spi`
unfoldable pub flash_init_spi : Qspi → Qspi
flash_init_spi q =
    let off = set_baudr 6 (set_ssienr false q) in
    let serial = set_ctrlr0 (record { dfs_32 = 7; tmod = tx_and_rx }) off in
    set_ssienr true (record serial { ser = 1 })

-- `flash_cs_force`
unfoldable pub flash_cs_force : Outover → Qspi → Qspi
flash_cs_force over q = record q { ss_outover = over }

unfoldable pub set_pads : Padctrl → Padctrl → Qspi → Qspi
set_pads low high q = record q { sd0 = low; sd1 = low; sd2 = high; sd3 = high }

-- How many bytes the loop of `flash_put_get` has written when, with an abort in force, it ends at its first
-- idle round, behind what was sent so far.
module _ (cut : List Sent → ℕ) where
  -- Bytes that are written to `dr0`, and `flash_put_get` behind them, which deselects the chip.
  unfoldable pub put_get : List ℕ → Qspi → Qspi
  put_get bytes q =
      let wire = if q.sd1_inover_low then take (cut q.sent) bytes else bytes in
      flash_cs_force outover_high (record q {
        sent = record { cs = q.ss_outover; pulled_up = q.sd0.pue; bytes = wire } ∷ q.sent;
        send_fault = q.send_fault || not (q.ssienr && is_serial q.ctrlr0);
      })

  -- A command with the chip selected: `flash_do_cmd`, or `flash_put_cmd_addr` and `flash_put_get`.
  unfoldable pub flash_do_cmd : List ℕ → Qspi → Qspi
  flash_do_cmd bytes q = put_get bytes (flash_cs_force outover_low q)

  -- The loop of `flash_exit_xip`.
  unfoldable pub exit_sequence : ℕ → Padctrl → Qspi → Qspi
  exit_sequence zero tmp q = q
  exit_sequence (suc n) tmp q =
      exit_sequence n (record tmp { pde = false; pue = true })
        (flash_cs_force outover_low (put_get (replicate 4 0) (set_pads tmp tmp q)))

  -- `flash_exit_xip`
  unfoldable pub flash_exit_xip : Qspi → Qspi
  flash_exit_xip q =
      let start = flash_init_spi q in
      let save = start.sd0 in
      let tmp = record save { od = true; pue = false; pde = true } in
      let done = exit_sequence 2 tmp (flash_cs_force outover_high start) in
      let restored = set_pads save (record save { pde = false; pue = true }) done in
      flash_cs_force outover_normal (flash_do_cmd (0xff ∷ 0xff ∷ []) restored)

-- `flash_abort` and `flash_was_aborted`
unfoldable pub flash_abort : Qspi → Qspi
flash_abort q = record q { sd1_inover_low = true }

unfoldable pub flash_was_aborted : Qspi → Bool
flash_was_aborted q = q.sd1_inover_low

-- `flash_flush_cache`
unfoldable pub flash_flush_cache : Qspi → Qspi
flash_flush_cache q = flash_cs_force outover_normal (record q { cache_enabled = true })

-- `flash_enter_cmd_xip`
unfoldable pub flash_enter_cmd_xip : Qspi → Qspi
flash_enter_cmd_xip q =
    let off = set_ctrlr0 (record { dfs_32 = 31; tmod = eeprom_read }) (set_ssienr false q) in
    set_ssienr true (set_spi_ctrlr0 (record { xip_cmd = 0x03; inst_l = 2; addr_l = 6 }) off)
