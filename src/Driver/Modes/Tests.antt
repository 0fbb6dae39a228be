-- ===== src/Driver/Modes/Tests.antt =====
-- Two sessions, the first with a read of the JEDEC ID.
use pico_bootrom_rp.Common.{ℕ, ◌≡◌, refl, true, false, List, [], ◌∷◌}
use pico_bootrom_rp.Driver.Modes.{
  Sent, Qspi, Padctrl, outover_normal, eeprom_read, flash_was_aborted,
}
use pico_bootrom_rp.Driver.Modes.Sessions.{sessions, sessions_sent, sessions-IsSafe}

abbrev pad : Padctrl
pad = record { od = false; pue = false; pde = true; other = 0x12 }

-- As a program leaves it, in its XIP mode.
abbrev in_xip : Qspi
in_xip = record {
  ssienr = true;
  baudr = 2;
  ctrlr0 = record { dfs_32 = 31; tmod = eeprom_read };
  spi_ctrlr0 = record { xip_cmd = 0xeb; inst_l = 0; addr_l = 8 };
  ser = 1;
  sd0 = pad;
  sd1 = pad;
  sd2 = pad;
  sd3 = pad;
  ss_outover = outover_normal;
  sd1_inover_low = false;
  cache_enabled = true;
  sent = [];
  mode_fault = false;
  send_fault = false;
}

-- No transfer is cut short.
abbrev never : List Sent → ℕ
never sent = 0

abbrev two_sessions : List (List (List ℕ))
two_sessions = ((0x9f ∷ 0 ∷ 0 ∷ 0 ∷ []) ∷ []) ∷ [] ∷ []

sessions-IsSafe_example :
    ((sessions never two_sessions in_xip).mode_fault ≡ false)
    × ((sessions never two_sessions in_xip).send_fault ≡ false)
    × ((sessions never two_sessions in_xip).sd0 ≡ pad)
    × (flash_was_aborted (sessions never two_sessions in_xip) ≡ false)
    × ((sessions never two_sessions in_xip).sent ≡ sessions_sent false two_sessions [])
unfolding flash_was_aborted
sessions-IsSafe_example = sessions-IsSafe never two_sessions in_xip refl
