-- ===== src/Driver/Modes/Sessions.antt =====
-- Sessions of serial commands between an exit from XIP and the next entry.
use pico_bootrom_rp.Common.{
  ℕ, ◌≡◌, ◌∙◌, refl, ap, Bool, true, false, List, [], ◌∷◌, ◌++◌, replicate, arith,
}
use pico_bootrom_rp.Driver.Modes.{
  Qspi, Sent, Padctrl, outover_low, outover_high, is_tx_and_rx, is_serial, set_ssienr, set_ctrlr0,
  set_spi_ctrlr0, set_baudr, flash_init_spi, flash_cs_force, put_get, flash_do_cmd, set_pads,
  exit_sequence, flash_exit_xip, flash_flush_cache, flash_enter_cmd_xip, flash_was_aborted,
}

-- What goes over the wire at an exit from XIP, the newest first: 32 clocks deselected with the data lines pulled
-- down, 32 clocks selected with them pulled up, and two bytes of ones as a command.
unfoldable pub exit_sent : Bool → List Sent
exit_sent pue =
    record { cs = outover_low; pulled_up = pue; bytes = 0xff ∷ 0xff ∷ [] }
    ∷ record { cs = outover_low; pulled_up = true; bytes = replicate 4 0 }
    ∷ record { cs = outover_high; pulled_up = false; bytes = replicate 4 0 }
    ∷ []

-- The commands, behind what was sent so far.
unfoldable pub commands_sent : Bool → List (List ℕ) → List Sent → List Sent
commands_sent pue [] so_far = so_far
commands_sent pue (bytes ∷ rest) so_far =
    commands_sent pue rest (record { cs = outover_low; pulled_up = pue; bytes = bytes } ∷ so_far)

unfoldable pub sessions_sent : Bool → List (List (List ℕ)) → List Sent → List Sent
sessions_sent pue [] so_far = so_far
sessions_sent pue (cmds ∷ rest) so_far =
    sessions_sent pue rest (commands_sent pue cmds (exit_sent pue ++ so_far))

-- In the mode of serial commands, with the rest as before and no abort in force.
record IsSerial (before : Qspi) (sent : List Sent) (q : Qspi) : Type 0 where
  enabled : q.ssienr ≡ true
  serial : is_serial q.ctrlr0 ≡ true
  same_pads : q.sd0 ≡ before.sd0
  same_mode_fault : q.mode_fault ≡ before.mode_fault
  same_send_fault : q.send_fault ≡ before.send_fault
  calm : q.sd1_inover_low ≡ false
  log : q.sent ≡ sent

module _ (cut : List Sent → ℕ) where
  unfoldable pub commands : List (List ℕ) → Qspi → Qspi
  commands [] q = q
  commands (bytes ∷ rest) q = commands rest (flash_do_cmd cut bytes q)

  -- The chip is taken out of XIP, sent commands, and the cache and XIP are set up again.
  unfoldable pub session : List (List ℕ) → Qspi → Qspi
  session cmds q = flash_enter_cmd_xip (flash_flush_cache (commands cmds (flash_exit_xip cut q)))

  unfoldable pub sessions : List (List (List ℕ)) → Qspi → Qspi
  sessions [] q = q
  sessions (cmds ∷ rest) q = sessions rest (session cmds q)

  flash_exit_xip-IsSerial :
      (q : Qspi)
      → q.sd1_inover_low ≡ false
      → IsSerial q (exit_sent q.sd0.pue ++ q.sent) (flash_exit_xip cut q)
  unfolding flash_exit_xip flash_init_spi set_baudr set_ssienr set_ctrlr0 exit_sequence set_pads
      flash_cs_force put_get flash_do_cmd is_serial is_tx_and_rx exit_sent
  flash_exit_xip-IsSerial q calm = record {
    enabled = refl;
    serial = refl;
    same_pads = refl;
    same_mode_fault = ground arith;
    same_send_fault = ground arith;
    calm = calm;
    log = rw calm refl;
  }

  flash_do_cmd-IsSerial :
      (before : Qspi) (sent : List Sent) (bytes : List ℕ) (q : Qspi)
      → IsSerial before sent q
      → IsSerial before
          (record { cs = outover_low; pulled_up = before.sd0.pue; bytes = bytes } ∷ sent)
          (flash_do_cmd cut bytes q)
  unfolding flash_do_cmd put_get flash_cs_force
  flash_do_cmd-IsSerial before sent bytes q h =
      let on = h.enabled in
      let serial = h.serial in
      let same = h.same_send_fault in
      record {
        enabled = h.enabled;
        serial = h.serial;
        same_pads = h.same_pads;
        same_mode_fault = h.same_mode_fault;
        same_send_fault = rw (on, serial, same) (ground arith);
        calm = h.calm;
        log = let quiet = h.calm in rw (quiet, h.same_pads, h.log) refl;
      }

  commands-IsSerial :
      (before : Qspi) (sent : List Sent) (cmds : List (List ℕ)) (q : Qspi)
      → IsSerial before sent q
      → IsSerial before (commands_sent before.sd0.pue cmds sent) (commands cmds q)
  unfolding commands commands_sent
  commands-IsSerial before sent [] q h = h
  commands-IsSerial before sent (bytes ∷ rest) q h =
      commands-IsSerial before _ rest (flash_do_cmd cut bytes q)
        (flash_do_cmd-IsSerial before sent bytes q h)

  session-IsSerial :
      (cmds : List (List ℕ)) (q : Qspi)
      → q.sd1_inover_low ≡ false
      → ((session cmds q).mode_fault ≡ q.mode_fault)
        × ((session cmds q).send_fault ≡ q.send_fault)
        × ((session cmds q).sd0 ≡ q.sd0)
        × (flash_was_aborted (session cmds q) ≡ false)
        × ((session cmds q).sent ≡ commands_sent q.sd0.pue cmds (exit_sent q.sd0.pue ++ q.sent))
  unfolding session flash_enter_cmd_xip flash_flush_cache set_ssienr set_ctrlr0 set_spi_ctrlr0
      flash_cs_force flash_was_aborted
  session-IsSerial cmds q calm =
      let h = commands-IsSerial q _ cmds (flash_exit_xip cut q) (flash_exit_xip-IsSerial q calm) in
      let same = h.same_mode_fault in (ground arith, h.same_send_fault, h.same_pads, h.calm, h.log)

  -- From any state of the registers in which no abort is in force, whatever commands the sessions send: the
  -- mode of the controller is only ever written while it is disabled, bytes only sent in the mode of serial
  -- commands, the pad of SD0 is restored, and on the wire is, for each session, the exit from XIP and then
  -- each command in order, under a chip select of its own.
  pub sessions-IsSafe :
      (all : List (List (List ℕ))) (q : Qspi)
      → flash_was_aborted q ≡ false
      → ((sessions all q).mode_fault ≡ q.mode_fault)
        × ((sessions all q).send_fault ≡ q.send_fault)
        × ((sessions all q).sd0 ≡ q.sd0)
        × (flash_was_aborted (sessions all q) ≡ false)
        × ((sessions all q).sent ≡ sessions_sent q.sd0.pue all q.sent)
  unfolding sessions sessions_sent flash_was_aborted
  sessions-IsSafe [] q calm = (refl, refl, refl, calm, refl)
  sessions-IsSafe (cmds ∷ rest) q calm =
      let (mode, send, pad, abort, log) = session-IsSerial cmds q calm in
      let (mode2, send2, pad2, abort2, log2) = sessions-IsSafe rest (session cmds q) abort in
      (
        mode2 ∙ mode,
        send2 ∙ send,
        pad2 ∙ pad,
        abort2,
        log2
            ∙ (ap (λ (p : Padctrl). sessions_sent p.pue rest (session cmds q).sent) pad
                ∙ ap (λ (l : List Sent). sessions_sent q.sd0.pue rest l) log),
      )
