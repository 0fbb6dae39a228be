-- ===== src/Msc/Answer.antt =====
-- usb_device_tiny/usb_msc.c: what a command in a command block wrapper comes to.
use pico_bootrom_rp.Common.{
  ℕ, zero, suc, ◌*◌, ◌/◌, ◌%◌, ◌≤◌, ◌<◌, ap, ◌≡◌, ◌≢◌, refl, true, List, [], ◌∷◌, ◌==◌, min, take,
  length, get_or, u32, arith, inr, if-by,
}
use pico_bootrom_rp.Msc.{
  Direction, dir_in, dir_out, Cbw, MscAction, response_packet, sector_stream, Msc, init_for_dn,
}
use pico_bootrom_rp.Msc.Command.{
  respond, standard_response, begin_sectors, read_or_write_blocks, read_or_write_command,
  test_unit_ready, eject, start_stop_unit, request_sense, mode_sense, is_valid_cbw, accept_cbw,
  read_capacity, read_format_capacities, scsi_command, msc_cmd_packet,
}
use pico_bootrom_rp.Msc.Agreed.{
  responds, streams, IsAccepted, Outcome, answered-Outcome, dn-Outcome, fail-Outcome,
  di_or_do-Outcome,
}

length-take_le {ℓ} : {A : Type ℓ} (n : ℕ) (xs : List A) → n ≤ length xs → length (take n xs) ≡ n
length-take_le zero xs h = refl
length-take_le (suc n) [] h = absurd (omega arith)
length-take_le (suc n) (x ∷ xs) h = ap suc (length-take_le n xs (omega arith))

standard-Outcome :
    (bytes : List ℕ) (cbw : Cbw) (before s : Msc)
    → cbw.data_transfer_length < 0x1_0000_0000
    → IsAccepted cbw before s
    → Outcome cbw before (standard_response bytes cbw s)
unfolding standard_response respond
standard-Outcome bytes cbw before s h a =
    di_or_do-Outcome (respond bytes) cbw (min (length bytes) cbw.data_transfer_length) dir_in before
      s a sends
  where
    sends :
        (p : Msc)
        → IsAccepted cbw before p
        → p.data_phase_length
          ≡ min (min (length bytes) cbw.data_transfer_length) cbw.data_transfer_length
        → p.data_phase_length ≢ 0
        → Outcome cbw before (respond bytes p)
    sends p b l n =
        let t = length-take_le p.data_phase_length bytes (omega arith) in
        let r = b.residue in
        record {
          tag = b.tag;
          phase = inr (
              responds (take p.data_phase_length bytes)
                (ap (λ (x : List MscAction). response_packet (take p.data_phase_length bytes) ∷ x)
                  b.same_actions)
                (omega arith) (omega arith));
        }

sectors-Outcome :
    (cbw : Cbw) (lba blocks : ℕ) (dir : Direction) (before s : Msc)
    → IsAccepted cbw before s
    → Outcome cbw before (read_or_write_blocks cbw lba blocks dir s)
unfolding read_or_write_blocks begin_sectors
sectors-Outcome cbw lba blocks dir before s a =
    di_or_do-Outcome (begin_sectors dir) cbw (u32 (blocks * 512)) dir before _
      (record { tag = a.tag; residue = a.residue; same_actions = a.same_actions }) moves
  where
    moves :
        (p : Msc)
        → IsAccepted cbw before p
        → p.data_phase_length ≡ min (u32 (blocks * 512)) cbw.data_transfer_length
        → p.data_phase_length ≢ 0
        → Outcome cbw before (begin_sectors dir p)
    moves p b l n =
        if-by (Outcome cbw before) (p.data_phase_length / 64 == 0) _ _
          (λ e. answered-Outcome cbw before p b)
          λ e. record {
            tag = b.tag;
            phase = inr (
                streams dir (p.data_phase_length / 64 * 64)
                  (ap
                    (λ (x : List MscAction). sector_stream dir (p.data_phase_length / 64 * 64) ∷ x)
                    b.same_actions)
                  (ground arith) (omega arith) (omega arith) b.residue);
          }

ready-Outcome :
    (cbw : Cbw) (before s : Msc)
    → IsAccepted cbw before s
    → Outcome cbw before (test_unit_ready cbw s)
unfolding test_unit_ready
ready-Outcome cbw before s a =
    if-by (Outcome cbw before) s.ejected _ _ (λ e. fail-Outcome _ cbw before s a)
      λ e. dn-Outcome cbw before s a

eject-Outcome :
    (cbw : Cbw) (before s : Msc)
    → IsAccepted cbw before s
    → Outcome cbw before (start_stop_unit cbw s)
unfolding start_stop_unit eject
eject-Outcome cbw before s a =
    if-by (λ (x : Msc). Outcome cbw before (init_for_dn cbw x)) (get_or cbw.cb 4 0 % 4 == 2) _ _
      (λ e.
        dn-Outcome cbw before _
          (record { tag = a.tag; residue = a.residue; same_actions = a.same_actions }))
      λ e. dn-Outcome cbw before s a

sense-Outcome :
    (cbw : Cbw) (before s : Msc)
    → cbw.data_transfer_length < 0x1_0000_0000
    → IsAccepted cbw before s
    → Outcome cbw before (request_sense cbw s)
unfolding request_sense
sense-Outcome cbw before s h a =
    standard-Outcome _ cbw before _ h
      (record { tag = a.tag; residue = a.residue; same_actions = a.same_actions })

command-Outcome :
    (inquiry : List ℕ) (sector_count cmd : ℕ) (cbw : Cbw) (before s : Msc)
    → cbw.data_transfer_length < 0x1_0000_0000
    → IsAccepted cbw before s
    → Outcome cbw before (scsi_command inquiry sector_count cmd cbw s)
unfolding scsi_command mode_sense read_or_write_command read_capacity read_format_capacities
command-Outcome inquiry sector_count cmd cbw before s h a =
    let O = Outcome cbw before in
    let none = dn-Outcome cbw before s a in
    if-by O (cmd == 0x12) _ _ (λ e. standard-Outcome inquiry cbw before s h a)
      λ e.
        if-by O (cmd == 0x1a) _ _ (λ e. standard-Outcome _ cbw before s h a)
          λ e.
            if-by O (cmd == 0x1e) _ _ (λ e. none)
              λ e.
                if-by O (cmd == 0x28) _ _ (λ e. sectors-Outcome cbw _ _ dir_in before s a)
                  λ e.
                    if-by O (cmd == 0x2a) _ _ (λ e. sectors-Outcome cbw _ _ dir_out before s a)
                      λ e.
                        if-by O (cmd == 0x23) _ _ (λ e. standard-Outcome _ cbw before s h a)
                          λ e.
                            if-by O (cmd == 0x25) _ _ (λ e. standard-Outcome _ cbw before s h a)
                              λ e.
                                if-by O (cmd == 0x03) _ _ (λ e. sense-Outcome cbw before s h a)
                                  λ e.
                                    if-by O (cmd == 0x00) _ _ (λ e. ready-Outcome cbw before s a)
                                      λ e.
                                        if-by O (cmd == 0x1b) _ _
                                          (λ e. eject-Outcome cbw before s a)
                                          λ e.
                                            if-by O (cmd == 0x35) _ _ (λ e. none)
                                              λ e.
                                                if-by O (cmd == 0x2f) _ _ (λ e. none)
                                                  λ e. fail-Outcome _ cbw before s a

-- Whatever the packet: a valid command block of the mass storage interface, for less than 2^32 bytes, is
-- answered or owed exactly one CSW at once, or begins exactly one data phase (a packet, or a stream of
-- whole packets of sectors). The CSW has the command's tag, and its residue is the length that the host
-- asked for, less the bytes of the response packet.
pub msc_cmd_packet-Outcome :
    (inquiry : List ℕ) (sector_count len : ℕ) (cbw : Cbw) (s : Msc)
    → is_valid_cbw len cbw ≡ true
    → cbw.data_transfer_length < 0x1_0000_0000
    → Outcome cbw s (msc_cmd_packet inquiry sector_count len cbw s)
unfolding msc_cmd_packet accept_cbw
msc_cmd_packet-Outcome inquiry sector_count len cbw s v h =
    rw (v, msc_cmd_packet)
      (command-Outcome inquiry sector_count (get_or cbw.cb 0 0) cbw s (accept_cbw cbw s) h
        (record { tag = refl; residue = refl; same_actions = refl }))
