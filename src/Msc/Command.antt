-- ===== src/Msc/Command.antt =====
-- usb_device_tiny/usb_msc.c: the commands in a command block wrapper (CBW), their responses, the sector
-- streams and the resets.
use pico_bootrom_rp.Common.{
  ℕ, ◌+◌, ◌-◌, ◌*◌, ◌/◌, ◌%◌, Bool, true, false, ◌&&◌, not, List, [], ◌∷◌, ◌++◌, leb, ◌==◌,
  if◌then◌else◌, u8, u32, min, take, length, get_or,
}
use pico_bootrom_rp.Msc.{
  Direction, dir_none, dir_in, dir_out, Cbw, Sense, halt_msc_in_on_condition,
  halt_msc_out_on_condition, response_packet, sector_stream, chunk_done, reset_msc_endpoints, Msc,
  data_phase_complete, send_csw, init_for_dn, init_for_di_or_do,
}

abbrev pub csw_status_command_passed : ℕ
csw_status_command_passed = 0

abbrev pub csw_status_command_failed : ℕ
csw_status_command_failed = 1

abbrev pub no_sense : Sense
no_sense = record { key = 0; asc = 0; ascq = 0 }

-- `_msc_set_csw_failed`
unfoldable pub set_csw_failed : Sense → Msc → Msc
set_csw_failed sense s = record s {
  csw = record s.csw { status = csw_status_command_failed };
  request_sense = sense;
}

-- `_scsi_fail_cmd`
unfoldable pub fail_cmd : Sense → Cbw → Msc → Msc
fail_cmd sense cbw s = init_for_dn cbw (set_csw_failed sense s)

-- `_scsi_standard_response`, once the response is in the packet buffer.
unfoldable pub respond : List ℕ → Msc → Msc
respond bytes s =
    let sent = take s.data_phase_length bytes in
    record s {
      csw = record s.csw { residue = u32 (s.csw.residue + 0x1_0000_0000 - s.data_phase_length) };
      actions = response_packet sent ∷ s.actions;
    }

-- A data phase, if there is one.
unfoldable pub begin_if : (Msc → Msc) → Msc × Bool → Msc
begin_if begin (s, true) = begin s
begin_if begin (s, false) = s

-- `_scsi_standard_response`
unfoldable pub standard_response : List ℕ → Cbw → Msc → Msc
standard_response bytes cbw s =
    begin_if (respond bytes)
      (init_for_di_or_do cbw (min (length bytes) cbw.data_transfer_length) dir_in s)

-- The four bytes of a word, the highest first: `__builtin_bswap32` on a little-endian machine.
abbrev pub big_endian : ℕ → List ℕ
big_endian n = u8 (n / 0x100_0000) ∷ u8 (n / 0x1_0000) ∷ u8 (n / 0x100) ∷ u8 n ∷ []

-- `_scsi_read_or_write_blocks`, once a data phase has been agreed on.
unfoldable pub begin_sectors : Direction → Msc → Msc
begin_sectors dir s =
    let packets = s.data_phase_length / 64 in
    if packets == 0 then data_phase_complete s else record s {
      async_token = u32 (s.async_token + 1);
      actions = sector_stream dir (packets * 64) ∷ s.actions;
    }

-- `_scsi_read_or_write_blocks`
unfoldable pub read_or_write_blocks : Cbw → ℕ → ℕ → Direction → Msc → Msc
read_or_write_blocks cbw lba blocks dir s =
    begin_if (begin_sectors dir)
      (init_for_di_or_do cbw (u32 (blocks * 512)) dir (record s { lba = lba }))

-- The fields of `struct scsi_read_cb`, most significant byte first.
unfoldable pub cb_lba : Cbw → ℕ
cb_lba cbw =
    get_or cbw.cb 2 0 * 0x100_0000
    + get_or cbw.cb 3 0 * 0x1_0000
    + get_or cbw.cb 4 0 * 0x100
    + get_or cbw.cb 5 0

unfoldable pub cb_blocks : Cbw → ℕ
cb_blocks cbw = get_or cbw.cb 7 0 * 0x100 + get_or cbw.cb 8 0

-- `_scsi_handle_read_or_write_command`
unfoldable pub read_or_write_command : Cbw → Direction → Msc → Msc
read_or_write_command cbw dir s = read_or_write_blocks cbw (cb_lba cbw) (cb_blocks cbw) dir s

-- `_scsi_handle_test_unit_ready`
unfoldable pub test_unit_ready : Cbw → Msc → Msc
test_unit_ready cbw s =
    if s.ejected
    then fail_cmd (record { key = 2; asc = 0x3a; ascq = 0 }) cbw s
    else init_for_dn cbw s

-- `msc_eject`
unfoldable pub eject : Msc → Msc
eject s = record s { ejected = true }

-- `_scsi_handle_start_stop_unit`
unfoldable pub start_stop_unit : Cbw → Msc → Msc
start_stop_unit cbw s = init_for_dn cbw (if get_or cbw.cb 4 0 % 4 == 2 then eject s else s)

-- `_msc_state.request_sense`, as bytes.
unfoldable pub sense_bytes : Sense → List ℕ
sense_bytes sense =
    0x70 ∷ 0 ∷ sense.key ∷ 0 ∷ 0 ∷ 0 ∷ 0 ∷ 0xa ∷ 0 ∷ 0 ∷ 0 ∷ 0 ∷ sense.asc ∷ sense.ascq ∷ 0 ∷ 0 ∷ 0
    ∷ 0 ∷ []

-- `_scsi_handle_request_sense`
unfoldable pub request_sense : Cbw → Msc → Msc
request_sense cbw s =
    standard_response (sense_bytes s.request_sense) cbw (record s { request_sense = no_sense })

-- `_scsi_handle_mode_sense`
unfoldable pub mode_sense : Cbw → Msc → Msc
mode_sense cbw s = standard_response (3 ∷ 0 ∷ 0 ∷ 0 ∷ []) cbw s

-- `_msc_cmd_halt`
unfoldable pub cmd_halt : Msc → Msc
cmd_halt s = record s { actions = halt_msc_out_on_condition ∷ halt_msc_in_on_condition ∷ s.actions }

-- The condition of `_msc_cmd_packet_internal`, for a packet of `len` bytes.
unfoldable pub is_valid_cbw : ℕ → Cbw → Bool
is_valid_cbw len cbw =
    len == 31
    && cbw.sig == 0x4342_5355
    && cbw.lun == 0
    && cbw.flags % 0x80 == 0
    && not (cbw.cb_length == 0)
    && leb cbw.cb_length 16

-- The start of a valid command.
unfoldable pub accept_cbw : Cbw → Msc → Msc
accept_cbw cbw s = record s {
  csw = record {
    tag = cbw.tag;
    residue = cbw.data_transfer_length;
    status = csw_status_command_passed;
  };
  request_sense = if get_or cbw.cb 0 0 == 3 then s.request_sense else no_sense;
}

-- The inquiry response, which the build compresses, and `vd_sector_count()`.
module _ (inquiry : List ℕ) (sector_count : ℕ) where
  -- `_scsi_handle_read_capacity`
  unfoldable pub read_capacity : Cbw → Msc → Msc
  read_capacity cbw s = standard_response (big_endian (sector_count - 1) ++ big_endian 512) cbw s

  -- `_scsi_handle_read_format_capacities`: `2u | __builtin_bswap32(SECTOR_SIZE)`.
  unfoldable pub read_format_capacities : Cbw → Msc → Msc
  read_format_capacities cbw s =
      standard_response (0 ∷ 0 ∷ 0 ∷ 0 ∷ (big_endian (sector_count - 1) ++ (2 ∷ 0 ∷ 2 ∷ 0 ∷ [])))
        cbw s

  -- The `switch` of `_msc_cmd_packet_internal`.
  unfoldable pub scsi_command : ℕ → Cbw → Msc → Msc
  scsi_command cmd cbw s =
      if cmd == 0x12
      then standard_response inquiry cbw s
      else if cmd == 0x1a
      then mode_sense cbw s
      else if cmd == 0x1e
      then init_for_dn cbw s
      else if cmd == 0x28
      then read_or_write_command cbw dir_in s
      else if cmd == 0x2a
      then read_or_write_command cbw dir_out s
      else if cmd == 0x23
      then read_format_capacities cbw s
      else if cmd == 0x25
      then read_capacity cbw s
      else if cmd == 0x03
      then request_sense cbw s
      else if cmd == 0x00
      then test_unit_ready cbw s
      else if cmd == 0x1b
      then start_stop_unit cbw s
      else if cmd == 0x35
      then init_for_dn cbw s
      else if cmd == 0x2f
      then init_for_dn cbw s
      else fail_cmd (record { key = 5; asc = 0x20; ascq = 0 }) cbw s

  -- `_msc_cmd_packet_internal`
  unfoldable pub msc_cmd_packet : ℕ → Cbw → Msc → Msc
  msc_cmd_packet len cbw s =
      if is_valid_cbw len cbw
      then scsi_command (get_or cbw.cb 0 0) cbw (accept_cbw cbw s)
      else cmd_halt s

-- `_msc_on_sector_stream_packet_complete`
unfoldable pub on_sector_stream_packet_complete : Msc → Msc
on_sector_stream_packet_complete s = record s {
  csw = record s.csw { residue = u32 (s.csw.residue + 0x1_0000_0000 - 64) };
}

-- `_msc_on_sector_stream_chunk`: the token and the sector that the virtual disk is called with.
unfoldable pub on_sector_stream_chunk : Msc → Msc × ℕ × ℕ
on_sector_stream_chunk s = (
  record s { async_token = u32 (s.async_token + 1); lba = u32 (s.lba + 1) },
  u32 (s.async_token + 1),
  s.lba,
)

-- `vd_async_complete`
unfoldable pub vd_async_complete : ℕ → ℕ → Msc → Msc
vd_async_complete token result s =
    if token == s.async_token
    then (let failed =
          if result == 0
          then s
          else data_phase_complete
              (record (set_csw_failed (record { key = 7; asc = 0x20; ascq = 2 }) s) {
                stall_direction_before_csw = dir_out;
              }) in
        record failed { actions = chunk_done ∷ failed.actions })
    else s

-- `_msc_in_on_stall_change`, by whether the IN endpoint is stalled.
unfoldable pub in_on_stall_change : Bool → Msc → Msc
in_on_stall_change stalled s = if not stalled && s.send_csw_on_unstall then send_csw s else s

-- `_msc_reset`, less the set-up of its first call and the reset of the virtual disk.
unfoldable pub msc_reset : Msc → Msc
msc_reset s = record s {
  csw = record { tag = 0; residue = 0; status = 0 };
  request_sense = no_sense;
  data_phase_length = 0;
  stall_direction_before_csw = dir_none;
  send_csw_on_unstall = false;
  ejected = false;
  actions = reset_msc_endpoints ∷ s.actions;
}
