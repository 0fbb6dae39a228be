-- ===== src/Msc.antt =====
-- usb_device_tiny/usb_msc.c, the data phase of a SCSI command: how much data there is, which endpoint
-- stalls behind it, and when the command status wrapper (CSW) goes out.
pub mod Phase
pub mod Command
pub mod Agreed
pub mod Answer
pub mod Residue
mod Tests
use pico_bootrom_rp.Common.{
  ℕ, ◌+◌, Bool, true, false, List, [], ◌∷◌, ltb, ◌==◌, if◌then◌else◌, test_bit, min, not,
}

-- `enum scsi_direction`
pub data Direction : Type 0 where
  dir_none dir_in dir_out : Direction

abbrev pub same_dir : Direction → Direction → Bool
same_dir dir_none dir_none = true
same_dir dir_in dir_in = true
same_dir dir_out dir_out = true
same_dir _ _ = false

-- `struct scsi_csw`, less the signature.
pub record Csw : Type 0 where
  pub tag : ℕ
  pub residue : ℕ
  pub status : ℕ

-- `struct scsi_cbw`
pub record Cbw : Type 0 where
  pub sig : ℕ
  pub tag : ℕ
  pub data_transfer_length : ℕ
  pub flags : ℕ
  pub lun : ℕ
  pub cb_length : ℕ
  pub cb : List ℕ

-- The fields of `struct scsi_request_sense_response` that change.
pub record Sense : Type 0 where
  pub key : ℕ
  pub asc : ℕ
  pub ascq : ℕ

-- The calls into the USB device and the streams: the halts, the packet with the CSW, the packet with a
-- response, a stream of that many bytes from or to the sectors, and the end of a chunk.
pub data MscAction : Type 0 where
  halt_msc_in halt_msc_out halt_msc_in_on_condition halt_msc_out_on_condition : MscAction
  csw_packet : Csw → MscAction
  response_packet : List ℕ → MscAction
  sector_stream : Direction → ℕ → MscAction
  chunk_done reset_msc_endpoints : MscAction

-- `struct msc_state`, with `_msc_async_token`, the sector of `_msc_sector_transfer` and the log of the
-- calls, the newest first.
pub record Msc : Type 0 where
  pub csw : Csw
  pub request_sense : Sense
  pub async_token : ℕ
  pub lba : ℕ
  pub data_phase_length : ℕ
  pub stall_direction_before_csw : Direction
  pub send_csw_on_unstall : Bool
  pub ejected : Bool
  pub actions : List MscAction

abbrev pub csw_status_phase_error : ℕ
csw_status_phase_error = 2

-- `_msc_send_csw`
unfoldable pub send_csw : Msc → Msc
send_csw s = record s { send_csw_on_unstall = false; actions = csw_packet s.csw ∷ s.actions }

-- `_msc_data_phase_complete`
unfoldable pub data_phase_complete : Msc → Msc
data_phase_complete s = elim s.stall_direction_before_csw [
  | dir_in ↦ record s {
    stall_direction_before_csw = dir_none;
    send_csw_on_unstall = true;
    actions = halt_msc_in ∷ s.actions;
  }
  | dir_out ↦
      send_csw
        (record s { stall_direction_before_csw = dir_none; actions = halt_msc_out ∷ s.actions })
  | dir_none ↦ send_csw s
]

-- `_scsi_dir`
unfoldable pub scsi_dir : Cbw → Direction
scsi_dir cbw = if test_bit cbw.flags 7 then dir_in else dir_out

-- `_msc_init_for_dn`
unfoldable pub init_for_dn : Cbw → Msc → Msc
init_for_dn cbw s = data_phase_complete (record s {
  stall_direction_before_csw = if cbw.data_transfer_length == 0 then dir_none else scsi_dir cbw;
})

abbrev set_status : ℕ → Msc → Msc
set_status status s = record s { csw = record s.csw { status = status } }

-- `_msc_init_for_di_or_do`, up to the test of the length.
unfoldable pub plan_data : Cbw → ℕ → Direction → Msc → Msc
plan_data cbw expected dir s =
    let quiet = record s { stall_direction_before_csw = dir_none; data_phase_length = 0 } in
    if same_dir (scsi_dir cbw) dir
    then (let stalled = record quiet {
      stall_direction_before_csw = if expected == cbw.data_transfer_length then dir_none else dir;
    } in
        let status =
          if ltb cbw.data_transfer_length expected
          then set_status csw_status_phase_error stalled
          else stalled in
        record status { data_phase_length = min expected cbw.data_transfer_length })
    else set_status csw_status_phase_error
        (record quiet { stall_direction_before_csw = scsi_dir cbw })

-- `_msc_init_for_di_or_do`: whether there is a data phase.
unfoldable pub init_for_di_or_do : Cbw → ℕ → Direction → Msc → Msc × Bool
init_for_di_or_do cbw expected dir s =
    let planned = plan_data cbw expected dir s in
    if planned.data_phase_length == 0 then (data_phase_complete planned, false) else (planned, true)
