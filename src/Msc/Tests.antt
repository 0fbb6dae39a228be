-- ===== src/Msc/Tests.antt =====
-- A read of two sectors that the host wants one sector of, and a command with no data.
use pico_bootrom_rp.Common.{
  ◌≡◌, refl, true, false, not, ◌&&◌, ◌==◌, min, [], ◌∷◌, arith, ◌⊎◌, test_bit,
}
use pico_bootrom_rp.Msc.{
  dir_none, dir_in, same_dir, Cbw, Msc, sector_stream, data_phase_complete, init_for_di_or_do,
  plan_data, scsi_dir,
}
use pico_bootrom_rp.Msc.Command.{
  begin_if, begin_sectors, read_or_write_blocks, cb_lba, cb_blocks, read_or_write_command,
  is_valid_cbw, accept_cbw, scsi_command, msc_cmd_packet, in_on_stall_change,
}
use pico_bootrom_rp.Msc.Agreed.{Outcome}
use pico_bootrom_rp.Msc.Answer.{msc_cmd_packet-Outcome}
use pico_bootrom_rp.Msc.Residue.{unstall-csws}
use pico_bootrom_rp.Msc.Phase.{csws, status_for, IsDataPhase, IsAnswered, init_for_di_or_do-phase}

abbrev ready : Msc
ready = record {
  csw = record { tag = 1; residue = 512; status = 0 };
  request_sense = record { key = 0; asc = 0; ascq = 0 };
  async_token = 0;
  lba = 0;
  data_phase_length = 0;
  stall_direction_before_csw = dir_none;
  send_csw_on_unstall = false;
  ejected = false;
  actions = [];
}

abbrev short_read : Cbw
short_read = record {
  sig = 0x4342_5355;
  tag = 1;
  data_transfer_length = 512;
  flags = 0x80;
  lun = 0;
  cb_length = 10;
  cb = 0x28 ∷ 0 ∷ 0 ∷ 0 ∷ 0 ∷ 7 ∷ 0 ∷ 0 ∷ 2 ∷ 0 ∷ [];
}

short_read-length : (init_for_di_or_do short_read 1024 dir_in ready).0.data_phase_length ≡ 512
unfolding init_for_di_or_do plan_data scsi_dir test_bit
short_read-length = refl

init_for_di_or_do-phase_example :
    ((init_for_di_or_do short_read 1024 dir_in ready).1 ≡ (
      same_dir (scsi_dir short_read) dir_in && not (min 1024 short_read.data_transfer_length == 0)))
    × ((init_for_di_or_do short_read 1024 dir_in ready).0.csw.status
        ≡ status_for short_read 1024 dir_in 0)
    × (((init_for_di_or_do short_read 1024 dir_in ready).1 ≡ true)
          × IsDataPhase short_read 1024 dir_in ready
              (init_for_di_or_do short_read 1024 dir_in ready).0
        ⊎ ((init_for_di_or_do short_read 1024 dir_in ready).1 ≡ false)
          × IsAnswered ready (init_for_di_or_do short_read 1024 dir_in ready).0)
init_for_di_or_do-phase_example = init_for_di_or_do-phase short_read 1024 dir_in ready

-- A read of two sectors from sector 7 on, which the host wants.
abbrev read_two : Cbw
read_two = record short_read { data_transfer_length = 1024 }

read_two-streams :
    (msc_cmd_packet [] 0x1_0000 31 read_two ready).actions ≡ sector_stream dir_in 1024 ∷ []
unfolding msc_cmd_packet is_valid_cbw scsi_command accept_cbw read_or_write_command
    read_or_write_blocks begin_if begin_sectors init_for_di_or_do plan_data scsi_dir test_bit cb_lba
    cb_blocks
read_two-streams = refl

msc_cmd_packet-Outcome_example :
    Outcome read_two ready (msc_cmd_packet [] 0x1_0000 31 read_two ready)
unfolding is_valid_cbw
msc_cmd_packet-Outcome_example =
    msc_cmd_packet-Outcome [] 0x1_0000 31 read_two ready refl (omega arith)

abbrev stalling : Msc
stalling = record ready { stall_direction_before_csw = dir_in }

unstall-csws_example :
    (csws (in_on_stall_change false (data_phase_complete stalling)).actions ≡ ready.csw ∷ [])
    × (in_on_stall_change false (in_on_stall_change false (data_phase_complete stalling))
        ≡ in_on_stall_change false (data_phase_complete stalling))
unstall-csws_example = unstall-csws stalling
