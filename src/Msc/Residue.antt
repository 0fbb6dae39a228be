-- ===== src/Msc/Residue.antt =====
-- usb_device_tiny/usb_msc.c: the CSW behind a stalled endpoint.
use pico_bootrom_rp.Common.{◌≡◌, refl, ◌∷◌, false}
use pico_bootrom_rp.Msc.{Direction, dir_none, dir_in, dir_out, Msc, send_csw, data_phase_complete}
use pico_bootrom_rp.Msc.Phase.{csws}
use pico_bootrom_rp.Msc.Command.{in_on_stall_change}

-- Whatever direction is to stall when `_msc_data_phase_complete` is called: once the host has cleared the
-- stall of the IN endpoint, if there is one, exactly one CSW packet has been sent, and it has the tag, the
-- residue and the status of the command; no later clearing sends another.
pub unstall-csws :
    (s : Msc)
    → (csws (in_on_stall_change false (data_phase_complete s)).actions ≡ s.csw ∷ csws s.actions)
      × (in_on_stall_change false (in_on_stall_change false (data_phase_complete s))
          ≡ in_on_stall_change false (data_phase_complete s))
unfolding in_on_stall_change data_phase_complete send_csw
unstall-csws s = answer s.stall_direction_before_csw refl
  where
    answer :
        (d : Direction)
        → s.stall_direction_before_csw ≡ d
        → (csws (in_on_stall_change false (data_phase_complete s)).actions ≡ s.csw ∷ csws s.actions)
          × (in_on_stall_change false (in_on_stall_change false (data_phase_complete s))
              ≡ in_on_stall_change false (data_phase_complete s))
    answer dir_none e = rw (e, data_phase_complete) (refl, refl)
    answer dir_in e = rw (e, data_phase_complete) (refl, refl)
    answer dir_out e = rw (e, data_phase_complete) (refl, refl)
