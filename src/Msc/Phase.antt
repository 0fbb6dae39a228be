-- ===== src/Msc/Phase.antt =====
-- A command that has no data phase has its CSW sent, or is owed it for when the host clears the stall.
use pico_bootrom_rp.Common.{
  ℕ, ◌⊎◌, ◌∙◌, ap, ◌≡◌, ◌≢◌, refl, true, false, not, ◌&&◌, sym, List, [], ◌∷◌, ltb, ◌==◌,
  if◌then◌else◌, min, arith, Bool-cases, inl, inr,
}
use pico_bootrom_rp.Msc.{
  Direction, dir_none, dir_in, dir_out, same_dir, Csw, Cbw, MscAction, csw_packet, Msc, send_csw,
  data_phase_complete, scsi_dir, plan_data, init_for_di_or_do,
}

-- The CSWs that have been sent, the newest first.
abbrev pub csws : List MscAction → List Csw
csws [] = []
csws (csw_packet c ∷ actions) = c ∷ csws actions
csws (_ ∷ actions) = csws actions

-- Just one CSW more than in `before` has been sent, with the fields of `csw` now, or is owed for when the
-- host clears the stall.
pub record IsAnswered (before after : Msc) : Type 0 where
  pub once :
      (if after.send_csw_on_unstall then after.csw ∷ csws after.actions else csws after.actions)
      ≡ after.csw ∷ csws before.actions
  pub no_stall_left : after.stall_direction_before_csw ≡ dir_none

-- The end of the data phase, whichever endpoint is to stall, answers the command.
pub data_phase_complete-IsAnswered :
    (before s : Msc) → s.actions ≡ before.actions → IsAnswered before (data_phase_complete s)
unfolding data_phase_complete send_csw
data_phase_complete-IsAnswered before s same = answer s.stall_direction_before_csw refl
  where
    answer :
        (d : Direction)
        → s.stall_direction_before_csw ≡ d
        → IsAnswered before (data_phase_complete s)
    answer dir_none e =
        rw (e, data_phase_complete) (record { once = rw same refl; no_stall_left = e })
    answer dir_in e =
        rw (e, data_phase_complete) (record { once = rw same refl; no_stall_left = refl })
    answer dir_out e =
        rw (e, data_phase_complete) (record { once = rw same refl; no_stall_left = refl })

pub csw-data_phase_complete : (s : Msc) → (data_phase_complete s).csw ≡ s.csw
unfolding data_phase_complete send_csw
csw-data_phase_complete s = answer s.stall_direction_before_csw refl
  where
    answer :
        (d : Direction) → s.stall_direction_before_csw ≡ d → (data_phase_complete s).csw ≡ s.csw
    answer dir_none e = rw (e, data_phase_complete) refl
    answer dir_in e = rw (e, data_phase_complete) refl
    answer dir_out e = rw (e, data_phase_complete) refl

-- The status that the command gets: a phase error where the host wants the other direction, or less
-- data than the command has.
abbrev pub status_for : Cbw → ℕ → Direction → ℕ → ℕ
status_for cbw expected dir status =
    if same_dir (scsi_dir cbw) dir
    then (if ltb cbw.data_transfer_length expected then 2 else status)
    else 2

-- A data phase begins: in the direction that the host wants, of the length that both sides agree on.
pub record IsDataPhase (cbw : Cbw) (expected : ℕ) (dir : Direction) (before after : Msc)
    : Type 0 where
  pub agreed : same_dir (scsi_dir cbw) dir ≡ true
  pub size : after.data_phase_length ≡ min expected cbw.data_transfer_length
  pub some_data : after.data_phase_length ≢ 0
  pub same_actions : after.actions ≡ before.actions

plan_data-status :
    (cbw : Cbw) (expected : ℕ) (dir : Direction) (s : Msc)
    → (plan_data cbw expected dir s).csw.status ≡ status_for cbw expected dir s.csw.status
unfolding plan_data
plan_data-status cbw expected dir s = elim (Bool-cases (same_dir (scsi_dir cbw) dir)) [
  | inl e ↦ rw e (elim (Bool-cases (ltb cbw.data_transfer_length expected)) [
    | inl f ↦ rw f refl
    | inr f ↦ rw f refl
  ])
  | inr e ↦ rw e refl
]

pub plan_data-actions :
    (cbw : Cbw) (expected : ℕ) (dir : Direction) (s : Msc)
    → (plan_data cbw expected dir s).actions ≡ s.actions
unfolding plan_data
plan_data-actions cbw expected dir s = elim (Bool-cases (same_dir (scsi_dir cbw) dir)) [
  | inl e ↦ rw e (elim (Bool-cases (ltb cbw.data_transfer_length expected)) [
    | inl f ↦ rw f refl
    | inr f ↦ rw f refl
  ])
  | inr e ↦ rw e refl
]

pub plan_data-IsDataPhase :
    (cbw : Cbw) (expected : ℕ) (dir : Direction) (s : Msc)
    → (plan_data cbw expected dir s).data_phase_length ≢ 0
    → IsDataPhase cbw expected dir s (plan_data cbw expected dir s)
unfolding plan_data
plan_data-IsDataPhase cbw expected dir s some_data =
    elim (Bool-cases (same_dir (scsi_dir cbw) dir)) [
      | inl e ↦ record {
        agreed = e;
        size = length-agreed e;
        some_data = some_data;
        same_actions = plan_data-actions cbw expected dir s;
      }
      | inr e ↦ absurd (some_data (length-refused e))
    ]
  where
    length-agreed :
        same_dir (scsi_dir cbw) dir ≡ true
        → (plan_data cbw expected dir s).data_phase_length ≡ min expected cbw.data_transfer_length
    length-agreed e = rw (e, plan_data) refl

    length-refused :
        same_dir (scsi_dir cbw) dir ≡ false → (plan_data cbw expected dir s).data_phase_length ≡ 0
    length-refused e = rw (e, plan_data) refl

plan_data-length :
    (cbw : Cbw) (expected : ℕ) (dir : Direction) (s : Msc)
    → not ((plan_data cbw expected dir s).data_phase_length == 0)
      ≡ (same_dir (scsi_dir cbw) dir && not (min expected cbw.data_transfer_length == 0))
unfolding plan_data
plan_data-length cbw expected dir s = elim (Bool-cases (same_dir (scsi_dir cbw) dir)) [
  | inl e ↦ rw e refl
  | inr e ↦ rw e refl
]

-- Whatever length and direction a command has and the host wants: where the directions are the same and
-- neither length is 0, a data phase of the length that both sides agree on begins, and otherwise the
-- command is answered at once: exactly one CSW more is sent, or owed until the host clears the stall. The
-- CSW sent is the current one, whose status is a phase
-- error where the directions differ or the host wants less data, and what it was otherwise.
pub init_for_di_or_do-phase :
    (cbw : Cbw) (expected : ℕ) (dir : Direction) (s : Msc)
    → ((init_for_di_or_do cbw expected dir s).1
        ≡ (same_dir (scsi_dir cbw) dir && not (min expected cbw.data_transfer_length == 0)))
      × ((init_for_di_or_do cbw expected dir s).0.csw.status
          ≡ status_for cbw expected dir s.csw.status)
      × (((init_for_di_or_do cbw expected dir s).1 ≡ true)
            × IsDataPhase cbw expected dir s (init_for_di_or_do cbw expected dir s).0
          ⊎ ((init_for_di_or_do cbw expected dir s).1 ≡ false)
            × IsAnswered s (init_for_di_or_do cbw expected dir s).0)
unfolding init_for_di_or_do
init_for_di_or_do-phase cbw expected dir s =
    let planned = plan_data cbw expected dir s in
    let status = plan_data-status cbw expected dir s in
    let length = plan_data-length cbw expected dir s in
    elim (Bool-cases (planned.data_phase_length == 0)) [
      | inl e ↦ rw e (
        ap not (sym e) ∙ length,
        ap (λ (c : Csw). c.status) (csw-data_phase_complete planned) ∙ status,
        inr (refl, data_phase_complete-IsAnswered s planned (plan_data-actions cbw expected dir s)),
      )
      | inr e ↦
          let some_data : planned.data_phase_length ≢ 0 = ground arith in
          rw e (
            ap not (sym e) ∙ length,
            status,
            inl (refl, plan_data-IsDataPhase cbw expected dir s some_data),
          )
    ]
