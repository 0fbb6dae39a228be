-- ===== src/Msc/Agreed.antt =====
-- usb_device_tiny/usb_msc.c: what a command comes to that has no data, fails, or agrees on a data phase.
use pico_bootrom_rp.Common.{
  ℕ, ◌+◌, ◌%◌, ◌≤◌, ◌<◌, ◌⊎◌, ◌∙◌, ap, ◌≡◌, ◌≢◌, refl, List, ◌∷◌, ltb, ◌==◌, min, length, arith,
  Bool-cases, inl, inr,
}
use pico_bootrom_rp.Msc.{
  Direction, same_dir, Csw, Cbw, Sense, response_packet, sector_stream, Msc, data_phase_complete,
  init_for_dn, scsi_dir, plan_data, init_for_di_or_do,
}
use pico_bootrom_rp.Msc.Phase.{
  IsAnswered, data_phase_complete-IsAnswered, csw-data_phase_complete, plan_data-actions,
  plan_data-IsDataPhase,
}
use pico_bootrom_rp.Msc.Command.{set_csw_failed, fail_cmd, begin_if}

-- A command that has been accepted, and has done nothing yet.
pub record IsAccepted (cbw : Cbw) (before s : Msc) : Type 0 where
  pub tag : s.csw.tag ≡ cbw.tag
  pub residue : s.csw.residue ≡ cbw.data_transfer_length
  pub same_actions : s.actions ≡ before.actions

-- A data phase: one packet of a response, or a stream of whole packets of sectors.
pub data Begins (cbw : Cbw) (before after : Msc) : Type 0 where
  responds :
      (bytes : List ℕ)
      → after.actions ≡ response_packet bytes ∷ before.actions
      → 0 < length bytes
      → after.csw.residue + length bytes ≡ cbw.data_transfer_length
      → Begins cbw before after
  streams :
      (dir : Direction) (n : ℕ)
      → after.actions ≡ sector_stream dir n ∷ before.actions
      → 0 < n
      → n ≤ cbw.data_transfer_length
      → n % 64 ≡ 0
      → after.csw.residue ≡ cbw.data_transfer_length
      → Begins cbw before after

-- What a valid command comes to.
pub record Outcome (cbw : Cbw) (before after : Msc) : Type 0 where
  pub tag : after.csw.tag ≡ cbw.tag
  pub phase :
      IsAnswered before after × (after.csw.residue ≡ cbw.data_transfer_length)
      ⊎ Begins cbw before after

pub answered-Outcome :
    (cbw : Cbw) (before s : Msc)
    → IsAccepted cbw before s
    → Outcome cbw before (data_phase_complete s)
answered-Outcome cbw before s a =
    let c = csw-data_phase_complete s in
    record {
      tag = ap (λ (x : Csw). x.tag) c ∙ a.tag;
      phase = inl (
        data_phase_complete-IsAnswered before s a.same_actions,
        ap (λ (x : Csw). x.residue) c ∙ a.residue,
      );
    }

pub dn-Outcome :
    (cbw : Cbw) (before s : Msc) → IsAccepted cbw before s → Outcome cbw before (init_for_dn cbw s)
unfolding init_for_dn
dn-Outcome cbw before s a =
    answered-Outcome cbw before _
      (record { tag = a.tag; residue = a.residue; same_actions = a.same_actions })

pub fail-Outcome :
    (sense : Sense) (cbw : Cbw) (before s : Msc)
    → IsAccepted cbw before s
    → Outcome cbw before (fail_cmd sense cbw s)
unfolding fail_cmd set_csw_failed
fail-Outcome sense cbw before s a =
    dn-Outcome cbw before _
      (record { tag = a.tag; residue = a.residue; same_actions = a.same_actions })

plan_data-csw :
    (cbw : Cbw) (expected : ℕ) (dir : Direction) (s : Msc)
    → ((plan_data cbw expected dir s).csw.tag ≡ s.csw.tag)
      × ((plan_data cbw expected dir s).csw.residue ≡ s.csw.residue)
unfolding plan_data
plan_data-csw cbw expected dir s = elim (Bool-cases (same_dir (scsi_dir cbw) dir)) [
  | inl e ↦ rw e (elim (Bool-cases (ltb cbw.data_transfer_length expected)) [
    | inl f ↦ rw f (refl, refl)
    | inr f ↦ rw f (refl, refl)
  ])
  | inr e ↦ rw e (refl, refl)
]

plan_data-IsAccepted :
    (cbw : Cbw) (expected : ℕ) (dir : Direction) (before s : Msc)
    → IsAccepted cbw before s
    → IsAccepted cbw before (plan_data cbw expected dir s)
plan_data-IsAccepted cbw expected dir before s a =
    let c = plan_data-csw cbw expected dir s in
    record {
      tag = c.0 ∙ a.tag;
      residue = c.1 ∙ a.residue;
      same_actions = plan_data-actions cbw expected dir s ∙ a.same_actions;
    }

-- A command with data: what it begins, if the host agrees, decides.
pub di_or_do-Outcome :
    (begin : Msc → Msc) (cbw : Cbw) (expected : ℕ) (dir : Direction) (before s : Msc)
    → IsAccepted cbw before s
    → ((p : Msc)
        → IsAccepted cbw before p
        → p.data_phase_length ≡ min expected cbw.data_transfer_length
        → p.data_phase_length ≢ 0
        → Outcome cbw before (begin p))
    → Outcome cbw before (begin_if begin (init_for_di_or_do cbw expected dir s))
unfolding init_for_di_or_do begin_if
di_or_do-Outcome begin cbw expected dir before s a k =
    let planned = plan_data cbw expected dir s in
    let p = plan_data-IsAccepted cbw expected dir before s a in
    elim (Bool-cases (planned.data_phase_length == 0)) [
      | inl e ↦ rw e (answered-Outcome cbw before planned p)
      | inr e ↦
          let some_data : planned.data_phase_length ≢ 0 = ground arith in
          let d = plan_data-IsDataPhase cbw expected dir s some_data in
          rw e (k planned p d.size some_data)
    ]
