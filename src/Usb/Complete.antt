-- ===== src/Usb/Complete.antt =====
-- The end of a transfer, and the start of the one chained to it.
use pico_bootrom_rp.Common.{
  ℕ, ◌+◌, ◌*◌, ◌≤◌, ◌<◌, ◌≡◌, refl, sym, subst, ap, Bool, true, false, Option, none, some, ◌==◌,
  if◌then◌else◌, arith, Bool-cases, inl, inr,
}
use pico_bootrom_rp.Usb.{Transfer, transfer_completed, Endpoint}
use pico_bootrom_rp.Usb.Transfers.{
  PacketAnswer, Call, give_call, started_transfer, completed_transfer, start_transfer,
  call_completed, complete,
}
use pico_bootrom_rp.Usb.Counts.{
  IsSound, IsWhole, is_fresh, is_fresh_chain, IsSound-IsWhole, completed_transfer-IsSound,
  started_transfer-IsSound,
}
use pico_bootrom_rp.Usb.Progress.{
  IsLawful, chain_size, base_size, size, call_size, IsFree, Leaves, events-Leaves, Carries,
}

module _ (on_packet : Endpoint → PacketAnswer) (lawful : IsLawful on_packet) (n : ℕ)
    (call : Call → Endpoint → Endpoint) (carries : Carries on_packet n call) where
  idle-Leaves :
      (d : ℕ) (ep : Endpoint)
      → IsWhole ep
      → Leaves d (base_size ep) ep.double_buffered ep.is_in (completed_transfer ep)
  unfolding completed_transfer
  idle-Leaves d ep w = record {
    sound = completed_transfer-IsSound d ep w;
    smaller = omega arith;
    same_double = refl;
    same_in = refl;
  }

  -- The chained transfer starts with every buffer the CPU's.
  chained-Leaves :
      (t : Transfer) (ep : Endpoint)
      → IsWhole ep
      → is_fresh t ≡ true
      → ep.owned_buffer_count ≡ (if ep.double_buffered then 2 else 1)
      → 3 * ep.owned_buffer_count + 2 < n
      → Leaves 0
          (3 * ep.owned_buffer_count)
          ep.double_buffered
          ep.is_in
          (call give_call (started_transfer t (completed_transfer ep)))
  unfolding completed_transfer started_transfer
  chained-Leaves t ep w f o m =
      let start : Endpoint = started_transfer t (completed_transfer ep) in
      let whole = IsSound-IsWhole 0 _ (completed_transfer-IsSound 0 ep w) in
      let free : IsFree 0 start = record {
        sound = started_transfer-IsSound t (completed_transfer ep) whole f o;
        no_packet = ground arith;
      } in
      let small : size start ≤ 3 * ep.owned_buffer_count = ground arith in
      let l = (carries give_call 0 start free (calls ep.is_in small)).leaves in
      record {
        sound = l.sound;
        smaller = let s = l.smaller in omega arith;
        same_double = l.same_double;
        same_in = l.same_in;
      }
    where
      calls : (b : Bool) {s : ℕ} → s ≤ 3 * ep.owned_buffer_count → s + call_size b give_call < n
      calls true e = omega arith
      calls false e = omega arith

  -- The end of a transfer, which may start the chained one.
  pub complete-Leaves :
      (d : ℕ) (ep : Endpoint)
      → IsWhole ep
      → ((ep.halt_state == 0) ≡ true
          → (ep.owned_buffer_count ≡ (if ep.double_buffered then 2 else 1)) × (d ≡ 0))
      → base_size ep ≤ n
      → Leaves d (base_size ep) ep.double_buffered ep.is_in (complete on_packet call ep)
  unfolding complete call_completed start_transfer
  complete-Leaves d ep w k m = elim (Bool-cases (ep.halt_state == 0)) [
    | inr h ↦ rw (h, complete) (idle-Leaves d ep w)
    | inl h ↦ rw (h, complete) (called ep.transfer.on_complete ep.chain_transfer refl (k h))
  ]
    where
      stopped : Leaves d (base_size ep) ep.double_buffered ep.is_in (completed_transfer ep)
      stopped = idle-Leaves d ep w

      called :
          (b : Bool) (o : Option Transfer)
          → ep.chain_transfer ≡ o
          → (ep.owned_buffer_count ≡ (if ep.double_buffered then 2 else 1)) × (d ≡ 0)
          → Leaves d
              (base_size ep)
              ep.double_buffered
              ep.is_in
              (call_completed on_packet call b o (completed_transfer ep))
      called true o e h =
          events-Leaves d (base_size ep) ep.double_buffered ep.is_in transfer_completed
            (completed_transfer ep) stopped
      called false none e h = stopped
      called false (some t) e h =
          let f : is_fresh t ≡ true =
            subst (λ (c : Option Transfer). is_fresh_chain c ≡ true) e w.chained in
          let s : base_size ep ≡ 3 * ep.owned_buffer_count + 20 =
            ap (λ (c : Option Transfer). 3 * ep.owned_buffer_count + chain_size c) e in
          let l = chained-Leaves t ep w f h.0 (omega arith) in
          record {
            sound =
                subst
                  (λ (x : ℕ). IsSound x (start_transfer on_packet call t (completed_transfer ep)))
                  (sym h.1) l.sound;
            smaller = let z = l.smaller in omega arith;
            same_double = l.same_double;
            same_in = l.same_in;
          }
