-- ===== src/Usb/Restart.antt =====
-- usb_device_tiny/usb_device.c: an endpoint's calls fit in the fuel, and the start of a transfer and the
-- reset of the endpoint keep it sound.
use pico_bootrom_rp.Common.{
  ap, sym, subst, ◌∙◌, ℕ, ◌≤◌, ◌≡◌, refl, Bool, true, false, ◌&&◌, ◌||◌, not, ltb, Option, none,
  some, ◌==◌, if◌then◌else◌, arith, Bool-cases, inl, inr, if-by,
}
use pico_bootrom_rp.Usb.{Endpoint, Transfer}
use pico_bootrom_rp.Usb.Buffers.{abort_buffers, reset_buffers, ep_buffer_count}
use pico_bootrom_rp.Usb.Transfers.{
  PacketAnswer, Call, give_call, done_call, handle_call, run, started_transfer, reset_transfer,
}
use pico_bootrom_rp.Usb.Reset.{no_transfer, call_fuel, start_default, reset_state, reset_endpoint}
use pico_bootrom_rp.Usb.Shared.{SharesBuffers, reset_buffers-SharesBuffers}
use pico_bootrom_rp.Usb.Counts.{
  IsSound, is_fresh, is_fresh_chain, IsSound-IsWhole, started_transfer-IsSound,
}
use pico_bootrom_rp.Usb.Progress.{IsLawful, size, call_size, Requires}
use pico_bootrom_rp.Usb.Sizes.{chain_size-cases, at_most_two}
use pico_bootrom_rp.Usb.Run.{run-Carries}

-- The buffers are the CPU's, as they are after a reset and after a transfer that was not halted.
abbrev pub AllBack : Endpoint → Type 0
AllBack ep = ep.owned_buffer_count ≡ (if ep.double_buffered then 2 else 1)

-- A sound endpoint's calls fit in the fuel.
pub size-bounded : (d : ℕ) (ep : Endpoint) → IsSound d ep → size ep ≤ 30
unfolding SharesBuffers
size-bounded d ep h =
    let b = at_most_two ep.double_buffered h.shared.bounded in
    elim (chain_size-cases ep.chain_transfer) [ inl e ↦ ground arith | inr e ↦ ground arith ]

call_size-bounded : (b : Bool) (c : Call) → call_size b c ≤ 6
call_size-bounded true give_call = omega arith
call_size-bounded true Call.packet_call = omega arith
call_size-bounded true done_call = omega arith
call_size-bounded true (handle_call w) = omega arith
call_size-bounded false give_call = omega arith
call_size-bounded false Call.packet_call = omega arith
call_size-bounded false done_call = omega arith
call_size-bounded false (handle_call w) = omega arith

abbrev pub is_fresh_count : Option ℕ → Bool
is_fresh_count none = true
is_fresh_count (some n) = ltb 0 n && ltb n 0x1_0000_0000

-- `on_stall_change` may start a transfer, which it does as `usb_start_transfer` does.
unfoldable pub IsLawfulStall : (Endpoint → Endpoint) → Type 0
IsLawfulStall on_stall_change =
    (ep : Endpoint)
    → IsSound 0 ep
    → ep.current_transfer ≡ false
    → AllBack ep
    → IsSound 0 (on_stall_change ep)
      × ((on_stall_change ep).current_transfer ≡ false → AllBack (on_stall_change ep))

-- What a reset of the buffers leaves.
record IsReset (ep after : Endpoint) : Type 0 where
  transfer : after.transfer ≡ ep.transfer
  running : after.current_transfer ≡ ep.current_transfer
  chain : after.chain_transfer ≡ ep.chain_transfer
  asserted : after.asserted ≡ ep.asserted
  exhausted : after.exhausted ≡ ep.exhausted
  back : after.owned_buffer_count ≡ (if after.double_buffered then 2 else 1)

reset_buffers-IsReset : (ep : Endpoint) → IsReset ep (reset_buffers ep)
unfolding reset_buffers abort_buffers ep_buffer_count
reset_buffers-IsReset ep = elim (Bool-cases (ep.buffer0.avail || ep.buffer1.avail)) [
  | inl e ↦ rw e (record {
    transfer = refl;
    running = refl;
    chain = refl;
    asserted = refl;
    exhausted = refl;
    back = refl;
  })
  | inr e ↦ rw e (record {
    transfer = refl;
    running = refl;
    chain = refl;
    asserted = refl;
    exhausted = refl;
    back = refl;
  })
]

module _ (on_packet : Endpoint → PacketAnswer) (lawful : IsLawful on_packet) where
  pub called :
      (c : Call) (d : ℕ) (ep : Endpoint)
      → Requires c d ep
      → size ep ≤ 33
      → IsSound d (run on_packet call_fuel c ep)
  called c d ep r m =
      let b = call_size-bounded ep.is_in c in
      (run-Carries on_packet lawful call_fuel c d ep r (omega arith)).leaves.sound

  pub starts-IsSound :
      (ep : Endpoint) (t : Transfer)
      → IsSound 0 ep
      → AllBack ep
      → is_fresh t ≡ true
      → IsSound 0 (run on_packet call_fuel give_call (started_transfer t ep))
  unfolding started_transfer
  starts-IsSound ep t h b f =
      let s = started_transfer-IsSound t ep (IsSound-IsWhole 0 ep h) f b in
      let m = size-bounded 0 _ s in
      called give_call 0 _ (record { sound = s; no_packet = ground arith }) (omega arith)

  reset_state-IsSound :
      (hard : Bool) (ep : Endpoint)
      → IsSound 0 ep
      → IsSound 0 (reset_state hard ep)
        × ((reset_state hard ep).current_transfer ≡ false)
        × AllBack (reset_state hard ep)
  unfolding reset_state SharesBuffers
  reset_state-IsSound hard ep h =
      let stopped : Endpoint = record ep { current_transfer = false; transfer = no_transfer } in
      let r = reset_buffers-IsReset stopped in
      let t = r.running in
      let z = ap (λ (t : Transfer). t.completed) r.transfer in
      let w = ap (λ (t : Transfer). t.remaining_packets_to_handle) r.transfer in
      (
        record {
          shared = reset_buffers-SharesBuffers stopped;
          counted = λ e. ground arith;
          fits = ground arith;
          queued = ground arith;
          outstanding = ground arith;
          current = ground arith;
          chained =
              subst (λ (c : Option Transfer). is_fresh_chain c ≡ true) (sym r.chain) h.chained;
          asserted = r.asserted ∙ h.asserted;
          in_fuel = r.exhausted ∙ h.in_fuel;
        },
        r.running,
        r.back,
      )

  start_default-IsSound :
      (configured : Bool) (default_transfer : Option ℕ) (ep : Endpoint)
      → is_fresh_count default_transfer ≡ true
      → IsSound 0 ep
      → (ep.current_transfer ≡ false → AllBack ep)
      → IsSound 0 (start_default on_packet configured default_transfer ep)
  unfolding start_default reset_transfer
  start_default-IsSound configured none ep f h b = h
  start_default-IsSound configured (some n) ep f h b =
      if-by (IsSound 0) (configured && not ep.current_transfer) _ _
        (λ e. starts-IsSound ep (reset_transfer n false) h (b (ground arith)) (ground arith)) λ e. h

  pub reset_endpoint-IsSound :
      (on_stall_change : Endpoint → Endpoint)
      → IsLawfulStall on_stall_change
      → (default_transfer : Option ℕ) (configured hard : Bool) (ep : Endpoint)
      → is_fresh_count default_transfer ≡ true
      → IsSound 0 ep
      → IsSound 0 (reset_endpoint on_packet on_stall_change default_transfer configured hard ep)
  unfolding reset_endpoint IsLawfulStall SharesBuffers
  reset_endpoint-IsSound on_stall_change quiet default_transfer configured hard ep f h =
      let r = reset_state-IsSound hard ep h in
      let g = r.0 in
      let restarted =
        if-by (λ (x : Endpoint). IsSound 0 x × (x.current_transfer ≡ false → AllBack x))
          ((reset_state hard ep).halt_state == 0) _ _ (λ e. (r.0, λ c. r.2))
          (λ e.
            quiet _
              (record {
                shared = g.shared;
                counted = g.counted;
                fits = g.fits;
                queued = g.queued;
                outstanding = g.outstanding;
                current = g.current;
                chained = g.chained;
                asserted = g.asserted;
                in_fuel = g.in_fuel;
              })
              r.1 r.2) in
      start_default-IsSound configured default_transfer _ f restarted.0 restarted.1
