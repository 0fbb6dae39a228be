-- ===== src/Usb/Lifecycle.antt =====
-- The life of an endpoint, from its reset on: transfers start, the controller returns buffers, and
-- callbacks finish packets, in any order that the source's assertions allow.
use pico_bootrom_rp.Common.{ℕ, ◌<◌, ◌≡◌, refl, Bool, true, false, Option, if◌then◌else◌, arith}
use pico_bootrom_rp.Usb.{Endpoint, Transfer, BufCtrl}
use pico_bootrom_rp.Usb.Buffers.{reset_buffers, stall_endpoint, ep_buffer_count}
use pico_bootrom_rp.Usb.Transfers.{
  PacketAnswer, give_call, done_call, handle_call, run, taken_back, started_transfer,
  chain_transfer,
}
use pico_bootrom_rp.Usb.Reset.{endpoint_init_internal, call_fuel, reset_state, reset_endpoint}
use pico_bootrom_rp.Usb.Shared.{
  SharesBuffers, HasReturned, returned-IsShared, reset_buffers-SharesBuffers,
}
use pico_bootrom_rp.Usb.Counts.{IsSound, is_fresh}
use pico_bootrom_rp.Usb.Steps.{stall_endpoint-IsSound}
use pico_bootrom_rp.Usb.Progress.{IsLawful, size, IsDue}
use pico_bootrom_rp.Usb.Sizes.{at_most_two}
use pico_bootrom_rp.Usb.Restart.{
  AllBack, size-bounded, is_fresh_count, IsLawfulStall, called, starts-IsSound,
  reset_endpoint-IsSound,
}

-- What one event does to an endpoint: `usb_start_transfer` on a fresh transfer, a buffer that the
-- controller returns, `usb_packet_done` from outside the callback, `usb_chain_transfer`, a stall, and a
-- reset.
pub data Step (on_packet : Endpoint → PacketAnswer) (on_stall_change : Endpoint → Endpoint)
    : Endpoint → Endpoint → Type 0 where
  starts :
      (ep : Endpoint) (t : Transfer)
      → ep.current_transfer ≡ false
      → AllBack ep
      → is_fresh t ≡ true
      → Step on_packet on_stall_change ep
          (run on_packet call_fuel give_call (started_transfer t ep))
  returns :
      (ep : Endpoint) (buffer0 buffer1 : BufCtrl) (which : Bool)
      → ep.owned_buffer_count < (if ep.double_buffered then 2 else 1)
      → HasReturned ep.current_give_buffer ep.owned_buffer_count ep.buffer0.avail ep.buffer1.avail
          buffer0.avail buffer1.avail
      → Step on_packet on_stall_change ep (
          run on_packet call_fuel
            (handle_call which)
            (record ep { buffer0 = buffer0; buffer1 = buffer1 }))
  finishes :
      (ep : Endpoint)
      → ep.current_transfer ≡ true
      → ep.transfer.outstanding_packet ≡ true
      → Step on_packet on_stall_change ep (run on_packet call_fuel done_call ep)
  chains :
      (ep : Endpoint) (t : Transfer)
      → is_fresh t ≡ true
      → Step on_packet on_stall_change ep (chain_transfer t ep)
  stalls : (ep : Endpoint) (hs : ℕ) → Step on_packet on_stall_change ep (stall_endpoint hs ep)
  resets :
      (ep : Endpoint) (default_transfer : Option ℕ) (configured hard : Bool)
      → is_fresh_count default_transfer ≡ true
      → Step on_packet on_stall_change ep
          (reset_endpoint on_packet on_stall_change default_transfer configured hard ep)

module _ (on_packet : Endpoint → PacketAnswer) (lawful : IsLawful on_packet) where
  returns-IsSound :
      (ep : Endpoint) (buffer0 buffer1 : BufCtrl) (which : Bool)
      → IsSound 0 ep
      → ep.owned_buffer_count < (if ep.double_buffered then 2 else 1)
      → HasReturned ep.current_give_buffer ep.owned_buffer_count ep.buffer0.avail ep.buffer1.avail
          buffer0.avail buffer1.avail
      → IsSound 0 (
          run on_packet call_fuel
            (handle_call which)
            (record ep { buffer0 = buffer0; buffer1 = buffer1 }))
  unfolding taken_back SharesBuffers
  returns-IsSound ep buffer0 buffer1 which h p r =
      let m = size-bounded 0 ep h in
      let b = at_most_two ep.double_buffered h.shared.bounded in
      let due : IsDue 0 (record ep { buffer0 = buffer0; buffer1 = buffer1 }) = record {
        back = record {
          shared = returned-IsShared _ _ _ _ _ _ _ h.shared p r;
          counted = λ e. let c = h.counted e in ground arith;
          fits = h.fits;
          queued = let q = h.queued in ground arith;
          outstanding = let o = h.outstanding in ground arith;
          current = h.current;
          chained = h.chained;
          asserted = h.asserted;
          in_fuel = h.in_fuel;
        };
        few = ground arith;
        no_queue = let q = h.queued in ground arith;
        one_packet = let o = h.outstanding in ground arith;
      } in
      called on_packet lawful (handle_call which) 0 _ due (omega arith)

  chains-IsSound :
      (ep : Endpoint) (t : Transfer)
      → is_fresh t ≡ true
      → IsSound 0 ep
      → IsSound 0 (chain_transfer t ep)
  unfolding chain_transfer SharesBuffers
  chains-IsSound ep t f h = record {
    shared = h.shared;
    counted = h.counted;
    fits = h.fits;
    queued = h.queued;
    outstanding = h.outstanding;
    current = h.current;
    chained = f;
    asserted = h.asserted;
    in_fuel = h.in_fuel;
  }

  pub Step-IsSound :
      (on_stall_change : Endpoint → Endpoint)
      → IsLawfulStall on_stall_change
      → {ep after : Endpoint} → Step on_packet on_stall_change ep after
      → IsSound 0 ep
      → IsSound 0 after
  Step-IsSound osc q (starts ep t c b f) h = starts-IsSound on_packet lawful ep t h b f
  Step-IsSound osc q (returns ep b0 b1 which p r) h = returns-IsSound ep b0 b1 which h p r
  Step-IsSound osc q (finishes ep c o) h =
      called on_packet lawful done_call 0 ep (record { sound = h; running = c; a_packet = o })
        (let m = size-bounded 0 ep h in omega arith)
  Step-IsSound osc q (chains ep t f) h = chains-IsSound ep t f h
  Step-IsSound osc q (stalls ep hs) h = stall_endpoint-IsSound hs 0 ep h
  Step-IsSound osc q (resets ep d configured hard f) h =
      reset_endpoint-IsSound on_packet lawful osc q d configured hard ep f h

-- The states of an endpoint from its initialisation on. The device resets every endpoint before it runs
-- a transfer.
pub data IsReachable (on_packet : Endpoint → PacketAnswer) (on_stall_change : Endpoint → Endpoint)
    : Endpoint → Type 0 where
  initial :
      (num : ℕ) (is_in : Bool) (max_buffer_size : ℕ) (double_buffered hard : Bool)
      → IsReachable on_packet on_stall_change
          (reset_state hard (endpoint_init_internal num is_in max_buffer_size double_buffered))
  later :
      (ep after : Endpoint)
      → IsReachable on_packet on_stall_change ep
      → Step on_packet on_stall_change ep after
      → IsReachable on_packet on_stall_change after

-- For callbacks within `IsLawful` (a transfer does not grow past 2^32 packets, and on a double-
-- buffered IN endpoint a packet filled at once is followed by another such packet, or by none, without
-- which the assertion of usb_device.c:467 can fail) and `IsLawfulStall`: in every state reached from
-- the initialisation, whatever order transfers, interrupts, callbacks, stalls and resets come in, the
-- four assertions that `asserted` records have held (a buffer is only given while one is owned, with a
-- current transfer and no halt, and a packet only handled while one is left), every call has ended
-- within the fuel, the CPU and the controller share no buffer, and the packets left to handle are
-- those left to submit, those that the controller holds and the queued one.
pub reachable-IsSound :
    (on_packet : Endpoint → PacketAnswer)
    → IsLawful on_packet
    → (on_stall_change : Endpoint → Endpoint) → IsLawfulStall on_stall_change
    → {ep : Endpoint} → IsReachable on_packet on_stall_change ep
    → IsSound 0 ep
unfolding reset_state reset_buffers endpoint_init_internal SharesBuffers ep_buffer_count
reachable-IsSound op l osc q (initial num is_in size double hard) = record {
  shared = reset_buffers-SharesBuffers (endpoint_init_internal num is_in size double);
  counted = λ e. ground arith;
  fits = ground arith;
  queued = refl;
  outstanding = refl;
  current = refl;
  chained = refl;
  asserted = refl;
  in_fuel = refl;
}
reachable-IsSound op l osc q (later ep after r s) =
    Step-IsSound op l osc q s (reachable-IsSound op l osc q r)
