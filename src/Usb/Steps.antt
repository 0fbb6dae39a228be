-- ===== src/Usb/Steps.antt =====
-- The steps of a transfer that the interrupt and `on_packet` make keep the counts right.
use pico_bootrom_rp.Common.{ℕ, ◌+◌, ◌<◌, ◌≡◌, true, false, ◌&&◌, ◌==◌, if◌then◌else◌, arith, if-by}
use pico_bootrom_rp.Usb.{Endpoint}
use pico_bootrom_rp.Usb.Buffers.{stall_endpoint, give_buffer}
use pico_bootrom_rp.Usb.Transfers.{PacketAnswer, grow_transfer, can_give, set_outstanding, answered}
use pico_bootrom_rp.Usb.Shared.{SharesBuffers, give_buffer-SharesBuffers}
use pico_bootrom_rp.Usb.Counts.{IsSound}

-- `_usb_call_on_packet` may be called: there is a buffer, and no packet is outstanding.
pub record IsReady (d : ℕ) (ep : Endpoint) : Type 0 where
  pub sound : IsSound d ep
  pub running : ep.current_transfer ≡ true
  pub no_packet : ep.transfer.outstanding_packet ≡ false
  pub a_buffer : 0 < ep.owned_buffer_count
  pub a_packet : (ep.is_in && ep.transfer.remaining_packets_to_submit == 0) ≡ false

pub set_outstanding-IsSound :
    (d : ℕ) (ep : Endpoint) → IsReady d ep → IsSound d (set_outstanding true ep)
unfolding SharesBuffers
set_outstanding-IsSound d ep r =
    let h = r.sound in
    let q = h.queued in
    let n = r.no_packet in
    let b = r.a_buffer in
    let p = r.a_packet in
    record {
      shared = h.shared;
      counted = h.counted;
      fits = h.fits;
      queued = ground arith;
      outstanding = ground arith;
      current = h.current;
      chained = h.chained;
      asserted = h.asserted;
      in_fuel = h.in_fuel;
    }

-- What `stall_endpoint` leaves as it was.
pub stall_endpoint-IsSound :
    (hs d : ℕ) (ep : Endpoint) → IsSound d ep → IsSound d (stall_endpoint hs ep)
unfolding stall_endpoint SharesBuffers
stall_endpoint-IsSound hs d ep h =
    if-by (IsSound d) (ep.halt_state == 0) _ _
      (λ e. record {
        shared = h.shared;
        counted = h.counted;
        fits = h.fits;
        queued = h.queued;
        outstanding = h.outstanding;
        current = h.current;
        chained = h.chained;
        asserted = h.asserted;
        in_fuel = h.in_fuel;
      })
      λ e. record {
        shared = h.shared;
        counted = h.counted;
        fits = h.fits;
        queued = h.queued;
        outstanding = h.outstanding;
        current = h.current;
        chained = h.chained;
        asserted = h.asserted;
        in_fuel = h.in_fuel;
      }

grown-IsSound :
    (len n d : ℕ) (ep : Endpoint)
    → IsSound d ep
    → ep.current_transfer ≡ true
    → ep.transfer.remaining_packets_to_handle + n < 0x1_0000_0000
    → IsSound d (record ep { transfer = grow_transfer n ep.transfer; hw_buffer_len = len })
unfolding grow_transfer SharesBuffers
grown-IsSound len n d ep h r f =
    let c = h.counted r in
    let b = h.shared.bounded in
    let q = h.queued in
    let o = h.outstanding in
    record {
      shared = h.shared;
      counted = λ e. ground arith;
      fits = omega arith;
      queued = h.queued;
      outstanding = ground arith;
      current = h.current;
      chained = h.chained;
      asserted = h.asserted;
      in_fuel = h.in_fuel;
    }

pub answered-IsSound :
    (a : PacketAnswer) (d : ℕ) (ep : Endpoint)
    → IsSound d ep
    → ep.current_transfer ≡ true
    → ep.transfer.remaining_packets_to_handle + a.grow < 0x1_0000_0000
    → IsSound d (answered a ep)
unfolding answered
answered-IsSound a d ep h r f =
    let g = grown-IsSound a.len a.grow d ep h r f in
    if-by (IsSound d) (a.halt == 0) _ _ (λ e. g) λ e. stall_endpoint-IsSound a.halt d _ g

-- A buffer given to the controller, of a transfer that has a packet to submit.
pub give_buffer-IsSound :
    (len d : ℕ) (ep : Endpoint)
    → IsSound d ep
    → can_give ep ≡ true
    → ep.transfer.outstanding_packet ≡ false
    → IsSound d (give_buffer len ep)
unfolding can_give give_buffer SharesBuffers
give_buffer-IsSound len d ep h g n =
    let f = h.fits in
    let q = h.queued in
    let s = h.asserted in
    let b = h.shared.bounded in
    let c : ep.transfer.remaining_packets_to_handle + ep.owned_buffer_count
        ≡ ep.transfer.remaining_packets_to_submit
          + (if ep.double_buffered then 2 else 1)
          + (if ep.transfer.packet_queued then 1 else 0)
          + d =
      h.counted (ground arith) in
    let a_buffer : 0 < ep.owned_buffer_count = ground arith in
    record {
      shared = give_buffer-SharesBuffers len ep h.shared a_buffer;
      counted = λ e. ground arith;
      fits = f;
      queued = ground arith;
      outstanding = ground arith;
      current = h.current;
      chained = h.chained;
      asserted = ground arith;
      in_fuel = h.in_fuel;
    }
