-- ===== src/Usb/Queued.antt =====
-- A packet that is done, and the one that waits behind it: the steps keep the counts right.
use pico_bootrom_rp.Common.{ℕ, suc, ◌≡◌, refl, subst, true, false, arith, if-by}
use pico_bootrom_rp.Usb.{Endpoint}
use pico_bootrom_rp.Usb.Buffers.{give_buffer, given_ctrl}
use pico_bootrom_rp.Usb.Transfers.{
  can_give, taken_back, set_outstanding, set_queued, handled, given_packet, uncounted,
}
use pico_bootrom_rp.Usb.Shared.{SharesBuffers}
use pico_bootrom_rp.Usb.Counts.{IsSound}
use pico_bootrom_rp.Usb.Steps.{give_buffer-IsSound}

-- A packet is done: if another was queued behind it, that one is due.
pub unqueued-IsSound :
    (d : ℕ) (ep : Endpoint)
    → IsSound d ep
    → ep.current_transfer ≡ true
    → ep.transfer.packet_queued ≡ true
    → IsSound (suc d) (set_queued false (set_outstanding false ep))
unfolding SharesBuffers
unqueued-IsSound d ep h r q =
    let c = h.counted r in
    record {
      shared = h.shared;
      counted = λ e. ground arith;
      fits = h.fits;
      queued = ground arith;
      outstanding = ground arith;
      current = h.current;
      chained = h.chained;
      asserted = h.asserted;
      in_fuel = h.in_fuel;
    }

pub packet_over-IsSound :
    (d : ℕ) (ep : Endpoint)
    → IsSound d ep
    → ep.transfer.packet_queued ≡ false
    → IsSound d (set_outstanding false ep)
unfolding SharesBuffers
packet_over-IsSound d ep h q = record {
  shared = h.shared;
  counted = h.counted;
  fits = h.fits;
  queued = ground arith;
  outstanding = ground arith;
  current = h.current;
  chained = h.chained;
  asserted = h.asserted;
  in_fuel = h.in_fuel;
}

-- Fields that the counts do not depend on.
pub invalid-IsSound :
    (d : ℕ) (ep : Endpoint) → IsSound d ep → IsSound d (record ep { hw_buffer_valid = false })
unfolding SharesBuffers
invalid-IsSound d ep h = record {
  shared = h.shared;
  counted = h.counted;
  fits = h.fits;
  queued = h.queued;
  outstanding = h.outstanding;
  current = h.current;
  chained = h.chained;
  asserted = h.asserted;
  in_fuel = h.in_fuel;
}

pub recounted-IsSound :
    (d : ℕ) (ep : Endpoint) (o : ℕ)
    → IsSound d ep
    → ep.owned_buffer_count ≡ o
    → IsSound d (record ep { owned_buffer_count = o })
recounted-IsSound d ep o h e =
    subst (λ (x : ℕ). IsSound d (record ep { owned_buffer_count = x })) e h

pub given_packet-IsSound :
    (d : ℕ) (ep : Endpoint)
    → IsSound d ep
    → ep.transfer.outstanding_packet ≡ false
    → (ep.is_in ≡ true → can_give ep ≡ true)
    → IsSound d (given_packet ep)
unfolding given_packet
given_packet-IsSound d ep h n g = invalid-IsSound d _ (
    if-by (IsSound d) ep.is_in _ _ (λ i. give_buffer-IsSound ep.hw_buffer_len d ep h (g i) n)
      λ i. h)

-- A queued packet is due once the one before it is done, and its buffer counted out again.
pub requeued-IsSound :
    (d : ℕ) (ep : Endpoint)
    → IsSound d ep
    → ep.current_transfer ≡ true
    → ep.transfer.packet_queued ≡ true
    → (ep.is_in ≡ true → can_give (set_outstanding false ep) ≡ true)
    → IsSound (suc d) (taken_back (uncounted (given_packet (set_outstanding false ep))))
unfolding taken_back uncounted given_packet give_buffer given_ctrl can_give
requeued-IsSound d ep h r q g =
    let s = unqueued-IsSound d ep h r q in
    let n = h.queued in
    if-by
      (λ (x : Endpoint).
        IsSound (suc d) (taken_back (uncounted (record x { hw_buffer_valid = false }))))
      ep.is_in _ _
      (λ i.
        let t = give_buffer-IsSound ep.hw_buffer_len (suc d) _ s (g i) refl in
        recounted-IsSound (suc d) _ _ (invalid-IsSound (suc d) _ t) (ground arith))
      λ i. recounted-IsSound (suc d) _ _ (invalid-IsSound (suc d) _ s) (ground arith)

-- The decrement, when one packet more is due.
pub handled-IsSound :
    (d : ℕ) (ep : Endpoint)
    → IsSound (suc d) ep
    → ep.current_transfer ≡ true
    → IsSound d (handled ep)
unfolding handled SharesBuffers
handled-IsSound d ep h r =
    let c = h.counted r in
    let b = h.shared.bounded in
    let f = h.fits in
    let s = h.asserted in
    record {
      shared = h.shared;
      counted = λ e. ground arith;
      fits = ground arith;
      queued = h.queued;
      outstanding = h.outstanding;
      current = h.current;
      chained = h.chained;
      asserted = ground arith;
      in_fuel = h.in_fuel;
    }

-- A packet that comes while another is outstanding waits for it.
pub set_queued-IsSound :
    (d : ℕ) (ep : Endpoint)
    → IsSound (suc d) ep
    → ep.transfer.packet_queued ≡ false
    → ep.transfer.outstanding_packet ≡ true
    → ep.owned_buffer_count ≡ 2
    → IsSound d (set_queued true ep)
unfolding SharesBuffers
set_queued-IsSound d ep h q o w = record {
  shared = h.shared;
  counted = λ e. let c = h.counted e in ground arith;
  fits = h.fits;
  queued = ground arith;
  outstanding = h.outstanding;
  current = h.current;
  chained = h.chained;
  asserted = h.asserted;
  in_fuel = h.in_fuel;
}
