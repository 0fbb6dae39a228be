-- ===== src/Usb/Counts.antt =====
-- The counts of packets of the current transfer agree with the buffers that the controller owns, and
-- each step of a transfer keeps them so.
use pico_bootrom_rp.Common.{
  ℕ, ◌+◌, ◌<◌, ◌≡◌, refl, Bool, true, false, ◌&&◌, ◌||◌, not, Option, none, some, ltb, ◌==◌,
  if◌then◌else◌, arith,
}
use pico_bootrom_rp.Usb.{Transfer, Endpoint}
use pico_bootrom_rp.Usb.Transfers.{started_transfer, completed_transfer}
use pico_bootrom_rp.Usb.Shared.{SharesBuffers}

-- A transfer that `usb_reset_transfer` has just set up.
abbrev pub is_fresh : Transfer → Bool
is_fresh t =
    t.remaining_packets_to_submit == t.remaining_packets_to_handle
    && ltb 0 t.remaining_packets_to_submit
    && ltb t.remaining_packets_to_submit 0x1_0000_0000
    && not t.outstanding_packet
    && not t.packet_queued
    && not t.completed

abbrev pub is_fresh_chain : Option Transfer → Bool
is_fresh_chain none = true
is_fresh_chain (some t) = is_fresh t

-- A packet that is outstanding holds a buffer of the CPU's, and a queued one holds the other. Every
-- packet to handle is one to submit, one that the controller has, a queued one, or one of the `due`
-- ones that the interrupt has not counted yet.
pub record IsSound (due : ℕ) (ep : Endpoint) : Type 0 where
  pub shared : SharesBuffers ep
  pub counted :
      ep.current_transfer ≡ true
      → ep.transfer.remaining_packets_to_handle + ep.owned_buffer_count
        ≡ ep.transfer.remaining_packets_to_submit
          + (if ep.double_buffered then 2 else 1)
          + (if ep.transfer.packet_queued then 1 else 0)
          + due
  pub fits : ep.transfer.remaining_packets_to_handle < 0x1_0000_0000
  pub queued :
      (ep.current_transfer
        && ep.transfer.packet_queued
        && not (ep.transfer.outstanding_packet && ep.owned_buffer_count == 2))
      ≡ false
  pub outstanding :
      (ep.current_transfer
        && ep.transfer.outstanding_packet
        && (ep.owned_buffer_count == 0 || ep.is_in && ep.transfer.remaining_packets_to_submit == 0))
      ≡ false
  pub current : ep.transfer.completed ≡ not ep.current_transfer
  pub chained : is_fresh_chain ep.chain_transfer ≡ true
  pub asserted : ep.asserted ≡ true
  pub in_fuel : ep.exhausted ≡ false

-- Without a transfer nothing is due.
pub IsSound-idle :
    (d e : ℕ) (ep : Endpoint) → IsSound d ep → ep.current_transfer ≡ false → IsSound e ep
IsSound-idle d e ep h n = record {
  shared = h.shared;
  counted = λ c. ground arith;
  fits = h.fits;
  queued = h.queued;
  outstanding = h.outstanding;
  current = h.current;
  chained = h.chained;
  asserted = h.asserted;
  in_fuel = h.in_fuel;
}

-- The part of `IsSound` that does not depend on the current transfer.
pub record IsWhole (ep : Endpoint) : Type 0 where
  pub shared : SharesBuffers ep
  pub fits : ep.transfer.remaining_packets_to_handle < 0x1_0000_0000
  pub chained : is_fresh_chain ep.chain_transfer ≡ true
  pub asserted : ep.asserted ≡ true
  pub in_fuel : ep.exhausted ≡ false

pub IsSound-IsWhole : (d : ℕ) (ep : Endpoint) → IsSound d ep → IsWhole ep
IsSound-IsWhole d ep h = record {
  shared = h.shared;
  fits = h.fits;
  chained = h.chained;
  asserted = h.asserted;
  in_fuel = h.in_fuel;
}

pub completed_transfer-IsSound :
    (d : ℕ) (ep : Endpoint) → IsWhole ep → IsSound d (completed_transfer ep)
unfolding completed_transfer SharesBuffers
completed_transfer-IsSound d ep h = record {
  shared = h.shared;
  counted = λ c. ground arith;
  fits = let f = h.fits in ground arith;
  queued = refl;
  outstanding = refl;
  current = refl;
  chained = h.chained;
  asserted = h.asserted;
  in_fuel = h.in_fuel;
}

pub started_transfer-IsSound :
    (t : Transfer) (ep : Endpoint)
    → IsWhole ep
    → is_fresh t ≡ true
    → ep.owned_buffer_count ≡ (if ep.double_buffered then 2 else 1)
    → IsSound 0 (started_transfer t ep)
unfolding started_transfer SharesBuffers
started_transfer-IsSound t ep h f o = record {
  shared = h.shared;
  counted = λ c. ground arith;
  fits = ground arith;
  queued = ground arith;
  outstanding = ground arith;
  current = ground arith;
  chained = refl;
  asserted = h.asserted;
  in_fuel = h.in_fuel;
}
