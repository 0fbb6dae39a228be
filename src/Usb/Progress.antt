-- ===== src/Usb/Progress.antt =====
-- Every call between the functions of a transfer keeps the endpoint sound, and calls no deeper than
-- its buffers, its queued packet and its chained transfer account for.
use pico_bootrom_rp.Common.{
  ℕ, suc, ◌+◌, ◌*◌, ◌≤◌, ◌<◌, ◌≡◌, ◌⊎◌, Bool, true, false, ◌∷◌, ◌&&◌, ◌||◌, not, Option, none, some,
  ◌==◌, if◌then◌else◌,
}
use pico_bootrom_rp.Usb.{Transfer, UsbEvent, Endpoint}
use pico_bootrom_rp.Usb.Transfers.{
  PacketAnswer, Call, give_call, packet_call, done_call, handle_call, can_give, taken_back,
  set_outstanding, given_packet,
}
use pico_bootrom_rp.Usb.Shared.{SharesBuffers}
use pico_bootrom_rp.Usb.Counts.{IsSound}
use pico_bootrom_rp.Usb.Steps.{IsReady}

-- What the callbacks promise: a transfer does not grow past 2 ^ 32 packets, and where a packet of an IN
-- endpoint is filled at once although both buffers are free, the packet after it, if any, is too.
pub record IsLawful (on_packet : Endpoint → PacketAnswer) : Type 0 where
  pub grows :
      (ep : Endpoint)
      → ep.transfer.remaining_packets_to_handle < 0x1_0000_0000
      → ep.transfer.remaining_packets_to_handle + (on_packet ep).grow < 0x1_0000_0000
  pub paced :
      (ep next : Endpoint)
      → ep.is_in ≡ true
      → ep.owned_buffer_count ≡ 2
      → next.owned_buffer_count ≡ 1
      → next.transfer.remaining_packets_to_submit + 1
        ≡ ep.transfer.remaining_packets_to_submit + (on_packet ep).grow
      → (on_packet ep).done ≡ true
      → ((on_packet next).done ≡ true) ⊎ (next.transfer.remaining_packets_to_submit ≡ 0)

-- How much deeper the calls can go.
abbrev pub chain_size : Option Transfer → ℕ
chain_size none = 0
chain_size (some t) = 20

abbrev pub base_size : Endpoint → ℕ
base_size ep = 3 * ep.owned_buffer_count + chain_size ep.chain_transfer

abbrev pub size : Endpoint → ℕ
size ep = base_size ep + (if ep.current_transfer && ep.transfer.packet_queued then 4 else 0)

abbrev pub call_size : Bool → Call → ℕ
call_size true give_call = 2
call_size true packet_call = 1
call_size true done_call = 0
call_size true (handle_call which) = 5
call_size false give_call = 0
call_size false done_call = 1
call_size false packet_call = 2
call_size false (handle_call which) = 6

-- A buffer that the interrupt has not counted yet.
pub record IsDue (d : ℕ) (ep : Endpoint) : Type 0 where
  pub back : IsSound (suc d) (taken_back ep)
  pub few : ep.owned_buffer_count < 2
  pub no_queue : (ep.current_transfer && ep.transfer.packet_queued) ≡ false
  pub one_packet :
      (ep.current_transfer && ep.transfer.outstanding_packet && ep.owned_buffer_count == 0) ≡ false

-- `usb_packet_done` may be called.
pub record IsFilled (d : ℕ) (ep : Endpoint) : Type 0 where
  pub sound : IsSound d ep
  pub running : ep.current_transfer ≡ true
  pub a_packet : ep.transfer.outstanding_packet ≡ true

-- The loop that gives buffers may start.
pub record IsFree (d : ℕ) (ep : Endpoint) : Type 0 where
  pub sound : IsSound d ep
  pub no_packet : (ep.current_transfer && ep.transfer.outstanding_packet) ≡ false

-- What each call requires.
abbrev pub Requires : Call → ℕ → Endpoint → Type 0
Requires give_call = IsFree
Requires packet_call = IsReady
Requires done_call = IsFilled
Requires (handle_call which) = IsDue

abbrev pub call_slack : Call → ℕ
call_slack give_call = 0
call_slack packet_call = 0
call_slack done_call = 0
call_slack (handle_call which) = 7

-- What a call leaves.
pub record Leaves (d bound : ℕ) (double is_in : Bool) (after : Endpoint) : Type 0 where
  pub sound : IsSound d after
  pub smaller : size after ≤ bound
  pub same_double : after.double_buffered ≡ double
  pub same_in : after.is_in ≡ is_in

pub events-Leaves :
    (d b : ℕ) (double is_in : Bool) (e : UsbEvent) (ep : Endpoint)
    → Leaves d b double is_in ep
    → Leaves d b double is_in (record ep { events = e ∷ ep.events })
unfolding SharesBuffers
events-Leaves d b double is_in e ep l =
    let h = l.sound in
    record {
      sound = record {
        shared = h.shared;
        counted = h.counted;
        fits = h.fits;
        queued = h.queued;
        outstanding = h.outstanding;
        current = h.current;
        chained = h.chained;
        asserted = h.asserted;
        in_fuel = h.in_fuel;
      };
      smaller = l.smaller;
      same_double = l.same_double;
      same_in = l.same_in;
    }

-- Whether the next packet is filled at once.
abbrev pub fills : (Endpoint → PacketAnswer) → Endpoint → Bool
fills on_packet ep = (on_packet (set_outstanding true ep)).done

-- What the loop needs to know of the calls it makes on an IN endpoint.
abbrev pub Tells : (Endpoint → PacketAnswer) → Call → Endpoint → Endpoint → Type 0
Tells on_packet give_call ep after =
    (can_give ep ≡ false → after ≡ ep)
    × ((can_give ep
          && ep.is_in
          && ep.owned_buffer_count == 1
          && fills on_packet ep
          && after.current_transfer
          && not (after.owned_buffer_count == 0))
        ≡ false)
Tells on_packet packet_call ep after =
    ((ep.is_in
        && after.current_transfer
        && after.transfer.outstanding_packet
        && not (ep.owned_buffer_count == after.owned_buffer_count))
      ≡ false)
    × ((ep.is_in
          && ep.owned_buffer_count == 1
          && fills on_packet ep
          && after.current_transfer
          && not (after.owned_buffer_count == 0))
        ≡ false)
Tells on_packet done_call ep after =
    ((ep.is_in
        && not ep.transfer.packet_queued
        && ep.owned_buffer_count == 1
        && after.current_transfer
        && not (after.owned_buffer_count == 0))
      ≡ false)
    × ((ep.is_in
          && not ep.transfer.packet_queued
          && ep.owned_buffer_count == 2
          && (ep.transfer.remaining_packets_to_submit == 1
              || fills on_packet (given_packet (set_outstanding false ep)))
          && after.current_transfer
          && after.transfer.outstanding_packet)
        ≡ false)
Tells on_packet (handle_call which) ep after = after ≡ after

pub record IsDone (on_packet : Endpoint → PacketAnswer) (c : Call) (d : ℕ) (ep after : Endpoint)
    : Type 0 where
  pub leaves : Leaves d (size ep + call_slack c) ep.double_buffered ep.is_in after
  pub tells : Tells on_packet c ep after

-- The calls that are made with less fuel.
abbrev pub Carries : (Endpoint → PacketAnswer) → ℕ → (Call → Endpoint → Endpoint) → Type 0
Carries on_packet n call =
    (c : Call) (d : ℕ) (ep : Endpoint)
    → Requires c d ep
    → size ep + call_size ep.is_in c < n
    → IsDone on_packet c d ep (call c ep)
