-- ===== src/Usb/Kept.antt =====
-- What the steps of a transfer leave as it was.
use pico_bootrom_rp.Common.{
  ℕ, ◌+◌, ◌≡◌, refl, ap, ◌==◌, if◌then◌else◌, u32, Bool-cases, inl, inr, if-by,
}
use pico_bootrom_rp.Usb.{Transfer, Endpoint, minus_one}
use pico_bootrom_rp.Usb.Buffers.{stall_endpoint, give_buffer}
use pico_bootrom_rp.Usb.Transfers.{PacketAnswer, grow_transfer, answered, given_packet}

-- What the packet changes.
pub record IsGiven (ep after : Endpoint) : Type 0 where
  pub running : after.current_transfer ≡ ep.current_transfer
  pub outstanding : after.transfer.outstanding_packet ≡ ep.transfer.outstanding_packet
  pub queued : after.transfer.packet_queued ≡ ep.transfer.packet_queued
  pub chain : after.chain_transfer ≡ ep.chain_transfer
  pub same_double : after.double_buffered ≡ ep.double_buffered
  pub same_in : after.is_in ≡ ep.is_in
  pub owned :
      after.owned_buffer_count
      ≡ (if ep.is_in then minus_one 8 ep.owned_buffer_count else ep.owned_buffer_count)
  pub submit : after.transfer.remaining_packets_to_submit ≡ (
      if ep.is_in
      then minus_one 32 ep.transfer.remaining_packets_to_submit
      else ep.transfer.remaining_packets_to_submit)

pub given_packet-IsGiven : (ep : Endpoint) → IsGiven ep (given_packet ep)
unfolding given_packet give_buffer
given_packet-IsGiven ep = elim (Bool-cases ep.is_in) [
  | inl i ↦
      rw (i, given_packet)
        (record {
          running = refl;
          outstanding = refl;
          queued = refl;
          chain = refl;
          same_double = refl;
          same_in = refl;
          owned = refl;
          submit = refl;
        })
  | inr i ↦
      rw (i, given_packet)
        (record {
          running = refl;
          outstanding = refl;
          queued = refl;
          chain = refl;
          same_double = refl;
          same_in = refl;
          owned = refl;
          submit = refl;
        })
]

-- What stays as it was when an endpoint halts or its transfer grows.
pub record IsKept (ep after : Endpoint) : Type 0 where
  pub running : after.current_transfer ≡ ep.current_transfer
  pub outstanding : after.transfer.outstanding_packet ≡ ep.transfer.outstanding_packet
  pub queued : after.transfer.packet_queued ≡ ep.transfer.packet_queued
  pub chain : after.chain_transfer ≡ ep.chain_transfer
  pub same_double : after.double_buffered ≡ ep.double_buffered
  pub same_in : after.is_in ≡ ep.is_in
  pub owned : after.owned_buffer_count ≡ ep.owned_buffer_count

pub stall_endpoint-IsKept : (hs : ℕ) (ep : Endpoint) → IsKept ep (stall_endpoint hs ep)
unfolding stall_endpoint
stall_endpoint-IsKept hs ep =
    if-by (IsKept ep) (ep.halt_state == 0) _ _
      (λ e. record {
        running = refl;
        outstanding = refl;
        queued = refl;
        chain = refl;
        same_double = refl;
        same_in = refl;
        owned = refl;
      })
      λ e. record {
        running = refl;
        outstanding = refl;
        queued = refl;
        chain = refl;
        same_double = refl;
        same_in = refl;
        owned = refl;
      }

pub answered-IsKept : (a : PacketAnswer) (ep : Endpoint) → IsKept ep (answered a ep)
unfolding answered grow_transfer
answered-IsKept a ep =
    if-by (IsKept ep) (a.halt == 0) _ _
      (λ e. record {
        running = refl;
        outstanding = refl;
        queued = refl;
        chain = refl;
        same_double = refl;
        same_in = refl;
        owned = refl;
      })
      λ e.
        let k =
          stall_endpoint-IsKept a.halt
            (record ep { transfer = grow_transfer a.grow ep.transfer; hw_buffer_len = a.len }) in
        record {
          running = k.running;
          outstanding = k.outstanding;
          queued = k.queued;
          chain = k.chain;
          same_double = k.same_double;
          same_in = k.same_in;
          owned = k.owned;
        }

stall_endpoint-transfer : (hs : ℕ) (ep : Endpoint) → (stall_endpoint hs ep).transfer ≡ ep.transfer
unfolding stall_endpoint
stall_endpoint-transfer hs ep =
    if-by (λ (x : Endpoint). x.transfer ≡ ep.transfer) (ep.halt_state == 0) _ _ (λ e. refl)
      λ e. refl

pub answered-submit :
    (a : PacketAnswer) (ep : Endpoint)
    → (answered a ep).transfer.remaining_packets_to_submit
      ≡ u32 (ep.transfer.remaining_packets_to_submit + a.grow)
unfolding answered grow_transfer
answered-submit a ep =
    if-by
      (λ (x : Endpoint).
        x.transfer.remaining_packets_to_submit
        ≡ u32 (ep.transfer.remaining_packets_to_submit + a.grow))
      (a.halt == 0) _ _ (λ e. refl)
      λ e. ap (λ (t : Transfer). t.remaining_packets_to_submit) (stall_endpoint-transfer a.halt _)
