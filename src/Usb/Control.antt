-- ===== src/Usb/Control.antt =====
-- The control endpoints: idle after a reset, then sending one packet, or stalled.
use pico_bootrom_rp.Common.{
  ◌≡◌, sym, subst, refl, Bool, true, false, ◌||◌, none, ◌==◌, arith, Bool-cases, inl, inr, if-by,
}
use pico_bootrom_rp.Usb.{Endpoint, BufCtrl}
use pico_bootrom_rp.Usb.Buffers.{
  abort_buffers, reset_buffers, stall_endpoint, ep_buffer_count, given_ctrl, give_buffer,
}
use pico_bootrom_rp.Usb.Transfers.{
  run, dispatch, reset_transfer, started_transfer, can_give, give_in, give_as_many, call_on_packet,
  answered, grow_transfer, packet_done, is_complete, next_packet, next_call, given_packet,
}
use pico_bootrom_rp.Usb.Reset.{no_transfer, reset_state, reset_endpoint, start_default}
use pico_bootrom_rp.Usb.Setup.{current_packet_only, start_packet}

-- An endpoint with one buffer, which is the CPU's, and no stall.
pub record IsIdle (is_in : Bool) (ep : Endpoint) : Type 0 where
  pub direction : ep.is_in ≡ is_in
  pub single : ep.double_buffered ≡ false
  pub owned : ep.owned_buffer_count ≡ 1
  pub no_halt : ep.halt_state ≡ 0
  pub first : ep.current_give_buffer ≡ false
  pub not_given : ep.buffer0.avail ≡ false

-- An idle endpoint, with its fields spelt out.
abbrev pub idle : Bool → Endpoint → Endpoint
idle is_in ep = record ep {
  is_in = is_in;
  double_buffered = false;
  owned_buffer_count = 1;
  halt_state = 0;
  current_give_buffer = false;
}

pub idle-is : (is_in : Bool) (ep : Endpoint) → IsIdle is_in ep → idle is_in ep ≡ ep
idle-is is_in ep h = λ i. record ep {
  is_in = sym h.direction i;
  double_buffered = sym h.single i;
  owned_buffer_count = sym h.owned i;
  halt_state = sym h.no_halt i;
  current_give_buffer = sym h.first i;
}

-- The buffer control register of a packet to send.
abbrev pub in_packet : Endpoint → BufCtrl
in_packet ep = record {
  len = ep.hw_buffer_len;
  avail = true;
  stall = false;
  sel = ep.first_buffer_after_reset;
  data1 = ep.next_pid;
  full = true;
}

start_packet-idle :
    (b : Bool) (ep : Endpoint) → (start_packet b (idle true ep)).buffer0 ≡ in_packet ep
unfolding start_packet run dispatch give_in give_as_many can_give call_on_packet answered
    grow_transfer packet_done is_complete next_packet next_call given_packet give_buffer given_ctrl
    started_transfer reset_transfer current_packet_only
start_packet-idle b ep = refl

start_packet-no_halt : (b : Bool) (ep : Endpoint) → (start_packet b (idle true ep)).halt_state ≡ 0
unfolding start_packet run dispatch give_in give_as_many can_give call_on_packet answered
    grow_transfer packet_done is_complete next_packet next_call given_packet give_buffer given_ctrl
    started_transfer reset_transfer current_packet_only
start_packet-no_halt b ep = refl

-- A packet is sent: it has the length and the toggle of the idle endpoint.
pub start_packet-sends :
    (b : Bool) (ep : Endpoint)
    → IsIdle true ep
    → ((start_packet b ep).buffer0 ≡ in_packet ep) × ((start_packet b ep).halt_state ≡ 0)
start_packet-sends b ep h =
    subst
      (λ (x : Endpoint).
        ((start_packet b x).buffer0 ≡ in_packet x) × ((start_packet b x).halt_state ≡ 0))
      (idle-is true ep h) (start_packet-idle b ep, start_packet-no_halt b ep)

-- What a reset leaves of an endpoint with one buffer.
record IsFreed (is_in : Bool) (ep : Endpoint) : Type 0 where
  direction : ep.is_in ≡ is_in
  single : ep.double_buffered ≡ false
  owned : ep.owned_buffer_count ≡ 1
  first : ep.current_give_buffer ≡ false
  not_given : ep.buffer0.avail ≡ false

reset_buffers-IsFreed :
    (is_in : Bool) (ep : Endpoint)
    → ep.is_in ≡ is_in
    → ep.double_buffered ≡ false
    → IsFreed is_in (reset_buffers ep) × ((reset_buffers ep).halt_state ≡ ep.halt_state)
unfolding reset_buffers abort_buffers ep_buffer_count
reset_buffers-IsFreed is_in ep d s = elim (Bool-cases (ep.buffer0.avail || ep.buffer1.avail)) [
  | inl e ↦ rw e (
    record { direction = d; single = s; owned = ground arith; first = refl; not_given = refl },
    refl,
  )
  | inr e ↦ rw e (
    record { direction = d; single = s; owned = ground arith; first = refl; not_given = refl },
    refl,
  )
]

reset_state-IsFreed :
    (is_in hard : Bool) (ep : Endpoint)
    → ep.is_in ≡ is_in
    → ep.double_buffered ≡ false
    → IsFreed is_in (reset_state hard ep)
unfolding reset_state
reset_state-IsFreed is_in hard ep d s =
    let f =
      (reset_buffers-IsFreed is_in (record ep { current_transfer = false; transfer = no_transfer })
        d s).0 in
    record {
      direction = f.direction;
      single = f.single;
      owned = f.owned;
      first = f.first;
      not_given = f.not_given;
    }

-- A reset of a control endpoint leaves it idle.
pub reset-IsIdle :
    (is_in configured hard : Bool) (ep : Endpoint)
    → ep.is_in ≡ is_in
    → ep.double_buffered ≡ false
    → IsIdle is_in
        (reset_endpoint current_packet_only (λ (e : Endpoint). e) none configured hard ep)
unfolding reset_endpoint start_default
reset-IsIdle is_in configured hard ep d s =
    let f = reset_state-IsFreed is_in hard ep d s in
    if-by (IsIdle is_in) ((reset_state hard ep).halt_state == 0) _ _
      (λ e. record {
        direction = f.direction;
        single = f.single;
        owned = f.owned;
        no_halt = ground arith;
        first = f.first;
        not_given = f.not_given;
      })
      λ e. record {
        direction = f.direction;
        single = f.single;
        owned = f.owned;
        no_halt = refl;
        first = f.first;
        not_given = f.not_given;
      }

-- An endpoint that answers with a stall.
pub record IsStalled (ep : Endpoint) : Type 0 where
  pub halt : ep.halt_state ≡ 1
  pub stall : ep.buffer0.stall ≡ true
  pub no_packet : ep.buffer0.avail ≡ false

pub stall-IsStalled :
    (is_in : Bool) (ep : Endpoint)
    → IsIdle is_in ep
    → IsStalled (stall_endpoint 1 (reset_buffers ep))
unfolding stall_endpoint
stall-IsStalled is_in ep h =
    let f = reset_buffers-IsFreed is_in ep h.direction h.single in
    if-by IsStalled ((reset_buffers ep).halt_state == 0) _ _
      (λ e. record { halt = refl; stall = refl; no_packet = f.0.not_given })
      λ e. let n = f.1 in let z = h.no_halt in absurd (ground arith)
