-- ===== src/Usb/Transfers.antt =====
-- usb_device_tiny/usb_device.c: how an endpoint runs a transfer. The functions call each other, and
-- `on_packet` calls back into them, so each takes the calls it makes as an argument, and `run` ties the
-- knot on fuel.
use pico_bootrom_rp.Common.{
  ℕ, zero, suc, ◌+◌, Bool, true, false, ◌&&◌, ◌||◌, not, ◌∷◌, Option, none, some, ltb, ◌==◌,
  if◌then◌else◌, u8, u32,
}
use pico_bootrom_rp.Usb.{Transfer, transfer_completed, Endpoint, hs_none, minus_one}
use pico_bootrom_rp.Usb.Buffers.{give_buffer, stall_endpoint, halt_endpoint}

-- What an `on_packet` callback does: grow its transfer, halt its endpoint where `halt` is not
-- `HS_NONE`, and then call `usb_packet_done` with a packet of `len` bytes, or leave it outstanding.
pub record PacketAnswer : Type 0 where
  pub grow : ℕ
  pub halt : ℕ
  pub done : Bool
  pub len : ℕ

-- The calls between the functions.
pub data Call : Type 0 where
  give_call packet_call done_call : Call
  handle_call : Bool → Call

-- `usb_reset_transfer`, for a transfer type with that initial packet count.
unfoldable pub reset_transfer : ℕ → Bool → Transfer
reset_transfer initial_packet_count on_complete = record {
  on_complete = on_complete;
  remaining_packets_to_submit = initial_packet_count;
  remaining_packets_to_handle = initial_packet_count;
  outstanding_packet = false;
  packet_queued = false;
  started = false;
  completed = false;
}

-- `usb_grow_transfer`
unfoldable pub grow_transfer : ℕ → Transfer → Transfer
grow_transfer packet_count t = record t {
  remaining_packets_to_submit = u32 (t.remaining_packets_to_submit + packet_count);
  remaining_packets_to_handle = u32 (t.remaining_packets_to_handle + packet_count);
}

-- `usb_chain_transfer`
unfoldable pub chain_transfer : Transfer → Endpoint → Endpoint
chain_transfer t ep = record ep { chain_transfer = some t }

-- The assignments of `usb_start_transfer`.
unfoldable pub started_transfer : Transfer → Endpoint → Endpoint
started_transfer t ep = record ep {
  current_transfer = true;
  chain_transfer = none;
  transfer = record t { started = true };
}

-- The condition of `_usb_check_for_transfer_completion`.
unfoldable pub is_complete : Endpoint → Bool
is_complete ep =
    not (ep.halt_state == hs_none)
    || not (not (ep.transfer.remaining_packets_to_handle == 0) || ep.transfer.outstanding_packet)

-- The part of `_usb_check_for_transfer_completion` before the callbacks.
unfoldable pub completed_transfer : Endpoint → Endpoint
completed_transfer ep = record ep {
  current_transfer = false;
  transfer = record ep.transfer {
    completed = true;
    remaining_packets_to_submit =
        if ep.halt_state == hs_none then ep.transfer.remaining_packets_to_submit else 0;
    remaining_packets_to_handle =
        if ep.halt_state == hs_none then ep.transfer.remaining_packets_to_handle else 0;
  };
}

-- The condition of the loop of `_usb_give_as_many_buffers_as_possible`.
unfoldable pub can_give : Endpoint → Bool
can_give ep =
    ep.current_transfer
    && not (ep.transfer.remaining_packets_to_submit == 0)
    && not (ep.owned_buffer_count == 0)
    && ep.halt_state == hs_none

-- The interrupt's part of `_usb_handle_transfer`: the buffer is the CPU's again.
unfoldable pub taken_back : Endpoint → Endpoint
taken_back ep = record ep { owned_buffer_count = u8 (ep.owned_buffer_count + 1) }

abbrev pub set_outstanding : Bool → Endpoint → Endpoint
set_outstanding b ep = record ep { transfer = record ep.transfer { outstanding_packet = b } }

abbrev pub set_queued : Bool → Endpoint → Endpoint
set_queued b ep = record ep { transfer = record ep.transfer { packet_queued = b } }

-- The decrement of `_usb_handle_transfer`, with its assertion.
unfoldable pub handled : Endpoint → Endpoint
handled ep = record ep {
  asserted = ep.asserted && ltb 0 ep.transfer.remaining_packets_to_handle;
  transfer = record ep.transfer {
    remaining_packets_to_handle = minus_one 32 ep.transfer.remaining_packets_to_handle;
  };
}

-- What the callback does before it calls `usb_packet_done`.
unfoldable pub answered : PacketAnswer → Endpoint → Endpoint
answered a ep =
    let grown = record ep { transfer = grow_transfer a.grow ep.transfer; hw_buffer_len = a.len } in
    if a.halt == hs_none then grown else stall_endpoint a.halt grown

-- `usb_packet_done`, the packet that was filled or emptied.
unfoldable pub given_packet : Endpoint → Endpoint
given_packet ep = record (if ep.is_in then give_buffer ep.hw_buffer_len ep else ep) {
  hw_buffer_valid = false;
}

-- `usb_packet_done`, for a queued packet: `_usb_handle_transfer` will count its buffer again.
unfoldable pub uncounted : Endpoint → Endpoint
uncounted ep = record (set_queued false ep) {
  owned_buffer_count = minus_one 8 ep.owned_buffer_count;
}

module _ (on_packet : Endpoint → PacketAnswer) (call : Call → Endpoint → Endpoint) where
  -- A turn of the loop of `_usb_give_as_many_buffers_as_possible` on an IN endpoint, and the rest.
  unfoldable pub give_in : Endpoint → Endpoint
  give_in ep =
      let after = call packet_call ep in
      elim (ep.owned_buffer_count == after.owned_buffer_count) [
        | true ↦ after
        | false ↦ call give_call after
      ]

  -- `_usb_give_as_many_buffers_as_possible`, one turn of its loop and then the rest.
  unfoldable pub give_as_many : Endpoint → Endpoint
  give_as_many ep = elim (can_give ep) [
    | true ↦ elim ep.is_in [
      | true ↦ give_in ep
      | false ↦ call give_call (give_buffer ep.buffer_size ep)
    ]
    | false ↦ ep
  ]

  -- `usb_start_transfer`
  unfoldable pub start_transfer : Transfer → Endpoint → Endpoint
  start_transfer t ep = call give_call (started_transfer t ep)

  -- The callbacks of `_usb_check_for_transfer_completion`: whether there is an `on_complete`, and the
  -- chained transfer.
  unfoldable pub call_completed : Bool → Option Transfer → Endpoint → Endpoint
  call_completed true chain ep = record ep { events = transfer_completed ∷ ep.events }
  call_completed false none ep = ep
  call_completed false (some t) ep = start_transfer t ep

  -- `_usb_check_for_transfer_completion`, under its condition.
  unfoldable pub complete : Endpoint → Endpoint
  complete ep = elim (ep.halt_state == hs_none) [
    | false ↦ completed_transfer ep
    | true ↦ call_completed ep.transfer.on_complete ep.chain_transfer (completed_transfer ep)
  ]

  -- `_usb_check_for_transfer_completion`
  unfoldable pub check_completion : Endpoint → Endpoint
  check_completion ep = elim (is_complete ep) [ true ↦ complete ep | false ↦ ep ]

  -- `usb_packet_done`, with the packet given: whether another packet was queued.
  unfoldable pub next_call : Bool → Endpoint → Endpoint
  next_call true ep = call (handle_call (not ep.current_take_buffer)) (uncounted ep)
  next_call false ep = call give_call ep

  -- `usb_packet_done`, where the transfer goes on.
  unfoldable pub next_packet : Endpoint → Endpoint
  next_packet ep = next_call ep.transfer.packet_queued (given_packet ep)

  -- `usb_packet_done`
  unfoldable pub packet_done : Endpoint → Endpoint
  packet_done ep =
      let done = set_outstanding false ep in
      elim (is_complete done) [ true ↦ complete done | false ↦ next_packet done ]

  -- `_usb_call_on_packet`, and the callback.
  unfoldable pub call_on_packet : Endpoint → Endpoint
  call_on_packet ep =
      let a = on_packet (set_outstanding true ep) in
      let after = answered a (set_outstanding true ep) in
      elim a.done [ true ↦ call done_call after | false ↦ after ]

  -- `_usb_handle_transfer`, after `on_packet`.
  unfoldable pub after_packet : Endpoint → Endpoint
  after_packet ep = elim ep.transfer.completed [ true ↦ ep | false ↦ check_completion (handled ep) ]

  -- `_usb_handle_transfer`, with no packet outstanding.
  unfoldable pub take_packet : Bool → Endpoint → Endpoint
  take_packet which ep =
      let taken = record (taken_back ep) { current_take_buffer = which } in
      elim (not ep.is_in || not (ep.transfer.remaining_packets_to_submit == 0)) [
        | true ↦ after_packet (call packet_call taken)
        | false ↦ after_packet taken
      ]

  -- `_usb_handle_transfer`, by whether there is a transfer, and whether a packet is outstanding.
  unfoldable pub handle_packet : Bool → Bool → Bool → Endpoint → Endpoint
  handle_packet false outstanding which ep = halt_endpoint (taken_back ep)
  handle_packet true true which ep = set_queued true (taken_back ep)
  handle_packet true false which ep = take_packet which ep

  -- `_usb_handle_transfer`
  unfoldable pub handle_transfer : Bool → Endpoint → Endpoint
  handle_transfer which ep =
      handle_packet ep.current_transfer ep.transfer.outstanding_packet which ep

  unfoldable pub dispatch : Call → Endpoint → Endpoint
  dispatch give_call = give_as_many
  dispatch packet_call = call_on_packet
  dispatch done_call = packet_done
  dispatch (handle_call which) = handle_transfer which

-- The functions, with fuel for the depth of their calls.
unfoldable pub run : (Endpoint → PacketAnswer) → ℕ → Call → Endpoint → Endpoint
run on_packet zero c ep = record ep { exhausted = true }
run on_packet (suc fuel) c ep = dispatch on_packet (run on_packet fuel) c ep
