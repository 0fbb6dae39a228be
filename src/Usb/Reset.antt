-- ===== src/Usb/Reset.antt =====
-- usb_device_tiny/usb_device.c: how an endpoint is set up, allocated its buffers, and reset.
use pico_bootrom_rp.Common.{
  ℕ, ◌+◌, ◌*◌, Bool, true, false, ◌&&◌, not, List, [], ◌∷◌, Option, none, some, ◌==◌, if◌then◌else◌,
  u8, u16,
}
use pico_bootrom_rp.Usb.{hs_none, Transfer, stall_changed, Endpoint}
use pico_bootrom_rp.Usb.Buffers.{cleared, reset_buffers}
use pico_bootrom_rp.Usb.Transfers.{PacketAnswer, give_call, reset_transfer, started_transfer, run}

-- What `transfer` is while `current_transfer` is NULL and no call holds the old transfer.
abbrev pub no_transfer : Transfer
no_transfer = record {
  on_complete = false;
  remaining_packets_to_submit = 0;
  remaining_packets_to_handle = 0;
  outstanding_packet = false;
  packet_queued = false;
  started = false;
  completed = true;
}

-- `_usb_endpoint_init_internal`, on memory that is zero.
unfoldable pub endpoint_init_internal : ℕ → Bool → ℕ → Bool → Endpoint
endpoint_init_internal num is_in max_buffer_size double_buffered = record {
  num = u8 num;
  is_in = is_in;
  double_buffered = double_buffered;
  buffer_size = u16 max_buffer_size;
  buffer_bit_index = u8 (num * 2 + (if is_in then 0 else 1));
  dpram_buffer_offset = 0;
  next_pid = false;
  owned_buffer_count = 0;
  current_give_buffer = false;
  current_take_buffer = false;
  first_buffer_after_reset = false;
  halt_state = hs_none;
  hw_buffer_valid = false;
  hw_buffer_len = 0;
  hw_buffer_data = 0;
  buffer0 = cleared;
  buffer1 = cleared;
  current_transfer = false;
  transfer = no_transfer;
  chain_transfer = none;
  events = [];
  asserted = true;
  exhausted = false;
}

-- How many bytes of buffers an endpoint has: `_usb_endpoint_stride`, twice when double-buffered.
unfoldable pub buffer_bytes : Endpoint → ℕ
buffer_bytes ep = if ep.double_buffered then 64 * 2 else 64

-- `_usb_endpoint_hw_init`: the endpoint, and the next free offset of the dual-port RAM.
unfoldable pub endpoint_hw_init : ℕ → Endpoint → Endpoint × ℕ
endpoint_hw_init next_buffer_offset ep = (
  record ep { buffer0 = cleared; buffer1 = cleared; dpram_buffer_offset = next_buffer_offset },
  u16 (next_buffer_offset + buffer_bytes ep),
)

-- `_usb_for_each_endpoint(_usb_endpoint_hw_init, false, 0)`
unfoldable pub for_each_hw_init : ℕ → List Endpoint → List Endpoint × ℕ
for_each_hw_init offset [] = ([], offset)
for_each_hw_init offset (ep ∷ eps) =
    let first = endpoint_hw_init offset ep in
    let rest = for_each_hw_init first.1 eps in (first.0 ∷ rest.0, rest.1)

-- The fuel of a call from outside: more than its buffers, a queued packet and a chained transfer need.
abbrev pub call_fuel : ℕ
call_fuel = 40

-- `_usb_reset_endpoint` up to the stall.
unfoldable pub reset_state : Bool → Endpoint → Endpoint
reset_state hard ep =
    let free = reset_buffers (record ep { current_transfer = false; transfer = no_transfer }) in
    record free { next_pid = if hard then false else free.next_pid; hw_buffer_valid = false }

module _ (on_packet : Endpoint → PacketAnswer) where
  -- The last part of `_usb_reset_endpoint`.
  unfoldable pub start_default : Bool → Option ℕ → Endpoint → Endpoint
  start_default configured none ep = ep
  start_default configured (some count) ep =
      if configured && not ep.current_transfer
      then run on_packet call_fuel give_call (started_transfer (reset_transfer count false) ep)
      else ep

  -- `_usb_reset_endpoint`, with the callback `on_stall_change`, whether the device is configured, and
  -- the packet count of the type of `default_transfer`.
  unfoldable pub reset_endpoint :
      (Endpoint → Endpoint) → Option ℕ → Bool → Bool → Endpoint → Endpoint
  reset_endpoint on_stall_change default_transfer configured hard ep =
      let free = reset_state hard ep in
      let running =
        if free.halt_state == hs_none
        then free
        else on_stall_change
            (record free { halt_state = hs_none; events = stall_changed ∷ free.events }) in
      start_default configured default_transfer running
