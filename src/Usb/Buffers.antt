-- ===== src/Usb/Buffers.antt =====
-- usb_device_tiny/usb_device.c: the packet buffers of an endpoint.
use pico_bootrom_rp.Common.{ℕ, ◌+◌, true, false, ◌&&◌, ◌||◌, not, ◌∷◌, ltb, ◌==◌, if◌then◌else◌}
use pico_bootrom_rp.Usb.{
  hs_none, hs_halted, hs_halted_on_condition, BufCtrl, abort_set, abort_cleared, ep_stall_arm,
  stall_changed, Endpoint, minus_one,
}

-- `_ep_buffer_count`
unfoldable pub ep_buffer_count : Endpoint → ℕ
ep_buffer_count ep = if ep.double_buffered then 2 else 1

-- A buffer control register that was set to 0.
abbrev pub cleared : BufCtrl
cleared = record { len = 0; avail = false; stall = false; sel = false; data1 = false; full = false }

-- The part of `_usb_reset_buffers` for buffers that the controller still owns.
unfoldable pub abort_buffers : Endpoint → Endpoint
abort_buffers ep = record ep {
  next_pid =
      if not ep.double_buffered || ep.owned_buffer_count == 1 then not ep.next_pid else ep.next_pid;
  events = abort_set ∷ ep.events;
}

-- `_usb_reset_buffers`, where the controller acknowledges the abort, or does not in time.
unfoldable pub reset_buffers : Endpoint → Endpoint
reset_buffers ep =
    let free = if ep.buffer0.avail || ep.buffer1.avail then abort_buffers ep else ep in
    record free {
      buffer0 = cleared;
      buffer1 = cleared;
      events = abort_cleared ∷ free.events;
      owned_buffer_count = ep_buffer_count free;
      current_give_buffer = false;
      current_take_buffer = false;
      first_buffer_after_reset = true;
    }

-- `_usb_stall_endpoint`
unfoldable pub stall_endpoint : ℕ → Endpoint → Endpoint
stall_endpoint hs ep =
    if ep.halt_state == hs_none
    then record ep {
      buffer0 = record ep.buffer0 { stall = true };
      halt_state = hs;
      events = stall_changed ∷ (if ep.num == 0 then ep_stall_arm ∷ ep.events else ep.events);
    }
    else record ep { halt_state = if ltb ep.halt_state hs then hs else ep.halt_state }

-- `usb_halt_endpoint`
unfoldable pub halt_endpoint : Endpoint → Endpoint
halt_endpoint ep = stall_endpoint hs_halted ep

-- `usb_halt_endpoint_on_condition`
unfoldable pub halt_endpoint_on_condition : Endpoint → Endpoint
halt_endpoint_on_condition ep = stall_endpoint hs_halted_on_condition ep

-- `usb_clear_halt_condition`
unfoldable pub clear_halt_condition : Endpoint → Endpoint
clear_halt_condition ep =
    if ep.halt_state == hs_halted_on_condition then record ep { halt_state = hs_halted } else ep

-- `val` of `_usb_give_buffer`
unfoldable pub given_ctrl : ℕ → Endpoint → BufCtrl
given_ctrl len ep = record {
  len = len;
  avail = true;
  stall = false;
  sel = ep.first_buffer_after_reset;
  data1 = ep.next_pid;
  full = ep.is_in;
}

-- `_usb_give_buffer`
unfoldable pub give_buffer : ℕ → Endpoint → Endpoint
give_buffer len ep = record ep {
  asserted =
      ep.asserted && ltb 0 ep.owned_buffer_count && ep.current_transfer && ep.halt_state == hs_none;
  halt_state = hs_none;
  first_buffer_after_reset = false;
  next_pid = not ep.next_pid;
  buffer0 = if ep.current_give_buffer then ep.buffer0 else given_ctrl len ep;
  buffer1 = if ep.current_give_buffer then given_ctrl len ep else ep.buffer1;
  hw_buffer_valid = false;
  owned_buffer_count = minus_one 8 ep.owned_buffer_count;
  transfer = record ep.transfer {
    remaining_packets_to_submit = minus_one 32 ep.transfer.remaining_packets_to_submit;
  };
  current_give_buffer =
      if ep.double_buffered then not ep.current_give_buffer else ep.current_give_buffer;
}

-- `usb_current_packet_buffer`: the length, and where the data is in the dual-port RAM.
unfoldable pub current_packet_buffer : Endpoint → Endpoint
current_packet_buffer ep =
    let which = if ep.is_in then ep.current_give_buffer else ep.current_take_buffer in
    let ctrl = if which then ep.buffer1 else ep.buffer0 in
    if ep.hw_buffer_valid then ep else record ep {
      hw_buffer_data = ep.dpram_buffer_offset + (if which then 64 else 0);
      hw_buffer_len = if ep.is_in then 0 else ctrl.len;
      hw_buffer_valid = true;
    }
