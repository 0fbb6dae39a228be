-- ===== src/Usb.antt =====
-- usb_device_tiny/usb_device.c and usb_device_private.h: an endpoint, its two packet buffers, which the
-- CPU and the USB controller own in turn, and the transfer that it runs.
pub mod Buffers
pub mod Reset
pub mod Restart
pub mod Lifecycle
pub mod Transfers
pub mod Shared
pub mod Counts
pub mod Kept
pub mod Steps
pub mod Queued
pub mod Progress
pub mod Sizes
pub mod Complete
pub mod Give
pub mod Done
pub mod Packet
pub mod Handle
pub mod Run
pub mod Setup
pub mod Requests
pub mod Control
pub mod Pipe
pub mod Answers
pub mod Memory
pub mod Interfaces
pub mod Interrupt
pub mod Scan
pub mod SetAddress
mod Tests
use pico_bootrom_rp.Common.{ℕ, ◌+◌, ◌-◌, ◌^◌, Bool, true, false, List, Option, if◌then◌else◌, ◌==◌}

-- `enum usb_halt_state`
abbrev pub hs_none : ℕ
hs_none = 0

abbrev pub hs_non_halt_stall : ℕ
hs_non_halt_stall = 1

abbrev pub hs_halted : ℕ
hs_halted = 2

abbrev pub hs_halted_on_condition : ℕ
hs_halted_on_condition = 3

-- The fields of a buffer control register: `len`, and the flags AVAIL, STALL, SEL, DATA1_PID and FULL.
pub record BufCtrl : Type 0 where
  pub len : ℕ
  pub avail : Bool
  pub stall : Bool
  pub sel : Bool
  pub data1 : Bool
  pub full : Bool

-- `struct usb_transfer`, with `on_complete` as whether there is such a callback.
pub record Transfer : Type 0 where
  pub on_complete : Bool
  pub remaining_packets_to_submit : ℕ
  pub remaining_packets_to_handle : ℕ
  pub outstanding_packet : Bool
  pub packet_queued : Bool
  pub started : Bool
  pub completed : Bool

-- Calls out of the endpoint: callbacks and controller registers.
pub data UsbEvent : Type 0 where
  abort_set abort_cleared ep_stall_arm stall_changed transfer_completed : UsbEvent

-- `struct usb_endpoint`, with its two buffer control registers and the log of the calls, the newest
-- first. `current_transfer` is whether the pointer is not NULL, and `transfer` what it points at; a
-- buffer number is `true` for 1. `asserted` is whether four assertions of the source held: in
-- `_usb_give_buffer` that a buffer is owned, that there is a current transfer and that the endpoint is not
-- halted, and in `_usb_handle_transfer` that a packet is left to handle; the others are not recorded.
-- `exhausted` is whether the model ran out of fuel.
pub record Endpoint : Type 0 where
  pub num : ℕ
  pub is_in : Bool
  pub double_buffered : Bool
  pub buffer_size : ℕ
  pub buffer_bit_index : ℕ
  pub dpram_buffer_offset : ℕ
  pub next_pid : Bool
  pub owned_buffer_count : ℕ
  pub current_give_buffer : Bool
  pub current_take_buffer : Bool
  pub first_buffer_after_reset : Bool
  pub halt_state : ℕ
  pub hw_buffer_valid : Bool
  pub hw_buffer_len : ℕ
  pub hw_buffer_data : ℕ
  pub buffer0 : BufCtrl
  pub buffer1 : BufCtrl
  pub current_transfer : Bool
  pub transfer : Transfer
  pub chain_transfer : Option Transfer
  pub events : List UsbEvent
  pub asserted : Bool
  pub exhausted : Bool

-- `x--` on a `w`-bit word.
abbrev pub minus_one : ℕ → ℕ → ℕ
minus_one w x = if x == 0 then 2 ^ w - 1 else x - 1
