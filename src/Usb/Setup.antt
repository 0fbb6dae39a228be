-- ===== src/Usb/Setup.antt =====
-- usb_device_tiny/usb_device.c: the device, and the standard requests on its control pipe.
use pico_bootrom_rp.Common.{
  ℕ, zero, suc, ◌+◌, ◌/◌, ◌%◌, Bool, true, false, ◌&&◌, not, List, [], ◌∷◌, Option, none, some, ltb,
  ◌==◌, if◌then◌else◌, u8, length,
}
use pico_bootrom_rp.Usb.{hs_none, hs_non_halt_stall, Endpoint}
use pico_bootrom_rp.Usb.Buffers.{reset_buffers, stall_endpoint, current_packet_buffer}
use pico_bootrom_rp.Usb.Transfers.{PacketAnswer, give_call, reset_transfer, started_transfer, run}
use pico_bootrom_rp.Usb.Reset.{call_fuel}

-- `struct usb_setup_packet`
pub record SetupPacket : Type 0 where
  pub bm_request_type : ℕ
  pub b_request : ℕ
  pub w_value : ℕ
  pub w_index : ℕ
  pub w_length : ℕ

-- What `on_complete` of a control transfer does: nothing, `_tf_send_control_in_ack`,
-- `_tf_send_control_out_ack`, or `_tf_set_address`.
pub data Completion : Type 0 where
  no_completion send_in_ack send_out_ack set_address : Completion

-- One of `_endpoints`, with its `bEndpointAddress` and the packet count of its default transfer.
pub record BulkEndpoint : Type 0 where
  pub address : ℕ
  pub endpoint : Endpoint
  pub default_transfer : Option ℕ

-- `struct usb_device` with `_endpoints`, the control endpoints, the packet that the control IN endpoint
-- was given last with what is to be done once it is sent, and the calls of `on_configure`.
pub record Device : Type 0 where
  pub descriptor : List ℕ
  pub config_descriptor : List ℕ
  pub b_configuration_value : ℕ
  pub interface_count : ℕ
  pub current_address : ℕ
  pub current_config_num : ℕ
  pub pending_address : ℕ
  pub control_in : Endpoint
  pub control_out : Endpoint
  pub endpoints : List BulkEndpoint
  pub in_data : List ℕ
  pub in_completion : Completion
  pub out_completion : Completion
  pub configures : List Bool

-- `_usb_transfer_current_packet_only`, the type of the control transfers: the packet is done at once,
-- with the length that it has.
unfoldable pub current_packet_only : Endpoint → PacketAnswer
current_packet_only ep = record { grow = 0; halt = hs_none; done = true; len = ep.hw_buffer_len }

-- `usb_reset_and_start_transfer` with that type.
unfoldable pub start_packet : Bool → Endpoint → Endpoint
start_packet on_complete ep =
    run current_packet_only call_fuel give_call (started_transfer (reset_transfer 1 on_complete) ep)

unfoldable pub has_completion : Completion → Bool
has_completion no_completion = false
has_completion _ = true

-- A transfer of the bytes on the control IN endpoint.
unfoldable pub start_control_in : Completion → List ℕ → Device → Device
start_control_in completion bytes dev =
    let filled = record (current_packet_buffer dev.control_in) { hw_buffer_len = length bytes } in
    record dev {
      control_in = start_packet (has_completion completion) filled;
      in_data = bytes;
      in_completion = completion;
    }

-- `usb_start_single_buffer_control_in_transfer`, with the packet's bytes.
unfoldable pub start_single_buffer_control_in_transfer : List ℕ → Device → Device
start_single_buffer_control_in_transfer = start_control_in send_in_ack

-- `n` bytes of a word, little-endian.
unfoldable pub bytes_of : ℕ → ℕ → List ℕ
bytes_of value zero = []
bytes_of value (suc n) = value % 256 ∷ bytes_of (value / 256) n

-- `usb_start_tiny_control_in_transfer`
unfoldable pub start_tiny_control_in_transfer : ℕ → ℕ → Device → Device
start_tiny_control_in_transfer value len =
    start_single_buffer_control_in_transfer (bytes_of value len)

-- `usb_start_empty_control_in_transfer`
unfoldable pub start_empty_control_in_transfer : Completion → Device → Device
start_empty_control_in_transfer completion = start_control_in completion []

-- `usb_start_empty_transfer` on the control OUT endpoint.
unfoldable pub start_empty_control_out_transfer : Completion → Device → Device
start_empty_control_out_transfer completion dev = record dev {
  control_out = start_packet (has_completion completion) dev.control_out;
  out_completion = completion;
}

-- `usb_stall_control_pipe`
unfoldable pub stall_control_pipe : Device → Device
stall_control_pipe dev = record dev {
  control_in = stall_endpoint hs_non_halt_stall (reset_buffers dev.control_in);
  control_out = stall_endpoint hs_non_halt_stall (reset_buffers dev.control_out);
}

-- The callbacks of control transfers: `_tf_send_control_in_ack`, `_tf_send_control_out_ack` and
-- `_tf_set_address`.
unfoldable pub complete_control : Completion → Device → Device
complete_control no_completion dev = dev
complete_control send_in_ack dev = start_empty_control_out_transfer no_completion dev
complete_control send_out_ack dev = start_empty_control_in_transfer no_completion dev
complete_control set_address dev = record dev { current_address = u8 dev.pending_address }

-- `_usb_find_configuration`
unfoldable pub find_configuration : ℕ → Device → Bool
find_configuration num dev = dev.b_configuration_value == num

-- `_usb_find_interface`
unfoldable pub find_interface : ℕ → Device → Option ℕ
find_interface num dev =
    if not (dev.current_config_num == 0) && ltb num dev.interface_count then some num else none

-- Which endpoint a request is for.
pub data Recipient : Type 0 where
  to_control_in to_control_out : Recipient
  to_endpoint : ℕ → Recipient

unfoldable pub find_address : ℕ → ℕ → List BulkEndpoint → Option Recipient
find_address num i [] = none
find_address num i (b ∷ bs) =
    let rest = find_address num (suc i) bs in
    if b.address == num then some (to_endpoint i) else rest

-- `_usb_find_endpoint`
unfoldable pub find_endpoint : ℕ → Device → Option Recipient
find_endpoint num dev =
    if num == 0
    then some to_control_out
    else if num == 0x80
    then some to_control_in
    else if dev.current_config_num == 0
    then none
    else find_address num 0 dev.endpoints

-- The bytes of a string descriptor, as UTF-16: `_usb_prepare_string_descriptor`.
unfoldable pub utf16 : List ℕ → List ℕ
utf16 [] = []
utf16 (c ∷ cs) = c ∷ 0 ∷ utf16 cs

unfoldable pub prepare_string_descriptor : List ℕ → List ℕ
prepare_string_descriptor str = u8 (2 + length (utf16 str)) ∷ 3 ∷ utf16 str
