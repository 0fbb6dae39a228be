-- ===== src/Usb/Requests.antt =====
-- usb_device_tiny/usb_device.c: the standard requests of the control pipe.
use pico_bootrom_rp.Common.{
  ℕ, zero, suc, ◌/◌, ◌%◌, Bool, true, false, ◌&&◌, ◌||◌, not, List, [], ◌∷◌, Option, none, some,
  ltb, leb, ◌==◌, if◌then◌else◌, u8, test_bit, take,
}
use pico_bootrom_rp.Usb.{hs_non_halt_stall, hs_halted, hs_halted_on_condition, Endpoint}
use pico_bootrom_rp.Usb.Buffers.{stall_endpoint}
use pico_bootrom_rp.Usb.Transfers.{PacketAnswer}
use pico_bootrom_rp.Usb.Reset.{reset_endpoint}
use pico_bootrom_rp.Usb.Setup.{
  SetupPacket, no_completion, set_address, BulkEndpoint, Device, current_packet_only,
  start_single_buffer_control_in_transfer, start_tiny_control_in_transfer,
  start_empty_control_in_transfer, stall_control_pipe, find_configuration, find_interface,
  Recipient, to_control_in, to_control_out, to_endpoint, find_endpoint, prepare_string_descriptor,
}

-- The callbacks of the device's owner: of the endpoint at a place in `_endpoints` its `on_packet` and
-- `on_stall_change`, of an interface its `setup_request_handler`, which may decline a request, and
-- `get_descriptor_string`.
pub record Callbacks : Type 0 where
  pub on_packet : ℕ → Endpoint → PacketAnswer
  pub on_stall_change : ℕ → Endpoint → Endpoint
  pub setup_request_handler : ℕ → SetupPacket → Device → Option Device
  pub get_descriptor_string : ℕ → List ℕ

abbrev pub type_bits : SetupPacket → ℕ
type_bits s = s.bm_request_type / 0x20 % 4

abbrev pub recipient_bits : SetupPacket → ℕ
recipient_bits s = s.bm_request_type % 0x20

-- The `halt_state` of the endpoint at a place in `_endpoints`.
unfoldable pub halt_state_at : ℕ → List BulkEndpoint → ℕ
halt_state_at i [] = 0
halt_state_at zero (b ∷ bs) = b.endpoint.halt_state
halt_state_at (suc i) (b ∷ bs) = halt_state_at i bs

unfoldable pub change_at : ℕ → (BulkEndpoint → Endpoint) → List BulkEndpoint → List BulkEndpoint
change_at i f [] = []
change_at zero f (b ∷ bs) = record b { endpoint = f b } ∷ bs
change_at (suc i) f (b ∷ bs) = b ∷ change_at i f bs

module _ (cb : Callbacks) where
  -- `_usb_handle_get_descriptor`: the descriptor, or nothing where it returns -1.
  unfoldable pub handle_get_descriptor : SetupPacket → Device → Option (List ℕ)
  handle_get_descriptor s dev =
      let kind = s.w_value / 256 in
      let index = u8 s.w_value in
      if kind == 1
      then some dev.descriptor
      else if kind == 2
      then (if index == 0 then some dev.config_descriptor else none)
      else if kind == 3
      then (if index == 0
          then some (4 ∷ 3 ∷ 9 ∷ 4 ∷ [])
          else some (prepare_string_descriptor (cb.get_descriptor_string index)))
      else none

  -- `usb_hard_reset_endpoint` on each of `_endpoints`, the first at that place.
  unfoldable pub hard_reset_endpoints : Bool → ℕ → List BulkEndpoint → List BulkEndpoint
  hard_reset_endpoints configured i [] = []
  hard_reset_endpoints configured i (b ∷ bs) =
      record b {
        endpoint =
            reset_endpoint (cb.on_packet i) (cb.on_stall_change i) b.default_transfer configured
              true b.endpoint;
      }
      ∷ hard_reset_endpoints configured (suc i) bs

  -- `_usb_handle_set_config`
  unfoldable pub handle_set_config : ℕ → Device → Device
  handle_set_config config_num dev = record dev {
    current_config_num = u8 config_num;
    endpoints = hard_reset_endpoints (not (config_num == 0)) 0 dev.endpoints;
    configures = not (config_num == 0) ∷ dev.configures;
  }

  -- `_usb_handle_set_address`
  unfoldable pub handle_set_address : ℕ → Device → Device
  handle_set_address addr dev = record dev { current_address = u8 addr }

  -- `_usb_handle_bus_reset`
  unfoldable pub handle_bus_reset : Device → Device
  handle_bus_reset dev = handle_set_address 0 (handle_set_config 0 dev)

  -- The bytes that the IN requests to the device answer with.
  unfoldable pub device_in_data : SetupPacket → Device → Option (List ℕ)
  device_in_data s dev =
      if s.b_request == 0
      then some (0 ∷ 0 ∷ [])
      else if s.b_request == 6
      then handle_get_descriptor s dev
      else if s.b_request == 8
      then some (dev.current_config_num ∷ [])
      else none

  unfoldable pub answer_in : ℕ → Option (List ℕ) → Device → Device
  answer_in w_length none dev = stall_control_pipe dev
  answer_in w_length (some bytes) dev =
      start_single_buffer_control_in_transfer (take w_length bytes) dev

  -- `_usb_default_handle_device_setup_request`
  unfoldable pub device_setup_request : SetupPacket → Device → Device
  device_setup_request s dev =
      let value = u8 s.w_value in
      if not (type_bits s == 0)
      then stall_control_pipe dev
      else if test_bit s.bm_request_type 7
      then answer_in s.w_length (device_in_data s dev) dev
      else if s.b_request == 5
      then (if not (value == 0) && leb value 127
          then start_empty_control_in_transfer set_address (record dev { pending_address = value })
          else stall_control_pipe dev)
      else if s.b_request == 9
      then (if value == 0 || find_configuration value dev
          then start_empty_control_in_transfer no_completion (handle_set_config value dev)
          else stall_control_pipe dev)
      else stall_control_pipe dev

  -- `_usb_default_handle_interface_setup_request`
  unfoldable pub interface_setup_request : SetupPacket → Device → Device
  interface_setup_request s dev =
      if type_bits s == 0
        && s.w_index / 256 == 0
        && test_bit s.bm_request_type 7
        && s.b_request == 0
      then start_tiny_control_in_transfer 0 2 dev
      else stall_control_pipe dev

  abbrev configured : Device → Bool
  configured dev = not (dev.current_config_num == 0)

  -- `usb_soft_reset_endpoint` and `usb_hard_reset_endpoint` of a control endpoint, which has no default
  -- transfer and no `on_stall_change`.
  unfoldable pub reset_control : Bool → Device → Endpoint → Endpoint
  reset_control hard dev ep =
      reset_endpoint current_packet_only (λ (e : Endpoint). e) none (configured dev) hard ep

  -- `ep->halt_state` of the recipient.
  unfoldable pub halt_state_of : Recipient → Device → ℕ
  halt_state_of to_control_in dev = dev.control_in.halt_state
  halt_state_of to_control_out dev = dev.control_out.halt_state
  halt_state_of (to_endpoint i) dev = halt_state_at i dev.endpoints

  -- A change of the recipient.
  unfoldable pub over_recipient :
      Recipient → (Endpoint → Endpoint) → (ℕ → BulkEndpoint → Endpoint) → Device → Device
  over_recipient to_control_in f g dev = record dev { control_in = f dev.control_in }
  over_recipient to_control_out f g dev = record dev { control_out = f dev.control_out }
  over_recipient (to_endpoint i) f g dev = record dev {
    endpoints = change_at i (g i) dev.endpoints;
  }

  -- `usb_hard_reset_endpoint` of the recipient.
  unfoldable pub hard_reset : Recipient → Device → Device
  hard_reset r dev =
      over_recipient r (reset_control true dev)
        (λ i (b : BulkEndpoint).
          reset_endpoint (cb.on_packet i) (cb.on_stall_change i) b.default_transfer (configured dev)
            true b.endpoint)
        dev

  abbrev with_pid_zero : Endpoint → Endpoint
  with_pid_zero ep = record ep { next_pid = false }

  -- `_usb_default_handle_endpoint_setup_request`
  unfoldable pub endpoint_setup_request : SetupPacket → Recipient → Device → Device
  endpoint_setup_request s r dev =
      if not (type_bits s == 0)
      then stall_control_pipe dev
      else if test_bit s.bm_request_type 7
      then (if s.b_request == 0 && s.w_value == 0 && s.w_length == 2
          then start_tiny_control_in_transfer
              (if ltb hs_non_halt_stall (halt_state_of r dev) then 1 else 0) 2 dev
          else stall_control_pipe dev)
      else if s.b_request == 1 && s.w_value == 0
      then start_empty_control_in_transfer no_completion (
          if ltb (halt_state_of r dev) hs_halted_on_condition
          then hard_reset r dev
          else over_recipient r with_pid_zero (λ i (b : BulkEndpoint). with_pid_zero b.endpoint)
              dev)
      else if s.b_request == 3 && s.w_value == 0
      then start_empty_control_in_transfer no_completion (
          over_recipient r (stall_endpoint hs_halted)
            (λ i (b : BulkEndpoint). stall_endpoint hs_halted b.endpoint) dev)
      else stall_control_pipe dev

  -- The start of `_usb_handle_setup_packet`: what is in progress is reset.
  unfoldable pub accept_setup : Device → Device
  accept_setup dev = record dev {
    control_in = record (reset_control false dev dev.control_in) { next_pid = true };
    control_out = record (reset_control false dev dev.control_out) { next_pid = true };
  }

  -- `should_handle_setup_request`, and then the default handler of the interface.
  unfoldable pub default_unless : Option Device → SetupPacket → Device → Device
  default_unless none s dev = interface_setup_request s dev
  default_unless (some after) s dev = after

  unfoldable pub setup_interface : SetupPacket → Option ℕ → Device → Device
  setup_interface s none dev = stall_control_pipe dev
  setup_interface s (some i) dev = default_unless (cb.setup_request_handler i s dev) s dev

  unfoldable pub setup_endpoint : SetupPacket → Option Recipient → Device → Device
  setup_endpoint s none dev = stall_control_pipe dev
  setup_endpoint s (some r) dev = endpoint_setup_request s r dev

  -- `_usb_handle_setup_packet`
  unfoldable pub handle_setup_packet : SetupPacket → Device → Device
  handle_setup_packet s dev =
      let ready = accept_setup dev in
      if recipient_bits s == 0
      then device_setup_request s ready
      else if recipient_bits s == 1
      then setup_interface s (find_interface (u8 s.w_index) ready) ready
      else if recipient_bits s == 2
      then setup_endpoint s (find_endpoint s.w_index ready) ready
      else stall_control_pipe ready
