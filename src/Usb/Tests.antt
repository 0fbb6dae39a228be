-- ===== src/Usb/Tests.antt =====
-- The control IN endpoint, from its initialisation to the end of a transfer, and requests and interrupts
-- of a device with it.
use pico_bootrom_rp.Common.{
  ◌+◌, ◌≡◌, ◌≤◌, refl, List, [], ◌∷◌, test_bit, true, false, none, arith, inl,
}
use pico_bootrom_rp.Usb.{Endpoint}
use pico_bootrom_rp.Usb.Buffers.{reset_buffers, ep_buffer_count, give_buffer, given_ctrl, cleared}
use pico_bootrom_rp.Usb.Transfers.{
  give_call, handle_call, run, dispatch, reset_transfer, started_transfer, can_give, give_in,
  give_as_many, call_on_packet, answered, grow_transfer, packet_done, is_complete, next_packet,
  next_call, given_packet, handle_transfer, handle_packet, take_packet, taken_back, after_packet,
  handled, check_completion, complete, call_completed, completed_transfer,
}
use pico_bootrom_rp.Usb.Reset.{endpoint_init_internal, reset_state, call_fuel}
use pico_bootrom_rp.Usb.Setup.{current_packet_only}
use pico_bootrom_rp.Usb.Setup.{SetupPacket, Device, no_completion}
use pico_bootrom_rp.Usb.Requests.{Callbacks, handle_setup_packet}
use pico_bootrom_rp.Usb.Pipe.{Answers}
use pico_bootrom_rp.Usb.Answers.{handle_setup_packet-Answers}
use pico_bootrom_rp.Usb.Run.{run-ends}
use pico_bootrom_rp.Usb.Progress.{size}
use pico_bootrom_rp.Usb.Reset.{buffer_bytes, endpoint_hw_init, for_each_hw_init}
use pico_bootrom_rp.Usb.Memory.{AllWithin, AreDisjoint, for_each_hw_init-AreDisjoint}
use pico_bootrom_rp.Usb.Counts.{IsSound}
use pico_bootrom_rp.Usb.Progress.{IsLawful}
use pico_bootrom_rp.Usb.Interrupt.{
  Controller, Reads, buffer_transfer, device_transfer, handle_buffer, isr_usbctrl,
}
use pico_bootrom_rp.Usb.Scan.{
  Scanned, handle_buffer-Scanned, IsUnaddressed, isr_usbctrl-IsUnaddressed,
}
use pico_bootrom_rp.Usb.SetAddress.{handle_setup_packet-set_address}
use pico_bootrom_rp.Usb.Lifecycle.{starts, returns, IsReachable, initial, later, reachable-IsSound}
use pico_bootrom_rp.Usb.Restart.{IsLawfulStall}

current_packet_only-IsLawful : IsLawful current_packet_only
unfolding current_packet_only
current_packet_only-IsLawful = record {
  grows = λ ep h. omega arith;
  paced = λ ep next i o p s d. inl refl;
}

abbrev no_change : Endpoint → Endpoint
no_change ep = ep

no_change-IsLawfulStall : IsLawfulStall no_change
unfolding IsLawfulStall
no_change-IsLawfulStall ep h c b = (h, λ e. b)

abbrev control_in : Endpoint
control_in = reset_state true (endpoint_init_internal 0 true 64 false)

abbrev started : Endpoint
started =
    run current_packet_only call_fuel give_call
      (started_transfer (reset_transfer 1 true) control_in)

abbrev sent : Endpoint
sent =
    run current_packet_only call_fuel (handle_call false)
      (record started { buffer0 = cleared; buffer1 = started.buffer1 })

started-IsReachable : IsReachable current_packet_only no_change started
unfolding reset_state reset_buffers endpoint_init_internal ep_buffer_count reset_transfer
started-IsReachable =
    later control_in started (initial 0 true 64 false true)
      (starts control_in (reset_transfer 1 true) refl refl refl)

sent-IsReachable : IsReachable current_packet_only no_change sent
unfolding current_packet_only run dispatch give_in give_as_many can_give call_on_packet answered
    grow_transfer packet_done is_complete next_packet next_call given_packet give_buffer given_ctrl
    reset_state reset_buffers endpoint_init_internal ep_buffer_count reset_transfer started_transfer
sent-IsReachable = later started sent started-IsReachable (
    returns started cleared started.buffer1 false (omega arith)
      (record { returned = refl; kept = refl }))

reachable-IsSound_example : IsSound 0 sent
reachable-IsSound_example =
    reachable-IsSound current_packet_only current_packet_only-IsLawful no_change
      no_change-IsLawfulStall sent-IsReachable

started-gives : started.buffer0.avail ≡ true
unfolding current_packet_only run dispatch give_in give_as_many can_give call_on_packet answered
    grow_transfer packet_done is_complete next_packet next_call given_packet give_buffer given_ctrl
    reset_state reset_buffers endpoint_init_internal ep_buffer_count reset_transfer started_transfer
started-gives = refl

sent-completes : sent.transfer.completed ≡ true
unfolding current_packet_only run dispatch give_in give_as_many can_give call_on_packet answered
    grow_transfer packet_done is_complete next_packet next_call given_packet give_buffer given_ctrl
    reset_state reset_buffers endpoint_init_internal ep_buffer_count reset_transfer started_transfer
    handle_transfer handle_packet take_packet taken_back after_packet handled check_completion
    complete call_completed completed_transfer
sent-completes = refl

started-IsSound : IsSound 0 started
started-IsSound =
    reachable-IsSound current_packet_only current_packet_only-IsLawful no_change
      no_change-IsLawfulStall started-IsReachable

-- The loop has nothing to give any more.
run-ends_example :
    ((run current_packet_only 10 give_call started).exhausted ≡ false)
    × ((run current_packet_only 10 give_call started).asserted ≡ true)
    × (size (run current_packet_only 10 give_call started) ≤ size started + 0)
unfolding current_packet_only run dispatch give_in give_as_many can_give call_on_packet answered
    grow_transfer packet_done is_complete next_packet next_call given_packet give_buffer given_ctrl
    reset_state reset_buffers endpoint_init_internal ep_buffer_count reset_transfer started_transfer
run-ends_example =
    run-ends current_packet_only current_packet_only-IsLawful 10 give_call 0 started
      (record { sound = started-IsSound; no_packet = refl }) (omega arith)

-- Two double-buffered endpoints from 0x180 on.
abbrev bulk : List Endpoint
bulk = endpoint_init_internal 1 true 64 true ∷ endpoint_init_internal 2 false 64 true ∷ []

for_each_hw_init-AreDisjoint_example :
    AllWithin 0x180 0x1000 (for_each_hw_init 0x180 bulk).0
    × AreDisjoint 0x1000 (for_each_hw_init 0x180 bulk).0
for_each_hw_init-AreDisjoint_example =
    for_each_hw_init-AreDisjoint 0x180 0x1000 bulk (omega arith) (omega arith)

second_buffers : (for_each_hw_init 0x180 bulk).1 ≡ 0x280
unfolding for_each_hw_init endpoint_hw_init buffer_bytes endpoint_init_internal
second_buffers = refl

abbrev device : Device
device = record {
  descriptor = 18 ∷ 1 ∷ [];
  config_descriptor = 9 ∷ 2 ∷ [];
  b_configuration_value = 1;
  interface_count = 2;
  current_address = 0;
  current_config_num = 0;
  pending_address = 0;
  control_in = control_in;
  control_out = reset_state true (endpoint_init_internal 0 false 64 false);
  endpoints = [];
  in_data = [];
  in_completion = no_completion;
  out_completion = no_completion;
  configures = [];
}

abbrev callbacks : Callbacks
callbacks = record {
  on_packet = λ i. current_packet_only;
  on_stall_change = λ i. no_change;
  setup_request_handler = λ i s dev. none;
  get_descriptor_string = λ i. [];
}

-- GET_DESCRIPTOR of the device, of which the host wants eight bytes.
abbrev get_descriptor : SetupPacket
get_descriptor = record {
  bm_request_type = 0x80;
  b_request = 6;
  w_value = 0x100;
  w_index = 0;
  w_length = 8;
}

handle_setup_packet-Answers_example : Answers (handle_setup_packet callbacks get_descriptor device)
unfolding reset_state reset_buffers endpoint_init_internal ep_buffer_count test_bit
handle_setup_packet-Answers_example =
    handle_setup_packet-Answers callbacks get_descriptor device refl refl refl refl (λ k. tt) refl

-- SET_ADDRESS with the address 9.
abbrev set_address_nine : SetupPacket
set_address_nine = record {
  bm_request_type = 0;
  b_request = 5;
  w_value = 9;
  w_index = 0;
  w_length = 0;
}

handle_setup_packet-set_address_example :
    let pending = handle_setup_packet callbacks set_address_nine device in
    (pending.current_address ≡ 0)
    × ((device_transfer callbacks 0 true false pending).current_address ≡ 9)
unfolding reset_state reset_buffers endpoint_init_internal ep_buffer_count
handle_setup_packet-set_address_example =
    handle_setup_packet-set_address callbacks false set_address_nine device refl refl refl refl refl
      refl refl

-- The status packet of that request was sent, the buffers of endpoint 1 are done, and an impossible
-- one is.
abbrev controller : Controller
controller = record {
  device = handle_setup_packet callbacks set_address_nine device;
  buf_status = 0x40d;
  setup_rec = false;
  bus_reset = true;
  data_seq_error = true;
}

handle_buffer-Scanned_example :
    Scanned
      (buffer_transfer callbacks (λ i. false))
      0x40d
      10
      0
      controller.device
      (handle_buffer callbacks (λ i. false) controller)
handle_buffer-Scanned_example =
    handle_buffer-Scanned callbacks (λ i. false) controller (omega arith)

abbrev reads : Reads
reads = record {
  ints_setup_req = true;
  ints_buff_status = true;
  ints_bus_reset = true;
  ints_error = true;
  setup_packet = set_address_nine;
  buf_cpu_should_handle = λ i. false;
}

isr_usbctrl-IsUnaddressed_example : IsUnaddressed (isr_usbctrl callbacks reads controller).device
isr_usbctrl-IsUnaddressed_example = isr_usbctrl-IsUnaddressed callbacks reads controller refl
