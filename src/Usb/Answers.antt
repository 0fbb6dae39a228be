-- ===== src/Usb/Answers.antt =====
-- Every setup packet is answered on the control pipe, with one packet or with a stall.
use pico_bootrom_rp.Common.{
  ℕ, suc, ◌/◌, ◌≡◌, refl, Bool, true, false, ◌&&◌, ◌||◌, not, List, [], ◌∷◌, Option, none, some,
  ltb, leb, ◌==◌, take, u8, test_bit, arith, Bool-cases, inl, inr, if-by,
}
use pico_bootrom_rp.Usb.{Endpoint}
use pico_bootrom_rp.Usb.Setup.{
  SetupPacket, no_completion, set_address, send_in_ack, BulkEndpoint, Device, start_control_in,
  start_single_buffer_control_in_transfer, start_tiny_control_in_transfer,
  start_empty_control_in_transfer, find_configuration, find_interface, Recipient, to_control_in,
  to_control_out, to_endpoint, find_address, find_endpoint, bytes_of,
}
use pico_bootrom_rp.Usb.Requests.{
  Callbacks, type_bits, recipient_bits, handle_set_config, device_in_data, answer_in,
  device_setup_request, interface_setup_request, halt_state_of, over_recipient, hard_reset,
  endpoint_setup_request, accept_setup, default_unless, setup_interface, setup_endpoint,
  handle_setup_packet,
}
use pico_bootrom_rp.Usb.Pipe.{
  Answers, IsReadyPipe, start_control_in-Answers, stall_control_pipe-Answers,
  accept_setup-IsReadyPipe,
}

abbrev pub is_control_in : Recipient → Bool
is_control_in to_control_in = true
is_control_in _ = false

abbrev finds_control_in : Option Recipient → Bool
finds_control_in none = false
finds_control_in (some to) = is_control_in to

find_address-bulk :
    (num i : ℕ) (bs : List BulkEndpoint) → finds_control_in (find_address num i bs) ≡ false
unfolding find_address
find_address-bulk num i [] = refl
find_address-bulk num i (b ∷ bs) =
    if-by (λ (o : Option Recipient). finds_control_in o ≡ false) (b.address == num) _ _ (λ e. refl)
      λ e. find_address-bulk num (suc i) bs

find_endpoint-control_in :
    (num : ℕ) (dev : Device)
    → (num == 0x80) ≡ false
    → finds_control_in (find_endpoint num dev) ≡ false
unfolding find_endpoint
find_endpoint-control_in num dev h =
    let Q = λ (o : Option Recipient). finds_control_in o ≡ false in
    if-by Q (num == 0) _ _ (λ e. refl)
      λ e.
        if-by Q (num == 0x80) _ _ (λ e. ground arith)
          λ e.
            if-by Q (dev.current_config_num == 0) _ _ (λ e. refl)
              λ e. find_address-bulk num 0 dev.endpoints

-- An interface handler declines a request, or answers it.
abbrev pub Handled : Option Device → Type 0
Handled none = Unit {0}
Handled (some after) = Answers after

module _ (cb : Callbacks) (s : SetupPacket) where
  answer_in-Answers :
      (bytes : Option (List ℕ)) (dev : Device)
      → IsReadyPipe dev
      → Answers (answer_in cb s.w_length bytes dev)
  unfolding answer_in start_single_buffer_control_in_transfer
  answer_in-Answers none dev r = stall_control_pipe-Answers dev r
  answer_in-Answers (some bytes) dev r =
      start_control_in-Answers send_in_ack (take s.w_length bytes) dev r.in_idle r.toggle

  device-Answers : (dev : Device) → IsReadyPipe dev → Answers (device_setup_request cb s dev)
  unfolding device_setup_request start_empty_control_in_transfer handle_set_config
  device-Answers dev r =
      let stalls = stall_control_pipe-Answers dev r in
      let value = u8 s.w_value in
      if-by Answers (not (type_bits s == 0)) _ _ (λ e. stalls)
        λ e.
          if-by Answers (test_bit s.bm_request_type 7) _ _
            (λ e. answer_in-Answers (device_in_data cb s dev) dev r)
            λ e.
              if-by Answers (s.b_request == 5) _ _
                (λ e.
                  if-by Answers (not (value == 0) && leb value 127) _ _
                    (λ e.
                      start_control_in-Answers set_address []
                        (record dev { pending_address = value }) r.in_idle r.toggle)
                    λ e. stalls)
                λ e.
                  if-by Answers (s.b_request == 9) _ _
                    (λ e.
                      if-by Answers (value == 0 || find_configuration value dev) _ _
                        (λ e.
                          start_control_in-Answers no_completion [] (handle_set_config cb value dev)
                            r.in_idle r.toggle)
                        λ e. stalls)
                    λ e. stalls

  interface-Answers : (dev : Device) → IsReadyPipe dev → Answers (interface_setup_request cb s dev)
  unfolding interface_setup_request start_tiny_control_in_transfer
      start_single_buffer_control_in_transfer
  interface-Answers dev r =
      if-by Answers
        (type_bits s == 0
          && s.w_index / 256 == 0
          && test_bit s.bm_request_type 7
          && s.b_request == 0)
        _ _ (λ e. start_control_in-Answers send_in_ack (bytes_of 0 2) dev r.in_idle r.toggle)
        λ e. stall_control_pipe-Answers dev r

  -- A change of an endpoint that is not the control IN endpoint leaves that one as it was.
  over-Answers :
      (to : Recipient) (f : Endpoint → Endpoint) (g : ℕ → BulkEndpoint → Endpoint) (dev : Device)
      → is_control_in to ≡ false
      → IsReadyPipe dev
      → Answers (start_control_in no_completion [] (over_recipient cb to f g dev))
  unfolding over_recipient
  over-Answers to_control_in f g dev n r = ground arith
  over-Answers to_control_out f g dev n r =
      start_control_in-Answers no_completion [] _ r.in_idle r.toggle
  over-Answers (to_endpoint i) f g dev n r =
      start_control_in-Answers no_completion [] _ r.in_idle r.toggle

  endpoint-Answers :
      (to : Recipient) (dev : Device)
      → (is_control_in to && not (test_bit s.bm_request_type 7)) ≡ false
      → IsReadyPipe dev
      → Answers (endpoint_setup_request cb s to dev)
  unfolding endpoint_setup_request start_tiny_control_in_transfer
      start_single_buffer_control_in_transfer start_empty_control_in_transfer hard_reset
  endpoint-Answers to dev n r =
      let stalls = stall_control_pipe-Answers dev r in
      if-by Answers (not (type_bits s == 0)) _ _ (λ e. stalls)
        λ e.
          if-by Answers (test_bit s.bm_request_type 7) _ _
            (λ e.
              if-by Answers (s.b_request == 0 && s.w_value == 0 && s.w_length == 2) _ _
                (λ e. start_control_in-Answers send_in_ack _ dev r.in_idle r.toggle) λ e. stalls)
            λ out.
              let o : is_control_in to ≡ false = ground arith in
              if-by Answers (s.b_request == 1 && s.w_value == 0) _ _
                (λ e.
                  if-by (λ (d : Device). Answers (start_control_in no_completion [] d))
                    (ltb (halt_state_of cb to dev) 3) _ _ (λ e. over-Answers to _ _ dev o r)
                    λ e. over-Answers to _ _ dev o r)
                λ e.
                  if-by Answers (s.b_request == 3 && s.w_value == 0) _ _
                    (λ e. over-Answers to _ _ dev o r) λ e. stalls

  found-Answers :
      (to : Option Recipient) (dev : Device)
      → (finds_control_in to && not (test_bit s.bm_request_type 7)) ≡ false
      → IsReadyPipe dev
      → Answers (setup_endpoint cb s to dev)
  unfolding setup_endpoint
  found-Answers none dev n r = stall_control_pipe-Answers dev r
  found-Answers (some to) dev n r = endpoint-Answers to dev n r

  default_unless-Answers :
      (after : Option Device) (dev : Device)
      → Handled after
      → IsReadyPipe dev
      → Answers (default_unless cb after s dev)
  unfolding default_unless
  default_unless-Answers none dev h r = interface-Answers dev r
  default_unless-Answers (some after) dev h r = h

  setup_interface-Answers :
      (i : Option ℕ) (dev : Device)
      → ((k : ℕ) → Handled (cb.setup_request_handler k s dev))
      → IsReadyPipe dev
      → Answers (setup_interface cb s i dev)
  unfolding setup_interface
  setup_interface-Answers none dev h r = stall_control_pipe-Answers dev r
  setup_interface-Answers (some k) dev h r =
      default_unless-Answers (cb.setup_request_handler k s dev) dev (h k) r

  -- Every setup packet is answered: either the control IN endpoint, not halted, has one packet to send,
  -- as DATA1 and of the length of the answer, or both control endpoints are stalled, with no packet. An
  -- interface handler that does not decline the packet answers it so, both control endpoints have one
  -- buffer, and the packet is not an OUT request to the control IN endpoint.
  pub handle_setup_packet-Answers :
      (dev : Device)
      → dev.control_in.is_in ≡ true
      → dev.control_out.is_in ≡ false
      → dev.control_in.double_buffered ≡ false
      → dev.control_out.double_buffered ≡ false
      → ((k : ℕ) → Handled (cb.setup_request_handler k s (accept_setup cb dev)))
      → (recipient_bits s == 2 && s.w_index == 0x80 && not (test_bit s.bm_request_type 7)) ≡ false
      → Answers (handle_setup_packet cb s dev)
  unfolding handle_setup_packet
  handle_setup_packet-Answers dev i o d e k n =
      let ready = accept_setup cb dev in
      let r = accept_setup-IsReadyPipe cb dev i o d e in
      if-by Answers (recipient_bits s == 0) _ _ (λ e. device-Answers ready r)
        λ e.
          if-by Answers (recipient_bits s == 1) _ _
            (λ e. setup_interface-Answers (find_interface (u8 s.w_index) ready) ready k r)
            λ e.
              if-by Answers (recipient_bits s == 2) _ _
                (λ two.
                  found-Answers (find_endpoint s.w_index ready) ready
                    (elim (Bool-cases (s.w_index == 0x80)) [
                      | inl w ↦ ground arith
                      | inr w ↦ let f = find_endpoint-control_in s.w_index ready w in ground arith
                    ])
                    r)
                λ e. stall_control_pipe-Answers ready r
