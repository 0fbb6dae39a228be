-- ===== src/Usb/Pipe.antt =====
-- The control pipe, ready for the answer to a setup packet, or with an answer on it.
use pico_bootrom_rp.Common.{
  ℕ, ◌≡◌, ◌∙◌, ◌⊎◌, ap, refl, true, false, not, List, ◌==◌, length, inl, inr, if-by,
}
use pico_bootrom_rp.Usb.{Endpoint, BufCtrl}
use pico_bootrom_rp.Usb.Buffers.{current_packet_buffer}
use pico_bootrom_rp.Usb.Setup.{
  Completion, Device, has_completion, start_control_in, stall_control_pipe,
}
use pico_bootrom_rp.Usb.Requests.{Callbacks, reset_control, accept_setup}
use pico_bootrom_rp.Usb.Control.{
  IsIdle, start_packet-sends, reset-IsIdle, IsStalled, stall-IsStalled,
}

-- The control pipe, ready for the answer to a setup packet: both endpoints idle, the toggle at DATA1.
pub record IsReadyPipe (dev : Device) : Type 0 where
  pub in_idle : IsIdle true dev.control_in
  pub out_idle : IsIdle false dev.control_out
  pub toggle : dev.control_in.next_pid ≡ true

-- The control IN endpoint has a packet to send, of the answer's length, as DATA1.
pub record IsSending (dev : Device) : Type 0 where
  pub available : dev.control_in.buffer0.avail ≡ true
  pub full : dev.control_in.buffer0.full ≡ true
  pub toggle : dev.control_in.buffer0.data1 ≡ true
  pub size : dev.control_in.buffer0.len ≡ length dev.in_data
  pub no_halt : dev.control_in.halt_state ≡ 0

-- Both endpoints of the control pipe answer with a stall.
pub record IsStalledPipe (dev : Device) : Type 0 where
  pub in_stalled : IsStalled dev.control_in
  pub out_stalled : IsStalled dev.control_out

abbrev pub Answers : Device → Type 0
Answers dev = IsSending dev ⊎ IsStalledPipe dev

pub filled-IsIdle :
    (n : ℕ) (ep : Endpoint)
    → IsIdle true ep
    → ep.next_pid ≡ true
    → IsIdle true (record (current_packet_buffer ep) { hw_buffer_len = n })
      × ((current_packet_buffer ep).next_pid ≡ true)
unfolding current_packet_buffer
filled-IsIdle n ep h p =
    if-by (λ (x : Endpoint). IsIdle true (record x { hw_buffer_len = n }) × (x.next_pid ≡ true))
      ep.hw_buffer_valid _ _
      (λ e. (
        record {
          direction = h.direction;
          single = h.single;
          owned = h.owned;
          no_halt = h.no_halt;
          first = h.first;
          not_given = h.not_given;
        },
        p,
      ))
      λ e. (
        record {
          direction = h.direction;
          single = h.single;
          owned = h.owned;
          no_halt = h.no_halt;
          first = h.first;
          not_given = h.not_given;
        },
        p,
      )

pub start_control_in-IsSending :
    (c : Completion) (bytes : List ℕ) (dev : Device)
    → IsIdle true dev.control_in
    → dev.control_in.next_pid ≡ true
    → IsSending (start_control_in c bytes dev)
unfolding start_control_in
start_control_in-IsSending c bytes dev h p =
    let f = filled-IsIdle (length bytes) dev.control_in h p in
    let s = start_packet-sends (has_completion c) _ f.0 in
    record {
      available = ap (λ (b : BufCtrl). b.avail) s.0;
      full = ap (λ (b : BufCtrl). b.full) s.0;
      toggle = ap (λ (b : BufCtrl). b.data1) s.0 ∙ f.1;
      size = ap (λ (b : BufCtrl). b.len) s.0;
      no_halt = s.1;
    }

pub start_control_in-Answers :
    (c : Completion) (bytes : List ℕ) (dev : Device)
    → IsIdle true dev.control_in
    → dev.control_in.next_pid ≡ true
    → Answers (start_control_in c bytes dev)
start_control_in-Answers c bytes dev h p = inl (start_control_in-IsSending c bytes dev h p)

pub stall_control_pipe-Answers : (dev : Device) → IsReadyPipe dev → Answers (stall_control_pipe dev)
unfolding stall_control_pipe
stall_control_pipe-Answers dev r = inr (record {
  in_stalled = stall-IsStalled true dev.control_in r.in_idle;
  out_stalled = stall-IsStalled false dev.control_out r.out_idle;
})

pub accept_setup-IsReadyPipe :
    (cb : Callbacks) (dev : Device)
    → dev.control_in.is_in ≡ true
    → dev.control_out.is_in ≡ false
    → dev.control_in.double_buffered ≡ false
    → dev.control_out.double_buffered ≡ false
    → IsReadyPipe (accept_setup cb dev)
unfolding accept_setup reset_control
accept_setup-IsReadyPipe cb dev i o d e =
    let c = not (dev.current_config_num == 0) in
    let x = reset-IsIdle true c false dev.control_in i d in
    let y = reset-IsIdle false c false dev.control_out o e in
    record {
      in_idle = record {
        direction = x.direction;
        single = x.single;
        owned = x.owned;
        no_halt = x.no_halt;
        first = x.first;
        not_given = x.not_given;
      };
      out_idle = record {
        direction = y.direction;
        single = y.single;
        owned = y.owned;
        no_halt = y.no_halt;
        first = y.first;
        not_given = y.not_given;
      };
      toggle = refl;
    }
