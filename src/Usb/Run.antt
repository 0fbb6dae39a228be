-- ===== src/Usb/Run.antt =====
-- The calls of a transfer, whatever the callbacks do: they end, and they keep the endpoint sound.
use pico_bootrom_rp.Common.{ℕ, zero, suc, ◌+◌, ◌≤◌, ◌<◌, ◌≡◌, true, false, arith}
use pico_bootrom_rp.Usb.{Endpoint}
use pico_bootrom_rp.Usb.Transfers.{
  PacketAnswer, Call, give_call, packet_call, done_call, handle_call, dispatch, run,
}
use pico_bootrom_rp.Usb.Progress.{IsLawful, size, call_size, Requires, call_slack, Carries}
use pico_bootrom_rp.Usb.Give.{give_as_many-IsDone}
use pico_bootrom_rp.Usb.Done.{packet_done-IsDone}
use pico_bootrom_rp.Usb.Packet.{call_on_packet-IsDone}
use pico_bootrom_rp.Usb.Handle.{handle_transfer-IsDone}

dispatch-Carries :
    (on_packet : Endpoint → PacketAnswer)
    → IsLawful on_packet
    → (n : ℕ) (call : Call → Endpoint → Endpoint) → Carries on_packet n call
    → Carries on_packet (suc n) (dispatch on_packet call)
unfolding dispatch
dispatch-Carries on_packet l n call c give_call d ep r m =
    give_as_many-IsDone on_packet l n call c d ep r m
dispatch-Carries on_packet l n call c packet_call d ep r m =
    call_on_packet-IsDone on_packet l n call c d ep r m
dispatch-Carries on_packet l n call c done_call d ep r m =
    packet_done-IsDone on_packet l n call c d ep r m
dispatch-Carries on_packet l n call c (handle_call which) d ep r m =
    handle_transfer-IsDone on_packet l n call c d ep which r m

pub run-Carries :
    (on_packet : Endpoint → PacketAnswer)
    → IsLawful on_packet
    → (n : ℕ) → Carries on_packet n (run on_packet n)
unfolding run
run-Carries on_packet l zero c d ep r m = absurd (omega arith)
run-Carries on_packet l (suc n) c d ep r m =
    dispatch-Carries on_packet l n (run on_packet n) (run-Carries on_packet l n) c d ep r m

-- For callbacks within `IsLawful` (a transfer does not grow past 2^32 packets, and on a double-
-- buffered IN endpoint a packet filled at once is followed by another such packet, or by none, without
-- which the assertion of usb_device.c:467 can fail), every call of the functions of a transfer that is
-- made where `Requires` allows it ends: the fuel is enough if it is more than what the buffers, the
-- queued packet and the chained transfer account for. The four assertions that `asserted` records hold
-- on the way, and the call leaves no more for the next ones to do than there was, but for a buffer
-- that the interrupt has counted.
pub run-ends :
    (on_packet : Endpoint → PacketAnswer)
    → IsLawful on_packet
    → (n : ℕ) (c : Call) (d : ℕ) (ep : Endpoint) → Requires c d ep
    → size ep + call_size ep.is_in c < n
    → ((run on_packet n c ep).exhausted ≡ false)
      × ((run on_packet n c ep).asserted ≡ true)
      × (size (run on_packet n c ep) ≤ size ep + call_slack c)
run-ends on_packet l n c d ep r m =
    let t = (run-Carries on_packet l n c d ep r m).leaves in
    (t.sound.in_fuel, t.sound.asserted, t.smaller)
