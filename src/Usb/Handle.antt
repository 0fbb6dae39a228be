-- ===== src/Usb/Handle.antt =====
-- The interrupt of a buffer.
use pico_bootrom_rp.Common.{
  ℕ, suc, ◌+◌, ◌≤◌, ◌<◌, ◌≡◌, ◌∙◌, refl, ap, Bool, true, false, ◌||◌, not, ◌==◌, if◌then◌else◌,
  arith, Bool-cases, inl, inr,
}
use pico_bootrom_rp.Usb.{Endpoint}
use pico_bootrom_rp.Usb.Buffers.{stall_endpoint, halt_endpoint}
use pico_bootrom_rp.Usb.Transfers.{
  PacketAnswer, Call, packet_call, handle_call, is_complete, taken_back, set_queued, handled,
  complete, check_completion, after_packet, take_packet, handle_packet, handle_transfer,
}
use pico_bootrom_rp.Usb.Shared.{SharesBuffers}
use pico_bootrom_rp.Usb.Counts.{IsSound, IsSound-idle, IsSound-IsWhole}
use pico_bootrom_rp.Usb.Steps.{IsReady, stall_endpoint-IsSound}
use pico_bootrom_rp.Usb.Queued.{handled-IsSound, set_queued-IsSound}
use pico_bootrom_rp.Usb.Kept.{stall_endpoint-IsKept}
use pico_bootrom_rp.Usb.Progress.{IsLawful, size, call_size, IsDue, Leaves, IsDone, Carries}
use pico_bootrom_rp.Usb.Sizes.{Leaves-le}
use pico_bootrom_rp.Usb.Complete.{complete-Leaves}
use pico_bootrom_rp.Usb.Packet.{kept_size}

handle_size :
    (b c w : Bool) (s t n : ℕ)
    → t ≤ s + 3
    → s + call_size b (handle_call w) < suc n
    → c ≡ b
    → (t + call_size c packet_call < n) × (t ≤ n)
handle_size true c w s t n h m e =
    let v = ap (λ (x : Bool). call_size x packet_call) e in (omega arith, omega arith)
handle_size false c w s t n h m e =
    let v = ap (λ (x : Bool). call_size x packet_call) e in (omega arith, omega arith)

module _ (on_packet : Endpoint → PacketAnswer) (lawful : IsLawful on_packet) (n : ℕ)
    (call : Call → Endpoint → Endpoint) (carries : Carries on_packet n call) where
  -- What is left of the interrupt once the callback has returned.
  after_packet-Leaves :
      (d b : ℕ) (double is_in : Bool) (ep : Endpoint)
      → Leaves (suc d) b double is_in ep
      → b ≤ n
      → Leaves d b double is_in (after_packet on_packet call ep)
  unfolding after_packet check_completion handled SharesBuffers is_complete
  after_packet-Leaves d b double is_in ep l m = elim (Bool-cases ep.transfer.completed) [
    | inl e ↦
        rw (e, after_packet)
          (record {
            sound = IsSound-idle (suc d) d ep l.sound (let c = l.sound.current in ground arith);
            smaller = l.smaller;
            same_double = l.same_double;
            same_in = l.same_in;
          })
    | inr e ↦ rw (e, after_packet) (checked (let c = l.sound.current in ground arith))
  ]
    where
      -- With no packet left to handle, every buffer is the CPU's again.
      all_back :
          ep.current_transfer ≡ true
          → is_complete (handled ep) ≡ true
          → (ep.halt_state == 0) ≡ true
          → (ep.owned_buffer_count ≡ (if ep.double_buffered then 2 else 1)) × (d ≡ 0)
      all_back c e h =
          let s = handled-IsSound d ep l.sound c in
          let t = s.counted c in let b = s.shared.bounded in (ground arith, ground arith)

      finished :
          ep.current_transfer ≡ true
          → is_complete (handled ep) ≡ true
          → Leaves d b double is_in (complete on_packet call (handled ep))
      finished c e =
          let s = handled-IsSound d ep l.sound c in
          let z = l.smaller in
          let w = IsSound-IsWhole d (handled ep) s in
          let k =
            complete-Leaves on_packet lawful n call carries d (handled ep) w (all_back c e)
              (omega arith) in
          record {
            sound = k.sound;
            smaller = let y = k.smaller in omega arith;
            same_double = k.same_double ∙ l.same_double;
            same_in = k.same_in ∙ l.same_in;
          }

      checked :
          ep.current_transfer ≡ true
          → Leaves d b double is_in (check_completion on_packet call (handled ep))
      checked c =
          let s = handled-IsSound d ep l.sound c in
          let z = l.smaller in
          elim (Bool-cases (is_complete (handled ep))) [
            | inl e ↦ rw (e, check_completion) (finished c e)
            | inr e ↦
                rw (e, check_completion)
                  (record {
                    sound = s;
                    smaller = omega arith;
                    same_double = l.same_double;
                    same_in = l.same_in;
                  })
          ]

  -- The interrupt of a buffer, with no packet outstanding.
  taken-Leaves :
      (d : ℕ) (ep : Endpoint) (which : Bool)
      → IsDue d ep
      → size ep + call_size ep.is_in (handle_call which) < suc n
      → ep.current_transfer ≡ true
      → ep.transfer.outstanding_packet ≡ false
      → Leaves d (size ep + 7) ep.double_buffered ep.is_in (take_packet on_packet call which ep)
  unfolding take_packet taken_back SharesBuffers
  taken-Leaves d ep which r m c o =
      elim (Bool-cases (not ep.is_in || not (ep.transfer.remaining_packets_to_submit == 0))) [
        | inl e ↦ rw (e, take_packet) (called e)
        | inr e ↦
            rw (e, take_packet)
              (Leaves-le d _ _ _ _ _ (after_packet-Leaves d (size taken) _ _ taken own fits.1)
                small)
      ]
    where
      taken : Endpoint
      taken = record (taken_back ep) { current_take_buffer = which }

      small : size taken ≤ size ep + 7
      small = let f = r.few in ground arith

      tight : size taken ≤ size ep + 3
      tight = let f = r.few in ground arith

      fits : (size taken + call_size taken.is_in packet_call < n) × (size taken ≤ n)
      fits = handle_size ep.is_in taken.is_in which _ _ n tight m refl

      sound : IsSound (suc d) taken
      sound =
          let h = r.back in
          record {
            shared = h.shared;
            counted = h.counted;
            fits = h.fits;
            queued = h.queued;
            outstanding = h.outstanding;
            current = h.current;
            chained = h.chained;
            asserted = h.asserted;
            in_fuel = h.in_fuel;
          }

      own : Leaves (suc d) (size taken) taken.double_buffered taken.is_in taken
      own = record { sound = sound; smaller = omega arith; same_double = refl; same_in = refl }

      called :
          (not ep.is_in || not (ep.transfer.remaining_packets_to_submit == 0)) ≡ true
          → Leaves d
              (size ep + 7)
              ep.double_buffered
              ep.is_in
              (after_packet on_packet call (call packet_call taken))
      called e =
          let ready : IsReady (suc d) taken = record {
            sound = sound;
            running = c;
            no_packet = o;
            a_buffer = let f = r.few in ground arith;
            a_packet = ground arith;
          } in
          let turn = (carries packet_call (suc d) taken ready fits.0).leaves in
          let k =
            after_packet-Leaves d (size taken) _ _ _
              (Leaves-le (suc d) _ _ _ _ _ turn (omega arith)) fits.1 in
          Leaves-le d _ _ _ _ _ k small

  -- The interrupt of a buffer that no transfer waits for halts the endpoint.
  unexpected-Leaves :
      (d : ℕ) (ep : Endpoint)
      → IsDue d ep
      → ep.current_transfer ≡ false
      → Leaves d (size ep + 7) ep.double_buffered ep.is_in (halt_endpoint (taken_back ep))
  unfolding halt_endpoint taken_back
  unexpected-Leaves d ep r c =
      let k = stall_endpoint-IsKept 2 (taken_back ep) in
      let s = kept_size (taken_back ep) (stall_endpoint 2 (taken_back ep)) k in
      let f = r.few in
      record {
        sound =
            stall_endpoint-IsSound 2 d (taken_back ep)
              (IsSound-idle (suc d) d (taken_back ep) r.back c);
        smaller = ground arith;
        same_double = k.same_double;
        same_in = k.same_in;
      }

  -- The interrupt of a buffer behind an outstanding packet.
  waiting-Leaves :
      (d : ℕ) (ep : Endpoint)
      → IsDue d ep
      → ep.current_transfer ≡ true
      → ep.transfer.outstanding_packet ≡ true
      → Leaves d (size ep + 7) ep.double_buffered ep.is_in (set_queued true (taken_back ep))
  unfolding taken_back
  waiting-Leaves d ep r c o =
      let f = r.few in
      let q = r.no_queue in
      let p = r.one_packet in
      record {
        sound = set_queued-IsSound d (taken_back ep) r.back (ground arith) o (ground arith);
        smaller = ground arith;
        same_double = refl;
        same_in = refl;
      }

  pub handle_transfer-IsDone :
      (d : ℕ) (ep : Endpoint) (which : Bool)
      → IsDue d ep
      → size ep + call_size ep.is_in (handle_call which) < suc n
      → IsDone on_packet (handle_call which) d ep (handle_transfer on_packet call which ep)
  unfolding handle_transfer handle_packet
  handle_transfer-IsDone d ep which r m = record {
    leaves = by_packet ep.current_transfer ep.transfer.outstanding_packet refl refl;
    tells = refl;
  }
    where
      by_packet :
          (b o : Bool)
          → ep.current_transfer ≡ b
          → ep.transfer.outstanding_packet ≡ o
          → Leaves d
              (size ep + 7)
              ep.double_buffered
              ep.is_in
              (handle_packet on_packet call b o which ep)
      by_packet false o c e = unexpected-Leaves d ep r c
      by_packet true true c e = waiting-Leaves d ep r c e
      by_packet true false c e = taken-Leaves d ep which r m c e
