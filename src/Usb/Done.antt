-- ===== src/Usb/Done.antt =====
-- The end of a packet: the next one, one that was queued, or the end of the transfer.
use pico_bootrom_rp.Common.{
  ℕ, suc, ◌+◌, ◌≤◌, ◌<◌, ◌≡◌, ◌∙◌, refl, sym, subst, ap, Bool, true, false, ◌&&◌, not, ◌==◌, arith,
  Bool-cases, inl, inr,
}
use pico_bootrom_rp.Usb.{Endpoint}
use pico_bootrom_rp.Usb.Transfers.{
  PacketAnswer, Call, give_call, done_call, handle_call, is_complete, can_give, set_outstanding,
  completed_transfer, complete, given_packet, uncounted, next_call, next_packet, packet_done,
}
use pico_bootrom_rp.Usb.Shared.{SharesBuffers}
use pico_bootrom_rp.Usb.Counts.{IsWhole, IsSound-IsWhole}
use pico_bootrom_rp.Usb.Queued.{requeued-IsSound, packet_over-IsSound, given_packet-IsSound}
use pico_bootrom_rp.Usb.Kept.{IsGiven, given_packet-IsGiven}
use pico_bootrom_rp.Usb.Progress.{
  IsLawful, chain_size, size, call_size, IsDue, IsFilled, IsFree, Tells, IsDone, Carries,
}
use pico_bootrom_rp.Usb.Sizes.{Leaves-le, given_size, loop_size, queue_size}
use pico_bootrom_rp.Usb.Complete.{complete-Leaves}

module _ (on_packet : Endpoint → PacketAnswer) (lawful : IsLawful on_packet) (n : ℕ)
    (call : Call → Endpoint → Endpoint) (carries : Carries on_packet n call) where
  -- The next packet, with none queued.
  unqueued-IsDone :
      (d : ℕ) (ep : Endpoint)
      → IsFilled d ep
      → size ep + call_size ep.is_in done_call < suc n
      → is_complete (set_outstanding false ep) ≡ false
      → ep.transfer.packet_queued ≡ false
      → IsDone on_packet done_call d ep (call give_call (given_packet (set_outstanding false ep)))
  unfolding is_complete can_give
  unqueued-IsDone d ep r m c q =
      let l = turn.leaves in
      record {
        leaves = record {
          sound = l.sound;
          smaller =
              let s = l.smaller in
              let u = given_size done (given_packet done) g a_buffer in ground arith;
          same_double = l.same_double ∙ g.same_double;
          same_in = l.same_in ∙ g.same_in;
        };
        tells = told;
      }
    where
      done : Endpoint
      done = set_outstanding false ep

      g : IsGiven done (given_packet done)
      g = given_packet-IsGiven done

      no_packet :
          ((given_packet (set_outstanding false ep)).current_transfer
            && (given_packet (set_outstanding false ep)).transfer.outstanding_packet)
          ≡ false
      no_packet = let x = g.outstanding in ground arith

      free : IsFree d (given_packet done)
      free =
          let o = r.sound.outstanding in
          let u = r.running in
          let a = r.a_packet in
          record {
            sound =
                given_packet-IsSound d done (packet_over-IsSound d ep r.sound q) refl
                  (λ i. ground arith);
            no_packet = no_packet;
          }

      a_buffer : 0 < ep.owned_buffer_count
      a_buffer =
          let o = r.sound.outstanding in let u = r.running in let a = r.a_packet in ground arith

      turn : IsDone on_packet give_call d (given_packet done) (call give_call (given_packet done))
      turn =
          carries give_call d (given_packet done) free
            (loop_size done (given_packet done) n g a_buffer m)

      told : Tells on_packet done_call ep (call give_call (given_packet done))
      told = elim (Bool-cases (can_give (given_packet done))) [
        | inr e ↦
            let o = g.owned in
            let p = no_packet in
            subst (λ (x : Endpoint). Tells on_packet done_call ep x) (sym (turn.tells.0 e))
              (ground arith, ground arith)
        | inl e ↦
            let o = g.owned in
            let u = g.submit in
            let i = g.same_in in
            let t = turn.tells.1 in
            let s = turn.leaves.sound.outstanding in (ground arith, ground arith)
      ]

  -- The next packet, with one queued: its buffer is counted again when it is handled.
  queued-IsDone :
      (d : ℕ) (ep : Endpoint)
      → IsFilled d ep
      → size ep + call_size ep.is_in done_call < suc n
      → is_complete (set_outstanding false ep) ≡ false
      → ep.transfer.packet_queued ≡ true
      → IsDone on_packet done_call d ep
          (next_call on_packet call true (given_packet (set_outstanding false ep)))
  unfolding next_call uncounted is_complete can_give
  queued-IsDone d ep r m c q =
      let l = turn.leaves in
      record {
        leaves = record {
          sound = l.sound;
          smaller = let s = l.smaller in let t = smaller in omega arith;
          same_double = l.same_double ∙ g.same_double;
          same_in = l.same_in ∙ g.same_in;
        };
        tells = ground arith;
      }
    where
      done : Endpoint
      done = set_outstanding false ep

      g : IsGiven done (given_packet done)
      g = given_packet-IsGiven done

      both : (ep.owned_buffer_count ≡ 2)
      both = let u = r.running in let b = r.sound.queued in ground arith

      due : IsDue d (uncounted (given_packet done))
      due =
          let b = both in
          let o = r.sound.outstanding in
          let u = r.running in
          let a = r.a_packet in
          let x = g.outstanding in
          let y = g.owned in
          record {
            back = requeued-IsSound d ep r.sound r.running q (λ i. ground arith);
            few = ground arith;
            no_queue = ground arith;
            one_packet = ground arith;
          }

      smaller : size (uncounted (given_packet done)) + 7 ≤ size ep
      smaller =
          let b = both in
          let y = g.owned in let u = r.running in let x = ap chain_size g.chain in ground arith

      fuel :
          size (uncounted (given_packet done))
            + call_size
                (uncounted (given_packet done)).is_in
                (handle_call (not (given_packet done).current_take_buffer))
          < n
      fuel =
          queue_size ep.is_in (uncounted (given_packet done)).is_in
            (not (given_packet done).current_take_buffer) _ _ _ smaller m g.same_in

      turn :
          IsDone on_packet
            (handle_call (not (given_packet done).current_take_buffer))
            d
            (uncounted (given_packet done))
            (call
              (handle_call (not (given_packet done).current_take_buffer))
              (uncounted (given_packet done)))
      turn = carries (handle_call (not (given_packet done).current_take_buffer)) d _ due fuel

  completed-IsDone :
      (d : ℕ) (ep : Endpoint)
      → IsFilled d ep
      → size ep + call_size ep.is_in done_call < suc n
      → is_complete (set_outstanding false ep) ≡ true
      → IsDone on_packet done_call d ep (complete on_packet call (set_outstanding false ep))
  unfolding is_complete SharesBuffers complete completed_transfer
  completed-IsDone d ep r m c =
      let whole = IsSound-IsWhole d ep r.sound in
      let w : IsWhole (set_outstanding false ep) = record {
        shared = whole.shared;
        fits = whole.fits;
        chained = whole.chained;
        asserted = whole.asserted;
        in_fuel = whole.in_fuel;
      } in
      let t = r.sound.counted r.running in
      let b = r.sound.shared.bounded in
      let l =
        complete-Leaves on_packet lawful n call carries d (set_outstanding false ep) w
          (λ h. (ground arith, ground arith)) (omega arith) in
      record { leaves = Leaves-le d _ _ _ _ _ l (omega arith); tells = told }
    where
      told : Tells on_packet done_call ep (complete on_packet call (set_outstanding false ep))
      told = elim (Bool-cases (ep.halt_state == 0)) [
        | inl h ↦
            let t = r.sound.counted r.running in
            let b = r.sound.shared.bounded in
            let o = r.sound.outstanding in let u = r.running in let a = r.a_packet in ground arith
        | inr h ↦ rw (h, complete) (ground arith)
      ]

  pub packet_done-IsDone :
      (d : ℕ) (ep : Endpoint)
      → IsFilled d ep
      → size ep + call_size ep.is_in done_call < suc n
      → IsDone on_packet done_call d ep (packet_done on_packet call ep)
  unfolding packet_done next_packet next_call
  packet_done-IsDone d ep r m = elim (Bool-cases (is_complete (set_outstanding false ep))) [
    | inl c ↦ rw (c, packet_done) (completed-IsDone d ep r m c)
    | inr c ↦ rw (c, packet_done) (next ep.transfer.packet_queued refl c)
  ]
    where
      next :
          (b : Bool)
          → ep.transfer.packet_queued ≡ b
          → is_complete (set_outstanding false ep) ≡ false
          → IsDone on_packet done_call d ep
              (next_call on_packet call b (given_packet (set_outstanding false ep)))
      next true q c = queued-IsDone d ep r m c q
      next false q c = unqueued-IsDone d ep r m c q
