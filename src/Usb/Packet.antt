-- ===== src/Usb/Packet.antt =====
-- The callback `on_packet`, and the `usb_packet_done` that it makes.
use pico_bootrom_rp.Common.{
  ℕ, suc, ◌+◌, ◌<◌, ◌≡◌, ◌∙◌, ap, Bool, true, false, ◌||◌, ◌==◌, arith, Bool-cases, inl, inr,
}
use pico_bootrom_rp.Usb.{Endpoint}
use pico_bootrom_rp.Usb.Transfers.{
  PacketAnswer, Call, packet_call, done_call, set_outstanding, answered, given_packet,
  call_on_packet,
}
use pico_bootrom_rp.Usb.Shared.{SharesBuffers}
use pico_bootrom_rp.Usb.Counts.{IsSound}
use pico_bootrom_rp.Usb.Steps.{IsReady, set_outstanding-IsSound, answered-IsSound}
use pico_bootrom_rp.Usb.Kept.{
  IsGiven, given_packet-IsGiven, IsKept, answered-IsKept, answered-submit,
}
use pico_bootrom_rp.Usb.Progress.{
  IsLawful, chain_size, size, call_size, IsFilled, fills, Tells, IsDone, Carries,
}

pub kept_size : (ep after : Endpoint) → IsKept ep after → size after ≡ size ep
kept_size ep after k =
    let c = ap chain_size k.chain in
    let r = k.running in let q = k.queued in let o = k.owned in ground arith

packet_size :
    (b c : Bool) (s t n : ℕ)
    → t ≡ s
    → s + call_size b packet_call < suc n
    → c ≡ b
    → t + call_size c done_call < n
packet_size true c s t n h m e = let v = ap (λ (x : Bool). call_size x done_call) e in omega arith
packet_size false c s t n h m e = let v = ap (λ (x : Bool). call_size x done_call) e in omega arith

module _ (on_packet : Endpoint → PacketAnswer) (lawful : IsLawful on_packet) (n : ℕ)
    (call : Call → Endpoint → Endpoint) (carries : Carries on_packet n call) where
  pub call_on_packet-IsDone :
      (d : ℕ) (ep : Endpoint)
      → IsReady d ep
      → size ep + call_size ep.is_in packet_call < suc n
      → IsDone on_packet packet_call d ep (call_on_packet on_packet call ep)
  unfolding call_on_packet SharesBuffers
  call_on_packet-IsDone d ep r m = elim (Bool-cases a.done) [
    | inl e ↦ rw (e, call_on_packet) (filled e)
    | inr e ↦
        rw (e, call_on_packet)
          (record {
            leaves = record {
              sound = sound;
              smaller = let z = kept_size p after k in omega arith;
              same_double = k.same_double;
              same_in = k.same_in;
            };
            tells = let o = k.owned in (ground arith, ground arith);
          })
  ]
    where
      p : Endpoint
      p = set_outstanding true ep

      a : PacketAnswer
      a = on_packet (set_outstanding true ep)

      after : Endpoint
      after = answered (on_packet (set_outstanding true ep)) (set_outstanding true ep)

      k : IsKept p after
      k = answered-IsKept a p

      sound : IsSound d after
      sound =
          answered-IsSound a d p (set_outstanding-IsSound d ep r) r.running
            (lawful.grows p r.sound.fits)

      g : IsGiven (set_outstanding false after) (given_packet (set_outstanding false after))
      g = given_packet-IsGiven (set_outstanding false after)

      -- When both buffers are free, the packet after this one is filled at once, or there is none.
      follows :
          ep.is_in ≡ true
          → ep.owned_buffer_count ≡ 2
          → a.done ≡ true
          → (after.transfer.remaining_packets_to_submit == 1
              || fills on_packet (given_packet (set_outstanding false after)))
            ≡ true
      follows i o e =
          let s = answered-submit a p in
          let x = g.owned in
          let y = g.submit in
          let j = k.same_in in
          let w = k.owned in
          let c = r.sound.counted r.running in
          let f = lawful.grows p r.sound.fits in
          let b = r.sound.shared.bounded in
          let z = r.a_packet in
          let q =
            lawful.paced p (set_outstanding true (given_packet (set_outstanding false after))) i o
              (ground arith) (ground arith) e in
          elim q [ inl v ↦ ground arith | inr v ↦ ground arith ]

      told :
          a.done ≡ true
          → IsSound d (call done_call after)
          → Tells on_packet done_call after (call done_call after)
          → Tells on_packet packet_call ep (call done_call after)
      told e sound t =
          let s = sound.outstanding in
          let i = k.same_in in
          let o = k.owned in
          let q = k.queued in
          let h = r.sound.queued in
          let u = r.running in
          let x = r.no_packet in
          let y = r.a_buffer in
          let b = r.sound.shared.bounded in
          let v = t.0 in
          let w = t.1 in
          elim (Bool-cases ep.is_in) [
            | inr j ↦ (ground arith, ground arith)
            | inl j ↦ elim (Bool-cases (ep.owned_buffer_count == 2)) [
              | inl z ↦ let l = follows j (ground arith) e in (ground arith, ground arith)
              | inr z ↦ (ground arith, ground arith)
            ]
          ]

      filled : a.done ≡ true → IsDone on_packet packet_call d ep (call done_call after)
      filled e =
          let f : IsFilled d after = record {
            sound = sound;
            running = k.running ∙ r.running;
            a_packet = k.outstanding;
          } in
          let z = kept_size p after k in
          let turn = carries done_call d after f (packet_size _ _ _ _ n z m k.same_in) in
          record {
            leaves = record {
              sound = turn.leaves.sound;
              smaller = let s = turn.leaves.smaller in omega arith;
              same_double = turn.leaves.same_double ∙ k.same_double;
              same_in = turn.leaves.same_in ∙ k.same_in;
            };
            tells = told e turn.leaves.sound turn.tells;
          }
