-- ===== src/Usb/Give.antt =====
-- The loop that gives buffers to the controller.
use pico_bootrom_rp.Common.{
  ℕ, suc, ◌+◌, ◌≤◌, ◌<◌, ◌≡◌, ◌∙◌, refl, sym, subst, ap, Bool, true, false, ◌&&◌, not, ◌==◌, arith,
  Bool-cases, inl, inr,
}
use pico_bootrom_rp.Usb.{Endpoint}
use pico_bootrom_rp.Usb.Buffers.{give_buffer}
use pico_bootrom_rp.Usb.Transfers.{
  PacketAnswer, Call, give_call, packet_call, can_give, give_in, give_as_many,
}
use pico_bootrom_rp.Usb.Shared.{SharesBuffers}
use pico_bootrom_rp.Usb.Steps.{IsReady, give_buffer-IsSound}
use pico_bootrom_rp.Usb.Progress.{IsLawful, size, call_size, IsFree, Leaves, fills, IsDone, Carries}
use pico_bootrom_rp.Usb.Sizes.{shrinks, unqueued_size, at_most_two, Leaves-le}

module _ (on_packet : Endpoint → PacketAnswer) (lawful : IsLawful on_packet) (n : ℕ)
    (call : Call → Endpoint → Endpoint) (carries : Carries on_packet n call) where
  -- The last buffer goes to the controller, where its packet is filled at once.
  abbrev Empties : Endpoint → Endpoint → Type 0
  Empties ep after =
      (ep.owned_buffer_count == 1
        && fills on_packet ep
        && after.current_transfer
        && not (after.owned_buffer_count == 0))
      ≡ false

  give_in-Leaves :
      (d : ℕ) (ep : Endpoint)
      → IsFree d ep
      → size ep + 2 < suc n
      → ep.is_in ≡ true
      → can_give ep ≡ true
      → Leaves d (size ep) ep.double_buffered true (give_in on_packet call ep)
        × (Empties ep (give_in on_packet call ep))
  unfolding can_give SharesBuffers give_in
  give_in-Leaves d ep r m i g =
      elim (Bool-cases (ep.owned_buffer_count == (call packet_call ep).owned_buffer_count)) [
        | inl e ↦
            rw (e, give_in)
              (
                record {
                  sound = first.leaves.sound;
                  smaller = let s = first.leaves.smaller in omega arith;
                  same_double = first.leaves.same_double;
                  same_in = first.leaves.same_in ∙ i;
                },
                empties,
              )
        | inr e ↦ rw (e, give_in) (rest e)
      ]
    where
      ready : IsReady d ep
      ready =
          let n = r.no_packet in
          record {
            sound = r.sound;
            running = ground arith;
            no_packet = ground arith;
            a_buffer = ground arith;
            a_packet = ground arith;
          }

      after : Endpoint
      after = call packet_call ep

      first : IsDone on_packet packet_call d ep (call packet_call ep)
      first =
          let w = ap (λ (b : Bool). call_size b packet_call) i in
          carries packet_call d ep ready (omega arith)

      empties : Empties ep (call packet_call ep)
      empties = let t = first.tells.1 in ground arith

      emptied :
          (can_give after ≡ false → call give_call after ≡ after)
          → Empties ep (call give_call after)
      emptied t =
          let m = empties in
          elim (Bool-cases (can_give after)) [
            | inr c ↦ subst (λ (x : Endpoint). Empties ep x) (sym (t c)) m
            | inl c ↦ ground arith
          ]

      rest :
          (ep.owned_buffer_count == (call packet_call ep).owned_buffer_count) ≡ false
          → Leaves d (size ep) ep.double_buffered true (call give_call (call packet_call ep))
            × Empties ep (call give_call (call packet_call ep))
      rest e =
          let l = first.leaves in
          let t = first.tells.0 in
          let n = r.no_packet in
          let free : (after.current_transfer && after.transfer.outstanding_packet) ≡ false =
            ground arith in
          let q = unqueued_size d ep r.sound r.no_packet in
          let p = unqueued_size d after l.sound free in
          let x = at_most_two ep.double_buffered r.sound.shared.bounded in
          let y = at_most_two after.double_buffered l.sound.shared.bounded in
          let s = l.smaller in
          let less = shrinks _ _ ep.chain_transfer after.chain_transfer x y (omega arith) e in
          let w = ap (λ (b : Bool). call_size b give_call) (l.same_in ∙ i) in
          let turn =
            carries give_call d after (record { sound = l.sound; no_packet = free })
              (omega arith) in
          let k = turn.leaves in
          (
            record {
              sound = k.sound;
              smaller = let z = k.smaller in omega arith;
              same_double = k.same_double ∙ l.same_double;
              same_in = k.same_in ∙ l.same_in ∙ i;
            },
            emptied turn.tells.0,
          )

  -- The loop, where the host may send a packet.
  give_out-Leaves :
      (d : ℕ) (ep : Endpoint)
      → IsFree d ep
      → size ep ≤ n
      → ep.is_in ≡ false
      → can_give ep ≡ true
      → Leaves d (size ep) ep.double_buffered false (call give_call (give_buffer ep.buffer_size ep))
  unfolding can_give give_buffer
  give_out-Leaves d ep r m i g =
      let n = r.no_packet in
      let given : Endpoint = give_buffer ep.buffer_size ep in
      let sound = give_buffer-IsSound ep.buffer_size d ep r.sound g (ground arith) in
      let less : size given < size ep = ground arith in
      let w = ap (λ (b : Bool). call_size b give_call) i in
      let k = carries give_call d given (record { sound = sound; no_packet = n }) (omega arith) in
      record {
        sound = k.leaves.sound;
        smaller = let s = k.leaves.smaller in omega arith;
        same_double = k.leaves.same_double;
        same_in = k.leaves.same_in ∙ i;
      }

  pub give_as_many-IsDone :
      (d : ℕ) (ep : Endpoint)
      → IsFree d ep
      → size ep + call_size ep.is_in give_call < suc n
      → IsDone on_packet give_call d ep (give_as_many on_packet call ep)
  unfolding give_as_many
  give_as_many-IsDone d ep r m = elim (Bool-cases (can_give ep)) [
    | inr g ↦
        rw (g, give_as_many)
          (record {
            leaves = record {
              sound = r.sound;
              smaller = omega arith;
              same_double = refl;
              same_in = refl;
            };
            tells = (λ e. refl, ground arith);
          })
    | inl g ↦ elim (Bool-cases ep.is_in) [
      | inl i ↦ filled g i
      | inr i ↦ record { leaves = given g i; tells = (λ e. ground arith, ground arith) }
    ]
  ]
    where
      filled :
          can_give ep ≡ true
          → ep.is_in ≡ true
          → IsDone on_packet give_call d ep (give_as_many on_packet call ep)
      filled g i =
          let w = ap (λ (b : Bool). call_size b give_call) i in
          let e : give_as_many on_packet call ep ≡ give_in on_packet call ep =
            rw (g, give_as_many) (by_direction ep.is_in i) in
          let t = give_in-Leaves d ep r (omega arith) i g in
          let l = t.0 in
          let k = t.1 in
          subst (λ (x : Endpoint). IsDone on_packet give_call d ep x) (sym e)
            (record {
              leaves = record {
                sound = l.sound;
                smaller = let s = l.smaller in omega arith;
                same_double = l.same_double;
                same_in = l.same_in ∙ sym i;
              };
              tells = (λ e. ground arith, ground arith);
            })
        where
          by_direction :
              (b : Bool)
              → b ≡ true
              → (elim b [
                | true ↦ give_in on_packet call ep
                | false ↦ call give_call (give_buffer ep.buffer_size ep)
              ])
                ≡ give_in on_packet call ep
          by_direction true e = refl
          by_direction false e = ground arith

      given :
          can_give ep ≡ true
          → ep.is_in ≡ false
          → Leaves d (size ep + 0) ep.double_buffered ep.is_in (give_as_many on_packet call ep)
      given g i =
          rw (g, give_as_many, i)
            (Leaves-le d _ _ _ _ _
              (give_out-Leaves d ep r
                (let w = ap (λ (b : Bool). call_size b give_call) i in omega arith) i g)
              (omega arith))
