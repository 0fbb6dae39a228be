-- ===== src/Usb/Sizes.antt =====
-- How the size of an endpoint grows and shrinks.
use pico_bootrom_rp.Common.{
  ℕ, suc, ◌+◌, ◌*◌, ◌≤◌, ◌<◌, ◌≡◌, ◌⊎◌, refl, ap, Bool, true, false, ◌&&◌, Option, none, some, ◌==◌,
  if◌then◌else◌, arith, Bool-cases, inl, inr,
}
use pico_bootrom_rp.Usb.{Transfer, Endpoint}
use pico_bootrom_rp.Usb.Transfers.{give_call, done_call, handle_call}
use pico_bootrom_rp.Usb.Counts.{IsSound}
use pico_bootrom_rp.Usb.Kept.{IsGiven}
use pico_bootrom_rp.Usb.Progress.{chain_size, base_size, size, call_size, Leaves}

pub chain_size-cases : (o : Option Transfer) → (chain_size o ≡ 0) ⊎ (chain_size o ≡ 20)
chain_size-cases none = inl refl
chain_size-cases (some t) = inr refl

-- With another count of buffers, a size that is not larger is smaller.
pub shrinks :
    (o p : ℕ) (c e : Option Transfer)
    → o ≤ 2
    → p ≤ 2
    → 3 * p + chain_size e ≤ 3 * o + chain_size c
    → (o == p) ≡ false
    → 3 * p + chain_size e < 3 * o + chain_size c
shrinks o p c e x y s n = elim (chain_size-cases c) [
  | inl z ↦ elim (chain_size-cases e) [ inl w ↦ ground arith | inr w ↦ ground arith ]
  | inr z ↦ elim (chain_size-cases e) [ inl w ↦ ground arith | inr w ↦ ground arith ]
]

pub unqueued_size :
    (d : ℕ) (ep : Endpoint)
    → IsSound d ep
    → (ep.current_transfer && ep.transfer.outstanding_packet) ≡ false
    → size ep ≡ base_size ep
unqueued_size d ep h n = let q = h.queued in ground arith

pub at_most_two : (double : Bool) {o : ℕ} → o ≤ (if double then 2 else 1) → o ≤ 2
at_most_two double b = ground arith

pub Leaves-le :
    (d b c : ℕ) (double is_in : Bool) (ep : Endpoint)
    → Leaves d b double is_in ep
    → b ≤ c
    → Leaves d c double is_in ep
Leaves-le d b c double is_in ep l h = record {
  sound = l.sound;
  smaller = let s = l.smaller in omega arith;
  same_double = l.same_double;
  same_in = l.same_in;
}

pub given_size :
    (ep after : Endpoint)
    → IsGiven ep after
    → 0 < ep.owned_buffer_count
    → size after + (if ep.is_in then 3 else 0) ≡ size ep
given_size ep after g h =
    let c = ap chain_size g.chain in
    let r = g.running in let q = g.queued in let o = g.owned in ground arith

pub loop_size :
    (ep after : Endpoint) (n : ℕ)
    → IsGiven ep after
    → 0 < ep.owned_buffer_count
    → size ep + call_size ep.is_in done_call < suc n
    → size after + call_size after.is_in give_call < n
loop_size ep after n g h m =
    let s = given_size ep after g h in
    let i = ap (λ (b : Bool). call_size b give_call) g.same_in in
    elim (Bool-cases ep.is_in) [
      | inl e ↦
          let v = ap (λ (b : Bool). call_size b give_call) e in
          let w = ap (λ (b : Bool). call_size b done_call) e in ground arith
      | inr e ↦
          let v = ap (λ (b : Bool). call_size b give_call) e in
          let w = ap (λ (b : Bool). call_size b done_call) e in ground arith
    ]

pub queue_size :
    (b c w : Bool) (s t n : ℕ)
    → s + 7 ≤ t
    → t + call_size b done_call < suc n
    → c ≡ b
    → s + call_size c (handle_call w) < n
queue_size true c w s t n h m e =
    let v = ap (λ (x : Bool). call_size x (handle_call w)) e in omega arith
queue_size false c w s t n h m e =
    let v = ap (λ (x : Bool). call_size x (handle_call w)) e in omega arith
