-- ===== src/Usb/Shared.antt =====
-- The CPU and the controller never own the same packet buffer: the AVAIL flags, the count of the
-- CPU's buffers and the number of the buffer to give next agree.
use pico_bootrom_rp.Common.{
  ℕ, zero, suc, ◌+◌, ◌≤◌, ◌<◌, ◌≡◌, refl, Bool, true, false, ◌&&◌, ◌||◌, not, ltb, ◌==◌,
  if◌then◌else◌, u8, arith, Bool-cases, inl, inr, if-by,
}
use pico_bootrom_rp.Usb.{BufCtrl, Endpoint, minus_one}
use pico_bootrom_rp.Usb.Buffers.{
  ep_buffer_count, abort_buffers, reset_buffers, stall_endpoint, given_ctrl, give_buffer,
}

-- With one buffer the CPU owns it or the controller does. With two, the next to give is the CPU's
-- unless it owns none, and the other one is the CPU's only if it owns both.
pub record IsShared (double give : Bool) (owned : ℕ) (avail0 avail1 : Bool) : Type 0 where
  pub bounded : owned ≤ (if double then 2 else 1)
  pub next_avail : (if give then avail1 else avail0) ≡ (owned == 0)
  pub other_avail : (if give then avail0 else avail1) ≡ (double && ltb owned 2)
  pub single : (not double && give) ≡ false

unfoldable pub SharesBuffers : Endpoint → Type 0
SharesBuffers ep =
    IsShared ep.double_buffered ep.current_give_buffer ep.owned_buffer_count ep.buffer0.avail
      ep.buffer1.avail

double_of :
    (double : Bool) (owned : ℕ)
    → owned ≡ (if double then 2 else 1)
    → (double && ltb owned 2) ≡ false
double_of true owned e = ground arith
double_of false owned e = refl

reset-IsShared : (double : Bool) → IsShared double false (if double then 2 else 1) false false
reset-IsShared true = record {
  bounded = omega arith;
  next_avail = refl;
  other_avail = refl;
  single = refl;
}
reset-IsShared false = record {
  bounded = omega arith;
  next_avail = refl;
  other_avail = refl;
  single = refl;
}

-- After a reset the CPU owns every buffer, whatever the state was.
pub reset_buffers-SharesBuffers : (ep : Endpoint) → SharesBuffers (reset_buffers ep)
unfolding SharesBuffers reset_buffers ep_buffer_count abort_buffers
reset_buffers-SharesBuffers ep = elim (Bool-cases (ep.buffer0.avail || ep.buffer1.avail)) [
  | inl e ↦ rw e (reset-IsShared ep.double_buffered)
  | inr e ↦ rw e (reset-IsShared ep.double_buffered)
]

-- A give hands over the next buffer, which was the CPU's, and moves to the other.
given-IsShared :
    (double give : Bool) (owned : ℕ) (avail0 avail1 : Bool)
    → IsShared double give owned avail0 avail1
    → 0 < owned
    → IsShared double
        (if double then not give else give)
        (minus_one 8 owned)
        (if give then avail0 else true)
        (if give then true else avail1)
given-IsShared true true zero avail0 avail1 h p = absurd (omega arith)
given-IsShared true false zero avail0 avail1 h p = absurd (omega arith)
given-IsShared false true zero avail0 avail1 h p = absurd (omega arith)
given-IsShared false false zero avail0 avail1 h p = absurd (omega arith)
given-IsShared false true (suc n) avail0 avail1 h p = let e = h.single in ground arith
given-IsShared false false (suc n) avail0 avail1 h p =
    let b = h.bounded in
    record {
      bounded = ground arith;
      next_avail = ground arith;
      other_avail = h.other_avail;
      single = refl;
    }
given-IsShared true true (suc n) avail0 avail1 h p =
    let b = h.bounded in
    let o = h.other_avail in
    record {
      bounded = ground arith;
      next_avail = ground arith;
      other_avail = ground arith;
      single = refl;
    }
given-IsShared true false (suc n) avail0 avail1 h p =
    let b = h.bounded in
    let o = h.other_avail in
    record {
      bounded = ground arith;
      next_avail = ground arith;
      other_avail = ground arith;
      single = refl;
    }

avail_if :
    (b : Bool) (x y : BufCtrl) → (if b then x else y).avail ≡ (if b then x.avail else y.avail)
avail_if true x y = refl
avail_if false x y = refl

pub give_buffer-SharesBuffers :
    (len : ℕ) (ep : Endpoint)
    → SharesBuffers ep
    → 0 < ep.owned_buffer_count
    → SharesBuffers (give_buffer len ep)
unfolding SharesBuffers give_buffer given_ctrl
give_buffer-SharesBuffers len ep h p =
    rw
      (
        avail_if ep.current_give_buffer ep.buffer0 (given_ctrl len ep),
        avail_if ep.current_give_buffer (given_ctrl len ep) ep.buffer1,
      )
      (given-IsShared ep.double_buffered ep.current_give_buffer ep.owned_buffer_count
        ep.buffer0.avail ep.buffer1.avail h p)

pub stall_endpoint-SharesBuffers :
    (hs : ℕ) (ep : Endpoint) → SharesBuffers ep → SharesBuffers (stall_endpoint hs ep)
unfolding SharesBuffers stall_endpoint
stall_endpoint-SharesBuffers hs ep h = if-by SharesBuffers (ep.halt_state == 0) _ _ (λ e. h) λ e. h

-- The number of the buffer that the controller has owned for the longest time.
abbrev pub oldest : Bool → ℕ → Bool
oldest give owned = if owned == 0 then give else not give

-- The controller has returned a buffer: the one it has owned for the longest time, and no other.
pub record HasReturned (give : Bool) (owned : ℕ) (avail0 avail1 after0 after1 : Bool) : Type 0 where
  pub returned : (if oldest give owned then after1 else after0) ≡ false
  pub kept :
      (if oldest give owned then after0 else after1)
      ≡ (if oldest give owned then avail0 else avail1)

-- The interrupt counts a returned buffer, and the count agrees with the flags again.
pub returned-IsShared :
    (double give : Bool) (owned : ℕ) (avail0 avail1 after0 after1 : Bool)
    → IsShared double give owned avail0 avail1
    → owned < (if double then 2 else 1)
    → HasReturned give owned avail0 avail1 after0 after1
    → IsShared double give (u8 (owned + 1)) after0 after1
returned-IsShared true true owned avail0 avail1 after0 after1 h p r =
    let n = h.next_avail in
    let o = h.other_avail in
    let x = r.returned in
    let k = r.kept in
    record {
      bounded = omega arith;
      next_avail = ground arith;
      other_avail = ground arith;
      single = refl;
    }
returned-IsShared true false owned avail0 avail1 after0 after1 h p r =
    let n = h.next_avail in
    let o = h.other_avail in
    let x = r.returned in
    let k = r.kept in
    record {
      bounded = omega arith;
      next_avail = ground arith;
      other_avail = ground arith;
      single = refl;
    }
returned-IsShared false true owned avail0 avail1 after0 after1 h p r =
    let e = h.single in ground arith
returned-IsShared false false owned avail0 avail1 after0 after1 h p r =
    let n = h.next_avail in
    let o = h.other_avail in
    let x = r.returned in
    let k = r.kept in
    record {
      bounded = omega arith;
      next_avail = ground arith;
      other_avail = ground arith;
      single = refl;
    }
