-- ===== src/Driver/PutGet/Finish.antt =====
-- A transfer that was not aborted can come to its end: what is left to do grows less by each round.
use pico_bootrom_rp.Common.{
  ℕ, zero, suc, ◌≤◌, ◌<◌, ◌≡◌, ◌≢◌, refl, ap, Bool, true, false, List, [], ◌∷◌, length,
  length-append, arith, inl, inr, Bool-cases,
}
use native.Mathlib.Decide.{dec_lt}
use pico_bootrom_rp.Driver.PutGet.{
  Place, at_condition, has_tx_level, has_levels, has_put, has_got, finished, Exchange, is_empty,
  goes_on, proceed, clock_byte, deliver_byte, clocks, delivers, Steps, here, next,
}
use pico_bootrom_rp.Driver.PutGet.Loop.{IsSound, in_flight}
use pico_bootrom_rp.Driver.PutGet.InFlight.{Steps-IsSound}
use pico_bootrom_rp.Driver.PutGet.Ends.{weight, Steps-trans, proceeds-from, returns, round}

length-is_empty : (l : List ℕ) → is_empty l ≡ true → length l ≡ 0
unfolding is_empty
length-is_empty [] e = refl
length-is_empty (b ∷ bs) e = cc

is_empty-length : (l : List ℕ) → is_empty l ≡ false → 0 < length l
unfolding is_empty
is_empty-length [] e = cc
is_empty-length (b ∷ bs) e = omega arith

module _ (chip : ℕ → ℕ) where
  -- A transfer at its condition, with less to do.
  abbrev Lighter : Exchange → Type 0
  Lighter t = (v : Exchange) × Steps chip t v × (v.place ≡ at_condition) × (weight v < weight t)

  delivered-Lighter :
      (t : Exchange) (a : ℕ) (rest : List ℕ)
      → t.link.inside ≡ a ∷ rest
      → t.place ≡ at_condition
      → in_flight t.link ≤ 16
      → Lighter t
  unfolding deliver_byte
  delivered-Lighter t a rest e at fits =
      let len = ap (λ (l : List ℕ). length l) e in
      let one = length-append t.link.rx (a ∷ []) in
      (_, next here (delivers t a rest e), at, ground arith)

  clocked-Lighter :
      (t : Exchange) (b : ℕ) (rest : List ℕ)
      → t.link.tx ≡ b ∷ rest
      → t.place ≡ at_condition
      → length t.link.inside < 2
      → Lighter t
  unfolding clock_byte
  clocked-Lighter t b rest e at room =
      let len = ap (λ (l : List ℕ). length l) e in
      let one = length-append t.link.inside (chip (length t.link.clocked) ∷ []) in
      (_, next here (clocks t b rest e room), at, omega arith)

  idle-Lighter :
      (skip count : ℕ) (t : Exchange)
      → IsSound skip count t.place t
      → t.place ≡ at_condition
      → length t.link.tx ≡ 0
      → length t.link.inside ≡ 0
      → 0 < weight t
      → Lighter t
  unfolding goes_on
  idle-Lighter skip count t h at none nothing w =
      let sent = h.all_sent in
      let answered = h.all_answered in
      let skips = h.skips in
      let counts = h.counts in
      elim (Bool-cases (is_empty t.to_send)) [
        | inl e ↦
            let len = length-is_empty t.to_send e in
            round chip t at (ground arith) none (inr (omega arith))
        | inr e ↦ round chip t at (ground arith) none (inl e)
      ]

  some-Lighter :
      (skip count : ℕ) (inside tx : List ℕ) (t : Exchange)
      → t.link.inside ≡ inside
      → t.link.tx ≡ tx
      → IsSound skip count t.place t
      → t.place ≡ at_condition
      → 0 < weight t
      → Lighter t
  some-Lighter skip count (a ∷ rest) tx t e f h at w = delivered-Lighter t a rest e at h.fits
  some-Lighter skip count [] (b ∷ rest) t e f h at w =
      let len = ap (λ (l : List ℕ). length l) e in clocked-Lighter t b rest f at (omega arith)
  some-Lighter skip count [] [] t e f h at w =
      idle-Lighter skip count t h at (ap (λ (l : List ℕ). length l) f)
        (ap (λ (l : List ℕ). length l) e) w

  idle-goes_on :
      (skip count : ℕ) (t : Exchange)
      → IsSound skip count t.place t
      → weight t ≡ 0
      → goes_on t ≡ false
  unfolding goes_on
  idle-goes_on skip count t h w =
      let sent = h.all_sent in
      let answered = h.all_answered in
      let skips = h.skips in
      let counts = h.counts in
      elim (Bool-cases (is_empty t.to_send)) [
        | inl e ↦ ground arith
        | inr e ↦ let some = is_empty-length t.to_send e in absurd (omega arith)
      ]

  -- An end in order.
  abbrev pub Ends : Exchange → Type 0
  Ends t = (v : Exchange) × Steps chip t v × (v.place ≡ finished false)

  idle-Ends :
      (skip count : ℕ) (t : Exchange)
      → IsSound skip count t.place t
      → t.place ≡ at_condition
      → weight t ≡ 0
      → Ends t
  unfolding proceed
  idle-Ends skip count t h at w =
      let u = record t { place = finished false } in
      (u, proceeds-from chip at_condition t u at (rw (idle-goes_on skip count t h w) refl), refl)

  after-Ends : {t u : Exchange} → Steps chip t u → Ends u → Ends t
  after-Ends s (v, r, e) = (v, Steps-trans chip s r, e)

  -- From its condition, by the weight.
  condition-Ends :
      (skip count n : ℕ) (t : Exchange)
      → IsSound skip count t.place t
      → t.place ≡ at_condition
      → weight t ≤ n
      → Ends t
  condition-Ends skip count zero t h at w = idle-Ends skip count t h at (omega arith)
  condition-Ends skip count (suc n) t h at w = elim (dec_lt 0 (weight t)) [
    | yes p ↦
        let (v, s, e, lighter) =
          some-Lighter skip count t.link.inside t.link.tx t refl refl h at p in
        after-Ends s
          (condition-Ends skip count n v (Steps-IsSound chip skip count h s) e (omega arith))
    | no p ↦ idle-Ends skip count t h at (omega arith)
  ]

  -- From any place of a transfer that was not aborted.
  returned-Ends :
      (skip count : ℕ) (p : Place) (t : Exchange)
      → IsSound skip count t.place t
      → t.place ≡ p
      → ((b : Bool) → p ≢ finished b)
      → Ends t
  returned-Ends skip count p t h e n =
      let (v, s, at, w) = returns chip p t e n in
      after-Ends s (
        condition-Ends skip count (weight v) v (Steps-IsSound chip skip count h s) at (omega arith))

  pub place-Ends :
      (skip count : ℕ) (p : Place) (t : Exchange)
      → IsSound skip count t.place t
      → t.place ≡ p
      → p ≢ finished true
      → Ends t
  place-Ends skip count (finished true) t h e n = absurd (n refl)
  place-Ends skip count (finished false) t h e n = (t, here, e)
  place-Ends skip count at_condition t h e n = returned-Ends skip count at_condition t h e λ b. cc
  place-Ends skip count (has_tx_level l) t h e n =
      returned-Ends skip count (has_tx_level l) t h e λ b. cc
  place-Ends skip count (has_levels l r) t h e n =
      returned-Ends skip count (has_levels l r) t h e λ b. cc
  place-Ends skip count (has_put d r) t h e n = returned-Ends skip count (has_put d r) t h e λ b. cc
  place-Ends skip count (has_got d) t h e n = returned-Ends skip count (has_got d) t h e λ b. cc
