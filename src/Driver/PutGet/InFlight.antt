-- ===== src/Driver/PutGet/InFlight.antt =====
-- There is never more in flight than the RX FIFO holds, and the counts agree.
use pico_bootrom_rp.Common.{
  ℕ, ◌≤◌, ◌≡◌, refl, true, List, [], ◌∷◌, ltb, length, length-append, arith, ap,
}
use pico_bootrom_rp.Driver.PutGet.{
  Link, Place, at_condition, has_tx_level, has_levels, has_put, has_got, finished, Exchange,
  is_empty, clock_byte, deliver_byte, Step, clocks, delivers, proceeds, Steps, here, next,
  begin_exchange,
}
use pico_bootrom_rp.Driver.PutGet.Loop.{in_flight, Knows, IsSound, proceed-IsSound}

module _ (chip : ℕ → ℕ) where
  clock_byte-Knows :
      (p : Place) (l : Link) (b : ℕ) (rest : List ℕ)
      → l.tx ≡ b ∷ rest
      → Knows p l
      → Knows p (clock_byte chip b rest l)
  unfolding clock_byte
  clock_byte-Knows at_condition l b rest e k = tt
  clock_byte-Knows (has_tx_level t) l b rest e k =
      let len = ap (λ (l : List ℕ). length l) e in
      let one = length-append l.inside (chip (length l.clocked) ∷ []) in omega arith
  clock_byte-Knows (has_levels t r) l b rest e k =
      let len = ap (λ (l : List ℕ). length l) e in
      let one = length-append l.inside (chip (length l.clocked) ∷ []) in omega arith
  clock_byte-Knows (has_put did r) l b rest e k = k
  clock_byte-Knows (has_got did) l b rest e k = tt
  clock_byte-Knows (finished f) l b rest e k = tt

  deliver_byte-Knows :
      (p : Place) (l : Link) (a : ℕ) (rest : List ℕ)
      → l.inside ≡ a ∷ rest
      → in_flight l ≤ 16
      → Knows p l
      → Knows p (deliver_byte chip a rest l)
  unfolding deliver_byte
  deliver_byte-Knows at_condition l a rest e f k = tt
  deliver_byte-Knows (has_tx_level t) l a rest e f k =
      let len = ap (λ (l : List ℕ). length l) e in omega arith
  deliver_byte-Knows (has_levels t r) l a rest e f k =
      let len = ap (λ (l : List ℕ). length l) e in ground (arith, length-append l.rx (a ∷ []))
  deliver_byte-Knows (has_put did r) l a rest e f k =
      let len = ap (λ (l : List ℕ). length l) e in ground (arith, length-append l.rx (a ∷ []))
  deliver_byte-Knows (has_got did) l a rest e f k = tt
  deliver_byte-Knows (finished b) l a rest e f k = tt

  pub Step-IsSound :
      (skip count : ℕ) {t u : Exchange}
      → Step chip t u
      → IsSound skip count t.place t
      → IsSound skip count u.place u
  unfolding clock_byte deliver_byte
  Step-IsSound skip count (clocks t b rest e room) h =
      let len = ap (λ (l : List ℕ). length l) e in
      let one = length-append t.link.inside (chip (length t.link.clocked) ∷ []) in
      let clocked = length-append t.link.clocked (b ∷ []) in
      let fits = h.fits in
      let sent = h.all_sent in
      let answered = h.all_answered in
      record {
        fits = omega arith;
        few_inside = omega arith;
        none_lost = h.none_lost;
        knows = clock_byte-Knows t.place t.link b rest e h.knows;
        all_sent = omega arith;
        all_answered = omega arith;
        skips = h.skips;
        counts = h.counts;
        in_order = h.in_order;
      }
  Step-IsSound skip count (delivers t a rest e) h =
      let len = ap (λ (l : List ℕ). length l) e in
      let fits = h.fits in
      let few = h.few_inside in
      let none = h.none_lost in
      let answered = h.all_answered in
      let room : ltb (length t.link.rx) 16 ≡ true = ground arith in
      let one = length-append t.link.rx (a ∷ []) in
      record {
        fits = ground arith;
        few_inside = omega arith;
        none_lost = ground arith;
        knows = deliver_byte-Knows t.place t.link a rest e h.fits h.knows;
        all_sent = h.all_sent;
        all_answered = ground arith;
        skips = h.skips;
        counts = h.counts;
        in_order = h.in_order;
      }
  Step-IsSound skip count (proceeds t aborted) h =
      proceed-IsSound skip count aborted t.place t refl h

  pub begin_exchange-IsSound :
      (command bytes : List ℕ)
      → length command ≤ 16
      → IsSound (length command) (length bytes) at_condition (begin_exchange command bytes)
  unfolding begin_exchange is_empty
  begin_exchange-IsSound command bytes h = record {
    fits = omega arith;
    few_inside = omega arith;
    none_lost = refl;
    knows = tt;
    all_sent = omega arith;
    all_answered = omega arith;
    skips = omega arith;
    counts = omega arith;
    in_order = ground arith;
  }

  pub Steps-IsSound :
      (skip count : ℕ) {t u : Exchange}
      → IsSound skip count t.place t
      → Steps chip t u
      → IsSound skip count u.place u
  Steps-IsSound skip count h here = h
  Steps-IsSound skip count h (next r s) = Step-IsSound skip count s (Steps-IsSound skip count h r)
