-- ===== src/Driver/PutGet/Loop.antt =====
-- The steps of the loop keep the counts, and what it knows of the levels of the FIFOs.
use pico_bootrom_rp.Common.{
  ℕ, ◌+◌, ◌≤◌, ◌<◌, ◌≡◌, refl, Bool, true, false, ◌&&◌, ◌||◌, not, List, [], ◌∷◌, ltb, ◌==◌, length,
  length-append, arith, if-by, ap, sym, subst,
}
use pico_bootrom_rp.Driver.PutGet.{
  Link, Place, at_condition, has_tx_level, has_levels, has_put, has_got, finished, Exchange,
  put_byte, got_byte, get_byte, is_empty, goes_on, put, get, proceed,
}

-- All that the loop has written and not read back.
abbrev pub in_flight : Link → ℕ
in_flight l = length l.tx + length l.inside + length l.rx

-- What the levels that the loop has read say of the FIFOs later on.
abbrev pub Knows : Place → Link → Type 0
Knows (has_tx_level t) l = length l.tx + length l.inside ≤ t + 2
Knows (has_levels t r) l = (in_flight l ≤ t + r + 2) × (r ≤ length l.rx)
Knows (has_put did r) l = r ≤ length l.rx
Knows _ l = Unit {0}

-- At this place, after the skipped bytes of a command and with this count of bytes to transfer.
pub record IsSound (skip count : ℕ) (p : Place) (t : Exchange) : Type 0 where
  pub fits : in_flight t.link ≤ 16
  pub few_inside : length t.link.inside ≤ 2
  pub none_lost : t.link.overflowed ≡ false
  pub knows : Knows p t.link
  pub all_sent : length t.link.clocked + length t.link.tx + length t.to_send ≡ skip + count
  pub all_answered :
      length t.skipped + length t.received + length t.link.rx + length t.link.inside
      ≡ length t.link.clocked
  pub skips : length t.skipped + t.rx_skip ≡ skip
  pub counts : length t.received + t.rx_count ≡ count
  pub in_order : (t.rx_skip == 0 || is_empty t.received) ≡ true

module _ (skip count : ℕ) where
  -- A read that does not wait: only the place and what is known there change.
  moved-IsSound :
      (p q : Place) (t : Exchange)
      → Knows q t.link
      → IsSound skip count p t
      → IsSound skip count q (record t { place = q })
  moved-IsSound p q t k h = record {
    fits = h.fits;
    few_inside = h.few_inside;
    none_lost = h.none_lost;
    knows = k;
    all_sent = h.all_sent;
    all_answered = h.all_answered;
    skips = h.skips;
    counts = h.counts;
    in_order = h.in_order;
  }

  put_byte-IsSound :
      (bytes : List ℕ) (tx_level rx_level : ℕ) (t : Exchange)
      → t.to_send ≡ bytes
      → tx_level + rx_level < 14
      → IsSound skip count (has_levels tx_level rx_level) t
      → IsSound skip count
          (has_put true rx_level)
          (record (put_byte bytes t) { place = has_put true rx_level })
  unfolding put_byte
  put_byte-IsSound [] tx_level rx_level t e room h = moved-IsSound _ _ t h.knows.1 h
  put_byte-IsSound (b ∷ rest) tx_level rx_level t e room h =
      let k = h.knows in
      let sent = h.all_sent in
      let len = ap (λ (l : List ℕ). length l) e in
      let one_more = length-append t.link.tx (b ∷ []) in
      record {
        fits = omega arith;
        few_inside = h.few_inside;
        none_lost = h.none_lost;
        knows = k.1;
        all_sent = omega arith;
        all_answered = h.all_answered;
        skips = h.skips;
        counts = h.counts;
        in_order = h.in_order;
      }

  put-IsSound :
      (tx_level rx_level : ℕ) (t : Exchange)
      → IsSound skip count (has_levels tx_level rx_level) t
      → IsSound skip count (put tx_level rx_level t).place (put tx_level rx_level t)
  unfolding put
  put-IsSound tx_level rx_level t h =
      if-by (λ (u : Exchange). IsSound skip count u.place u)
        (not (is_empty t.to_send) && ltb (tx_level + rx_level) 14) _ _
        (λ e. put_byte-IsSound t.to_send tx_level rx_level t refl (ground arith) h)
        λ e. moved-IsSound (has_levels tx_level rx_level) (has_put false rx_level) t h.knows.1 h

  got_byte-IsSound :
      (a : ℕ) (rest : List ℕ) (did : Bool) (rx_level : ℕ) (t : Exchange)
      → t.link.rx ≡ a ∷ rest
      → IsSound skip count (has_put did rx_level) t
      → IsSound skip count
          (has_got true)
          (record (got_byte a (record t { link = record t.link { rx = rest } })) {
            place = has_got true;
          })
  unfolding got_byte
  got_byte-IsSound a rest did rx_level t e h =
      let len = ap (λ (l : List ℕ). length l) e in
      let fits = h.fits in
      let answered = h.all_answered in
      let sent = h.all_sent in
      let skips = h.skips in
      let counts = h.counts in
      let order = h.in_order in
      let one_skipped = length-append t.skipped (a ∷ []) in
      let one_received = length-append t.received (a ∷ []) in
      if-by
        (λ (u : Exchange). IsSound skip count (has_got true) (record u { place = has_got true }))
        (t.rx_skip == 0) _ _
        (λ z. record {
          fits = omega arith;
          few_inside = h.few_inside;
          none_lost = h.none_lost;
          knows = tt;
          all_sent = h.all_sent;
          all_answered = omega arith;
          skips = h.skips;
          counts = ground arith;
          in_order = ground arith;
        })
        λ z. record {
          fits = omega arith;
          few_inside = h.few_inside;
          none_lost = h.none_lost;
          knows = tt;
          all_sent = h.all_sent;
          all_answered = omega arith;
          skips = ground arith;
          counts = h.counts;
          in_order = ground arith;
        }

  get_byte-IsSound :
      (answers : List ℕ) (did : Bool) (rx_level : ℕ) (t : Exchange)
      → t.link.rx ≡ answers
      → 0 < rx_level
      → IsSound skip count (has_put did rx_level) t
      → IsSound skip count (has_got true) (record (get_byte answers t) { place = has_got true })
  unfolding get_byte
  get_byte-IsSound [] did rx_level t e p h =
      let len = ap (λ (l : List ℕ). length l) e in let k = h.knows in absurd (omega arith)
  get_byte-IsSound (a ∷ rest) did rx_level t e p h = got_byte-IsSound a rest did rx_level t e h

  get-IsSound :
      (did : Bool) (rx_level : ℕ) (t : Exchange)
      → IsSound skip count (has_put did rx_level) t
      → IsSound skip count (get did rx_level t).place (get did rx_level t)
  unfolding get
  get-IsSound did rx_level t h =
      if-by (λ (u : Exchange). IsSound skip count u.place u) (rx_level == 0) _ _
        (λ e. moved-IsSound (has_put did rx_level) (has_got did) t tt h)
        λ e. get_byte-IsSound t.link.rx did rx_level t refl (ground arith) h

  pub proceed-IsSound :
      (aborted : Bool) (p : Place) (t : Exchange)
      → t.place ≡ p
      → IsSound skip count p t
      → IsSound skip count (proceed aborted p t).place (proceed aborted p t)
  unfolding proceed
  proceed-IsSound aborted at_condition t e h =
      let inside = h.few_inside in
      if-by (λ (u : Exchange). IsSound skip count u.place u) (goes_on t) _ _
        (λ e. moved-IsSound at_condition (has_tx_level (length t.link.tx)) t (omega arith) h)
        λ e. moved-IsSound at_condition (finished false) t tt h
  proceed-IsSound aborted (has_tx_level tx_level) t e h =
      let k = h.knows in
      moved-IsSound (has_tx_level tx_level) (has_levels tx_level (length t.link.rx)) t
        (omega arith, omega arith) h
  proceed-IsSound aborted (has_levels tx_level rx_level) t e h = put-IsSound tx_level rx_level t h
  proceed-IsSound aborted (has_put did rx_level) t e h = get-IsSound did rx_level t h
  proceed-IsSound aborted (has_got did) t e h =
      if-by (λ (u : Exchange). IsSound skip count u.place u) (not did && aborted) _ _
        (λ e. moved-IsSound (has_got did) (finished true) t tt h)
        λ e. moved-IsSound (has_got did) at_condition t tt h
  proceed-IsSound aborted (finished b) t e h =
      subst (λ (q : Place). IsSound skip count q t) (sym e) h
