-- ===== src/Driver/PutGet/Answers.antt =====
-- The chip is sent the bytes in order, and its answers come back in order.
use pico_bootrom_rp.Common.{
  ℕ, zero, suc, ◌+◌, ◌<◌, ◌≡◌, ◌∙◌, refl, sym, ap, subst, Bool, true, ◌&&◌, ◌||◌, not, List, [],
  ◌∷◌, ◌++◌, ltb, ◌==◌, length, length-append, arith, if-by,
}
use mathlib.Core.List.{append_assoc}
use pico_bootrom_rp.Driver.PutGet.{
  Place, at_condition, has_tx_level, has_levels, has_put, has_got, finished, Exchange, put_byte,
  got_byte, get_byte, is_empty, goes_on, put, get, proceed, clock_byte, deliver_byte, Step, clocks,
  delivers, proceeds, Steps, here, next,
}
use pico_bootrom_rp.Driver.PutGet.Loop.{IsSound}
use pico_bootrom_rp.Driver.PutGet.InFlight.{Steps-IsSound}

pub empty-nil : (l : List ℕ) → is_empty l ≡ true → l ≡ []
unfolding is_empty
empty-nil [] e = refl
empty-nil (b ∷ bs) e = cc

module _ (chip : ℕ → ℕ) where
  -- The chip's first answers.
  unfoldable pub answers : ℕ → List ℕ
  answers zero = []
  answers (suc n) = answers n ++ (chip n ∷ [])

  -- All bytes are somewhere, and all answers, in their order.
  pub record IsFaithful (all : List ℕ) (t : Exchange) : Type 0 where
    pub sends : t.link.clocked ++ (t.link.tx ++ t.to_send) ≡ all
    pub gets :
        t.skipped ++ (t.received ++ (t.link.rx ++ t.link.inside)) ≡ answers (length t.link.clocked)

  clock_byte-IsFaithful :
      (all : List ℕ) (b : ℕ) (rest : List ℕ) (t : Exchange)
      → t.link.tx ≡ b ∷ rest
      → IsFaithful all t
      → IsFaithful all (record t { link = clock_byte chip b rest t.link })
  unfolding clock_byte answers
  clock_byte-IsFaithful all b rest t e h =
      let n = length t.link.clocked in
      let one : length (t.link.clocked ++ (b ∷ [])) ≡ suc n =
        length-append t.link.clocked (b ∷ []) ∙ omega arith in
      record {
        sends =
            append_assoc t.link.clocked (b ∷ []) (rest ++ t.to_send)
            ∙ (ap (λ (l : List ℕ). t.link.clocked ++ (l ++ t.to_send)) (sym e) ∙ h.sends);
        gets = rw one (rw (← h.gets) (simp append_assoc));
      }

  deliver_byte-IsFaithful :
      (all : List ℕ) (a : ℕ) (rest : List ℕ) (t : Exchange)
      → t.link.inside ≡ a ∷ rest
      → length t.link.rx < 16
      → IsFaithful all t
      → IsFaithful all (record t { link = deliver_byte chip a rest t.link })
  unfolding deliver_byte
  deliver_byte-IsFaithful all a rest t e room h =
      let fits : ltb (length t.link.rx) 16 ≡ true = ground arith in
      record {
        sends = h.sends;
        gets = rw (fits, append_assoc t.link.rx (a ∷ []) rest) (rw (← e) h.gets);
      }

  put_byte-IsFaithful :
      (all bytes : List ℕ) (p : Place) (t : Exchange)
      → t.to_send ≡ bytes
      → IsFaithful all t
      → IsFaithful all (record (put_byte bytes t) { place = p })
  unfolding put_byte
  put_byte-IsFaithful all [] p t e h = record { sends = h.sends; gets = h.gets }
  put_byte-IsFaithful all (b ∷ rest) p t e h = record {
    sends =
        ap (λ (l : List ℕ). t.link.clocked ++ l)
          (append_assoc t.link.tx (b ∷ []) rest ∙ ap (λ (l : List ℕ). t.link.tx ++ l) (sym e))
        ∙ h.sends;
    gets = h.gets;
  }

  got_byte-IsFaithful :
      (all rest : List ℕ) (a : ℕ) (p : Place) (t : Exchange)
      → t.link.rx ≡ a ∷ rest
      → (t.rx_skip == 0 || is_empty t.received) ≡ true
      → IsFaithful all t
      → IsFaithful all
          (record (got_byte a (record t { link = record t.link { rx = rest } })) { place = p })
  unfolding got_byte
  got_byte-IsFaithful all rest a p t e o h =
      let so_far = answers (length t.link.clocked) in
      let gets : t.skipped ++ (t.received ++ (a ∷ (rest ++ t.link.inside))) ≡ so_far =
        subst
          (λ (l : List ℕ).
            t.skipped ++ (t.received ++ (l ++ t.link.inside)) ≡ answers (length t.link.clocked))
          e h.gets in
      if-by (λ (u : Exchange). IsFaithful all (record u { place = p })) (t.rx_skip == 0) _ _
        (λ z. record {
          sends = h.sends;
          gets = rw (append_assoc t.received (a ∷ []) (rest ++ t.link.inside)) gets;
        })
        λ z.
          let none = empty-nil t.received (ground arith) in
          record {
            sends = h.sends;
            gets = rw (append_assoc t.skipped (a ∷ []) (t.received ++ (rest ++ t.link.inside))) (
                subst (λ (r : List ℕ). t.skipped ++ (a ∷ (r ++ (rest ++ t.link.inside))) ≡ so_far)
                  (sym none)
                  (subst
                    (λ (r : List ℕ). t.skipped ++ (r ++ (a ∷ (rest ++ t.link.inside))) ≡ so_far)
                    none gets));
          }

  get_byte-IsFaithful :
      (all got : List ℕ) (p : Place) (t : Exchange)
      → t.link.rx ≡ got
      → (t.rx_skip == 0 || is_empty t.received) ≡ true
      → IsFaithful all t
      → IsFaithful all (record (get_byte got t) { place = p })
  unfolding get_byte
  get_byte-IsFaithful all [] p t e o h = record { sends = h.sends; gets = h.gets }
  get_byte-IsFaithful all (a ∷ rest) p t e o h = got_byte-IsFaithful all rest a p t e o h

  moved-IsFaithful :
      (all : List ℕ) (p : Place) (t : Exchange)
      → IsFaithful all t
      → IsFaithful all (record t { place = p })
  moved-IsFaithful all p t h = record { sends = h.sends; gets = h.gets }

  proceed-IsFaithful :
      (all : List ℕ) (aborted : Bool) (p : Place) (t : Exchange)
      → (t.rx_skip == 0 || is_empty t.received) ≡ true
      → IsFaithful all t
      → IsFaithful all (proceed aborted p t)
  unfolding proceed put get
  proceed-IsFaithful all aborted at_condition t o h =
      if-by (IsFaithful all) (goes_on t) _ _ (λ e. moved-IsFaithful all _ t h)
        λ e. moved-IsFaithful all _ t h
  proceed-IsFaithful all aborted (has_tx_level l) t o h = moved-IsFaithful all _ t h
  proceed-IsFaithful all aborted (has_levels l r) t o h =
      if-by (IsFaithful all) (not (is_empty t.to_send) && ltb (l + r) 14) _ _
        (λ e. put_byte-IsFaithful all t.to_send _ t refl h) λ e. moved-IsFaithful all _ t h
  proceed-IsFaithful all aborted (has_put did r) t o h =
      if-by (IsFaithful all) (r == 0) _ _ (λ e. moved-IsFaithful all _ t h)
        λ e. get_byte-IsFaithful all t.link.rx _ t refl o h
  proceed-IsFaithful all aborted (has_got did) t o h =
      if-by (IsFaithful all) (not did && aborted) _ _ (λ e. moved-IsFaithful all _ t h)
        λ e. moved-IsFaithful all _ t h
  proceed-IsFaithful all aborted (finished b) t o h = h

  Step-IsFaithful :
      (all : List ℕ) (skip count : ℕ) {t u : Exchange}
      → Step chip t u
      → IsSound skip count t.place t
      → IsFaithful all t
      → IsFaithful all u
  Step-IsFaithful all skip count (clocks t b rest e room) s h =
      clock_byte-IsFaithful all b rest t e h
  Step-IsFaithful all skip count (delivers t a rest e) s h =
      let fits = s.fits in
      let len = ap (λ (l : List ℕ). length l) e in
      deliver_byte-IsFaithful all a rest t e (omega arith) h
  Step-IsFaithful all skip count (proceeds t aborted) s h =
      proceed-IsFaithful all aborted t.place t s.in_order h

  pub Steps-IsFaithful :
      (all : List ℕ) (skip count : ℕ) {t u : Exchange}
      → IsSound skip count t.place t
      → IsFaithful all t
      → Steps chip t u
      → IsFaithful all u
  Steps-IsFaithful all skip count s h here = h
  Steps-IsFaithful all skip count s h (next r st) =
      Step-IsFaithful all skip count st (Steps-IsSound chip skip count s r)
        (Steps-IsFaithful all skip count s h r)
