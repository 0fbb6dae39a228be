-- ===== src/Driver/PutGet/Result.antt =====
-- What flash_put_get does: no answer is lost, it can always end, and what it then has read.
use pico_bootrom_rp.Common.{
  ℕ, ◌+◌, ◌≤◌, ◌≡◌, ◌≢◌, ◌∙◌, refl, sym, ap, subst, Bool, true, false, ◌&&◌, not, List, [], ◌∷◌,
  ◌++◌, ltb, ◌==◌, length, drop, drop-length, arith, if-by,
}
use mathlib.Core.List.{append-nil}
use pico_bootrom_rp.Driver.PutGet.{
  Link, Place, at_condition, has_tx_level, has_levels, has_put, has_got, finished, Exchange,
  is_empty, goes_on, put, get, proceed, Step, clocks, delivers, proceeds, Steps, here, next,
  begin_exchange,
}
use pico_bootrom_rp.Driver.PutGet.Loop.{IsSound, in_flight}
use pico_bootrom_rp.Driver.PutGet.InFlight.{Steps-IsSound, begin_exchange-IsSound}
use pico_bootrom_rp.Driver.PutGet.Answers.{answers, IsFaithful, Steps-IsFaithful, empty-nil}
use pico_bootrom_rp.Driver.PutGet.Finish.{place-Ends}
use pico_bootrom_rp.Driver.PutGet.Ends.{Steps-trans}

length-nil : (l : List ℕ) → length l ≡ 0 → l ≡ []
length-nil [] e = refl
length-nil (b ∷ bs) e = absurd (omega arith)

-- Whether a transfer ended in order is seen from its counts.
abbrev IsDone : Place → Exchange → Type 0
IsDone (finished false) t = goes_on t ≡ false
IsDone _ t = Unit {0}

module _ (chip : ℕ → ℕ) where
  -- A loop that has ended in order has nothing left to do.
  proceed-IsDone :
      (aborted : Bool) (p : Place) (t : Exchange)
      → t.place ≡ p
      → IsDone p t
      → IsDone (proceed aborted p t).place (proceed aborted p t)
  unfolding proceed put get goes_on
  proceed-IsDone aborted at_condition t e d =
      if-by (λ (u : Exchange). IsDone u.place u) (goes_on t) _ _ (λ g. tt) λ g. g
  proceed-IsDone aborted (has_tx_level l) t e d = tt
  proceed-IsDone aborted (has_levels l r) t e d =
      if-by (λ (u : Exchange). IsDone u.place u) (not (is_empty t.to_send) && ltb (l + r) 14) _ _
        (λ g. tt) λ g. tt
  proceed-IsDone aborted (has_put did r) t e d =
      if-by (λ (u : Exchange). IsDone u.place u) (r == 0) _ _ (λ g. tt) λ g. tt
  proceed-IsDone aborted (has_got did) t e d =
      if-by (λ (u : Exchange). IsDone u.place u) (not did && aborted) _ _ (λ g. tt) λ g. tt
  proceed-IsDone aborted (finished b) t e d = subst (λ (q : Place). IsDone q t) (sym e) d

  relinked-IsDone :
      (p : Place) (l : Link) (t : Exchange) → IsDone p t → IsDone p (record t { link = l })
  unfolding goes_on
  relinked-IsDone (finished false) l t d = d
  relinked-IsDone (finished true) l t d = tt
  relinked-IsDone at_condition l t d = tt
  relinked-IsDone (has_tx_level _) l t d = tt
  relinked-IsDone (has_levels _ _) l t d = tt
  relinked-IsDone (has_put _ _) l t d = tt
  relinked-IsDone (has_got _) l t d = tt

  Step-IsDone : {t u : Exchange} → Step chip t u → IsDone t.place t → IsDone u.place u
  Step-IsDone (clocks t b rest e room) d = relinked-IsDone t.place _ t d
  Step-IsDone (delivers t a rest e) d = relinked-IsDone t.place _ t d
  Step-IsDone (proceeds t aborted) d = proceed-IsDone aborted t.place t refl d

  Steps-IsDone : {t u : Exchange} → IsDone t.place t → Steps chip t u → IsDone u.place u
  Steps-IsDone d here = d
  Steps-IsDone d (next r s) = Step-IsDone s (Steps-IsDone d r)

-- The transfer is over: each byte was sent once, in its order, and what was stored is what the chip
-- answered behind the command.
pub record IsExchanged (chip : ℕ → ℕ) (command bytes : List ℕ) (t : Exchange) : Type 0 where
  pub sent : t.link.clocked ≡ command ++ bytes
  pub stored : t.received ≡ drop (length command) (answers chip (length command + length bytes))

abbrev pub AtEnd : Place → (ℕ → ℕ) → List ℕ → List ℕ → Exchange → Type 0
AtEnd (finished false) chip command bytes t = IsExchanged chip command bytes t
AtEnd _ chip command bytes t = Unit {0}

strip :
    (xs ys zs ws all : List ℕ) → zs ≡ [] → ws ≡ [] → xs ++ (ys ++ (zs ++ ws)) ≡ all → xs ++ ys ≡ all
strip xs ys [] [] all e f h = ap (λ (l : List ℕ). xs ++ l) (sym (append-nil ys)) ∙ h
strip xs ys [] (w ∷ ws) all e f h = cc
strip xs ys (z ∷ zs) ws all e f h = cc

module _ (chip : ℕ → ℕ) (command bytes : List ℕ) where
  begin_exchange-IsFaithful : IsFaithful chip (command ++ bytes) (begin_exchange command bytes)
  unfolding begin_exchange answers
  begin_exchange-IsFaithful = record { sends = refl; gets = refl }

  done-IsExchanged :
      (t : Exchange)
      → goes_on t ≡ false
      → IsSound (length command) (length bytes) t.place t
      → IsFaithful chip (command ++ bytes) t
      → IsExchanged chip command bytes t
  unfolding goes_on
  done-IsExchanged t e s f =
      let skips = s.skips in
      let counts = s.counts in
      let sent = s.all_sent in
      let answered = s.all_answered in
      let none = empty-nil t.to_send (ground arith) in
      let no_send = ap (λ (l : List ℕ). length l) none in
      let no_skip : t.rx_skip ≡ 0 = ground arith in
      let no_count : t.rx_count ≡ 0 = ground arith in
      let tx = length-nil t.link.tx (omega arith) in
      let rx = length-nil t.link.rx (omega arith) in
      let inside = length-nil t.link.inside (omega arith) in
      let skipped : length t.skipped ≡ length command = omega arith in
      let total : length t.link.clocked ≡ length command + length bytes = omega arith in
      let got =
        strip t.skipped t.received t.link.rx t.link.inside _ rx inside f.gets
        ∙ ap (λ (n : ℕ). answers chip n) total in
      record {
        sent = strip [] t.link.clocked t.link.tx t.to_send _ tx none f.sends;
        stored =
            sym (drop-length t.skipped t.received)
            ∙ (ap (λ (n : ℕ). drop n (t.skipped ++ t.received)) skipped
                ∙ ap (λ (l : List ℕ). drop (length command) l) got);
      }

  state-AtEnd :
      (p : Place) (t : Exchange)
      → IsDone p t
      → IsSound (length command) (length bytes) t.place t
      → IsFaithful chip (command ++ bytes) t
      → AtEnd p chip command bytes t
  state-AtEnd (finished false) t d s f = done-IsExchanged t d s f
  state-AtEnd (finished true) t d s f = tt
  state-AtEnd at_condition t d s f = tt
  state-AtEnd (has_tx_level _) t d s f = tt
  state-AtEnd (has_levels _ _) t d s f = tt
  state-AtEnd (has_put _ _) t d s f = tt
  state-AtEnd (has_got _) t d s f = tt

  -- Behind a command of at most 16 bytes, however the steps of the controller and of the loop are
  -- mixed: no answer is lost, at most 16 bytes are in flight, and a loop that ended without
  -- an abort has sent the bytes in order and stored the chip's answers to those behind the command.
  pub flash_put_get-IsSafe :
      (u : Exchange)
      → length command ≤ 16
      → Steps chip (begin_exchange command bytes) u
      → (u.link.overflowed ≡ false) × (in_flight u.link ≤ 16) × AtEnd u.place chip command bytes u
  unfolding begin_exchange
  flash_put_get-IsSafe u few r =
      let sound =
        Steps-IsSound chip (length command) (length bytes)
          (begin_exchange-IsSound chip command bytes few) r in
      let faithful =
        Steps-IsFaithful chip (command ++ bytes) (length command) (length bytes)
          (begin_exchange-IsSound chip command bytes few) begin_exchange-IsFaithful r in
      let done = Steps-IsDone chip tt r in
      (sound.none_lost, sound.fits, state-AtEnd u.place u done sound faithful)

  -- Behind a command of at most 16 bytes, a loop that was not aborted can always come to its end,
  -- with all bytes sent in order, and the chip's answers to those behind the command stored.
  pub flash_put_get-ends :
      (u : Exchange)
      → length command ≤ 16
      → Steps chip (begin_exchange command bytes) u
      → u.place ≢ finished true
      → (v : Exchange) × Steps chip u v
        × (v.place ≡ finished false)
        × (v.link.overflowed ≡ false)
        × (v.link.clocked ≡ command ++ bytes)
        × (v.received ≡ drop (length command) (answers chip (length command + length bytes)))
  unfolding begin_exchange
  flash_put_get-ends u few r running =
      let sound =
        Steps-IsSound chip (length command) (length bytes)
          (begin_exchange-IsSound chip command bytes few) r in
      let (v, s, e) =
        place-Ends chip (length command) (length bytes) u.place u sound refl running in
      let (kept, few_left, end) = flash_put_get-IsSafe v few (Steps-trans chip r s) in
      let x = subst (λ (p : Place). AtEnd p chip command bytes v) e end in
      (v, s, e, kept, x.sent, x.stored)
