-- ===== src/Driver/PutGet/Ends.antt =====
-- However far a transfer has come, it can end, unless it was aborted.
use pico_bootrom_rp.Common.{
  ℕ, ◌+◌, ◌-◌, ◌*◌, ◌≤◌, ◌<◌, ◌≡◌, ◌≢◌, refl, ap, subst, Bool, true, false, ◌&&◌, not, List, [],
  ◌∷◌, ltb, ◌==◌, length, length-append, arith, if-by, ◌⊎◌, inl, inr,
}
use native.Mathlib.Decide.{dec_lt}
use pico_bootrom_rp.Driver.PutGet.{
  Place, at_condition, has_tx_level, has_levels, has_put, has_got, finished, Exchange, put_byte,
  got_byte, get_byte, is_empty, goes_on, put, get, proceed, proceeds, Steps, here, next,
}

-- How far the bytes still have to go.
abbrev pub weight : Exchange → ℕ
weight t = 4 * length t.to_send + 3 * length t.link.tx + 2 * length t.link.inside + length t.link.rx

put_byte-weight :
    (bytes : List ℕ) (t : Exchange)
    → t.to_send ≡ bytes
    → is_empty bytes ≡ false
    → weight (put_byte bytes t) < weight t
unfolding put_byte is_empty
put_byte-weight [] t e n = cc
put_byte-weight (b ∷ rest) t e n =
    let len = ap (λ (l : List ℕ). length l) e in
    let one = length-append t.link.tx (b ∷ []) in omega arith

put-weight : (l r : ℕ) (t : Exchange) → weight (put l r t) ≤ weight t
unfolding put
put-weight l r t =
    if-by (λ (u : Exchange). weight u ≤ weight t) (not (is_empty t.to_send) && ltb (l + r) 14) _ _
      (λ e. let p = put_byte-weight t.to_send t refl (ground arith) in omega arith) λ e. omega arith

put-lighter :
    (l r : ℕ) (t : Exchange)
    → is_empty t.to_send ≡ false
    → l + r < 14
    → weight (put l r t) < weight t
unfolding put
put-lighter l r t e room =
    let p = put_byte-weight t.to_send t refl e in
    let fits : ltb (l + r) 14 ≡ true = ground arith in rw (e, fits) p

got_byte-weight : (a : ℕ) (t : Exchange) → weight (got_byte a t) ≡ weight t
unfolding got_byte
got_byte-weight a t =
    if-by (λ (u : Exchange). weight u ≡ weight t) (t.rx_skip == 0) _ _ (λ e. refl) λ e. refl

get_byte-weight :
    (answers : List ℕ) (t : Exchange)
    → t.link.rx ≡ answers
    → weight (get_byte answers t) + length answers ≡ weight t + (length answers - 1)
unfolding get_byte
get_byte-weight [] t e = refl
get_byte-weight (a ∷ rest) t e =
    let len = ap (λ (l : List ℕ). length l) e in
    let same = got_byte-weight a (record t { link = record t.link { rx = rest } }) in omega arith

get-weight : (d : Bool) (r : ℕ) (t : Exchange) → weight (get d r t) ≤ weight t
unfolding get
get-weight d r t =
    if-by (λ (u : Exchange). weight u ≤ weight t) (r == 0) _ _ (λ e. omega arith)
      λ e. let w = get_byte-weight t.link.rx t refl in omega arith

get-lighter :
    (d : Bool) (r : ℕ) (t : Exchange) → 0 < r → 0 < length t.link.rx → weight (get d r t) < weight t
unfolding get
get-lighter d r t p q =
    let w = get_byte-weight t.link.rx t refl in
    let e : (r == 0) ≡ false = ground arith in rw e (omega arith)

put_byte-rx : (bytes : List ℕ) (t : Exchange) → (put_byte bytes t).link.rx ≡ t.link.rx
unfolding put_byte
put_byte-rx [] t = refl
put_byte-rx (b ∷ rest) t = refl

put-rx : (l r : ℕ) (t : Exchange) → (put l r t).link.rx ≡ t.link.rx
unfolding put
put-rx l r t =
    if-by (λ (u : Exchange). u.link.rx ≡ t.link.rx) (not (is_empty t.to_send) && ltb (l + r) 14) _ _
      (λ e. put_byte-rx t.to_send t) λ e. refl

put-place : (l r : ℕ) (t : Exchange) → (d : Bool) × ((put l r t).place ≡ has_put d r)
unfolding put
put-place l r t =
    if-by (λ (u : Exchange). (d : Bool) × (u.place ≡ has_put d r))
      (not (is_empty t.to_send) && ltb (l + r) 14) _ _ (λ e. (true, refl)) λ e. (false, refl)

get-place : (d : Bool) (r : ℕ) (t : Exchange) → (b : Bool) × ((get d r t).place ≡ has_got b)
unfolding get
get-place d r t =
    if-by (λ (u : Exchange). (b : Bool) × (u.place ≡ has_got b)) (r == 0) _ _ (λ e. (d, refl))
      λ e. (true, refl)

-- What a round takes off, from levels that are still right.
round-lighter :
    (d : Bool) (t : Exchange)
    → length t.link.tx ≡ 0
    → (is_empty t.to_send ≡ false) ⊎ (0 < length t.link.rx)
    → weight (get d (length t.link.rx) (put (length t.link.tx) (length t.link.rx) t)) < weight t
round-lighter d t none busy =
    let l = length t.link.tx in
    let r = length t.link.rx in
    let w_put = put-weight l r t in
    let w_get = get-weight d r (put l r t) in
    let same = ap (λ (x : List ℕ). length x) (put-rx l r t) in
    elim (dec_lt 0 r) [
      | yes p ↦ let w = get-lighter d r (put l r t) p (omega arith) in omega arith
      | no p ↦ elim busy [
        | inl e ↦ let w = put-lighter l r t e (omega arith) in omega arith
        | inr q ↦ absurd (p q)
      ]
    ]

module _ (chip : ℕ → ℕ) where
  pub Steps-trans : {t u v : Exchange} → Steps chip t u → Steps chip u v → Steps chip t v
  Steps-trans r here = r
  Steps-trans r (next s st) = next (Steps-trans r s) st

  pub proceeds-from :
      (p : Place) (t u : Exchange) → t.place ≡ p → proceed false p t ≡ u → Steps chip t u
  proceeds-from p t u e f =
      subst (λ (x : Exchange). Steps chip t x) f
        (subst (λ (q : Place). Steps chip t (proceed false q t)) e (next here (proceeds t false)))

  -- The loop comes back to its condition, with no more to do than `n`.
  abbrev Returns : Exchange → ℕ → Type 0
  Returns t n = (v : Exchange) × Steps chip t v × (v.place ≡ at_condition) × (weight v ≤ n)

  after : {t u : Exchange} (n : ℕ) → Steps chip t u → Returns u n → Returns t n
  after n s (v, r, e, w) = (v, Steps-trans s r, e, w)

  from_got : (d : Bool) (t : Exchange) → t.place ≡ has_got d → Returns t (weight t)
  unfolding proceed
  from_got true t e = (
    _,
    proceeds-from (has_got true) t (record t { place = at_condition }) e refl,
    refl,
    omega arith,
  )
  from_got false t e = (
    _,
    proceeds-from (has_got false) t (record t { place = at_condition }) e refl,
    refl,
    omega arith,
  )

  from_put :
      (d : Bool) (r : ℕ) (t : Exchange) → t.place ≡ has_put d r → Returns t (weight (get d r t))
  unfolding proceed
  from_put d r t e =
      let (b, at) = get-place d r t in
      after (weight (get d r t)) (proceeds-from (has_put d r) t (get d r t) e refl)
        (from_got b (get d r t) at)

  from_levels :
      (l r : ℕ) (t : Exchange)
      → t.place ≡ has_levels l r
      → (d : Bool) × Returns t (weight (get d r (put l r t)))
  unfolding proceed
  from_levels l r t e =
      let (d, at) = put-place l r t in
      (
        d,
        after (weight (get d r (put l r t))) (proceeds-from (has_levels l r) t (put l r t) e refl)
            (from_put d r (put l r t) at),
      )

  -- The next condition after any place within a round.
  pub returns :
      (p : Place) (t : Exchange)
      → t.place ≡ p
      → ((b : Bool) → p ≢ finished b)
      → Returns t (weight t)
  unfolding proceed
  returns at_condition t e h = (t, here, e, omega arith)
  returns (has_tx_level l) t e h =
      let u = record t { place = has_levels l (length t.link.rx) } in
      let (d, (v, r, at, w)) = from_levels l (length t.link.rx) u refl in
      let w_put = put-weight l (length t.link.rx) u in
      let w_get = get-weight d (length t.link.rx) (put l (length t.link.rx) u) in
      (v, Steps-trans (proceeds-from (has_tx_level l) t u e refl) r, at, omega arith)
  returns (has_levels l r) t e h =
      let (d, (v, s, at, w)) = from_levels l r t e in
      let w_put = put-weight l r t in
      let w_get = get-weight d r (put l r t) in (v, s, at, omega arith)
  returns (has_put d r) t e h =
      let (v, s, at, w) = from_put d r t e in
      let w_get = get-weight d r t in (v, s, at, omega arith)
  returns (has_got d) t e h = from_got d t e
  returns (finished b) t e h = absurd (h b refl)

  -- A round with nothing in the controller: a byte is written, or one is read, or both.
  pub round :
      (t : Exchange)
      → t.place ≡ at_condition
      → goes_on t ≡ true
      → length t.link.tx ≡ 0
      → (is_empty t.to_send ≡ false) ⊎ (0 < length t.link.rx)
      → (v : Exchange) × Steps chip t v × (v.place ≡ at_condition) × (weight v < weight t)
  unfolding proceed
  round t e g none busy =
      let tx_level = length t.link.tx in
      let rx_level = length t.link.rx in
      let first = record t { place = has_tx_level tx_level } in
      let second = record t { place = has_levels tx_level rx_level } in
      let enters = proceeds-from at_condition t first e (rw g refl) in
      let reads = proceeds-from (has_tx_level tx_level) first second refl refl in
      let (d, (v, s, at, w)) = from_levels tx_level rx_level second refl in
      let lighter = round-lighter d second none busy in
      (v, Steps-trans enters (Steps-trans reads s), at, omega arith)
