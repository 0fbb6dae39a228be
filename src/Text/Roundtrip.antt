-- ===== src/Text/Roundtrip.antt =====
-- What `compress` puts out, `decompress` turns back into the text.
use native.Mathlib.Decide.{dec_lt}
use pico_bootrom_rp.Common.{
  ℕ, zero, suc, ◌+◌, ◌-◌, ◌≤◌, ◌<◌, ◌≡◌, refl, sym, ◌∙◌, ap, true, false, some, List, [], ◌∷◌, ◌++◌,
  ltb, arith, subst, Option-cases, inl, inr, Bool-cases, length, get_or, take, min, length-take,
  ==_iff, ◌==◌,
}
use pico_bootrom_rp.Text.{
  same_bytes, find_match, compress_from, is_text, compress, copy, decompress_from, decompress,
}
use pico_bootrom_rp.Text.Match.{IsMatch, match-facts, find_match-IsMatch}

get_or-take : (n i : ℕ) (xs : List ℕ) → i < n → get_or (take n xs) i 0 ≡ get_or xs i 0
get_or-take zero i xs h = absurd (omega arith)
get_or-take (suc n) i [] h = refl
get_or-take (suc n) zero (x ∷ xs) h = refl
get_or-take (suc n) (suc i) (x ∷ xs) h = get_or-take n i xs (omega arith)

take-suc :
    (n : ℕ) (xs : List ℕ) → n < length xs → take n xs ++ (get_or xs n 0 ∷ []) ≡ take (suc n) xs
take-suc n [] h = absurd (omega arith)
take-suc zero (x ∷ xs) h = refl
take-suc (suc n) (x ∷ xs) h = ap (λ ys. x ∷ ys) (take-suc n xs (omega arith))

take_next :
    (n : ℕ) (xs : List ℕ) → n < length xs → take n xs ++ (get_or xs n 0 ∷ []) ≡ take (n + 1) xs
take_next n xs h = take-suc n xs h ∙ ap (λ k. take k xs) {x = suc n} (omega arith)

take_all : (n : ℕ) (xs : List ℕ) → length xs ≤ n → take n xs ≡ xs
take_all zero [] h = refl
take_all zero (x ∷ xs) h = absurd (omega arith)
take_all (suc n) [] h = refl
take_all (suc n) (x ∷ xs) h = ap (λ ys. x ∷ ys) (take_all n xs (omega arith))

same_bytes-head :
    (src : List ℕ) (from to n : ℕ)
    → same_bytes src from to (suc n) ≡ true
    → (get_or src to 0 ≡ get_or src from 0) × (same_bytes src (from + 1) (to + 1) n ≡ true)
unfolding same_bytes
same_bytes-head src from to n h = ground arith

-- Copying a repetition of the output takes the output that much further along the text.
copy-same_bytes :
    (src : List ℕ) (n from to : ℕ)
    → from < to
    → to + n ≤ length src
    → same_bytes src from to n ≡ true
    → copy n from (take to src) ≡ take (to + n) src
unfolding copy
copy-same_bytes src zero from to h fits same = ap (λ k. take k src) (omega arith)
copy-same_bytes src (suc n) from to h fits same =
    let (head, tail) = same_bytes-head src from to n same in
    let byte : get_or (take to src) from 0 ≡ get_or src to 0 =
      get_or-take to from src h ∙ sym head in
    rw (byte, take_next to src (omega arith))
      (copy-same_bytes src n (from + 1) (to + 1) (omega arith) (omega arith) tail
        ∙ ap (λ k. take k src) (omega arith))

is_text-get_or : (src : List ℕ) (i : ℕ) → is_text src ≡ true → get_or src i 0 < 0x80
unfolding is_text
is_text-get_or [] i h = omega arith
is_text-get_or (b ∷ src) zero h = ground arith
is_text-get_or (b ∷ src) (suc i) h = is_text-get_or src i (ground arith)

decompress-end : (size : ℕ) (out : List ℕ) → decompress_from size [] out ≡ out
unfolding decompress_from
decompress-end size out = refl

decompress-literal :
    (size b : ℕ) (bytes out : List ℕ)
    → b < 0x80
    → length out < size
    → decompress_from size (b ∷ bytes) out ≡ decompress_from size bytes (out ++ (b ∷ []))
unfolding decompress_from
decompress-literal size b [] out lo room =
    let test : ltb b 0x80 ≡ true = ground arith in
    let fits : ltb (length out) size ≡ true = ground arith in rw (test, fits) refl
decompress-literal size b (o ∷ bytes) out lo room =
    let test : ltb b 0x80 ≡ true = ground arith in
    let fits : ltb (length out) size ≡ true = ground arith in rw (test, fits) refl

decompress-repeated :
    (size n o : ℕ) (bytes out : List ℕ)
    → n ≤ 127
    → length out < size
    → decompress_from size ((0x100 - n) ∷ (o ∷ bytes)) out
      ≡ decompress_from size bytes (copy n (length out - o) out)
unfolding decompress_from
decompress-repeated size n o bytes out hi room =
    let test : ltb (0x100 - n) 0x80 ≡ false = ground arith in
    let fits : ltb (length out) size ≡ true = ground arith in
    let back : 0x100 - (0x100 - n) ≡ n = omega arith in rw (test, fits, back) refl

module _ (src : List ℕ) (size : ℕ) (text : is_text src ≡ true) (room : length src < size) where
  Leads-literal :
      (to : ℕ) (bytes : List ℕ)
      → to < length src
      → decompress_from size bytes (take (to + 1) src) ≡ src
      → decompress_from size (get_or src to 0 ∷ bytes) (take to src) ≡ src
  Leads-literal to bytes h rest =
      rw
        (
          decompress-literal size (get_or src to 0) bytes (take to src) (is_text-get_or src to text)
              (omega (arith, length-take to src)),
          take_next to src h,
        )
        rest

  Leads-repeated :
      (to n from : ℕ) (bytes : List ℕ)
      → n ≤ 127
      → from < to
      → to < length src
      → to + n ≤ length src
      → same_bytes src from to n ≡ true
      → decompress_from size bytes (take (to + n) src) ≡ src
      → decompress_from size ((0x100 - n) ∷ ((to - from) ∷ bytes)) (take to src) ≡ src
  Leads-repeated to n from bytes hi before inside fits same rest =
      let back : length (take to src) - (to - from) ≡ from = omega (arith, length-take to src) in
      rw
        (
          decompress-repeated size n (to - from) bytes (take to src) hi
              (omega (arith, length-take to src)),
          back,
          copy-same_bytes src n from to before fits same,
        )
        rest

  -- The two ways on behind a repetition: the text has ended, or a literal byte follows.
  Leads-after :
      (fuel to : ℕ)
      → to ≤ length src
      → (to < length src
          → decompress_from size (compress_from src fuel (to + 1)) (take (to + 1) src) ≡ src)
      → decompress_from size
          (elim (to == length src) [
            | true ↦ []
            | false ↦ get_or src to 0 ∷ compress_from src fuel (to + 1)
          ])
          (take to src)
        ≡ src
  Leads-after fuel to h rest = elim (Bool-cases (to == length src)) [
    | inl e ↦ rw (e, decompress-end) (take_all to src (omega (arith, (==_iff to (length src)).0 e)))
    | inr e ↦
        let more : to < length src = ground arith in
        rw e (Leads-literal to (compress_from src fuel (to + 1)) more (rest more))
  ]

  pub compress_from-Leads :
      (fuel to : ℕ)
      → to ≤ length src
      → length src < to + fuel
      → decompress_from size (compress_from src fuel to) (take to src) ≡ src
  unfolding compress_from
  compress_from-Leads zero to h enough = absurd (omega arith)
  compress_from-Leads (suc fuel) to h enough = elim (dec_lt to (length src)) [
    | no done ↦
        let stop : ltb to (length src) ≡ false = ground arith in
        rw (stop, compress_from) (rw decompress-end (take_all to src (omega arith)))
    | yes more ↦
        let go : ltb to (length src) ≡ true = ground arith in
        let most = min 127 (length src - to) in
        let found = find_match-IsMatch src to most most (omega arith) in
        elim (Option-cases (find_match src to most)) [
          | inl e ↦
              rw (go, e, compress_from)
                (Leads-literal to (compress_from src fuel (to + 1)) more
                  (compress_from-Leads fuel (to + 1) (omega arith) (omega arith)))
          | inr ((n, from), e) ↦
              let (hi, (before, same)) = match-facts (subst (IsMatch src to most) e found) in
              rw (go, e, compress_from)
                (Leads-repeated to n from _ (omega arith) before more (omega arith) same (
                  Leads-after fuel (to + n) (omega arith)
                    (λ further. compress_from-Leads fuel (to + n + 1) (omega arith) (omega arith))))
        ]
  ]

-- For any text of less than the size of the buffer, whose bytes are all below 0x80, `compress` has an
-- output, and `decompress` turns it back into the text: the check that `compress` makes of its own
-- output never fails.
pub decompress-compress :
    (src : List ℕ) (size : ℕ)
    → is_text src ≡ true
    → length src < size
    → (compress src ≡ some (compress_from src (length src + 1) 0))
      × (decompress size (compress_from src (length src + 1) 0) ≡ src)
unfolding compress decompress
decompress-compress src size text room =
    let back =
      compress_from-Leads src size text room (length src + 1) 0 (omega arith) (omega arith) in
    let not_full : (length src == size) ≡ false = ground arith in
    (rw text refl, rw (back, not_full) refl)
