-- ===== src/Driver/Size.antt =====
-- The size that `flash_size_log2` finds.
use pico_bootrom_rp.Common.{
  ℕ, zero, suc, ◌+◌, ◌/◌, ◌%◌, ◌^◌, ◌≤◌, ◌<◌, ◌≡◌, refl, true, false, not, ◌||◌, Option, none, some,
  List, drop, ltb, leb, ◌==◌, if-by, get_or, arith,
}
use native.Mathlib.Decide.{dec_lt}
use native.Mathlib.Nat.{pow-suc}
use pico_bootrom_rp.Driver.{
  shift_count, array_size_log2, jedec_size_log2, bytes_to_u32le, flash_size_log2,
}

-- A size that a chip may have: 2^8 to 2^34 bytes, or unknown.
pub data IsSize : Option ℕ → Type 0 where
  unknown : IsSize none
  known : {n : ℕ} → 8 ≤ n → n ≤ 34 → IsSize (some n)

jedec_size_log2-IsSize : (id : List ℕ) → IsSize (jedec_size_log2 id)
unfolding jedec_size_log2
jedec_size_log2-IsSize id =
    if-by IsSize (ltb (get_or id 2 0) 8 || ltb 34 (get_or id 2 0)) _ _ (λ _. unknown)
      (λ e. known (ground arith) (ground arith))

-- Whatever bytes the chip answers with, the size is unknown or the logarithm of 2^8 to 2^34 bytes.
pub flash_size_log2-IsSize :
    (sfdp : ℕ → ℕ → List ℕ) (id : List ℕ) → IsSize (flash_size_log2 sfdp id)
unfolding flash_size_log2
flash_size_log2-IsSize sfdp id =
    let jedec = jedec_size_log2-IsSize id in
    if-by IsSize (not (bytes_to_u32le (sfdp 0 16) == 0x5044_4653)) _ _ (λ _. jedec)
      λ _.
        if-by IsSize (not (get_or (sfdp 0 16) 8 0 == 0)) _ _ (λ _. jedec)
          λ _.
            let table = sfdp (bytes_to_u32le (drop 12 (sfdp 0 16)) % 2 ^ 24) 8 in
            let size = array_size_log2 (bytes_to_u32le (drop 4 table)) in
            if-by IsSize (ltb size 11 || ltb 37 size) _ _ (λ _. jedec)
              (λ e. known (ground arith) (ground arith))

shift_count-last : (fuel word : ℕ) → word < 2 → shift_count fuel word ≡ 0
unfolding shift_count
shift_count-last zero word h = refl
shift_count-last (suc fuel) word h =
    let test : (word / 2 == 0) ≡ true = ground arith in rw (test, shift_count) refl

shift_count-more :
    (fuel word : ℕ) → 2 ≤ word → shift_count (suc fuel) word ≡ suc (shift_count fuel (word / 2))
unfolding shift_count
shift_count-more fuel word h =
    let test : (word / 2 == 0) ≡ false = ground arith in rw (test, shift_count) (omega arith)

-- The number of shifts that leave nothing is the logarithm to the base 2, rounded down, of a word that
-- has at most one bit more than there are rounds.
pub shift_count-log2 :
    (fuel word : ℕ)
    → 0 < word
    → word < 2 ^ suc fuel
    → (2 ^ shift_count fuel word ≤ word) × (word < 2 ^ suc (shift_count fuel word))
shift_count-log2 zero word lo hi = rw (shift_count-last 0 word hi) (lo, hi)
shift_count-log2 (suc fuel) word lo hi = elim (dec_lt word 2) [
  | yes one ↦ rw (shift_count-last (suc fuel) word one) (lo, one)
  | no more ↦
      let n = shift_count fuel (word / 2) in
      let half =
        shift_count-log2 fuel (word / 2) (omega arith) (omega (arith, pow-suc 2 (suc fuel))) in
      rw (shift_count-more fuel word (omega arith))
        (omega (arith, pow-suc 2 n, pow-suc 2 (suc n), half.0, half.1))
]

-- The size in a word of the parameter table with its top bit clear is the logarithm to the base 2,
-- rounded down, of the number of bits, which is one more than the word.
pub array_size_log2-log2 :
    (word : ℕ)
    → word < 2 ^ 31
    → (2 ^ array_size_log2 word ≤ word + 1) × (word + 1 < 2 ^ suc (array_size_log2 word))
unfolding array_size_log2
array_size_log2-log2 word h =
    let test : leb (2 ^ 31) word ≡ false = ground arith in
    rw test (shift_count-log2 32 (word + 1) (omega arith) (omega arith))
