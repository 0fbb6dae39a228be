-- ===== src/Common/Bits.antt =====
-- Unsigned words as natural numbers: `x & (1u << k)` as a test, `x | (1u << k)` as a word, and the
-- arrays of 32-bit words that the boot ROM uses as bit sets.
use Prim.Native.Nat.{ℕ, zero, suc, ◌+◌, ◌*◌, ◌/◌, ◌%◌, ◌^◌, ◌≤◌, ◌<◌}
use mathlib.Core.Path.{◌≡◌, refl}
use mathlib.Core.Bool.{Bool, true, false, ◌||◌}
use mathlib.Core.List.{List, [], ◌∷◌}
use native.Mathlib.Omega.{arith}
use package.pico_bootrom_rp.Common.Tests.{◌==◌, if◌then◌else◌}
use package.pico_bootrom_rp.Common.Lists.{length, get_or, set, length-set}

-- Stores to `uint8_t`, `uint16_t` and `uint32_t`.
abbrev pub u8 : ℕ → ℕ
u8 n = n % 0x100

abbrev pub u16 : ℕ → ℕ
u16 n = n % 0x1_0000

abbrev pub u32 : ℕ → ℕ
u32 n = n % 0x1_0000_0000

-- `x & (1u << k)`, as a condition.
unfoldable pub test_bit : ℕ → ℕ → Bool
test_bit x zero = x % 2 == 1
test_bit x (suc k) = test_bit (x / 2) k

-- `x | (1u << k)`.
unfoldable pub set_bit : ℕ → ℕ → ℕ
set_bit x zero = x / 2 * 2 + 1
set_bit x (suc k) = set_bit (x / 2) k * 2 + x % 2

-- `a ^ b` of words of this many bits.
unfoldable pub xor_bits : ℕ → ℕ → ℕ → ℕ
xor_bits zero a b = 0
xor_bits (suc w) a b = xor_bits w (a / 2) (b / 2) * 2 + (a % 2 + b % 2) % 2

pub xor_bits-cancel : (w a b : ℕ) → b < 2 ^ w → xor_bits w (xor_bits w a b) a ≡ b
unfolding xor_bits
xor_bits-cancel zero a b h = omega arith
xor_bits-cancel (suc w) a b h =
    let rest = xor_bits-cancel w (a / 2) (b / 2) (omega arith) in
    let high : (xor_bits w (a / 2) (b / 2) * 2 + (a % 2 + b % 2) % 2) / 2
        ≡ xor_bits w (a / 2) (b / 2) =
      omega arith in
    rw high (omega (arith, rest))

half_of_set : (x : ℕ) → (x / 2 * 2 + 1) / 2 ≡ x / 2
half_of_set x = omega arith

half_of_next : (x y : ℕ) → (y * 2 + x % 2) / 2 ≡ y
half_of_next x y = omega arith

suc-==-suc : (k j : ℕ) → (suc k == suc j) ≡ (k == j)
suc-==-suc k j = ground arith

zero-==-suc : (j : ℕ) → (0 == suc j) ≡ false
zero-==-suc j = ground arith

pub test_bit-set_bit : (x k j : ℕ) → test_bit (set_bit x k) j ≡ (k == j || test_bit x j)
unfolding test_bit set_bit
test_bit-set_bit x zero zero = ground arith
test_bit-set_bit x zero (suc j) = rw (half_of_set, zero-==-suc) refl
test_bit-set_bit x (suc k) zero = ground arith
test_bit-set_bit x (suc k) (suc j) =
    rw (half_of_next, suc-==-suc k j) (test_bit-set_bit (x / 2) k j)

-- The test and the update of bit `n` of an array of 32-bit words:
-- `a[n / 32] & (1u << (n & 31u))` and `a[n / 32] |= 1u << (n & 31u)`.
unfoldable pub bits_test : List ℕ → ℕ → Bool
bits_test ws n = test_bit (get_or ws (n / 32) 0) (n % 32)

unfoldable pub bits_set : List ℕ → ℕ → List ℕ
bits_set ws n = set ws (n / 32) (set_bit (get_or ws (n / 32) 0) (n % 32))

get_or-set :
    (ws : List ℕ) (i j v : ℕ)
    → i < length ws
    → get_or (set ws i v) j 0 ≡ (if i == j then v else get_or ws j 0)
get_or-set [] i j v h = absurd (omega arith)
get_or-set (w ∷ ws) zero zero v h = refl
get_or-set (w ∷ ws) zero (suc j) v h = rw (zero-==-suc j)
get_or-set (w ∷ ws) (suc i) zero v h = ground arith
get_or-set (w ∷ ws) (suc i) (suc j) v h = rw (suc-==-suc i j) (get_or-set ws i j v (omega arith))

pub length-bits_set : (ws : List ℕ) (n : ℕ) → length (bits_set ws n) ≡ length ws
unfolding bits_set
length-bits_set ws n = length-set ws (n / 32) _

-- Setting a bit of the array sets that bit and no other.
pub bits_test-bits_set :
    (ws : List ℕ) (n m : ℕ)
    → n / 32 < length ws
    → bits_test (bits_set ws n) m ≡ (n == m || bits_test ws m)
unfolding bits_test bits_set
bits_test-bits_set ws n m h = ground (
  arith,
  get_or-set ws (n / 32) (m / 32) (set_bit (get_or ws (n / 32) 0) (n % 32)) h,
  test_bit-set_bit (get_or ws (n / 32) 0) (n % 32) (m % 32),
)

-- How many of the first `k` bits are set.
unfoldable pub bits_count : List ℕ → ℕ → ℕ
bits_count ws zero = 0
bits_count ws (suc k) = (if bits_test ws k then 1 else 0) + bits_count ws k

bits_count-above :
    (ws : List ℕ) (n k : ℕ)
    → n / 32 < length ws
    → k ≤ n
    → bits_count (bits_set ws n) k ≡ bits_count ws k
unfolding bits_count
bits_count-above ws n zero h p = refl
bits_count-above ws n (suc k) h p =
    ground (arith, bits_test-bits_set ws n k h, bits_count-above ws n k h)

-- Setting a clear bit below the bound adds one to the count.
pub bits_count-bits_set :
    (ws : List ℕ) (n k : ℕ)
    → n / 32 < length ws
    → n < k
    → bits_test ws n ≡ false
    → bits_count (bits_set ws n) k ≡ bits_count ws k + 1
unfolding bits_count
bits_count-bits_set ws n zero h p c = absurd (omega arith)
bits_count-bits_set ws n (suc k) h p c =
    ground
      (arith, bits_test-bits_set ws n k h, bits_count-above ws n k h, bits_count-bits_set ws n k h)

pub bits_count-le : (ws : List ℕ) (k : ℕ) → bits_count ws k ≤ k
unfolding bits_count
bits_count-le ws zero = omega arith
bits_count-le ws (suc k) = ground (arith, bits_count-le ws k)

-- All of the first `k` bits are set when the count says so.
pub bits_count-all : (ws : List ℕ) (k n : ℕ) → bits_count ws k ≡ k → n < k → bits_test ws n ≡ true
unfolding bits_count
bits_count-all ws zero n e p = absurd (omega arith)
bits_count-all ws (suc k) n e p = ground (arith, bits_count-le ws k, bits_count-all ws k n)

pub bits_count-full :
    (ws : List ℕ) (k : ℕ) → ((n : ℕ) → n < k → bits_test ws n ≡ true) → bits_count ws k ≡ k
unfolding bits_count
bits_count-full ws zero h = refl
bits_count-full ws (suc k) h =
    let rest = bits_count-full ws k (λ n p. h n (omega arith)) in
    rw (h k (omega arith)) (omega (arith, rest))
