-- ===== src/Disk/Cleared.antt =====
-- A bit set that is cleared for a new transfer.
use pico_bootrom_rp.Common.{
  ℕ, zero, suc, ◌-◌, ◌*◌, ◌/◌, ◌%◌, ◌≤◌, ◌≡◌, refl, false, List, [], ◌∷◌, arith, length, get_or,
  test_bit,
}
use pico_bootrom_rp.Common.Bits.{bits_test, bits_count}
use pico_bootrom_rp.Disk.{clear_bytes, clear_bitset}

length-clear_bytes : (n : ℕ) (ws : List ℕ) → length (clear_bytes n ws) ≡ length ws
unfolding clear_bytes
length-clear_bytes n [] = refl
length-clear_bytes n (w ∷ ws) = omega (arith, length-clear_bytes (n - 4) ws)

pub length-clear_bitset : (ws : List ℕ) (count : ℕ) → length (clear_bitset ws count) ≡ length ws
unfolding clear_bitset
length-clear_bitset ws count = length-clear_bytes (count / 8) ws

get_or-clear_bytes : (n i : ℕ) (ws : List ℕ) → 4 * length ws ≤ n → get_or (clear_bytes n ws) i 0 ≡ 0
unfolding clear_bytes
get_or-clear_bytes n i [] h = refl
get_or-clear_bytes n zero (w ∷ ws) h = ground arith
get_or-clear_bytes n (suc i) (w ∷ ws) h = get_or-clear_bytes (n - 4) i ws (omega arith)

test_bit-zero : (k : ℕ) → test_bit 0 k ≡ false
unfolding test_bit
test_bit-zero zero = refl
test_bit-zero (suc k) = test_bit-zero k

-- A bit set that is cleared for as many bits as it has is empty.
pub bits_test-clear_bitset :
    (ws : List ℕ) (count n : ℕ)
    → count ≡ length ws * 32
    → bits_test (clear_bitset ws count) n ≡ false
unfolding bits_test clear_bitset
bits_test-clear_bitset ws count n e =
    rw (get_or-clear_bytes (count / 8) (n / 32) ws (omega arith)) (test_bit-zero (n % 32))

pub bits_count-empty :
    (ws : List ℕ) (k : ℕ) → ((n : ℕ) → bits_test ws n ≡ false) → bits_count ws k ≡ 0
unfolding bits_count
bits_count-empty ws zero h = refl
bits_count-empty ws (suc k) h = rw (h k) (omega (arith, bits_count-empty ws k h))
