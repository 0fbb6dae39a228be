-- ===== src/Driver/Range.antt =====
-- The ranges of flash that the loops over sectors, blocks and pages cover.
use native.Mathlib.Decide.{dec_lt}
use native.Mathlib.Nat.{mul_assoc}
use pico_bootrom_rp.Common.{
  ℕ, zero, suc, ◌+◌, ◌-◌, ◌*◌, ◌/◌, ◌%◌, ◌^◌, ◌≤◌, ◌<◌, ◌≡◌, Bool, true, false, not, ◌&&◌, List,
  ltb, leb, ◌==◌, u32, arith, Bool-cases, inl, inr, refl, sym, subst,
}
use pico_bootrom_rp.Driver.{
  SpiOp, and_bits, flash_user_erase, flash_sector_erase, erase_blocks, flash_range_erase,
}

-- The number is a multiple of `2 ^ k`.
pub record IsMultiple (k a : ℕ) : Type 0 where
  pub quotient : ℕ
  pub is_product : a ≡ quotient * 2 ^ k

pow-positive : (k : ℕ) → 1 ≤ 2 ^ k
pow-positive zero = omega arith
pow-positive (suc k) = omega (arith, pow-positive k)

pow-below : (k n : ℕ) → k < n → 2 ^ k < 2 ^ n
pow-below zero zero less = absurd (omega arith)
pow-below (suc k) zero less = absurd (omega arith)
pow-below zero (suc n) less = omega (arith, pow-positive n)
pow-below (suc k) (suc n) less = omega (arith, pow-below k n (omega arith))

pow-sectors : (k : ℕ) → 12 ≤ k → 2 ^ k % 4096 ≡ 0
pow-sectors zero large = absurd (omega arith)
pow-sectors (suc k) large = elim (dec_lt k 12) [
  | yes small ↦ let last : k ≡ 11 = omega arith in subst (λ n. 2 ^ suc n % 4096 ≡ 0) (sym last) refl
  | no more ↦ omega (arith, pow-sectors k (omega arith))
]

double-product : (a q k : ℕ) → a / 2 ≡ q * 2 ^ k → a % 2 ≡ 0 → a ≡ q * 2 ^ suc k
double-product a q k half even =
    let twice : 2 ^ suc k ≡ 2 ^ k * 2 = omega arith in
    let product : q * (2 ^ k * 2) ≡ q * 2 ^ k * 2 = sym (mul_assoc q (2 ^ k) 2) in
    rw twice (rw product (omega arith))

-- A number whose low `k` bits are clear.
and_bits-IsMultiple :
    (n k a mask : ℕ) → k ≤ n → mask + 1 ≡ 2 ^ k → and_bits n a mask ≡ 0 → IsMultiple k a
unfolding and_bits
and_bits-IsMultiple n zero a mask small full clear = record {
  quotient = a;
  is_product = omega arith;
}
and_bits-IsMultiple zero (suc k) a mask small full clear = absurd (omega arith)
and_bits-IsMultiple (suc n) (suc k) a mask small full clear =
    let positive = pow-positive k in
    let odd : mask % 2 ≡ 1 = omega (arith, positive) in
    let even : a % 2 ≡ 0 = ground (arith, clear, odd) in
    let rest : and_bits n (a / 2) (mask / 2) ≡ 0 = ground (arith, clear) in
    let half = and_bits-IsMultiple n k (a / 2) (mask / 2) (omega arith) (omega arith) rest in
    record {
      quotient = half.quotient;
      is_product = double-product a half.quotient k half.is_product even;
    }

-- The transfers `after` follow `before` with erasures that cover the addresses from `addr` to `end`
-- without a gap, in order, each sector at a multiple of its size, each block at a multiple of the
-- block size `2 ^ k` and each at an address of 24 bits.
pub data Covers (k block_cmd : ℕ) : ℕ → ℕ → List SpiOp → List SpiOp → Type 0 where
  nothing : {addr : ℕ} {log : List SpiOp} → Covers k block_cmd addr addr log log
  sector :
      {addr end : ℕ} {log after : List SpiOp}
      → addr % 4096 ≡ 0
      → addr < 0x1000000
      → Covers k block_cmd (addr + 4096) end (flash_sector_erase addr log) after
      → Covers k block_cmd addr end log after
  block :
      {addr end : ℕ} {log after : List SpiOp}
      → IsMultiple k addr
      → addr < 0x1000000
      → Covers k block_cmd (addr + 2 ^ k) end (flash_user_erase addr block_cmd log) after
      → Covers k block_cmd addr end log after

-- The erasures reach the goal, and end less than a sector behind it.
pub record Reaches (k block_cmd addr goal : ℕ) (log after : List SpiOp) : Type 0 where
  pub end : ℕ
  pub covers : Covers k block_cmd addr end log after
  pub complete : goal ≤ end
  pub tight : end < goal + 4096

module _ {k cmd addr goal : ℕ} {log after : List SpiOp} where
  Reaches-sector :
      addr % 4096 ≡ 0
      → addr < 0x1000000
      → Reaches k cmd (addr + 4096) goal (flash_sector_erase addr log) after
      → Reaches k cmd addr goal log after
  Reaches-sector whole low r = record {
    end = r.end;
    covers = sector whole low r.covers;
    complete = r.complete;
    tight = r.tight;
  }

  Reaches-block :
      IsMultiple k addr
      → addr < 0x1000000
      → Reaches k cmd (addr + 2 ^ k) goal (flash_user_erase addr cmd log) after
      → Reaches k cmd addr goal log after
  Reaches-block whole low r = record {
    end = r.end;
    covers = block whole low r.covers;
    complete = r.complete;
    tight = r.tight;
  }

-- What the loop tests before it erases a block.
abbrev takes_block : ℕ → ℕ → ℕ → Bool
takes_block addr goal bs = and_bits 32 addr (u32 (bs + (2 ^ 32 - 1))) == 0 && leb bs (goal - addr)

takes_block-IsMultiple :
    (k addr goal : ℕ)
    → k < 32
    → takes_block addr goal (2 ^ k) ≡ true
    → IsMultiple k addr × (2 ^ k ≤ goal - addr)
takes_block-IsMultiple k addr goal width h =
    let positive = pow-positive k in
    let bounded : 2 ^ k < 2 ^ 32 = pow-below k 32 width in
    let both : (and_bits 32 addr (u32 (2 ^ k + (2 ^ 32 - 1))) ≡ 0) × (2 ^ k ≤ goal - addr) =
      (ground (arith, h), ground (arith, h)) in
    (
      and_bits-IsMultiple 32 k addr (u32 (2 ^ k + (2 ^ 32 - 1))) (omega arith) (omega arith) both.0,
      both.1,
    )

module _ (aborted : List SpiOp → Bool) (k cmd : ℕ) where
  erase_blocks-Reaches :
      ((log : List SpiOp) → aborted log ≡ false)
      → 12 ≤ k
      → k < 32
      → (fuel addr goal : ℕ) (log : List SpiOp) → addr ≤ goal + 4095
      → goal ≤ 0x1000000
      → goal < addr + fuel * 4096
      → addr % 4096 ≡ 0
      → Reaches k cmd addr goal log (erase_blocks aborted fuel addr goal (2 ^ k) cmd log)
  unfolding erase_blocks
  erase_blocks-Reaches calm sectors width zero addr goal log near fits enough whole = record {
    end = addr;
    covers = nothing;
    complete = omega arith;
    tight = omega arith;
  }
  erase_blocks-Reaches calm sectors width (suc fuel) addr goal log near fits enough whole =
      let quiet = calm log in
      let whole_sectors = pow-sectors k sectors in
      let positive = pow-positive k in
      elim (dec_lt addr goal) [
        | no past ↦
            let stop : (ltb addr goal && not (aborted log)) ≡ false = ground arith in
            rw (stop, erase_blocks)
              (record { end = addr; covers = nothing; complete = omega arith; tight = omega arith })
        | yes more ↦
            let go : (ltb addr goal && not (aborted log)) ≡ true = ground (arith, quiet) in
            elim (Bool-cases (takes_block addr goal (2 ^ k))) [
              | inl takes ↦
                  let fact = takes_block-IsMultiple k addr goal width takes in
                  let room = fact.1 in
                  let wrap : u32 (addr + 2 ^ k) ≡ addr + 2 ^ k = omega arith in
                  rw (go, takes, wrap, erase_blocks)
                    (Reaches-block fact.0 (omega arith) (
                      erase_blocks-Reaches calm sectors width fuel (addr + 2 ^ k) goal
                        (flash_user_erase addr cmd log) (omega arith) fits (omega arith)
                        (omega arith)))
              | inr part ↦
                  let wrap : u32 (addr + 4096) ≡ addr + 4096 = omega arith in
                  rw (go, part, wrap, erase_blocks)
                    (Reaches-sector whole (omega arith) (
                      erase_blocks-Reaches calm sectors width fuel (addr + 4096) goal
                        (flash_sector_erase addr log) (omega arith) fits (omega arith)
                        (omega arith)))
            ]
      ]

  -- The erasure of a range of flash that begins at a sector and ends within 16 MB leaves no gap, if
  -- the block size is a power of two of 32 bits and of at least a sector, and it is not aborted. It
  -- erases from the first address to the end of the range, in whole sectors at multiples of their
  -- size and in blocks at multiples of theirs, and less than a sector more. Each address has 24 bits,
  -- as the assertion of `flash_user_erase` asks.
  pub flash_range_erase-Reaches :
      (addr count : ℕ) (log : List SpiOp)
      → ((history : List SpiOp) → aborted history ≡ false)
      → 12 ≤ k
      → k < 32
      → addr + count ≤ 0x1000000
      → addr % 4096 ≡ 0
      → Reaches k cmd addr (addr + count) log (flash_range_erase aborted addr count (2 ^ k) cmd log)
  unfolding flash_range_erase
  flash_range_erase-Reaches addr count log calm sectors width fits whole =
      let wrap : u32 (addr + count) ≡ addr + count = omega arith in
      rw wrap (
        erase_blocks-Reaches calm sectors width (count / 4096 + 2) addr (addr + count) log
          (omega arith) fits (omega arith) whole)
