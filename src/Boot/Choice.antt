-- ===== src/Boot/Choice.antt =====
-- What `main` boots into.
use pico_bootrom_rp.Common.{
  ℕ, zero, suc, ◌+◌, ◌≤◌, ◌<◌, ◌≡◌, ◌⊎◌, inl, inr, refl, Bool, true, false, not, List, Option, none,
  some, leb, arith, Bool-cases,
}
use native.Mathlib.Decide.{dec_lt}
use pico_bootrom_rp.Boot.{
  Outcome, boot2, checks, attempted, flash_boot_from, flash_boot, sample_sum, usb_boot_setup,
  boot_after, main,
}
use pico_bootrom_rp.Boot.ClockSetup.{Clocks, Crystal}

sample_sum-not :
    (pin : ℕ → Bool) (i left : ℕ)
    → sample_sum pin i left + sample_sum (λ k. not (pin k)) i left ≡ left
unfolding sample_sum
sample_sum-not pin i zero = refl
sample_sum-not pin i (suc left) = ground (arith, sample_sum-not pin (i + 1) left)

-- More of the samples are high than low, and the other way round.
abbrev pub MostlyHigh : (ℕ → Bool) → Type 0
MostlyHigh pin = sample_sum (λ k. not (pin k)) 0 9 < sample_sum pin 0 9

abbrev pub MostlyLow : (ℕ → Bool) → Type 0
MostlyLow pin = sample_sum pin 0 9 < sample_sum (λ k. not (pin k)) 0 9

-- The first attempt, from `from` on, whose checksum is right.
pub record IsFirst (flash : ℕ → ℕ → List ℕ) (from bound k : ℕ) : Type 0 where
  pub from_le : from ≤ k
  pub below : k < bound
  pub right : checks (attempted flash k) ≡ true
  pub before : (j : ℕ) → from ≤ j → j < k → checks (attempted flash j) ≡ false

abbrev pub AllWrong : (ℕ → ℕ → List ℕ) → ℕ → ℕ → Type 0
AllWrong flash from bound = (j : ℕ) → from ≤ j → j < bound → checks (attempted flash j) ≡ false

-- What the loop finds.
abbrev Finds : (ℕ → ℕ → List ℕ) → ℕ → ℕ → Option (List ℕ) → Type 0
Finds flash from bound o =
    ((k : ℕ) × IsFirst flash from bound k × (o ≡ some (attempted flash k)))
    ⊎ (AllWrong flash from bound × (o ≡ none))

wrong_from :
    (flash : ℕ → ℕ → List ℕ) (from j : ℕ)
    → checks (attempted flash from) ≡ false
    → (from < j → checks (attempted flash j) ≡ false)
    → from ≤ j
    → checks (attempted flash j) ≡ false
wrong_from flash from j e later l = elim (dec_lt from j) [
  | yes p ↦ later p
  | no p ↦ let same : from ≡ j = omega arith in rw (← same) e
]

-- An attempt that fails before the others.
Finds-later :
    (flash : ℕ → ℕ → List ℕ) (attempt left : ℕ) (o : Option (List ℕ))
    → checks (attempted flash attempt) ≡ false
    → Finds flash (attempt + 1) (attempt + 1 + left) o
    → Finds flash attempt (attempt + suc left) o
Finds-later flash attempt left o e (inl (k, first, found)) = inl (
  k,
  let from_le = first.from_le in
      let below = first.below in
      record {
        from_le = omega arith;
        below = omega arith;
        right = first.right;
        before = λ j l b. wrong_from flash attempt j e (λ p. first.before j (omega arith) b) l;
      },
  found,
)
Finds-later flash attempt left o e (inr (wrong, nothing)) =
    inr
      (λ j l b. wrong_from flash attempt j e (λ p. wrong j (omega arith) (omega arith)) l, nothing)

flash_boot_from-Finds :
    (flash : ℕ → ℕ → List ℕ) (attempt left : ℕ)
    → Finds flash attempt (attempt + left) (flash_boot_from flash attempt left)
unfolding flash_boot_from
flash_boot_from-Finds flash attempt zero = inr (λ j l b. absurd (omega arith), refl)
flash_boot_from-Finds flash attempt (suc left) =
    let later = flash_boot_from-Finds flash (attempt + 1) left in
    elim (Bool-cases (checks (attempted flash attempt))) [
      | inl e ↦
          rw (e, flash_boot_from)
            (inl (
              attempt,
              record {
                from_le = omega arith;
                below = omega arith;
                right = e;
                before = λ j l b. absurd (omega arith);
              },
              refl,
            ))
      | inr e ↦ rw (e, flash_boot_from) (Finds-later flash attempt left _ e later)
    ]

abbrev pub Chosen : Bool → Crystal → (ℕ → Bool) → (ℕ → ℕ → List ℕ) → Clocks → Outcome → Type 0
Chosen fpga crystal pin flash c outcome =
    (MostlyHigh pin × ((k : ℕ) × IsFirst flash 0 128 k × (outcome ≡ boot2 (attempted flash k) 0)))
    ⊎ ((MostlyLow pin ⊎ AllWrong flash 0 128) × (outcome ≡ usb_boot_setup fpga crystal 0 0 c))

main-high :
    (fpga : Bool) (crystal : Crystal) (pin : ℕ → Bool) (flash : ℕ → ℕ → List ℕ) (c : Clocks)
    (o : Option (List ℕ))
    → MostlyHigh pin
    → Finds flash 0 128 o
    → Chosen fpga crystal pin flash c (boot_after fpga crystal c o)
unfolding boot_after
main-high fpga crystal pin flash c o m (inl (k, first, found)) =
    inl (m, (k, first, rw (found, boot_after) refl))
main-high fpga crystal pin flash c o m (inr (wrong, nothing)) =
    inr (inr wrong, rw (nothing, boot_after) refl)

-- With most of nine samples of the pin high, the chip enters the second stage of the first of 128
-- attempts whose checksum is right, with exit pointer 0; if there is none, or the samples are not mostly
-- high, it sets up the USB boot with no pin mask and all interfaces.
pub main-Chosen :
    (fpga : Bool) (crystal : Crystal) (pin : ℕ → Bool) (flash : ℕ → ℕ → List ℕ) (c : Clocks)
    → Chosen fpga crystal pin flash c (main fpga crystal pin flash c)
unfolding main flash_boot boot_after
main-Chosen fpga crystal pin flash c =
    let votes = sample_sum-not pin 0 9 in
    elim (Bool-cases (leb 5 (sample_sum pin 0 9))) [
      | inl e ↦ rw e (
          main-high fpga crystal pin flash c (flash_boot_from flash 0 128) (ground arith)
            (flash_boot_from-Finds flash 0 128))
      | inr e ↦ rw e (inr (inl (ground arith), refl))
    ]
