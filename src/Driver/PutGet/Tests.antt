-- ===== src/Driver/PutGet/Tests.antt =====
-- A read of three bytes behind a command of one byte.
use pico_bootrom_rp.Common.{ℕ, ◌*◌, ◌≤◌, ◌≡◌, refl, [], ◌∷◌, false, drop, arith}
use pico_bootrom_rp.Driver.PutGet.{
  Exchange, has_tx_level, finished, proceed, Steps, clocks, proceeds, here, next, begin_exchange,
  goes_on, is_empty, clock_byte,
}
use pico_bootrom_rp.Driver.PutGet.Loop.{in_flight}
use pico_bootrom_rp.Driver.PutGet.Answers.{answers}
use pico_bootrom_rp.Driver.PutGet.Result.{AtEnd, flash_put_get-IsSafe, flash_put_get-ends}

abbrev chip : ℕ → ℕ
chip n = 7 * n

abbrev begun : Exchange
begun = begin_exchange (0x9f ∷ []) (1 ∷ 2 ∷ 3 ∷ [])

-- The command was sent on, and the loop has read its condition and the level of the TX FIFO.
abbrev running : Exchange
running = record begun {
  link = record { tx = []; inside = 0 ∷ []; rx = []; clocked = 0x9f ∷ []; overflowed = false };
  place = has_tx_level 0;
}

begun-running : Steps chip begun running
unfolding begin_exchange proceed clock_byte goes_on is_empty
begun-running = next (next here (clocks begun 0x9f [] refl (omega arith))) (proceeds _ false)

answers_test : drop 1 (answers chip 4) ≡ 7 ∷ 14 ∷ 21 ∷ []
unfolding answers
answers_test = refl

flash_put_get-IsSafe_example :
    (running.link.overflowed ≡ false)
    × (in_flight running.link ≤ 16)
    × AtEnd running.place chip (0x9f ∷ []) (1 ∷ 2 ∷ 3 ∷ []) running
flash_put_get-IsSafe_example =
    flash_put_get-IsSafe chip (0x9f ∷ []) (1 ∷ 2 ∷ 3 ∷ []) running (omega arith) begun-running

flash_put_get-ends_example :
    (v : Exchange) × Steps chip running v
    × (v.place ≡ finished false)
    × (v.link.overflowed ≡ false)
    × (v.link.clocked ≡ 0x9f ∷ 1 ∷ 2 ∷ 3 ∷ [])
    × (v.received ≡ drop 1 (answers chip 4))
flash_put_get-ends_example =
    flash_put_get-ends chip (0x9f ∷ []) (1 ∷ 2 ∷ 3 ∷ []) running (omega arith) begun-running
      (λ e. cc)
