-- ===== src/Volume/Bytes.antt =====
-- Copies within a buffer keep its length and the part of it behind them.
use pico_bootrom_rp.Common.{
  ℕ, zero, suc, ◌+◌, ◌≤◌, ◌≡◌, refl, ap, List, [], ◌∷◌, ◌++◌, take, drop, length, arith,
}
use pico_bootrom_rp.Volume.{memcpy_at}

pub length-memcpy_at :
    (at : ℕ) (bytes buf : List ℕ)
    → at + length bytes ≤ length buf
    → length (memcpy_at at bytes buf) ≡ length buf
unfolding memcpy_at
length-memcpy_at zero [] buf h = refl
length-memcpy_at zero (b ∷ bytes) [] h = absurd (omega arith)
length-memcpy_at (suc at) bytes [] h = absurd (omega arith)
length-memcpy_at zero (b ∷ bytes) (x ∷ buf) h =
    ap suc (length-memcpy_at zero bytes buf (omega arith))
length-memcpy_at (suc at) bytes (x ∷ buf) h = ap suc (length-memcpy_at at bytes buf (omega arith))

-- A copy that ends within the first part of a buffer.
pub memcpy_at-append :
    (at : ℕ) (bytes buf rest : List ℕ)
    → at + length bytes ≤ length buf
    → memcpy_at at bytes (buf ++ rest) ≡ memcpy_at at bytes buf ++ rest
unfolding memcpy_at
memcpy_at-append zero [] buf rest h = refl
memcpy_at-append zero (b ∷ bytes) [] rest h = absurd (omega arith)
memcpy_at-append (suc at) bytes [] rest h = absurd (omega arith)
memcpy_at-append zero (b ∷ bytes) (x ∷ buf) rest h =
    ap (λ (l : List ℕ). b ∷ l) (memcpy_at-append zero bytes buf rest (omega arith))
memcpy_at-append (suc at) bytes (x ∷ buf) rest h =
    ap (λ (l : List ℕ). x ∷ l) (memcpy_at-append at bytes buf rest (omega arith))

-- A copy to the start of a buffer.
pub memcpy_at-start :
    (bytes buf : List ℕ)
    → length bytes ≤ length buf
    → memcpy_at 0 bytes buf ≡ bytes ++ drop (length bytes) buf
unfolding memcpy_at
memcpy_at-start [] buf h = refl
memcpy_at-start (b ∷ bytes) [] h = absurd (omega arith)
memcpy_at-start (b ∷ bytes) (x ∷ buf) h =
    ap (λ (l : List ℕ). b ∷ l) (memcpy_at-start bytes buf (omega arith))

pub take-append : (xs ys : List ℕ) → take (length xs) (xs ++ ys) ≡ xs
take-append [] ys = refl
take-append (x ∷ xs) ys = ap (λ (l : List ℕ). x ∷ l) (take-append xs ys)
