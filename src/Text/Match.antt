-- ===== src/Text/Match.antt =====
-- What the search of `compress` finds is a repetition that a pair of bytes can express.
use pico_bootrom_rp.Common.{
  ℕ, zero, suc, ◌+◌, ◌-◌, ◌≤◌, ◌<◌, ◌≡◌, true, Option, none, some, List, leb, if-by, arith, subst,
  Option-cases, inl, inr, Bool-cases, leb→le,
}
use pico_bootrom_rp.Text.{same_bytes, find_from, find_match}

-- The result of a search for a repetition at `to`.
pub data IsFrom (src : List ℕ) (to n first last : ℕ) : Option ℕ → Type 0 where
  nowhere : IsFrom src to n first last none
  at :
      {from : ℕ}
      → first ≤ from
      → from < last
      → same_bytes src from to n ≡ true
      → IsFrom src to n first last (some from)

later-IsFrom :
    {src : List ℕ} {to n first last : ℕ} (r : Option ℕ)
    → IsFrom src to n (first + 1) last r
    → IsFrom src to n first last r
later-IsFrom none nowhere = nowhere
later-IsFrom (some from) (at a b s) = at (omega arith) b s

find_from-IsFrom :
    (src : List ℕ) (to n from left : ℕ)
    → IsFrom src to n from (from + left) (find_from src to n from left)
unfolding find_from
find_from-IsFrom src to n from zero = nowhere
find_from-IsFrom src to n from (suc left) =
    if-by (IsFrom src to n from (from + suc left)) (same_bytes src from to n) _ _
      (λ s. at (omega arith) (omega arith) s)
      (λ _. later-IsFrom _ (
        subst (λ last. IsFrom src to n (from + 1) last (find_from src to n (from + 1) left))
          (omega arith) (find_from-IsFrom src to n (from + 1) left)))

pub data IsMatch (src : List ℕ) (to most : ℕ) : Option (ℕ × ℕ) → Type 0 where
  no_match : IsMatch src to most none
  match :
      {n from : ℕ}
      → 3 ≤ n
      → n ≤ most
      → from < to
      → to ≤ from + 255
      → same_bytes src from to n ≡ true
      → IsMatch src to most (some (n, from))

IsMatch-of :
    {src : List ℕ} {to n first last most from : ℕ}
    → IsFrom src to n first last (some from)
    → 3 ≤ n
    → n ≤ most
    → last ≤ to
    → to ≤ first + 255
    → IsMatch src to most (some (n, from))
IsMatch-of (at a b s) lo hi l f = match lo hi (omega arith) (omega arith) s

pub find_match-IsMatch :
    (src : List ℕ) (to n most : ℕ) → n ≤ most → IsMatch src to most (find_match src to n)
unfolding find_match
find_match-IsMatch src to zero most h = no_match
find_match-IsMatch src to (suc n) most h = elim (Bool-cases (leb 3 (suc n))) [
  | inr short ↦ rw (short, find_match) no_match
  | inl long ↦
      let first = to - 255 in
      let found = find_from-IsFrom src to (suc n) first (to - first) in
      elim (Option-cases (find_from src to (suc n) first (to - first))) [
        | inl e ↦ rw (long, e, find_match) (find_match-IsMatch src to n most (omega arith))
        | inr (from, e) ↦
            rw (long, e, find_match)
              (IsMatch-of (subst (IsFrom src to (suc n) first (first + (to - first))) e found)
                (leb→le 3 (suc n) long) h (omega arith) (omega arith))
      ]
]

-- The facts about a repetition that has been found.
pub match-facts :
    {src : List ℕ} {to most n from : ℕ}
    → IsMatch src to most (some (n, from))
    → (n ≤ most) × ((from < to) × (same_bytes src from to n ≡ true))
match-facts (match lo hi before near same) = (hi, (before, same))
