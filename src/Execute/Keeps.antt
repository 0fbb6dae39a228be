-- ===== src/Execute/Keeps.antt =====
-- Reasoning about the pieces of `_execute_task`: a property of the machine that every piece keeps,
-- whether it goes on or returns, is kept by the pieces put one after the other.
use pico_bootrom_rp.Common.{ℕ, Bool, true, false, Option, none, some, ◌≡◌, ◌==◌, if-by, refl}
use pico_bootrom_rp.Machine.{Machine}
use pico_bootrom_rp.Execute.{Piece, resume, ◌then_◌, when, checked}

-- The piece `f` keeps the property `P`.
pub data Keeps (P : Machine → Type 0) (f : Piece) : Type 0 where
  keeps : ((m : Machine) → P m → P (f m).0) → Keeps P f

pub apply : {P : Machine → Type 0} {f : Piece} → Keeps P f → (m : Machine) → P m → P (f m).0
apply (keeps h) = h

pub Keeps-checked :
    (P : Machine → Type 0) (f : Machine → Machine × ℕ) (m : Machine) → P (f m).0 → P (checked f m).0
unfolding checked
Keeps-checked P f m p =
    if-by (λ (r : Machine × Option ℕ). P r.0) ((f m).1 == 0) ((f m).0, none) ((f m).0, some (f m).1)
      (λ _. p) (λ _. p)

module _ {P : Machine → Type 0} where
  Keeps-resume :
      (r : Machine × Option ℕ) (g : Piece) → P r.0 → (r.1 ≡ none → Keeps P g) → P (resume r g).0
  unfolding resume
  Keeps-resume (m, none) g p k = apply (k refl) m p
  Keeps-resume (m, some c) g p k = p

  pub Keeps-then : {f g : Piece} → Keeps P f → Keeps P g → Keeps P (f then_ g)
  unfolding ◌then_◌
  Keeps-then {f} {g} hf hg = keeps λ m p. Keeps-resume (f m) g (apply hf m p) (λ _. hg)

  pub Keeps-when : {b : Bool} {f : Piece} → (b ≡ true → Keeps P f) → Keeps P (when b f)
  unfolding when
  Keeps-when {b = true} h = keeps λ m p. apply (h refl) m p
  Keeps-when {b = false} h = keeps λ m p. p

  -- A guard that leaves the machine alone, and goes on only where `G` holds.
  pub Keeps-guard :
      (G : Type 0) {f g : Piece}
      → ((m : Machine) → (f m).0 ≡ m)
      → ((m : Machine) → (f m).1 ≡ none → G)
      → (G → Keeps P g)
      → Keeps P (f then_ g)
  unfolding ◌then_◌
  Keeps-guard G {f} {g} same holds h =
      keeps λ m p. Keeps-resume (f m) g (rw (same m) p) (λ e. h (holds m e))
