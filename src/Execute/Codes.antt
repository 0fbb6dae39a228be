-- ===== src/Execute/Codes.antt =====
-- How the pieces of `_execute_task` end: the status code of each, put together.
use pico_bootrom_rp.Common.{
  ℕ, Bool, true, false, Option, none, some, ◌≡◌, refl, subst, if◌then◌else◌,
}
use pico_bootrom_rp.Machine.{Machine}
use pico_bootrom_rp.Execute.{Piece, resume, ◌then_◌, when, checked}

-- From a machine with `P`, the piece ends with this code, in a machine with `Q`.
pub data Ends (P Q : Machine → Type 0) (f : Piece) (code : Option ℕ) : Type 0 where
  ends : ((m : Machine) → P m → ((f m).1 ≡ code) × Q (f m).0) → Ends P Q f code

-- The same, where the machine that it ends in does not matter.
pub data Codes (P : Machine → Type 0) (f : Piece) (code : Option ℕ) : Type 0 where
  codes : ((m : Machine) → P m → (f m).1 ≡ code) → Codes P f code

pub run :
    {P : Machine → Type 0} {f : Piece} {code : Option ℕ}
    → Codes P f code
    → (m : Machine) → P m
    → (f m).1 ≡ code
run (codes h) = h

abbrev pub or_else : Option ℕ → Option ℕ → Option ℕ
or_else none d = d
or_else (some c) d = some c

resume-or_else :
    (r : Machine × Option ℕ) (g : Piece) (d : Option ℕ)
    → (r.1 ≡ none → (g r.0).1 ≡ d)
    → (resume r g).1 ≡ or_else r.1 d
unfolding resume
resume-or_else (m, none) g d h = h refl
resume-or_else (m, some c) g d h = refl

pub Codes-then :
    {P Q : Machine → Type 0} {f g : Piece} {c d : Option ℕ}
    → Ends P Q f c
    → Codes Q g d
    → Codes P (f then_ g) (or_else c d)
unfolding ◌then_◌
Codes-then {f} {g} {d} (ends hf) (codes hg) =
    codes λ m p. rw (← (hf m p).0) (resume-or_else (f m) g d (λ _. hg (f m).0 (hf m p).1))

-- `code` where the test holds, else none.
unfoldable pub only : Bool → Option ℕ → Option ℕ
only test code = if test then code else none

pub Codes-when :
    {P : Machine → Type 0} (b : Bool) {f : Piece} {c : Option ℕ}
    → Codes P f c
    → Codes P (when b f) (only b c)
unfolding when only
Codes-when true h = h
Codes-when false h = codes λ m p. refl

pub Ends-when :
    {P Q : Machine → Type 0} (b : Bool) {f : Piece} {c : Option ℕ}
    → ((m : Machine) → P m → Q m)
    → Ends P Q f c
    → Ends P Q (when b f) (only b c)
unfolding when only
Ends-when true w h = h
Ends-when false w h = ends λ m p. (refl, w m p)

pub only-none : (b : Bool) → only b none ≡ none
unfolding only
only-none true = refl
only-none false = refl

pub or_else-none : (c : Option ℕ) → or_else c none ≡ c
or_else-none none = refl
or_else-none (some c) = refl

pub Codes-eq :
    {P : Machine → Type 0} {f : Piece} {c d : Option ℕ} → c ≡ d → Codes P f c → Codes P f d
Codes-eq {P} {f} e h = subst (Codes P f) e h

pub Ends-skip : {P : Machine → Type 0} {b : Bool} (f : Piece) → b ≡ false → Ends P P (when b f) none
unfolding when
Ends-skip {b = true} f e = absurd (cc)
Ends-skip {b = false} f e = ends λ m p. (refl, p)

pub checked-zero :
    (f : Machine → Machine × ℕ) (m : Machine) → (f m).1 ≡ 0 → checked f m ≡ ((f m).0, none)
unfolding checked
checked-zero f m e = rw (e, checked)

pub Ends-checked :
    (P Q : Machine → Type 0) (f : Machine → Machine → Machine × ℕ)
    → ((m : Machine) → P m → ((f m m).1 ≡ 0) × Q (f m m).0)
    → Ends P Q (λ m. checked (f m) m) none
unfolding checked
Ends-checked P Q f h = ends λ m p. rw ((h m p).0, checked) (refl, (h m p).1)

-- The table in ROM is in force, and the last mutation came from `last`.
pub record IsRom (m : Machine) : Type 0 where
  pub rom : m.flash_funcs ≡ none

pub record IsLast (last : ℕ) (m : Machine) : Type 0 where
  pub rom : m.flash_funcs ≡ none
  pub from : m.last_mutation_source ≡ last
