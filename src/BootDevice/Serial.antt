-- ===== src/BootDevice/Serial.antt =====
-- The serial number of the boot device.
use pico_bootrom_rp.Common.{
  ℕ, zero, suc, ◌+◌, ◌-◌, ◌*◌, ◌/◌, ◌<◌, ◌≡◌, ◌∙◌, ap, refl, Bool, true, ◌&&◌, ◌||◌, List, [], ◌∷◌,
  ◌++◌, ltb, leb, if◌then◌else◌, u32, length, length-append, arith,
}
use pico_bootrom_rp.BootDevice.{
  to_hex_digit, write_hex_chars, write_six_msb_hex_chars, serial_number_string,
}

-- '0' to '9' and 'A' to 'F', which are all that the mass storage class allows in a serial number.
unfoldable pub is_upper_hex : ℕ → Bool
is_upper_hex c = leb 0x30 c && leb c 0x39 || leb 0x41 c && leb c 0x46

unfoldable pub all_upper_hex : List ℕ → Bool
all_upper_hex [] = true
all_upper_hex (c ∷ cs) = is_upper_hex c && all_upper_hex cs

unfoldable pub digit_value : ℕ → ℕ
digit_value c = if ltb c 0x41 then c - 0x30 else c - 0x41 + 10

-- The number that digits stand for, behind those of `so_far`.
unfoldable pub hex_value : ℕ → List ℕ → ℕ
hex_value so_far [] = so_far
hex_value so_far (c ∷ cs) = hex_value (so_far * 0x10 + digit_value c) cs

digit_value-to_hex_digit : (x : ℕ) → x < 16 → digit_value (to_hex_digit x) ≡ x
unfolding digit_value to_hex_digit
digit_value-to_hex_digit x h = ground arith

is_upper_hex-to_hex_digit : (x : ℕ) → x < 16 → is_upper_hex (to_hex_digit x) ≡ true
unfolding is_upper_hex to_hex_digit
is_upper_hex-to_hex_digit x h = ground arith

all_upper_hex-write_hex_chars :
    (n val : ℕ) → val < 0x1_0000_0000 → all_upper_hex (write_hex_chars n val) ≡ true
unfolding all_upper_hex write_hex_chars
all_upper_hex-write_hex_chars zero val h = refl
all_upper_hex-write_hex_chars (suc n) val h =
    let digit = is_upper_hex-to_hex_digit (val / 0x1000_0000) (omega arith) in
    let rest = all_upper_hex-write_hex_chars n (u32 (val * 0x10)) (omega arith) in rw (digit, rest)

hex_value-write_hex_chars :
    (n val so_far : ℕ)
    → val < 0x1_0000_0000
    → hex_value so_far (write_hex_chars (suc n) val)
      ≡ hex_value (so_far * 0x10 + val / 0x1000_0000) (write_hex_chars n (u32 (val * 0x10)))
unfolding hex_value write_hex_chars
hex_value-write_hex_chars n val so_far h =
    ap (λ (d : ℕ). hex_value (so_far * 0x10 + d) (write_hex_chars n (u32 (val * 0x10))))
      (digit_value-to_hex_digit (val / 0x1000_0000) (omega arith))

-- What a round takes off the top of the word, and what it leaves.
split_val :
    (v : ℕ) → v < 0x1_0000_0000 → v * 0x10 ≡ v / 0x1000_0000 * 0x1_0000_0000 + u32 (v * 0x10)
split_val v h = omega arith

sum_of_digits :
    (s v v1 v2 v3 v4 v5 v6 a b c d e f : ℕ)
    → v * 0x10 ≡ a * 0x1_0000_0000 + v1
    → v1 * 0x10 ≡ b * 0x1_0000_0000 + v2
    → v2 * 0x10 ≡ c * 0x1_0000_0000 + v3
    → v3 * 0x10 ≡ d * 0x1_0000_0000 + v4
    → v4 * 0x10 ≡ e * 0x1_0000_0000 + v5
    → v5 * 0x10 ≡ f * 0x1_0000_0000 + v6
    → v6 < 0x1_0000_0000
    → (((((s * 0x10 + a) * 0x10 + b) * 0x10 + c) * 0x10 + d) * 0x10 + e) * 0x10 + f
      ≡ s * 0x100_0000 + v / 0x100
sum_of_digits s v v1 v2 v3 v4 v5 v6 a b c d e f e0 e1 e2 e3 e4 e5 h = omega arith

hex_value-write_six_msb_hex_chars :
    (val so_far : ℕ)
    → val < 0x1_0000_0000
    → hex_value so_far (write_six_msb_hex_chars val) ≡ so_far * 0x100_0000 + val / 0x100
unfolding write_six_msb_hex_chars hex_value write_hex_chars
hex_value-write_six_msb_hex_chars v s h =
    let v1 = u32 (v * 0x10) in
    let v2 = u32 (v1 * 0x10) in
    let v3 = u32 (v2 * 0x10) in
    let v4 = u32 (v3 * 0x10) in
    let v5 = u32 (v4 * 0x10) in
    let e0 = split_val v h in
    let e1 = split_val v1 (omega arith) in
    let e2 = split_val v2 (omega arith) in
    let e3 = split_val v3 (omega arith) in
    let e4 = split_val v4 (omega arith) in
    let e5 = split_val v5 (omega arith) in
    hex_value-write_hex_chars 5 v s h
    ∙ (hex_value-write_hex_chars 4 v1 _ (omega arith)
        ∙ (hex_value-write_hex_chars 3 v2 _ (omega arith)
            ∙ (hex_value-write_hex_chars 2 v3 _ (omega arith)
                ∙ (hex_value-write_hex_chars 1 v4 _ (omega arith)
                    ∙ (hex_value-write_hex_chars 0 v5 _ (omega arith)
                        ∙ sum_of_digits s v v1 v2 v3 v4 v5 (u32 (v5 * 0x10)) _ _ _ _ _ _ e0 e1 e2 e3
                            e4 e5 (omega arith))))))

length-write_hex_chars : (n val : ℕ) → length (write_hex_chars n val) ≡ n
unfolding write_hex_chars
length-write_hex_chars zero val = refl
length-write_hex_chars (suc n) val = ap suc (length-write_hex_chars n (u32 (val * 0x10)))

all_upper_hex-append :
    (xs ys : List ℕ) → all_upper_hex (xs ++ ys) ≡ (all_upper_hex xs && all_upper_hex ys)
unfolding all_upper_hex
all_upper_hex-append [] ys = refl
all_upper_hex-append (x ∷ xs) ys = let rest = all_upper_hex-append xs ys in ground arith

hex_value-append :
    (so_far : ℕ) (xs ys : List ℕ) → hex_value so_far (xs ++ ys) ≡ hex_value (hex_value so_far xs) ys
unfolding hex_value
hex_value-append so_far [] ys = refl
hex_value-append so_far (x ∷ xs) ys = hex_value-append (so_far * 0x10 + digit_value x) xs ys

-- For two 32-bit revisions, the serial number has twelve characters, all of them digits or
-- upper-case letters up to F, and is as a number the two revisions without their low bytes, one
-- behind the other.
pub serial_number_string-value :
    (gitref software_git_revision : ℕ)
    → gitref < 0x1_0000_0000
    → software_git_revision < 0x1_0000_0000
    → (length (serial_number_string gitref software_git_revision) ≡ 12)
      × (all_upper_hex (serial_number_string gitref software_git_revision) ≡ true)
      × (hex_value 0 (serial_number_string gitref software_git_revision)
          ≡ gitref / 0x100 * 0x100_0000 + software_git_revision / 0x100)
unfolding serial_number_string write_six_msb_hex_chars
serial_number_string-value g r h k =
    let first = write_six_msb_hex_chars g in
    let second = write_six_msb_hex_chars r in
    let value : hex_value 0 first ≡ g / 0x100 =
      hex_value-write_six_msb_hex_chars g 0 h ∙ omega arith in
    (
      length-append first second
          ∙ (ap (λ (n : ℕ). n + length second) (length-write_hex_chars 6 g)
              ∙ ap (λ (n : ℕ). 6 + n) (length-write_hex_chars 6 r)),
      all_upper_hex-append first second
          ∙ rw (all_upper_hex-write_hex_chars 6 g h, all_upper_hex-write_hex_chars 6 r k),
      hex_value-append 0 first second
          ∙ (ap (λ (n : ℕ). hex_value n second) value
              ∙ hex_value-write_six_msb_hex_chars r (g / 0x100) k),
    )
