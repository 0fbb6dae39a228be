-- ===== src/Text/Inflate.antt =====
-- bootrom/bootrom_misc.S: poor_mans_text_decompress, which takes apart in the ROM what the generator's
-- compress has put together.
use pico_bootrom_rp.Common.{
  ℕ, ◌+◌, ◌-◌, ◌<◌, ◌≡◌, ◌∙◌, refl, true, List, [], ◌∷◌, ◌++◌, ltb, length, arith, if◌then◌else◌,
  ap,
}
use pico_bootrom_rp.Text.{is_text, compress_from, copy, decompress_from}
use pico_bootrom_rp.Text.Roundtrip.{compress_from-Leads}

-- The loop, behind the output so far. The routine has no bound on its output.
unfoldable pub inflate : List ℕ → List ℕ → List ℕ
inflate [] out = out
inflate (b ∷ []) out = if ltb b 0x80 then out ++ (b ∷ []) else copy (0x100 - b) (length out) out
inflate (b ∷ (o ∷ rest)) out =
    let literal = inflate (o ∷ rest) (out ++ (b ∷ [])) in
    let repeated = inflate rest (copy (0x100 - b) (length out - o) out) in
    if ltb b 0x80 then literal else repeated

unfoldable pub poor_mans_text_decompress : List ℕ → List ℕ
poor_mans_text_decompress bytes = inflate bytes []

-- Where the generator's check does not meet its bound, the two loops agree.
inflate-decompress_from :
    (size : ℕ) (bytes out : List ℕ)
    → length (decompress_from size bytes out) < size
    → inflate bytes out ≡ decompress_from size bytes out
unfolding inflate decompress_from
inflate-decompress_from size [] out h = refl
inflate-decompress_from size (b ∷ []) out h = ground arith
inflate-decompress_from size (b ∷ (o ∷ rest)) out h = ground (
  arith,
  inflate-decompress_from size (o ∷ rest) (out ++ (b ∷ [])),
  inflate-decompress_from size rest (copy (0x100 - b) (length out - o) out),
)

-- The ROM turns what `compress` makes of a text back into the text.
pub inflate-compress :
    (src : List ℕ)
    → is_text src ≡ true
    → poor_mans_text_decompress (compress_from src (length src + 1) 0) ≡ src
unfolding poor_mans_text_decompress
inflate-compress src text =
    let back =
      compress_from-Leads src (length src + 1) text (omega arith) (length src + 1) 0 (omega arith)
        (omega arith) in
    let room = ap (λ (x : List ℕ). length x) back in
    inflate-decompress_from (length src + 1) (compress_from src (length src + 1) 0) [] (omega arith)
    ∙ back
