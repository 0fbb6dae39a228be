-- ===== src/Text/Tests.antt =====
-- A text with a repetition that overlaps itself.
use pico_bootrom_rp.Common.{ℕ, ◌≡◌, refl, true, some, List, [], ◌∷◌, length, ◌+◌, arith}
use pico_bootrom_rp.Text.{
  is_text, compress, compress_from, decompress, find_match, find_from, same_bytes,
}
use pico_bootrom_rp.Text.Roundtrip.{decompress-compress}

abbrev abab : List ℕ
abab = 97 ∷ 98 ∷ 97 ∷ 98 ∷ 97 ∷ 98 ∷ 99 ∷ []

abab-is_text : is_text abab ≡ true
unfolding is_text
abab-is_text = refl

abab-compress : compress abab ≡ some (97 ∷ 98 ∷ 252 ∷ 2 ∷ 99 ∷ [])
unfolding compress is_text compress_from find_match find_from same_bytes
abab-compress = refl

decompress-compress_example :
    (compress abab ≡ some (compress_from abab (length abab + 1) 0))
    × (decompress 4096 (compress_from abab (length abab + 1) 0) ≡ abab)
decompress-compress_example = decompress-compress abab 4096 abab-is_text (omega arith)
