-- ===== src/Text.antt =====
-- The compressed text of the generator, generator/main.c: a literal byte is below 0x80, and a pair of
-- bytes from 0x80 on repeats earlier output. File access and printing are left out.
pub mod Match
pub mod Roundtrip
pub mod Inflate
mod Tests
use pico_bootrom_rp.Common.{
  ℕ, zero, suc, ◌+◌, ◌-◌, ◌*◌, Bool, true, false, ◌&&◌, Option, none, some, List, [], ◌∷◌, ◌++◌,
  ltb, leb, ◌==◌, if◌then◌else◌, length, get_or, min,
}

-- `!memcmp(src + to, src + from, match_len)`
unfoldable pub same_bytes : List ℕ → ℕ → ℕ → ℕ → Bool
same_bytes src from to zero = true
same_bytes src from to (suc n) =
    get_or src to 0 == get_or src from 0 && same_bytes src (from + 1) (to + 1) n

-- The loop over `from`, with this many positions left.
unfoldable pub find_from : List ℕ → ℕ → ℕ → ℕ → ℕ → Option ℕ
find_from src to match_len from zero = none
find_from src to match_len from (suc left) =
    let later = find_from src to match_len (from + 1) left in
    if same_bytes src from to match_len then some from else later

-- The loop over `match_len`, down to 3.
unfoldable pub find_match : List ℕ → ℕ → ℕ → Option (ℕ × ℕ)
find_match src to zero = none
find_match src to (suc n) =
    let shorter = find_match src to n in
    let first = to - 255 in
    if leb 3 (suc n)
    then elim (find_from src to (suc n) first (to - first)) [
      | none ↦ shorter
      | some from ↦ some (suc n, from)
    ]
    else none

-- The outer loop of `compress` from the position `to` on. Each round takes a byte at least.
unfoldable pub compress_from : List ℕ → ℕ → ℕ → List ℕ
compress_from src zero to = []
compress_from src (suc fuel) to = elim (ltb to (length src)) [
  | true ↦ elim (find_match src to (min 127 (length src - to))) [
    | none ↦ get_or src to 0 ∷ compress_from src fuel (to + 1)
    | some (n, from) ↦ (0x100 - n) ∷ (to - from) ∷ elim (to + n == length src) [
      | true ↦ []
      | false ↦ get_or src (to + n) 0 ∷ compress_from src fuel (to + n + 1)
    ]
  ]
  | false ↦ []
]

-- Bytes from 0x80 on are refused.
unfoldable pub is_text : List ℕ → Bool
is_text [] = true
is_text (b ∷ src) = ltb b 0x80 && is_text src

unfoldable pub compress : List ℕ → Option (List ℕ)
compress src = if is_text src then some (compress_from src (length src + 1) 0) else none

-- `while (len--) buf[n++] = buf[off++];`
unfoldable pub copy : ℕ → ℕ → List ℕ → List ℕ
copy zero off out = out
copy (suc len) off out = copy len (off + 1) (out ++ (get_or out off 0 ∷ []))

-- The loop of `decompress`, behind the output so far.
unfoldable pub decompress_from : ℕ → List ℕ → List ℕ → List ℕ
decompress_from buf_size [] out = out
decompress_from buf_size (b ∷ []) out =
    if ltb (length out) buf_size
    then (if ltb b 0x80 then out ++ (b ∷ []) else copy (0x100 - b) (length out) out)
    else out
decompress_from buf_size (b ∷ (o ∷ rest)) out =
    let literal = decompress_from buf_size (o ∷ rest) (out ++ (b ∷ [])) in
    let repeated = decompress_from buf_size rest (copy (0x100 - b) (length out - o) out) in
    if ltb (length out) buf_size then (if ltb b 0x80 then literal else repeated) else out

-- An output that fills the buffer counts as none.
unfoldable pub decompress : ℕ → List ℕ → List ℕ
decompress buf_size bytes =
    let out = decompress_from buf_size bytes [] in if length out == buf_size then [] else out
