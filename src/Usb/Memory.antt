-- ===== src/Usb/Memory.antt =====
-- The packet buffers of different endpoints do not overlap in the dual-port RAM.
use pico_bootrom_rp.Common.{ℕ, ◌+◌, ◌*◌, ◌≤◌, ◌<◌, ◌≡◌, refl, List, [], ◌∷◌, u16, arith, length}
use pico_bootrom_rp.Usb.{Endpoint}
use pico_bootrom_rp.Usb.Reset.{buffer_bytes, endpoint_hw_init, for_each_hw_init}

-- Every endpoint has its buffers at `low` or above, and below `high`.
abbrev pub AllWithin : ℕ → ℕ → List Endpoint → Type 0
AllWithin low high [] = low ≤ high
AllWithin low high (ep ∷ eps) =
    (low ≤ ep.dpram_buffer_offset)
    × (ep.dpram_buffer_offset + buffer_bytes ep ≤ high)
    × AllWithin low high eps

-- No two endpoints share a byte.
abbrev pub AreDisjoint : ℕ → List Endpoint → Type 0
AreDisjoint high [] = high ≡ high
AreDisjoint high (ep ∷ eps) =
    AllWithin (ep.dpram_buffer_offset + buffer_bytes ep) high eps × AreDisjoint high eps

AllWithin-lower :
    (low least high : ℕ) (eps : List Endpoint)
    → least ≤ low
    → AllWithin low high eps
    → AllWithin least high eps
AllWithin-lower low least high [] h w = omega arith
AllWithin-lower low least high (ep ∷ eps) h w =
    (omega arith, w.1, AllWithin-lower low least high eps h w.2)

buffer_bytes-le : (ep : Endpoint) → buffer_bytes ep ≤ 128
unfolding buffer_bytes
buffer_bytes-le ep = ground arith

-- However many endpoints are set up from some offset on, as long as two buffers of 64 bytes for each of
-- them fit below `high`: every buffer lies between the two, and no two endpoints share a byte.
pub for_each_hw_init-AreDisjoint :
    (offset high : ℕ) (eps : List Endpoint)
    → offset + 128 * length eps ≤ high
    → high < 0x1_0000
    → AllWithin offset high (for_each_hw_init offset eps).0
      × AreDisjoint high (for_each_hw_init offset eps).0
unfolding for_each_hw_init endpoint_hw_init buffer_bytes
for_each_hw_init-AreDisjoint offset high [] h m = (omega arith, refl)
for_each_hw_init-AreDisjoint offset high (ep ∷ eps) h m =
    let b = buffer_bytes-le ep in
    let n : u16 (offset + buffer_bytes ep) ≡ offset + buffer_bytes ep = omega arith in
    let rest =
      for_each_hw_init-AreDisjoint (u16 (offset + buffer_bytes ep)) high eps (omega arith) m in
    let above = AllWithin-lower _ (offset + buffer_bytes ep) high _ (omega arith) rest.0 in
    (
      (omega arith, omega arith, AllWithin-lower _ offset high _ (omega arith) above),
      (above, rest.1),
    )
