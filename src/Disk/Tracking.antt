-- ===== src/Disk/Tracking.antt =====
-- The tracking state of a UF2 transfer counts exactly the blocks that have been queued.
use pico_bootrom_rp.Common.{
  ℕ, ◌+◌, ◌*◌, ◌/◌, ◌^◌, ◌≤◌, ◌<◌, ◌≡◌, refl, sym, true, false, List, [], if-by, u32, arith, length,
}
use pico_bootrom_rp.Common.Bits.{
  bits_test, bits_set, bits_count, bits_count-bits_set, bits_test-bits_set, length-bits_set,
  bits_count-le,
}
use pico_bootrom_rp.Sdk.{Sdk}
use pico_bootrom_rp.Task.{queue_task}
use pico_bootrom_rp.Disk.{Disk, Bitmap, null_bitmap, ram_blocks, flash_blocks, words_of, set_words}
use pico_bootrom_rp.Disk.Page.{write_uf2_page, lower_start, count_block, mark_page, queue_next}

-- The tracking state by itself: the bit set of the transfer, its bounds and its counter.
pub record Tracking : Type 0 where
  pub words : List ℕ
  pub max_blocks : ℕ
  pub num_blocks : ℕ
  pub count : ℕ
  pub block_no : ℕ

unfoldable pub tracking : Disk → Tracking
tracking d = record {
  words = words_of d d.info.valid_blocks;
  max_blocks = d.info.max_valid_blocks;
  num_blocks = d.info.num_blocks;
  count = d.info.valid_block_count;
  block_no = d.info.block_no;
}

-- A transfer is in progress: its blocks fit its bit set, which has the bits of the blocks that have
-- been queued, and the counter counts them.
pub record IsLive (t : Tracking) : Type 0 where
  pub bounded : t.num_blocks ≤ t.max_blocks
  pub room : t.max_blocks ≤ length t.words * 32
  pub small : t.max_blocks + 1 < 2 ^ 32
  pub below : (n : ℕ) → bits_test t.words n ≡ true → n < t.num_blocks
  pub counted : t.count ≡ bits_count t.words t.num_blocks

-- What queueing the current block does to the tracking state.
abbrev pub add_block : Tracking → Tracking
add_block t = record t { words = bits_set t.words t.block_no; count = u32 (t.count + 1) }

pub add_block-IsLive :
    (t : Tracking)
    → IsLive t
    → t.block_no < t.num_blocks
    → bits_test t.words t.block_no ≡ false
    → IsLive (add_block t)
add_block-IsLive t live b c =
    let inside : t.block_no / 32 < length t.words = omega (arith, live.room, live.bounded) in
    record {
      bounded = live.bounded;
      room = omega (arith, live.room, length-bits_set t.words t.block_no);
      small = live.small;
      below = λ n e. ground (arith, bits_test-bits_set t.words t.block_no n inside, live.below n);
      counted = omega (
        arith,
        live.counted,
        live.bounded,
        live.small,
        bits_count-le t.words t.num_blocks,
        bits_count-bits_set t.words t.block_no t.num_blocks inside b c,
      );
    }

tracking-set_words :
    (d : Disk) (b : Bitmap) (ws : List ℕ)
    → (b ≡ null_bitmap → ws ≡ [])
    → words_of (set_words d b ws) b ≡ ws
tracking-set_words d null_bitmap ws e = sym (e refl)
tracking-set_words d ram_blocks ws e = refl
tracking-set_words d flash_blocks ws e = refl

pub info-set_words : (d : Disk) (b : Bitmap) (ws : List ℕ) → (set_words d b ws).info ≡ d.info
info-set_words d null_bitmap ws = refl
info-set_words d ram_blocks ws = refl
info-set_words d flash_blocks ws = refl

bits_set-null : (d : Disk) (b : Bitmap) (n : ℕ) → b ≡ null_bitmap → bits_set (words_of d b) n ≡ []
unfolding bits_set
bits_set-null d b n e = rw e

tracking-lower_start : (sdk : Sdk) (d : Disk) → tracking (lower_start sdk d) ≡ tracking d
unfolding lower_start tracking
tracking-lower_start sdk d = refl

tracking-queue_next : (d : Disk) → tracking (queue_next d) ≡ tracking d
unfolding queue_next tracking queue_task
tracking-queue_next d = refl

tracking-mark_page : (d : Disk) → tracking (mark_page d) ≡ tracking d
unfolding mark_page tracking
tracking-mark_page d =
    if-by (λ (x : Disk). tracking x ≡ tracking d) d.info.ram _ _ (λ _. refl)
      λ _.
        if-by (λ (x : Disk). tracking x ≡ tracking d)
          (bits_test d.page_words (u32 (d.info.block_no * 256) / 4096)) _ _ (λ _. refl) (λ _. refl)

tracking-count_block : (d : Disk) → tracking (count_block d) ≡ add_block (tracking d)
unfolding count_block tracking
tracking-count_block d =
    let ws = bits_set (words_of d d.info.valid_blocks) d.info.block_no in
    let counted = record d {
      info = record d.info { valid_block_count = u32 (d.info.valid_block_count + 1) };
    } in
    rw (
      info-set_words counted d.info.valid_blocks ws,
      tracking-set_words counted d.info.valid_blocks ws
          (bits_set-null d d.info.valid_blocks d.info.block_no),
    )

-- A block that is not yet in the set is added to the tracking state.
pub tracking-write_uf2_page :
    (sdk : Sdk) (d : Disk)
    → bits_test (words_of d d.info.valid_blocks) d.info.block_no ≡ false
    → tracking (write_uf2_page sdk d).0 ≡ add_block (tracking d)
unfolding write_uf2_page
tracking-write_uf2_page sdk d c =
    rw c (rw (tracking-queue_next, tracking-count_block, tracking-mark_page, tracking-lower_start))
