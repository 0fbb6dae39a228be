-- ===== src/Disk/Write.antt =====
-- `vd_write_block` as a whole: it keeps the tracking state right, and a completed task reboots the
-- chip exactly when every block of the transfer has been queued.
use pico_bootrom_rp.Common.{
  ℕ, ◌+◌, ◌*◌, ◌/◌, ◌<◌, ◌≡◌, refl, sym, Bool, true, false, ◌&&◌, ◌==◌, if◌then◌else◌, if-by, u32,
  arith, ◌⊎◌, inl, inr, length, Bool-cases, ◌↔◌, ◌≢◌, ◌∙◌, ap,
}
use pico_bootrom_rp.Common.Bits.{
  bits_test, bits_set, length-bits_set, bits_count-all, bits_count-full,
}
use pico_bootrom_rp.Sdk.{Sdk, IsMap}
use pico_bootrom_rp.Task.{AsyncTask, queue_task}
use pico_bootrom_rp.Disk.{
  Disk, Uf2Info, Uf2Block, Bitmap, null_bitmap, ram_blocks, flash_blocks, words_of, set_words,
  update_current_uf2_info,
}
use pico_bootrom_rp.Disk.Page.{
  write_uf2_page, vd_write_block, lower_start, count_block, write_uf2_page_done, mark_page,
  queue_next, is_rp2040_block,
}
use pico_bootrom_rp.Disk.Tracking.{tracking, IsLive, add_block-IsLive, tracking-write_uf2_page}
use pico_bootrom_rp.Disk.Transfer.{IsTracked, IsReady, update-IsReady}

-- The sizes of the two bitmaps of blocks.
sizes : Disk → ℕ × ℕ
sizes d = (length d.ram_words, length d.flash_words)

sizes-set_words :
    (d : Disk) (i : Uf2Info) (b : Bitmap) (n : ℕ)
    → sizes (set_words (record d { info = i }) b (bits_set (words_of d b) n)) ≡ sizes d
unfolding sizes
sizes-set_words d i null_bitmap n = refl
sizes-set_words d i ram_blocks n =
    ap (λ (k : ℕ). (k, length d.flash_words)) (length-bits_set d.ram_words n)
sizes-set_words d i flash_blocks n =
    ap (λ (k : ℕ). (length d.ram_words, k)) (length-bits_set d.flash_words n)

sizes-count_block : (d : Disk) → sizes (count_block d) ≡ sizes d
unfolding count_block
sizes-count_block d = sizes-set_words d _ d.info.valid_blocks d.info.block_no

sizes-mark_page : (d : Disk) → sizes (mark_page d) ≡ sizes d
unfolding mark_page sizes
sizes-mark_page d =
    if-by (λ (x : Disk). sizes x ≡ sizes d) d.info.ram _ _ (λ _. refl)
      λ _.
        if-by (λ (x : Disk). sizes x ≡ sizes d)
          (bits_test d.page_words (u32 (d.info.block_no * 256) / 4096)) _ _ (λ _. refl) (λ _. refl)

sizes-queue_next : (d : Disk) → sizes (queue_next d) ≡ sizes d
unfolding queue_next queue_task sizes
sizes-queue_next d = refl

sizes-lower_start : (sdk : Sdk) (d : Disk) → sizes (lower_start sdk d) ≡ sizes d
unfolding lower_start sizes
sizes-lower_start sdk d = refl

sizes-write_uf2_page : (sdk : Sdk) (d : Disk) → sizes (write_uf2_page sdk d).0 ≡ sizes d
unfolding write_uf2_page
sizes-write_uf2_page sdk d =
    elim (Bool-cases (bits_test (words_of d d.info.valid_blocks) d.info.block_no)) [
      | inl e ↦ rw e
      | inr e ↦ rw e (rw (sizes-queue_next, sizes-count_block, sizes-mark_page, sizes-lower_start))
    ]

module _ (sdk : Sdk) where
  resized :
      (d x : Disk)
      → sizes x ≡ sizes d
      → IsTracked sdk d
      → (x.info.num_blocks ≡ 0) ⊎ IsLive (tracking x)
      → IsTracked sdk x
  unfolding sizes
  resized d x e t state = record {
    ram_room = ap (λ (p : ℕ × ℕ). p.0) e ∙ t.ram_room;
    flash_room = ap (λ (p : ℕ × ℕ). p.1 * 32) e ∙ t.flash_room;
    state = state;
  }

  current : (d : Disk) → (tracking d).words ≡ words_of d d.info.valid_blocks
  unfolding tracking
  current d = refl

  write_uf2_page-IsTracked :
      (d : Disk)
      → IsTracked sdk d
      → IsLive (tracking d)
      → d.info.block_no < d.info.num_blocks
      → IsTracked sdk (write_uf2_page sdk d).0
  unfolding tracking write_uf2_page
  write_uf2_page-IsTracked d t live b =
      elim (Bool-cases (bits_test (words_of d d.info.valid_blocks) d.info.block_no)) [
        | inl old ↦ rw old t
        | inr new ↦ resized d (write_uf2_page sdk d).0 (sizes-write_uf2_page sdk d) t (
            inr (rw (tracking-write_uf2_page sdk d new) (add_block-IsLive (tracking d) live b new)))
      ]

  written-IsTracked :
      (r : Disk × Bool)
      → IsReady sdk r
      → IsTracked sdk (if r.1 then write_uf2_page sdk r.0 else (r.0, false)).0
  written-IsTracked (d, true) ready =
      let (live, b) = ready.live refl in write_uf2_page-IsTracked d ready.tracked live b
  written-IsTracked (d, false) ready = ready.tracked

  -- With the address map of the data sheet and bit sets of the sizes in the code, if the bit set of
  -- the transfer in progress has only bits of its blocks and the counter is their number, this is so
  -- after whatever arrives as a sector.
  pub vd_write_block-IsTracked :
      (token : ℕ) (d : Disk) (uf2 : Uf2Block)
      → IsMap sdk
      → IsTracked sdk d
      → IsTracked sdk (vd_write_block sdk token d uf2).0
  unfolding vd_write_block
  vd_write_block-IsTracked token d uf2 map t =
      if-by (λ (r : Disk × Bool). IsTracked sdk r.0) (is_rp2040_block sdk uf2) _ _
        (λ _.
          written-IsTracked (update_current_uf2_info sdk d uf2 token)
            (update-IsReady sdk map d uf2 token t))
        (λ _. t)

  -- All blocks of the transfer in progress have been queued.
  abbrev pub AllQueued : Disk → Type 0
  AllQueued d =
      (n : ℕ) → n < d.info.num_blocks → bits_test (words_of d d.info.valid_blocks) n ≡ true

  count_iff :
      (d : Disk)
      → IsLive (tracking d)
      → (d.info.valid_block_count ≡ d.info.num_blocks) ↔ AllQueued d
  unfolding tracking
  count_iff d live = (
    λ e n b.
        bits_count-all (words_of d d.info.valid_blocks) d.info.num_blocks n (sym live.counted ∙ e)
          b,
    λ all. live.counted ∙ bits_count-full (words_of d d.info.valid_blocks) d.info.num_blocks all,
  )

  three_tests :
      (a b c e f : ℕ) → ((a == b && (c == 0 && e == f)) ≡ true) ↔ ((a ≡ b) × (c ≡ 0) × (e ≡ f))
  three_tests a b c e f = ground arith

  -- While a transfer is in progress, a finished task reboots the chip exactly when it belongs to
  -- that transfer's latest token, it has succeeded, and all blocks of the transfer have been queued.
  pub write_uf2_page_done-AllQueued :
      (d : Disk) (task : AsyncTask)
      → IsTracked sdk d
      → d.info.num_blocks ≢ 0
      → (length (write_uf2_page_done sdk d task).reboots ≡ length d.reboots + 1)
        ↔ ((task.token ≡ d.info.token) × (task.result ≡ 0) × AllQueued d)
  unfolding write_uf2_page_done
  write_uf2_page_done-AllQueued d task t some_blocks =
      let live : IsLive (tracking d) = elim t.state [
        | inl z ↦ absurd (some_blocks z)
        | inr l ↦ l
      ] in
      let (to, from) = count_iff d live in
      let (see, back) =
        three_tests task.token d.info.token task.result d.info.valid_block_count
          d.info.num_blocks in
      if-by
        (λ (x : Disk).
          (length x.reboots ≡ length d.reboots + 1)
          ↔ ((task.token ≡ d.info.token) × (task.result ≡ 0) × AllQueued d))
        (task.token == d.info.token
          && (task.result == 0 && d.info.valid_block_count == d.info.num_blocks))
        _ _ (λ e. let (a, b, c) = see e in (λ _. (a, b, to c), λ _. omega arith))
        (λ e. (
          λ n. absurd (omega (arith, n)),
          λ (a, b, all). absurd (let y = back (a, b, from all) in cc),
        ))
