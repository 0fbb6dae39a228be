-- ===== src/Disk/Transfer.antt =====
-- Every sector that arrives keeps the tracking state right, and the chip is rebooted only when every
-- block of the transfer has been queued.
use pico_bootrom_rp.Common.{
  ℕ, ◌+◌, ◌*◌, ◌^◌, ◌≤◌, ◌<◌, ◌≡◌, refl, Bool, true, false, ltb, ◌==◌, if-by, arith, ◌⊎◌, inl, inr,
  length, same, ◌∙◌, ==_iff, ltb→lt, ltb-false, ◌≢◌,
}
use pico_bootrom_rp.Common.Bits.{bits_test}
use pico_bootrom_rp.Sdk.{Sdk, IsMap}
use pico_bootrom_rp.Disk.{
  Disk, Uf2Block, words_of, clear_bitset, set_num_blocks, begin_transfer, start_transfer,
  prepare_task, accept_block, update_current_uf2_info, flash_max_valid_blocks, clear_valid_blocks,
  bitmap_for, max_blocks_for, write_type, page_in_ram, page_in_flash, is_garbage,
}
use pico_bootrom_rp.Disk.Tracking.{tracking, IsLive}
use pico_bootrom_rp.Disk.Cleared.{length-clear_bitset, bits_test-clear_bitset, bits_count-empty}

-- The bitmaps have the sizes that the bounds assume, and a transfer in progress is tracked rightly.
pub record IsTracked (sdk : Sdk) (d : Disk) : Type 0 where
  pub ram_room : length d.ram_words ≡ 40
  pub flash_room : length d.flash_words * 32 ≡ flash_max_valid_blocks sdk
  pub state : (d.info.num_blocks ≡ 0) ⊎ IsLive (tracking d)

-- The disk is tracked, and where a block goes on to be written it belongs to a transfer.
pub record IsReady (sdk : Sdk) (r : Disk × Bool) : Type 0 where
  pub tracked : IsTracked sdk r.0
  pub live : r.1 ≡ true → IsLive (tracking r.0) × (r.0.info.block_no < r.0.info.num_blocks)

module _ (sdk : Sdk) (map : IsMap sdk) where
  idle-IsReady :
      (d : Disk)
      → length d.ram_words ≡ 40
      → length d.flash_words * 32 ≡ flash_max_valid_blocks sdk
      → IsReady sdk (set_num_blocks d 0, false)
  idle-IsReady d ram flash = record {
    tracked = record { ram_room = ram; flash_room = flash; state = inl refl };
    live = λ e. absurd (cc);
  }

  accept_block-IsReady :
      (d : Disk) (uf2 : Uf2Block) (token type : ℕ)
      → IsTracked sdk d
      → IsLive (tracking d)
      → d.info.num_blocks ≡ uf2.num_blocks
      → IsReady sdk (accept_block sdk d uf2 token type)
  unfolding accept_block prepare_task tracking
  accept_block-IsReady d uf2 token type t live e =
      if-by (IsReady sdk) (same (page_in_ram sdk uf2.target_addr) d.info.ram) _ _
        (λ _.
          if-by (IsReady sdk) (ltb uf2.block_no uf2.num_blocks) _ _
            (λ b. record {
              tracked = record {
                ram_room = t.ram_room;
                flash_room = t.flash_room;
                state = inr (moved live);
              };
              live = λ _. (moved live, omega (arith, e, ltb→lt uf2.block_no uf2.num_blocks b));
            })
            (λ _. idle-IsReady d t.ram_room t.flash_room))
        (λ _. idle-IsReady d t.ram_room t.flash_room)
    where
      moved : IsLive (tracking d) → IsLive (tracking (prepare_task sdk d uf2 token type))
      moved l = record {
        bounded = l.bounded;
        room = l.room;
        small = l.small;
        below = l.below;
        counted = l.counted;
      }

  empty-IsLive :
      (d : Disk)
      → d.info.num_blocks ≤ d.info.max_valid_blocks
      → d.info.max_valid_blocks + 1 < 2 ^ 32
      → d.info.max_valid_blocks ≡ length (words_of d d.info.valid_blocks) * 32
      → ((n : ℕ) → bits_test (words_of d d.info.valid_blocks) n ≡ false)
      → d.info.valid_block_count ≡ 0
      → IsLive (tracking d)
  unfolding tracking
  empty-IsLive d fits small room empty zero_count = record {
    bounded = fits;
    room = omega arith;
    small = small;
    below = λ n e. absurd (let f = empty n in cc);
    counted =
        omega (arith, bits_count-empty (words_of d d.info.valid_blocks) d.info.num_blocks empty);
  }

  -- What the clearing of the bit set leaves, whatever else has been set up.
  cleared-IsLive :
      (d x : Disk) (ram : Bool) (n : ℕ)
      → IsTracked sdk d
      → x.ram_words ≡ (clear_valid_blocks sdk d ram).ram_words
      → x.flash_words ≡ (clear_valid_blocks sdk d ram).flash_words
      → x.info.valid_blocks ≡ bitmap_for sdk ram
      → x.info.max_valid_blocks ≡ max_blocks_for sdk ram
      → n ≤ max_blocks_for sdk ram
      → IsTracked sdk (start_transfer sdk x n) × IsLive (tracking (start_transfer sdk x n))
  unfolding clear_valid_blocks start_transfer
  cleared-IsLive d x true n t er ef eb em fits =
      let fresh = start_transfer sdk x n in
      let ws = clear_bitset d.ram_words 1280 in
      let words : words_of fresh x.info.valid_blocks ≡ ws = rw (eb, er) in
      let size : length ws ≡ 40 = length-clear_bitset d.ram_words 1280 ∙ t.ram_room in
      let live =
        empty-IsLive fresh (omega arith) (omega arith) (rw words (omega arith))
          (λ k. rw words (bits_test-clear_bitset d.ram_words 1280 k (omega (arith, t.ram_room))))
          refl in
      (record { ram_room = rw er size; flash_room = rw ef t.flash_room; state = inr live }, live)
  cleared-IsLive d x false n t er ef eb em fits =
      let fresh = start_transfer sdk x n in
      let most = flash_max_valid_blocks sdk in
      let ws = clear_bitset d.flash_words most in
      let words : words_of fresh x.info.valid_blocks ≡ ws = rw (eb, ef) in
      let size : length ws ≡ length d.flash_words = length-clear_bitset d.flash_words most in
      let live =
        empty-IsLive fresh (omega arith) (omega (arith, map))
          (rw words (omega (arith, t.flash_room)))
          (λ k.
            rw words (bits_test-clear_bitset d.flash_words most k (omega (arith, t.flash_room))))
          refl in
      (
        record {
          ram_room = rw er t.ram_room;
          flash_room = rw ef (rw size t.flash_room);
          state = inr live;
        },
        live,
      )

  max-begin_transfer :
      (d : Disk) (uf2 : Uf2Block)
      → (begin_transfer sdk d uf2).info.max_valid_blocks
        ≡ max_blocks_for sdk (page_in_ram sdk uf2.target_addr)
  unfolding begin_transfer
  max-begin_transfer d uf2 =
      if-by
        (λ (x : Disk).
          x.info.max_valid_blocks ≡ max_blocks_for sdk (page_in_ram sdk uf2.target_addr))
        (page_in_flash sdk uf2.target_addr) _ _ (λ _. refl) (λ _. refl)

  begin_transfer-IsLive :
      (d : Disk) (uf2 : Uf2Block) (n : ℕ)
      → IsTracked sdk d
      → n ≤ max_blocks_for sdk (page_in_ram sdk uf2.target_addr)
      → let fresh = start_transfer sdk (begin_transfer sdk d uf2) n in
        IsTracked sdk fresh × IsLive (tracking fresh)
  unfolding begin_transfer
  begin_transfer-IsLive d uf2 n t fits =
      if-by
        (λ (x : Disk).
          IsTracked sdk (start_transfer sdk x n) × IsLive (tracking (start_transfer sdk x n)))
        (page_in_flash sdk uf2.target_addr) _ _
        (λ _. cleared-IsLive d _ (page_in_ram sdk uf2.target_addr) n t refl refl refl refl fits)
        (λ _. cleared-IsLive d _ (page_in_ram sdk uf2.target_addr) n t refl refl refl refl fits)

  num_blocks-begin_transfer :
      (d : Disk) (uf2 : Uf2Block) → (begin_transfer sdk d uf2).info.num_blocks ≡ 0
  unfolding begin_transfer
  num_blocks-begin_transfer d uf2 =
      if-by (λ (x : Disk). x.info.num_blocks ≡ 0) (page_in_flash sdk uf2.target_addr) _ _
        (λ _. refl) (λ _. refl)

  rooms : (x : Disk) → IsTracked sdk (start_transfer sdk x 0) → length x.ram_words ≡ 40
  unfolding start_transfer
  rooms x t = t.ram_room

  flash_rooms :
      (x : Disk)
      → IsTracked sdk (start_transfer sdk x 0)
      → length x.flash_words * 32 ≡ flash_max_valid_blocks sdk
  unfolding start_transfer
  flash_rooms x t = t.flash_room

  started : (x : Disk) (n : ℕ) → (start_transfer sdk x n).info.num_blocks ≡ n
  unfolding start_transfer
  started x n = refl

  not-garbage-num_blocks : (uf2 : Uf2Block) → is_garbage sdk uf2 ≡ false → uf2.num_blocks ≢ 0
  unfolding is_garbage
  not-garbage-num_blocks uf2 g = ground arith

  pub update-IsReady :
      (d : Disk) (uf2 : Uf2Block) (token : ℕ)
      → IsTracked sdk d
      → IsReady sdk (update_current_uf2_info sdk d uf2 token)
  unfolding update_current_uf2_info
  update-IsReady d uf2 token t =
      if-by (IsReady sdk) (is_garbage sdk uf2) _ _ (λ _. idle-IsReady d t.ram_room t.flash_room)
        λ g.
          if-by (IsReady sdk) d.queue.disable _ _ (λ _. idle-IsReady d t.ram_room t.flash_room)
            λ _.
              if-by (IsReady sdk) (d.info.num_blocks == uf2.num_blocks) _ _ (λ e. continues g e)
                λ _.
                  if-by (IsReady sdk)
                    (ltb (begin_transfer sdk d uf2).info.max_valid_blocks uf2.num_blocks) _ _
                    (λ _. too_big)
                    λ fits.
                      let (tracked, live) = begin_transfer-IsLive d uf2 uf2.num_blocks t (
                        omega (
                          arith,
                          max-begin_transfer d uf2,
                          ltb-false (begin_transfer sdk d uf2).info.max_valid_blocks uf2.num_blocks
                              fits,
                        )) in
                      accept_block-IsReady
                        (start_transfer sdk (begin_transfer sdk d uf2) uf2.num_blocks) uf2 token _
                        tracked live (started (begin_transfer sdk d uf2) uf2.num_blocks)
    where
      continues :
          is_garbage sdk uf2 ≡ false
          → (d.info.num_blocks == uf2.num_blocks) ≡ true
          → IsReady sdk (accept_block sdk d uf2 token write_type)
      continues g e = elim t.state [
        | inl z ↦ absurd (
            not-garbage-num_blocks uf2 g
              (omega (arith, z, (==_iff d.info.num_blocks uf2.num_blocks).0 e)))
        | inr live ↦
            accept_block-IsReady d uf2 token write_type t live
              ((==_iff d.info.num_blocks uf2.num_blocks).0 e)
      ]

      too_big : IsReady sdk (begin_transfer sdk d uf2, false)
      too_big =
          let same_rooms = (begin_transfer-IsLive d uf2 0 t (omega arith)).0 in
          record {
            tracked = record {
              ram_room = rooms (begin_transfer sdk d uf2) same_rooms;
              flash_room = flash_rooms (begin_transfer sdk d uf2) same_rooms;
              state = inl (num_blocks-begin_transfer d uf2);
            };
            live = λ e. absurd (cc);
          }
