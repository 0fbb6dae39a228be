-- ===== src/Disk/Sectors.antt =====
-- What a UF2 block puts into the queue, and the sectors that it erases.
use pico_bootrom_rp.Common.{
  ℕ, ◌+◌, ◌*◌, ◌/◌, ◌≡◌, refl, Bool, true, false, ltb, ◌==◌, if◌then◌else◌, if-by, u32, same,
  test_bit,
}
use pico_bootrom_rp.Common.Bits.{bits_test, bits_set, test_bit-set_bit}
use pico_bootrom_rp.Sdk.{Sdk}
use pico_bootrom_rp.Task.{
  AsyncTask, queue_task, write_uf2_page_complete, sector_buffer, at_write, at_flash_erase,
  task_source_virtual_disk,
}
use pico_bootrom_rp.Disk.{
  Disk, Uf2Block, words_of, prepare_task, accept_block, update_current_uf2_info, is_garbage,
  begin_transfer, start_transfer, page_in_ram, page_in_flash, write_type, exit_xip_write_type,
}
use pico_bootrom_rp.Disk.Page.{
  write_uf2_page, vd_write_block, lower_start, count_block, mark_page, queue_next, is_rp2040_block,
}
use pico_bootrom_rp.Disk.Tracking.{info-set_words}

-- The task that writes the block, whether or not it also erases: as `_update_current_uf2_info`
-- fills it in. It does not ask whether another source has changed the flash meanwhile.
pub record IsTaskFor (uf2 : Uf2Block) (token : ℕ) (task : AsyncTask) : Type 0 where
  pub own_token : task.token ≡ token
  pub target : task.transfer_addr ≡ uf2.target_addr
  pub from : task.buffer ≡ sector_buffer
  pub size : task.data_length ≡ 256
  pub completion : task.callback ≡ write_uf2_page_complete
  pub origin : task.source ≡ task_source_virtual_disk
  pub writes : test_bit task.type at_write ≡ true
  pub unchecked : task.check_last_mutation_source ≡ false

mark_page-IsTaskFor :
    (d : Disk) (uf2 : Uf2Block) (token : ℕ)
    → IsTaskFor uf2 token d.info.next_task
    → IsTaskFor uf2 token (mark_page d).info.next_task
unfolding mark_page
mark_page-IsTaskFor d uf2 token t =
    if-by (λ (x : Disk). IsTaskFor uf2 token x.info.next_task) d.info.ram _ _ (λ _. t)
      λ _.
        if-by (λ (x : Disk). IsTaskFor uf2 token x.info.next_task)
          (bits_test d.page_words (u32 (d.info.block_no * 256) / 4096)) _ _ (λ _. t)
          λ _. record {
            own_token = t.own_token;
            target = t.target;
            from = t.from;
            size = t.size;
            completion = t.completion;
            origin = t.origin;
            writes = rw (test_bit-set_bit d.info.next_task.type at_flash_erase at_write) t.writes;
            unchecked = t.unchecked;
          }

next_task-count_block : (d : Disk) → (count_block d).info.next_task ≡ d.info.next_task
unfolding count_block
next_task-count_block d =
    let counted = record d {
      info = record d.info { valid_block_count = u32 (d.info.valid_block_count + 1) };
    } in
    rw
      (info-set_words counted d.info.valid_blocks
        (bits_set (words_of d d.info.valid_blocks) d.info.block_no))
      refl

requeued-IsTaskFor :
    (uf2 : Uf2Block) (token : ℕ) (task : AsyncTask)
    → IsTaskFor uf2 token task
    → IsTaskFor uf2 token (record task { callback = write_uf2_page_complete })
requeued-IsTaskFor uf2 token task t = record {
  own_token = t.own_token;
  target = t.target;
  from = t.from;
  size = t.size;
  completion = refl;
  origin = t.origin;
  writes = t.writes;
  unchecked = t.unchecked;
}

queue_next-IsTaskFor :
    (d : Disk) (uf2 : Uf2Block) (token : ℕ)
    → IsTaskFor uf2 token d.info.next_task
    → IsTaskFor uf2 token (queue_next d).queue.task
unfolding queue_next queue_task
queue_next-IsTaskFor d uf2 token t = requeued-IsTaskFor uf2 token d.info.next_task t

full-queue_next : (d : Disk) → (queue_next d).queue.full ≡ true
unfolding queue_next queue_task
full-queue_next d = refl

module _ (sdk : Sdk) (uf2 : Uf2Block) (token : ℕ) where
  -- The queue holds the task of the block.
  abbrev pub HoldsTask : Disk → Type 0
  HoldsTask d = (d.queue.full ≡ true) × IsTaskFor uf2 token d.queue.task

  lower_start-IsTaskFor :
      (d : Disk)
      → IsTaskFor uf2 token d.info.next_task
      → IsTaskFor uf2 token (lower_start sdk d).info.next_task
  unfolding lower_start
  lower_start-IsTaskFor d t = t

  write_uf2_page-HoldsTask :
      (d : Disk)
      → IsTaskFor uf2 token d.info.next_task
      → (write_uf2_page sdk d).1 ≡ true
      → HoldsTask (write_uf2_page sdk d).0
  unfolding write_uf2_page
  write_uf2_page-HoldsTask d t =
      if-by (λ (r : Disk × Bool). r.1 ≡ true → HoldsTask r.0)
        (bits_test (words_of d d.info.valid_blocks) d.info.block_no) _ _ (λ _ e. absurd cc)
        λ _ _.
          let lowered = lower_start sdk d in
          let marked = mark_page-IsTaskFor lowered uf2 token (lower_start-IsTaskFor d t) in
          (
            full-queue_next (count_block (mark_page lowered)),
            queue_next-IsTaskFor (count_block (mark_page lowered)) uf2 token
                (rw (next_task-count_block (mark_page lowered)) marked),
          )

  -- Where a block goes on to be written, the next task is its task.
  abbrev HasNext : Disk × Bool → Type 0
  HasNext r = r.1 ≡ true → IsTaskFor uf2 token r.0.info.next_task

  accept_block-HasNext :
      (d : Disk) (type : ℕ)
      → test_bit type at_write ≡ true
      → HasNext (accept_block sdk d uf2 token type)
  unfolding accept_block prepare_task
  accept_block-HasNext d type w =
      if-by HasNext (same (page_in_ram sdk uf2.target_addr) d.info.ram) _ _
        (λ _.
          if-by HasNext (ltb uf2.block_no uf2.num_blocks) _ _
            (λ _ _. record {
              own_token = refl;
              target = refl;
              from = refl;
              size = refl;
              completion = refl;
              origin = refl;
              writes = w;
              unchecked = refl;
            })
            (λ _ e. absurd cc))
        (λ _ e. absurd cc)

  write_type-writes : test_bit write_type at_write ≡ true
  unfolding test_bit
  write_type-writes = refl

  exit_xip_write_type-writes : test_bit exit_xip_write_type at_write ≡ true
  unfolding test_bit
  exit_xip_write_type-writes = refl

  update-HasNext : (d : Disk) → HasNext (update_current_uf2_info sdk d uf2 token)
  unfolding update_current_uf2_info
  update-HasNext d =
      if-by HasNext (is_garbage sdk uf2) _ _ (λ _ e. absurd cc)
        λ _.
          if-by HasNext d.queue.disable _ _ (λ _ e. absurd cc)
            λ _.
              if-by HasNext (d.info.num_blocks == uf2.num_blocks) _ _
                (λ _. accept_block-HasNext d write_type write_type-writes)
                λ _.
                  if-by HasNext
                    (ltb (begin_transfer sdk d uf2).info.max_valid_blocks uf2.num_blocks) _ _
                    (λ _ e. absurd cc)
                    λ _.
                      accept_block-HasNext
                        (start_transfer sdk (begin_transfer sdk d uf2) uf2.num_blocks) _
                        (if-by (λ (type : ℕ). test_bit type at_write ≡ true)
                          (page_in_flash sdk uf2.target_addr) _ _ (λ _. exit_xip_write_type-writes)
                          (λ _. write_type-writes))

  next-HoldsTask :
      (r : Disk × Bool)
      → HasNext r
      → (if r.1 then write_uf2_page sdk r.0 else (r.0, false)).1 ≡ true
      → HoldsTask (if r.1 then write_uf2_page sdk r.0 else (r.0, false)).0
  next-HoldsTask (d, true) t e = write_uf2_page-HoldsTask d (t refl) e
  next-HoldsTask (d, false) t e = absurd cc

  -- When `vd_write_block` answers that the write goes on asynchronously, the queue is full with the
  -- task of exactly this block: the host's token, the block's address, 256 bytes from the sector
  -- buffer, the write bit, and no check of the last mutation source.
  pub vd_write_block-HoldsTask :
      (d : Disk)
      → (vd_write_block sdk token d uf2).1 ≡ true
      → HoldsTask (vd_write_block sdk token d uf2).0
  unfolding vd_write_block
  vd_write_block-HoldsTask d =
      if-by (λ (r : Disk × Bool). r.1 ≡ true → HoldsTask r.0) (is_rp2040_block sdk uf2) _ _
        (λ _. next-HoldsTask (update_current_uf2_info sdk d uf2 token) (update-HasNext d))
        (λ _ e. absurd cc)

-- The number that the code gives to the sector of a block: by the block's position in the file.
abbrev pub sector_number : Disk → ℕ
sector_number d = u32 (d.info.block_no * 256) / 4096

-- A later block of a flash transfer with a sector number that has come up erases nothing more.
mark_page-old : (d : Disk) → bits_test d.page_words (sector_number d) ≡ true → mark_page d ≡ d
unfolding mark_page
mark_page-old d old = if-by (λ (x : Disk). x ≡ d) d.info.ram _ _ (λ _. refl) (λ _. rw old refl)
