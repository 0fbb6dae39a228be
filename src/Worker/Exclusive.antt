-- ===== src/Worker/Exclusive.antt =====
-- Exclusive access: the host takes the flash from the virtual disk by a PICOBOOT command.
use pico_bootrom_rp.Common.{
  ◌≡◌, ◌≢◌, refl, Bool, true, false, ◌&&◌, none, some, ◌==◌, if-by, sym, subst, arith,
}
use pico_bootrom_rp.Sdk.{Sdk}
use pico_bootrom_rp.Task.{
  AsyncTask, TaskQueue, Callback, null_callback, write_uf2_page_complete, atc_ack,
  atc_chunk_task_done, dequeue_task,
}
use pico_bootrom_rp.Machine.{Env}
use pico_bootrom_rp.Disk.{Disk}
use pico_bootrom_rp.Disk.Page.{write_uf2_page_done}
use pico_bootrom_rp.Worker.{Boot, call_task_complete, execute_task, serve_disk, worker_round}

-- A failed write does not reboot.
write_uf2_page_done-failed :
    (sdk : Sdk) (d : Disk) (task : AsyncTask) → task.result ≢ 0 → write_uf2_page_done sdk d task ≡ d
unfolding write_uf2_page_done
write_uf2_page_done-failed sdk d task h =
    let failed : (task.result == 0) ≡ false = ground arith in
    if-by (λ (x : Disk). x ≡ d)
      (task.token == d.info.token
        && (task.result == 0 && d.info.valid_block_count == d.info.num_blocks))
      _ _ (λ e. absurd (ground arith)) (λ _. refl)

dequeue_task-full :
    (q : TaskQueue) → q.full ≡ true → dequeue_task q ≡ (record q { full = false }, some q.task)
unfolding dequeue_task
dequeue_task-full q e = rw e refl

dequeue_task-empty : (q : TaskQueue) → q.full ≡ false → dequeue_task q ≡ (q, none)
unfolding dequeue_task
dequeue_task-empty q e = rw e refl

-- The worker has left the machine alone, and nothing reboots.
pub record IsUntouched (before after : Boot) : Type 0 where
  pub machine : after.machine ≡ before.machine
  pub reboots : after.disk.reboots ≡ before.disk.reboots
  pub disabled : after.disk.queue.disable ≡ before.disk.queue.disable

module _ (sdk : Sdk) where
  call_task_complete-IsUntouched :
      (callback : Callback) (task : AsyncTask) (b : Boot)
      → task.result ≢ 0
      → IsUntouched b (call_task_complete sdk callback task b)
  unfolding call_task_complete
  call_task_complete-IsUntouched null_callback task b h = record {
    machine = refl;
    reboots = refl;
    disabled = refl;
  }
  call_task_complete-IsUntouched write_uf2_page_complete task b h =
      let same = write_uf2_page_done-failed sdk b.disk task h in
      record { machine = refl; reboots = rw same refl; disabled = rw same refl }
  call_task_complete-IsUntouched atc_ack task b h = record {
    machine = refl;
    reboots = refl;
    disabled = refl;
  }
  call_task_complete-IsUntouched atc_chunk_task_done task b h = record {
    machine = refl;
    reboots = refl;
    disabled = refl;
  }

module _ (sdk : Sdk) (env : Env) where
  execute_task-disabled :
      (disable : Bool) (task : AsyncTask) (b : Boot)
      → disable ≡ true
      → IsUntouched b (execute_task sdk env disable task b)
  unfolding execute_task
  execute_task-disabled disable task b e = rw e (
      call_task_complete-IsUntouched sdk task.callback (record task { result = 1 }) b (omega arith))

  -- While the virtual disk's queue is disabled, a round of the worker that finds a task in it leaves
  -- the memory, the flash and all else of the machine as they are, and does not reboot the chip.
  pub worker_round-IsUntouched :
      (b : Boot)
      → b.disk.queue.disable ≡ true
      → b.disk.queue.full ≡ true
      → IsUntouched b (worker_round sdk env b)
  unfolding worker_round serve_disk
  worker_round-IsUntouched b off full =
      let taken = record b {
        disk = record b.disk { queue = record b.disk.queue { full = false } };
      } in
      let u = execute_task-disabled b.disk.queue.disable b.disk.queue.task taken off in
      subst (λ r. IsUntouched b (serve_disk sdk env r b))
        (sym (dequeue_task-full b.disk.queue full))
        (record { machine = u.machine; reboots = u.reboots; disabled = u.disabled })
