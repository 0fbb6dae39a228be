-- ===== src/Worker.antt =====
-- `execute_task` and `async_task_worker` of bootrom/async_task.c: the loop in thread mode that runs the
-- queued tasks, the virtual disk's before PICOBOOT's.
pub mod Exclusive
mod Tests
use pico_bootrom_rp.Common.{ℕ, Bool, true, false, Option, none, some, List, [], ◌∷◌, if◌then◌else◌}
use pico_bootrom_rp.Sdk.{Sdk}
use pico_bootrom_rp.Task.{
  AsyncTask, TaskQueue, Callback, null_callback, write_uf2_page_complete, atc_ack,
  atc_chunk_task_done, dequeue_task,
}
use pico_bootrom_rp.Machine.{Machine, Env}
use pico_bootrom_rp.Execute.{execute}
use pico_bootrom_rp.Disk.{Disk}
use pico_bootrom_rp.Disk.Page.{write_uf2_page_done}
use pico_bootrom_rp.Picoboot.{Picoboot, on_ack, on_chunk_task_done}

-- The boot ROM's state. `virtual_disk_queue` is one variable: `disk.queue` has it between the steps, and
-- the machine has it while a task is executed.
pub record Boot : Type 0 where
  pub machine : Machine
  pub disk : Disk
  pub picoboot : Picoboot
  pub async_completions : List (ℕ × ℕ)  -- the calls of `vd_async_complete`, the newest first

module _ (sdk : Sdk) where
  -- `_call_task_complete`
  unfoldable pub call_task_complete : Callback → AsyncTask → Boot → Boot
  call_task_complete null_callback task b = b
  call_task_complete write_uf2_page_complete task b = record b {
    disk = write_uf2_page_done sdk b.disk task;
    async_completions = (task.token, task.result) ∷ b.async_completions;
  }
  call_task_complete atc_ack task b = record b { picoboot = on_ack task b.picoboot }
  call_task_complete atc_chunk_task_done task b = record b {
    picoboot = on_chunk_task_done task b.picoboot;
  }

module _ (sdk : Sdk) (env : Env) where
  -- `_execute_task` on the whole state.
  unfoldable pub run_task : AsyncTask → Boot → Boot × ℕ
  run_task task b =
      let (m, result) =
        execute sdk env task (record b.machine { virtual_disk_queue = b.disk.queue }) in
      (record b { machine = m; disk = record b.disk { queue = m.virtual_disk_queue } }, result)

  -- `execute_task`, for a queue that is or is not disabled.
  unfoldable pub execute_task : Bool → AsyncTask → Boot → Boot
  execute_task disable task b =
      let (ran, result) = if disable then (b, 1) else run_task task b in
      call_task_complete sdk task.callback (record task { result = result }) ran

  unfoldable pub serve_picoboot : TaskQueue × Option AsyncTask → Boot → Boot
  serve_picoboot (queue, none) b = b
  serve_picoboot (queue, some task) b =
      execute_task queue.disable task (record b { picoboot = record b.picoboot { queue = queue } })

  unfoldable pub serve_disk : TaskQueue × Option AsyncTask → Boot → Boot
  serve_disk (queue, none) b = serve_picoboot (dequeue_task b.picoboot.queue) b
  serve_disk (queue, some task) b =
      execute_task queue.disable task (record b { disk = record b.disk { queue = queue } })

  -- One round of the loop of `async_task_worker`. It sleeps where both queues are empty.
  unfoldable pub worker_round : Boot → Boot
  worker_round b = serve_disk (dequeue_task b.disk.queue) b
