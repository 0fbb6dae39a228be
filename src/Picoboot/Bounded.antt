-- ===== src/Picoboot/Bounded.antt =====
-- Whatever the host sends to the PICOBOOT interface, the tasks in its queue are bounded.
use pico_bootrom_rp.Common.{ℕ, ◌^◌, ◌≤◌, ◌<◌, List, length}
use pico_bootrom_rp.Sdk.{Sdk}
use pico_bootrom_rp.Task.{AsyncTask, TaskQueue, IsBounded, dequeue_task}
use pico_bootrom_rp.Machine.{Machine}
use pico_bootrom_rp.Stream.{Stream, out_packet, out_complete, in_chunk_len, in_complete}
use pico_bootrom_rp.Picoboot.{
  Picoboot, PicobootCmd, picoboot_reset, cmd_packet, on_stream_chunk, on_ack, on_chunk_task_done,
}

-- The task of the current command and the one in the queue are bounded, and so are the chunks of the
-- stream.
pub record IsPicoboot (b : Picoboot) : Type 0 where
  pub own : IsBounded b.task
  pub queued : IsBounded b.queue.task
  pub chunks : b.stream.chunk_size ≤ 256

-- The steps of the interface: a packet from the host with 32-bit arguments; while a stream is set up, a
-- packet of its data that is the end of a chunk, or that is not, and the start of a chunk to the
-- host and a packet of it; the completion of a task; a reset; and the worker's taking the task from the queue.
pub data Step (sdk : Sdk) (b : Picoboot) : Picoboot → Type 0 where
  command :
      (len : ℕ) (cmd : PicobootCmd)
      → cmd.arg0 < 2 ^ 32
      → cmd.arg1 < 2 ^ 32
      → Step sdk b (cmd_packet sdk len cmd b)
  chunk_out :
      (bytes : List ℕ)
      → 0 < b.stream.chunk_size
      → Step sdk b (
          on_stream_chunk
            (out_packet b.stream bytes).1
            (record b { stream = (out_packet b.stream bytes).0 }))
  packet_out :
      (bytes : List ℕ)
      → Step sdk b (record b { stream = out_complete (out_packet b.stream bytes).0 (length bytes) })
  chunk_in : 0 < b.stream.chunk_size → Step sdk b (on_stream_chunk (in_chunk_len b.stream) b)
  packet_in : Step sdk b (record b { stream = (in_complete b.stream).1 })
  acked : (task : AsyncTask) → Step sdk b (on_ack task b)
  chunk_task_done : (task : AsyncTask) → Step sdk b (on_chunk_task_done task b)
  reset : (queue : TaskQueue) → Step sdk b (picoboot_reset b queue).0
  taken : Step sdk b (record b { queue = (dequeue_task b.queue).0 })

-- Any sequence of steps, the last one outside.
pub data Steps (sdk : Sdk) (b : Picoboot) : Picoboot → Type 0 where
  start : Steps sdk b b
  then_step : {c d : Picoboot} → Steps sdk b c → Step sdk c d → Steps sdk b d
