-- ===== src/Picoboot/Status.antt =====
-- What becomes of a PICOBOOT command: it is rejected, it reboots the chip, or it runs.
use pico_bootrom_rp.Common.{
  ℕ, ◌≡◌, ◌≢◌, refl, true, false, ◌&&◌, Option, none, some, ◌∷◌, ◌==◌, if-by, ◌⊎◌, inl, inr,
  test_bit, ==_iff, arith, if◌then◌else◌, not, ◌||◌, Bool-cases,
}
use pico_bootrom_rp.Sdk.{Sdk, IsStatus}
use pico_bootrom_rp.Task.{queue_task, at_write}
use pico_bootrom_rp.Stream.{setup_transfer}
use pico_bootrom_rp.Picoboot.{
  Picoboot, PicobootCmd, CmdEntry, halt_in, halt_out, start_in, chain_out, set_cmd_status,
  picoboot_ack, find_entry, entry_type, halt_endpoints, init_command, start_stream, queue_command,
  start_command, reboot_command, run_entry, run_found, cmd_packet,
}

-- What a command is to come to: an error, a reboot, or a task of a type.
pub data Verdict : Type 0 where
  rejects : ℕ → Verdict
  reboots : Verdict
  runs : ℕ → Verdict

-- The length of data that a command of the table has, by its entry and its arguments.
abbrev pub data_length : PicobootCmd → CmdEntry → ℕ
data_length cmd entry = if test_bit entry.length 7 then cmd.arg1 else entry.length

-- A command that is not in the table, or has arguments of the wrong size, is an error. So is one that is
-- not a reboot, and has no task or data of the wrong length.
unfoldable pub verdict : Sdk → PicobootCmd → Option CmdEntry → Verdict
verdict sdk cmd none = rejects sdk.picoboot_unknown_cmd
verdict sdk cmd (some entry) =
    if not (cmd.b_cmd_size == entry.size)
    then rejects sdk.picoboot_invalid_cmd_length
    else if cmd.b_cmd_id == sdk.pc_reboot
    then reboots
    else if not (data_length cmd entry == cmd.d_transfer_length) || entry.type == 0
    then rejects sdk.picoboot_invalid_transfer_length
    else runs entry.type

-- The command has been refused: both endpoints are halted, nothing has been queued or rebooted, and
-- the status that the host can ask for is the error.
pub record IsRejected (code : ℕ) (before after : Picoboot) : Type 0 where
  pub error : after.status.d_status_code ≡ code
  pub no_success : code ≢ 0
  pub idle : after.status.b_in_progress ≡ false
  pub halted : after.usb ≡ (halt_out ∷ halt_in ∷ before.usb)
  pub same_queue : after.queue ≡ before.queue
  pub same_reboots : after.reboots ≡ before.reboots

-- The chip reboots as the command says.
pub record IsRebooting (cmd : PicobootCmd) (before after : Picoboot) : Type 0 where
  pub success : after.status.d_status_code ≡ 0
  pub idle : after.status.b_in_progress ≡ false
  pub same_queue : after.queue ≡ before.queue
  pub asked :
      after.reboots
      ≡ (record { addr = cmd.arg0; sp = cmd.arg1; delay_ms = cmd.arg2 } ∷ before.reboots)

-- The task in the queue of a command that has no data.
pub record IsQueued (type : ℕ) (cmd : PicobootCmd) (after : Picoboot) : Type 0 where
  pub full : after.queue.full ≡ true
  pub task_type : after.queue.task.type ≡ type
  pub own_token : after.queue.task.picoboot_user_token ≡ cmd.d_token
  pub address : after.queue.task.transfer_addr ≡ cmd.arg0

-- The stream of the command's data has begun, in the direction of its type.
pub record IsStreaming (type : ℕ) (cmd : PicobootCmd) (before after : Picoboot) : Type 0 where
  pub whole : after.stream.transfer_length ≡ cmd.d_transfer_length
  pub begins : after.stream.offset ≡ 0
  pub same_queue : after.queue ≡ before.queue
  pub to_host : after.stream_in ≡ not (test_bit type at_write)
  pub started : after.usb ≡ ((if after.stream_in then start_in else chain_out) ∷ before.usb)

-- The command runs: it is in progress, with success as its status so far.
pub record IsRunning (type : ℕ) (cmd : PicobootCmd) (before after : Picoboot) : Type 0 where
  pub success : after.status.d_status_code ≡ 0
  pub in_progress : after.status.b_in_progress ≡ true
  pub same_reboots : after.reboots ≡ before.reboots
  pub task_type : after.task.type ≡ type
  pub address : after.task.transfer_addr ≡ cmd.arg0
  pub work :
      (cmd.d_transfer_length ≡ 0) × IsQueued type cmd after
      ⊎ (cmd.d_transfer_length ≢ 0) × IsStreaming type cmd before after

abbrev pub Outcome : Verdict → PicobootCmd → Picoboot → Picoboot → Type 0
Outcome (rejects code) cmd before after = IsRejected code before after
Outcome reboots cmd before after = IsRebooting cmd before after
Outcome (runs type) cmd before after = IsRunning type cmd before after

module _ (sdk : Sdk) (status : IsStatus sdk) (cmd : PicobootCmd) (before : Picoboot) where
  halted-IsRejected :
      (b : Picoboot) (code : ℕ)
      → code ≢ 0
      → b.status.b_in_progress ≡ false
      → b.usb ≡ before.usb
      → b.queue ≡ before.queue
      → b.reboots ≡ before.reboots
      → IsRejected code before (halt_endpoints sdk (set_cmd_status code b))
  unfolding halt_endpoints set_cmd_status
  halted-IsRejected b code error idle u q r = record {
    error = refl;
    no_success = error;
    idle = idle;
    halted = rw u refl;
    same_queue = q;
    same_reboots = r;
  }

  start_command-IsRunning :
      (type : ℕ) (b : Picoboot)
      → b.status.d_status_code ≡ 0
      → b.usb ≡ before.usb
      → b.queue ≡ before.queue
      → b.reboots ≡ before.reboots
      → b.task.picoboot_user_token ≡ cmd.d_token
      → b.task.transfer_addr ≡ cmd.arg0
      → IsRunning type cmd before (start_command sdk cmd type b)
  unfolding start_command queue_command start_stream queue_task setup_transfer
  start_command-IsRunning type b success u q r own addr =
      if-by (IsRunning type cmd before) (cmd.d_transfer_length == 0) _ _
        (λ e. record {
          success = success;
          in_progress = refl;
          same_reboots = r;
          task_type = refl;
          address = addr;
          work = inl (
            (==_iff cmd.d_transfer_length 0).0 e,
            record { full = refl; task_type = refl; own_token = own; address = addr },
          );
        })
        (λ n.
          if-by (IsRunning type cmd before) (test_bit type at_write) _ _
            (λ w. record {
              success = success;
              in_progress = refl;
              same_reboots = r;
              task_type = refl;
              address = addr;
              work = inr (
                ground arith,
                record {
                  whole = refl;
                  begins = refl;
                  same_queue = q;
                  to_host = rw w refl;
                  started = rw u refl;
                },
              );
            })
            (λ w. record {
              success = success;
              in_progress = refl;
              same_reboots = r;
              task_type = refl;
              address = addr;
              work = inr (
                ground arith,
                record {
                  whole = refl;
                  begins = refl;
                  same_queue = q;
                  to_host = rw w refl;
                  started = rw u refl;
                },
              );
            }))

  -- Behind the tests of the size of the arguments and for a reboot.
  data-Outcome :
      (entry : CmdEntry) (b : Picoboot)
      → b.status.b_in_progress ≡ false
      → b.usb ≡ before.usb
      → b.queue ≡ before.queue
      → b.reboots ≡ before.reboots
      → b.task.picoboot_user_token ≡ cmd.d_token
      → b.task.transfer_addr ≡ cmd.arg0
      → let ok = set_cmd_status sdk.picoboot_ok b in
        Outcome
          (if not (data_length cmd entry == cmd.d_transfer_length) || entry.type == 0
            then rejects sdk.picoboot_invalid_transfer_length
            else runs entry.type)
          cmd
          before
          (if entry_type sdk cmd entry == 0
            then halt_endpoints sdk (set_cmd_status sdk.picoboot_invalid_transfer_length ok)
            else start_command sdk cmd (entry_type sdk cmd entry) ok)
  unfolding entry_type set_cmd_status
  data-Outcome entry b idle u q r own addr =
      let ok = set_cmd_status sdk.picoboot_ok b in
      let refused =
        halted-IsRejected ok sdk.picoboot_invalid_transfer_length status.transfer_length_ne idle u q
          r in
      elim (Bool-cases (data_length cmd entry == cmd.d_transfer_length)) [
        | inr e ↦ rw e refused
        | inl e ↦ elim (Bool-cases (entry.type == 0)) [
          | inl f ↦ rw (e, f) refused
          | inr f ↦ rw (e, f) (start_command-IsRunning entry.type ok status.ok_zero u q r own addr)
        ]
      ]

  run_entry-Outcome :
      (entry : CmdEntry) (b : Picoboot)
      → b.status.b_in_progress ≡ false
      → b.usb ≡ before.usb
      → b.queue ≡ before.queue
      → b.reboots ≡ before.reboots
      → b.task.picoboot_user_token ≡ cmd.d_token
      → b.task.transfer_addr ≡ cmd.arg0
      → Outcome (verdict sdk cmd (some entry)) cmd before (run_entry sdk cmd entry b)
  unfolding run_entry reboot_command picoboot_ack set_cmd_status verdict entry_type
  run_entry-Outcome entry b idle u q r own addr = elim (Bool-cases (cmd.b_cmd_size == entry.size)) [
    | inr e ↦
        rw e (halted-IsRejected b sdk.picoboot_invalid_cmd_length status.cmd_length_ne idle u q r)
    | inl e ↦ elim (Bool-cases (cmd.b_cmd_id == sdk.pc_reboot)) [
      | inl f ↦
          rw (e, f)
            (record { success = status.ok_zero; idle = refl; same_queue = q; asked = rw r refl })
      | inr f ↦ rw (e, f) (data-Outcome entry b idle u q r own addr)
    ]
  ]

  run_found-Outcome :
      (found : Option CmdEntry)
      → Outcome
          (verdict sdk cmd found)
          cmd
          before
          (run_found sdk cmd found (init_command sdk cmd before))
  unfolding run_found init_command halt_endpoints verdict
  run_found-Outcome none = record {
    error = refl;
    no_success = status.unknown_ne;
    idle = refl;
    halted = refl;
    same_queue = refl;
    same_reboots = refl;
  }
  run_found-Outcome (some entry) =
      run_entry-Outcome entry (init_command sdk cmd before) refl refl refl refl refl refl

  -- A packet of the right length and magic number comes to what its command asks for, in whatever
  -- state it arrives. It is rejected exactly where its command is not in the table, its arguments or its
  -- data have the wrong length, or it has no task: both endpoints are halted, the status is the error of that case,
  -- and nothing else is done. A reboot is asked for with the command's arguments. Any other command is in
  -- progress with success as its status, with a task of its type at its address: in the queue where
  -- it has no data, and behind a stream of all its data in the direction of its type otherwise.
  pub cmd_packet-Outcome :
      (len : ℕ)
      → len ≡ sdk.sizeof_picoboot_cmd
      → cmd.d_magic ≡ sdk.picoboot_magic
      → Outcome (verdict sdk cmd (find_entry sdk cmd)) cmd before (cmd_packet sdk len cmd before)
  unfolding cmd_packet
  cmd_packet-Outcome len e magic =
      let right : (len == sdk.sizeof_picoboot_cmd && cmd.d_magic == sdk.picoboot_magic) ≡ true =
        ground arith in
      rw right (run_found-Outcome (find_entry sdk cmd))
