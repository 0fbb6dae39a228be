-- ===== src/Execute/CmdXip.antt =====
-- Where `_execute_task` looks at `AT_ENTER_CMD_XIP`.
use pico_bootrom_rp.Common.{Bool, true, false, ◌≡◌, refl, ◌||◌, test_bit, set_bit}
use pico_bootrom_rp.Common.Bits.{test_bit-set_bit}
use pico_bootrom_rp.Sdk.{Sdk}
use pico_bootrom_rp.Task.{AsyncTask, at_write, at_read, at_enter_cmd_xip}
use pico_bootrom_rp.Machine.{Machine, Env}
use pico_bootrom_rp.Execute.{
  Piece, when, execute, task_body, vectorize, set_exclusive, exec, check_mutation_source, erase,
  access,
}

when-false : (b : Bool) (f g : Piece) → b ≡ false → when b f ≡ when b g
unfolding when
when-false true f g e = absurd (cc)
when-false false f g e = refl

-- A task that neither reads nor writes does the same whether or not it asks for the flash to be put
-- back into its XIP mode: in particular the task of the PICOBOOT command for that does nothing.
pub execute-enter_cmd_xip :
    (sdk : Sdk) (env : Env) (task : AsyncTask) (m : Machine)
    → test_bit task.type at_read ≡ false
    → test_bit task.type at_write ≡ false
    → execute sdk env (record task { type = set_bit task.type at_enter_cmd_xip }) m
      ≡ execute sdk env task m
unfolding execute task_body vectorize set_exclusive exec check_mutation_source erase
execute-enter_cmd_xip sdk env task m r w =
    let xip = record task { type = set_bit task.type at_enter_cmd_xip } in
    simp test_bit-set_bit (
      rw
        (when-false (test_bit task.type at_write || test_bit task.type at_read) (access sdk env xip)
          (access sdk env task) (rw (w, r)))
        refl)
