-- ===== src/Execute/Verdict.antt =====
-- The status that a task ends with: the first rule that applies, of a table.
use pico_bootrom_rp.Common.{
  ℕ, zero, suc, ◌+◌, ◌%◌, ◌/◌, Bool, false, not, ◌&&◌, ◌||◌, Option, none, some, List, [], ◌∷◌, ◌≡◌,
  refl, arith, ltb, ◌==◌, if◌then◌else◌, test_bit, u32, Bool-cases, inl, inr,
}
use pico_bootrom_rp.Sdk.{Sdk, IsStatus}
use pico_bootrom_rp.Address.{is_address_flash}
use pico_bootrom_rp.Task.{
  AsyncTask, at_exec, at_vectorize_flash, at_write, at_flash_erase, at_read, Buffer, null_buffer,
  sector_buffer, page_buffer,
}
use pico_bootrom_rp.Machine.{Machine, Env, set_buffer}
use pico_bootrom_rp.Flash.{
  current_funcs, current_funcs-default, default_flash_funcs, erase_sectors, default_erase_range,
}
use pico_bootrom_rp.Flash.Erase.{call_erase_sector-default}
use pico_bootrom_rp.Execute.{
  checked, end_addr, set_exclusive, check_mutation_source, erase, is_direct, check_range, write,
  read, access, task_body, execute, revert_vectors-default,
}
use pico_bootrom_rp.Execute.Codes.{
  Ends, ends, Codes, codes, run, or_else, only, Codes-then, Codes-when, Ends-when, only-none,
  or_else-none, Codes-eq, Ends-skip, checked-zero, Ends-checked, IsRom, IsLast,
}

-- The code of the first rule whose condition holds, or `code` if none does.
abbrev pub first_match : List (Bool × ℕ) → ℕ → ℕ
first_match [] code = code
first_match ((test, c) ∷ rules) code = if test then c else first_match rules code

module _ (sdk : Sdk) (env : Env) (task : AsyncTask) where
  open task use {transfer_addr, erase_addr, erase_size, type}

  abbrev pub accesses : Bool
  accesses = test_bit type at_write || test_bit type at_read

  -- The rules, for a machine that is or is not rebooting and whose last mutation came from `last`.
  unfoldable pub rules : Bool → ℕ → List (Bool × ℕ)
  rules rebooting last =
      (rebooting, sdk.picoboot_rebooting)
      ∷ (
        (test_bit type at_write || test_bit type at_flash_erase)
            && task.check_last_mutation_source
            && not (last == task.source),
        sdk.picoboot_interleaved_write,
      )
      ∷ (
        test_bit type at_flash_erase && not (erase_addr % 4096 == 0 && erase_size % 4096 == 0),
        sdk.picoboot_bad_alignment,
      )
      ∷ (
        test_bit type at_flash_erase
            && not (
                is_address_flash sdk erase_addr
                && is_address_flash sdk (u32 (erase_addr + erase_size))),
        sdk.picoboot_invalid_address,
      )
      ∷ (
        accesses
            && not (is_direct sdk env task)
            && not (
                is_address_flash sdk transfer_addr && is_address_flash sdk (end_addr sdk env task)),
        sdk.picoboot_invalid_address,
      )
      ∷ (
        accesses && not (is_direct sdk env task) && not (transfer_addr % 256 == 0),
        sdk.picoboot_bad_alignment,
      )
      ∷ []

module _ (sdk : Sdk) (env : Env) (task : AsyncTask) (last : ℕ) where
  open task use {transfer_addr, erase_addr, erase_size, type}

  exclusive-Ends : Ends (IsLast last) (IsLast last) (set_exclusive sdk env task) none
  unfolding set_exclusive
  exclusive-Ends = ends λ m p. (refl, record { rom = p.rom; from = p.from })

  exit-Ends :
      Ends
        (IsLast last)
        (IsLast last)
        (λ m. checked (current_funcs sdk env m).do_flash_exit_xip m)
        none
  unfolding default_flash_funcs
  exit-Ends =
      Ends-checked (IsLast last) (IsLast last) (λ m. (current_funcs sdk env m).do_flash_exit_xip)
        λ m p.
          rw (current_funcs-default sdk env m p.rom) (refl, record { rom = p.rom; from = p.from })

  abbrev mutation_code : Option ℕ
  mutation_code =
      if task.check_last_mutation_source && not (last == task.source)
      then some sdk.picoboot_interleaved_write
      else none

  mutation-Ends : Ends (IsLast last) IsRom (check_mutation_source sdk env task) mutation_code
  unfolding check_mutation_source
  mutation-Ends = ends λ m p. ground arith

  abbrev erase_code : Option ℕ
  erase_code =
      if not (erase_addr % 4096 == 0 && erase_size % 4096 == 0)
      then some sdk.picoboot_bad_alignment
      else if not
          (is_address_flash sdk erase_addr && is_address_flash sdk (u32 (erase_addr + erase_size)))
      then some sdk.picoboot_invalid_address
      else none

  erase_sectors_ok :
      (fuel addr end : ℕ) (m : Machine)
      → m.flash_funcs ≡ none
      → ((erase_sectors sdk env fuel addr end 0 m).1 ≡ 0)
        × ((erase_sectors sdk env fuel addr end 0 m).0.flash_funcs ≡ none)
  unfolding erase_sectors
  erase_sectors_ok zero addr end m rom = (refl, rom)
  erase_sectors_ok (suc fuel) addr end m rom = elim (Bool-cases (ltb addr end && 0 == 0)) [
    | inl more ↦
        rw (more, call_erase_sector-default sdk env addr m rom, erase_sectors)
          (erase_sectors_ok fuel (u32 (addr + 4096)) end _ rom)
    | inr done ↦ rw (done, erase_sectors) (refl, rom)
  ]

  erase_range_ok :
      (m : Machine)
      → sdk.picoboot_ok ≡ 0
      → m.flash_funcs ≡ none
      → ((default_erase_range sdk env erase_addr erase_size m).1 ≡ 0)
        × ((default_erase_range sdk env erase_addr erase_size m).0.flash_funcs ≡ none)
  unfolding default_erase_range
  erase_range_ok m z rom =
      simp z
        (erase_sectors_ok (erase_size / 4096 + 2) erase_addr (u32 (erase_addr + erase_size)) m rom)

  erase-Ends : sdk.picoboot_ok ≡ 0 → Ends IsRom IsRom (erase sdk env task) erase_code
  unfolding erase default_flash_funcs
  erase-Ends z = ends λ m p.
      let range = (current_funcs sdk env m).do_flash_erase_range erase_addr erase_size in
      let same : range ≡ default_erase_range sdk env erase_addr erase_size =
        rw (current_funcs-default sdk env m p.rom) in
      let ok = erase_range_ok m z p.rom in
      let done : checked range m ≡ ((default_erase_range sdk env erase_addr erase_size m).0, none) =
        rw same (checked-zero _ m ok.0) in
      ground (arith, done, ok)

  abbrev range_code : Option ℕ
  range_code =
      if is_direct sdk env task
      then none
      else if is_address_flash sdk transfer_addr && is_address_flash sdk (end_addr sdk env task)
      then (if not (transfer_addr % 256 == 0) then some sdk.picoboot_bad_alignment else none)
      else some sdk.picoboot_invalid_address

  range-Ends : Ends IsRom IsRom (check_range sdk env task) range_code
  unfolding check_range
  range-Ends = ends λ m p. ground arith

  write-Ends : Ends IsRom IsRom (write sdk env task) none
  unfolding write default_flash_funcs
  write-Ends = ends λ m p. elim (Bool-cases (is_direct sdk env task)) [
    | inl direct ↦
        rw direct (rw (revert_vectors-default sdk env task m p.rom) (refl, record { rom = p.rom }))
    | inr flash ↦
        rw flash
          (rw (current_funcs-default sdk env m p.rom, checked-zero) (refl, record { rom = p.rom }))
  ]

  set_buffer-IsRom :
      (m : Machine) (b : Buffer) (bytes : List ℕ) → IsRom m → IsRom (set_buffer m b bytes)
  set_buffer-IsRom m null_buffer bytes p = p
  set_buffer-IsRom m sector_buffer bytes p = record { rom = p.rom }
  set_buffer-IsRom m page_buffer bytes p = record { rom = p.rom }

  read-Ends : Ends IsRom IsRom (read sdk env task) none
  unfolding read default_flash_funcs
  read-Ends = ends λ m p. elim (Bool-cases (is_direct sdk env task)) [
    | inl direct ↦ rw direct (refl, set_buffer-IsRom m task.buffer _ p)
    | inr flash ↦ rw flash (
        rw (current_funcs-default sdk env m p.rom, checked-zero)
          (refl, record { rom = (set_buffer-IsRom m task.buffer _ p).rom }))
  ]

  enter-Codes : Codes IsRom (λ m. checked (current_funcs sdk env m).do_flash_enter_cmd_xip m) none
  unfolding default_flash_funcs
  enter-Codes = codes λ m p. rw (current_funcs-default sdk env m p.rom, checked-zero)

  access-Codes : Codes IsRom (access sdk env task) range_code
  unfolding access
  access-Codes = Codes-eq (simp (only-none, or_else-none)) (
      Codes-then range-Ends (
        Codes-then (Ends-when _ (λ m p. p) write-Ends)
          (Codes-then (Ends-when _ (λ m p. p) read-Ends) (Codes-when _ enter-Codes))))

  body_code : Option ℕ
  body_code =
      or_else (only (test_bit type at_write || test_bit type at_flash_erase) mutation_code) (
        or_else (only (test_bit type at_flash_erase) erase_code)
          (only (accesses sdk env task) range_code))

  task_body-Codes :
      sdk.picoboot_ok ≡ 0
      → test_bit type at_exec ≡ false
      → test_bit type at_vectorize_flash ≡ false
      → Codes (IsLast last) (task_body sdk env task) body_code
  unfolding task_body body_code
  task_body-Codes z no_exec no_table = Codes-eq (simp only-none) (
      Codes-then (Ends-skip _ no_table) (
        Codes-then (Ends-when _ (λ m p. p) exclusive-Ends) (
          Codes-then (Ends-when _ (λ m p. p) exit-Ends) (
            Codes-then (Ends-skip _ no_exec) (
              Codes-then (Ends-when _ (λ m p. record { rom = p.rom }) mutation-Ends) (
                Codes-then (Ends-when _ (λ m p. p) (erase-Ends z)) (Codes-when _ access-Codes)))))))

-- A task with neither AT_EXEC nor AT_VECTORIZE_FLASH, on a machine whose table is the one in ROM, ends
-- with the status of the first rule of `rules` that applies, and with success if none does.
pub execute-rules :
    (sdk : Sdk) (env : Env) (task : AsyncTask) (m : Machine)
    → IsStatus sdk
    → test_bit task.type at_exec ≡ false
    → test_bit task.type at_vectorize_flash ≡ false
    → m.flash_funcs ≡ none
    → (execute sdk env task m).1
      ≡ first_match (rules sdk env task m.rebooting m.last_mutation_source) sdk.picoboot_ok
unfolding execute rules body_code only
execute-rules sdk env task m status no_exec no_table rom =
    let body =
      run (task_body-Codes sdk env task m.last_mutation_source status.ok_zero no_exec no_table) m
        (record { rom = rom; from = refl }) in
    ground (arith, body)
