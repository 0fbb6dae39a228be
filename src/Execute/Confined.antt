-- ===== src/Execute/Confined.antt =====
-- Every task is confined to RAM, and to the flash behind its window.
use pico_bootrom_rp.Common.{
  ℕ, ◌+◌, ◌-◌, ◌%◌, ◌≤◌, ◌<◌, ◌≡◌, refl, true, false, not, ◌&&◌, Option, none, List, arith, leb,
  ltb, ◌==◌, if-by, length, take, test_bit, length-take, get_or, u32, ◌⊎◌, inl, inr,
}
use pico_bootrom_rp.Sdk.{Sdk, IsMap, IsStatus}
use pico_bootrom_rp.Address.{is_address_ram, is_address_flash}
use pico_bootrom_rp.Task.{
  IsBounded, AsyncTask, at_exec, at_vectorize_flash, at_write, Buffer, null_buffer, sector_buffer,
  page_buffer,
}
use pico_bootrom_rp.Machine.{
  page_program, read_data, Machine, Env, write_mem, buffer_bytes, set_buffer,
}
use pico_bootrom_rp.Flash.{flash_offset, default_flash_funcs, current_funcs, current_funcs-default}
use pico_bootrom_rp.Execute.{
  revert_vectors-default, end_addr, is_direct, check_range, write, read, access, task_body, execute,
}
use pico_bootrom_rp.Execute.Keeps.{
  Keeps, keeps, apply, Keeps-then, Keeps-when, Keeps-checked, Keeps-guard,
}
use pico_bootrom_rp.Execute.Safety.{
  IsSafe, logged-IsSafe, exit-Keeps, enter-Keeps, exclusive-Keeps, mutation-Keeps, erase-Keeps,
}

module _ (sdk : Sdk) (env : Env) (mem : ℕ → ℕ) (map : IsMap sdk) (status : IsStatus sdk)
    (task : AsyncTask) where
  open task use {transfer_addr, erase_addr, erase_size, data_length, type}

  abbrev Safe : Machine → Type 0
  Safe = IsSafe sdk mem

  range_in_ram :
      (n a : ℕ)
      → is_address_ram sdk transfer_addr ≡ true
      → is_address_ram sdk (u32 (transfer_addr + n)) ≡ true
      → n ≤ 256
      → transfer_addr ≤ a
      → a < transfer_addr + n
      → is_address_ram sdk a ≡ true
  unfolding is_address_ram
  range_in_ram n a start end small lo hi = ground (arith, map)

  write_mem-outside :
      (m : Machine) (bytes : List ℕ)
      → Safe m
      → is_address_ram sdk transfer_addr ≡ true
      → is_address_ram sdk (u32 (transfer_addr + data_length)) ≡ true
      → data_length ≤ 256
      → length bytes ≤ data_length
      → (a : ℕ) → is_address_ram sdk a ≡ false
      → write_mem m.mem transfer_addr bytes a ≡ mem a
  unfolding write_mem
  write_mem-outside m bytes s start end small fits a out =
      if-by (λ (x : ℕ). x ≡ mem a) (leb transfer_addr a && ltb a (transfer_addr + length bytes))
        (get_or bytes (a - transfer_addr) 0) (m.mem a)
        (λ inside. absurd (
          let ram = range_in_ram data_length a start end small (ground arith) (ground arith) in cc))
        (λ _. s.outside a out)

  set_buffer-IsSafe :
      (m : Machine) (b : Buffer) (bytes : List ℕ) → Safe m → Safe (set_buffer m b bytes)
  set_buffer-IsSafe m null_buffer bytes s = s
  set_buffer-IsSafe m sector_buffer bytes s = record {
    rom_table = s.rom_table;
    ops = s.ops;
    outside = s.outside;
  }
  set_buffer-IsSafe m page_buffer bytes s = record {
    rom_table = s.rom_table;
    ops = s.ops;
    outside = s.outside;
  }

  -- What `check_range` has established where it goes on: direct access, or an aligned flash page.
  abbrev InRange : Type 0
  InRange =
      (is_direct sdk env task ≡ true)
      ⊎ ((is_direct sdk env task ≡ false)
          × (is_address_flash sdk transfer_addr ≡ true)
          × (is_address_flash sdk (end_addr sdk env task) ≡ true)
          × (transfer_addr % 256 ≡ 0))

  check_range-same : (m : Machine) → (check_range sdk env task m).0 ≡ m
  unfolding check_range
  check_range-same m =
      if-by (λ (r : Machine × Option ℕ). r.0 ≡ m) (is_direct sdk env task) _ _ (λ _. refl)
        λ _.
          if-by (λ (r : Machine × Option ℕ). r.0 ≡ m)
            (is_address_flash sdk transfer_addr && is_address_flash sdk (end_addr sdk env task)) _ _
            (λ _.
              if-by (λ (r : Machine × Option ℕ). r.0 ≡ m) (not (transfer_addr % 256 == 0)) _ _
                (λ _. refl) (λ _. refl))
            (λ _. refl)

  check_range-InRange : (m : Machine) → (check_range sdk env task m).1 ≡ none → InRange
  unfolding check_range
  check_range-InRange m e = ground arith

  -- The first address of RAM counts as flash too, but an access there is direct.
  flash_offset-page :
      data_length ≤ 256
      → is_direct sdk env task ≡ false
      → is_address_flash sdk transfer_addr ≡ true
      → is_address_flash sdk (end_addr sdk env task) ≡ true
      → transfer_addr % 256 ≡ 0
      → (flash_offset sdk transfer_addr % 256 ≡ 0)
        × (flash_offset sdk transfer_addr + 256 ≤ sdk.sram_base - sdk.xip_main_base)
  unfolding flash_offset is_address_flash is_address_ram is_direct
  flash_offset-page small indirect f e a =
      let room = map.sram_room in
      let aligned = map.sram_aligned in
      let flash_aligned = map.flash_aligned in
      let fits = map.fits in
      let below : transfer_addr < sdk.sram_base = ground (arith, map) in ground (arith, map)

  -- Direct access that writes is access to RAM.
  direct_write :
      test_bit type at_write ≡ true
      → is_direct sdk env task ≡ true
      → (is_address_ram sdk transfer_addr ≡ true)
        × (is_address_ram sdk (end_addr sdk env task) ≡ true)
  unfolding is_direct
  direct_write w d = ground arith

  write-Keeps :
      InRange → data_length ≤ 256 → test_bit type at_write ≡ true → Keeps Safe (write sdk env task)
  unfolding write default_flash_funcs
  write-Keeps range small w = keeps λ m s. elim range [
    | inl direct ↦
        let bytes = take data_length (buffer_bytes m task.buffer) in
        rw direct (
          rw (revert_vectors-default sdk env task m s.rom_table) (record {
            rom_table = s.rom_table;
            ops = s.ops;
            outside =
                write_mem-outside m bytes s (direct_write w direct).0 (direct_write w direct).1
                  small (omega (arith, length-take data_length (buffer_bytes m task.buffer)));
          }))
    | inr (indirect, flash, end, aligned) ↦
        let valid = flash_offset-page small indirect flash end aligned in
        let bytes = take 256 (buffer_bytes m task.buffer) in
        rw indirect (
          Keeps-checked Safe
            ((current_funcs sdk env m).do_flash_page_program transfer_addr task.buffer) m
            (rw (current_funcs-default sdk env m s.rom_table) (
              logged-IsSafe sdk env mem map status
                (page_program (flash_offset sdk transfer_addr) bytes) m
                (valid.0, valid.1, omega (arith, length-take 256 (buffer_bytes m task.buffer))) s)))
  ]

  read-Keeps : data_length ≤ 256 → InRange → Keeps Safe (read sdk env task)
  unfolding read default_flash_funcs
  read-Keeps small range = keeps λ m s. elim range [
    | inl direct ↦ rw direct (set_buffer-IsSafe m task.buffer _ s)
    | inr (indirect, flash, end, aligned) ↦
        let filled = set_buffer-IsSafe m task.buffer _ s in
        rw indirect (
          Keeps-checked Safe
            ((current_funcs sdk env m).do_flash_page_read transfer_addr task.buffer) m
            (rw (current_funcs-default sdk env m s.rom_table) (
              logged-IsSafe sdk env mem map status (read_data (flash_offset sdk transfer_addr)) _
                (flash_offset-page small indirect flash end aligned) filled)))
  ]

  access-Keeps : data_length ≤ 256 → Keeps Safe (access sdk env task)
  unfolding access
  access-Keeps small = Keeps-guard InRange check_range-same check_range-InRange λ range.
      Keeps-then (Keeps-when (λ w. write-Keeps range small w)) (
        Keeps-then (Keeps-when (λ _. read-Keeps small range))
          (Keeps-when (λ _. (enter-Keeps sdk env mem map status))))

  task_body-Keeps :
      IsBounded task
      → test_bit type at_exec ≡ false
      → test_bit type at_vectorize_flash ≡ false
      → Keeps Safe (task_body sdk env task)
  unfolding task_body
  task_body-Keeps bounded no_exec no_table = Keeps-then (Keeps-when (λ b. cc)) (
      Keeps-then (Keeps-when (λ _. (exclusive-Keeps sdk env mem map status task))) (
        Keeps-then (Keeps-when (λ _. (exit-Keeps sdk env mem map status))) (
          Keeps-then (Keeps-when (λ b. cc)) (
            Keeps-then (Keeps-when (λ _. (mutation-Keeps sdk env mem map status task))) (
              Keeps-then
                (Keeps-when
                  (λ _. erase-Keeps sdk env mem map status task bounded.addr32 bounded.size32))
                (Keeps-when (λ _. access-Keeps bounded.page)))))))

  -- A task that neither runs code of the host nor installs its table, with at most a page of data,
  -- keeps the machine safe whatever its addresses are and however it ends: what it asks of the flash driver
  -- are erasures of whole sectors and accesses to whole pages at multiples of 256, all of it inside the
  -- window between XIP_MAIN_BASE and SRAM_BASE; memory that is not RAM is not written, and the table in
  -- ROM stays in force. The window is larger than the 16 MB that the driver's commands can address.
  pub execute-IsSafe :
      (m : Machine)
      → IsBounded task
      → test_bit type at_exec ≡ false
      → test_bit type at_vectorize_flash ≡ false
      → Safe m
      → Safe (execute sdk env task m).0
  unfolding execute
  execute-IsSafe m bounded no_exec no_table s =
      if-by (λ (r : Machine × ℕ). Safe r.0) m.rebooting _ _ (λ _. s)
        (λ _. apply (task_body-Keeps bounded no_exec no_table) m s)
