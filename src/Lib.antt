-- ===== src/Lib.antt =====
-- The boot ROM of the RP2040: what happens between a UF2 block or a PICOBOOT command from the host and
-- the memory and flash that it ends up in. The C files are modelled as CMakeLists.txt builds them for
-- the ROM (NDEBUG, USE_PICOBOOT, COMPRESS_TEXT, GENERAL_SIZE_HACKS; no expanded runtime), so that
-- assertions are off; Usb.asserted records four of them. Constants of the Pico SDK, which is a submodule, are a parameter.
--
-- The parts, and how they work together. The virtual disk receives UF2 blocks as sectors, tracks
-- which blocks of a transfer it has seen and queues a task for each. The PICOBOOT interface turns a
-- command into one task, or into one for each chunk of a stream. A worker in thread mode takes the
-- tasks from the two queues, the virtual disk's first, executes them and calls back. When all blocks
-- of a transfer have been written the chip is rebooted.
--
--   Common, Common/*   tests, C arrays as lists, words, bits and bit sets
--   Sdk                the constants of the SDK headers, and the facts about them that are used
--   Address            bootrom/usb_boot_device.h: is_address_ram, is_address_flash, is_address_rom
--   Task               bootrom/async_task.h, and the queue functions of bootrom/async_task.c
--   Machine            what tasks act on: memory, buffers, the log of flash driver calls, statics
--   Flash, Flash/*     bootrom/async_task.c: the table of flash functions (_do_flash_*)
--   Execute, Execute/* bootrom/async_task.c: _execute_task, block by block, as pieces that go on or
--                      return a status
--   Disk, Disk/*       bootrom/virtual_disk.c: vd_write_block, _update_current_uf2_info,
--                      _write_uf2_page, _write_uf2_page_complete
--   Stream, Stream/*   usb_device_tiny/usb_stream_helper.c: packets into chunks and back
--   Picoboot, Picoboot/* bootrom/usb_boot_device.c: _picoboot_cmd_packet_internal,
--                      _picoboot_on_stream_chunk, _atc_ack, _atc_chunk_task_done, _picoboot_reset
--   Worker, Worker/*   bootrom/async_task.c: execute_task, async_task_worker
--   Driver, Driver/*   bootrom/program_flash_generic.c: flash_range_erase, flash_range_program and what
--                      they call, flash_size_log2; PutGet is flash_put_get, with the SPI controller;
--                      Modes has the registers that flash_exit_xip, flash_enter_cmd_xip and others set
--                      (how much an abort cuts off a transfer is an argument)
--   Text, Text/*       generator/main.c: compress, decompress; Inflate is
--                      poor_mans_text_decompress of bootrom/bootrom_misc.S
--   Volume, Volume/*   bootrom/virtual_disk.c: vd_read_block, with usb_device_tiny/virtual_disk.h;
--                      Host is how a host reads files, by the rules of FAT16
--   Watchdog, Watchdog/* usb_device_tiny/runtime.c: watchdog_reboot; reset_usb_boot, and check_wdog of
--                      bootrom/bootrom_rt0.S
--   Boot, Boot/*       bootrom/bootrom_main.c: main, _flash_boot, and in ClockSetup _usb_clock_setup
--   Msc, Msc/*         usb_device_tiny/usb_msc.c: the data phase and the CSW; Command has the command
--                      packet, the responses, the sector stream, the completions and the reset
--   BootDevice, BootDevice/* bootrom/usb_boot_device.c: the descriptors, the strings and the set-up of the
--                      boot device; Requests has the requests to its two interfaces, with the handler of
--                      usb_device_tiny/usb_msc.c: Answered that each gets an answer, Served which
--                      one
--   Usb, Usb/*         usb_device_tiny/usb_device.c and usb_device_private.h. Buffers, Transfers, Reset,
--                      Setup, Requests and Interrupt are the code: the packet buffers, the running of a transfer,
--                      the reset and the allocation of buffers, the device and its control pipe, the
--                      standard requests, the interrupt. The other files prove: Shared who owns a buffer, Counts,
--                      Steps and Queued what keeps the packet counts right, Kept what the steps leave
--                      as it was, Progress, Sizes to Handle the same of the functions that call each other,
--                      Run, Restart and Lifecycle of all that can happen to an endpoint, Memory the
--                      allocation, Control, Pipe and Answers the requests, SetAddress that request with
--                      its status packet, Scan the interrupt. Interfaces has the reading of the interface
--                      descriptors and usb_device_init
--
-- Numbers are natural numbers, with the wrap-around of 32-bit sums written out. A record holds the
-- static variables of its file, and a function of the code is a function on that record. Interrupts
-- call the interface functions one at a time, and the worker masks them around its changes of the
-- shared state, so that each function is one step.
--
-- Loops over flash addresses have fuel for one round per sector (or page) of the range and two more,
-- and end before that: each round moves the address on by at least that much towards an end that lies
-- at most the length of the range away. The loop of compress has fuel for one round per byte of the
-- text and takes at least a byte each time. usb_next_descriptor has fuel for one descriptor per byte; a
-- descriptor of length 0, on which the code does not end, and the end of the bytes have no result. The loop that shifts the size word has 32 rounds for a word
-- of 32 bits.
--
-- What is not code of the boot ROM is a parameter (Machine.Env): the routines that the host loads
-- and runs, its table of flash functions, and the bytes that the flash chip returns. For
-- the tasks, the flash driver is a log of its calls; in Driver, the wire to the chip is a log of its
-- transfers, and the bytes that the chip answers with are arguments. In Driver.PutGet the controller sends
-- a byte or delivers an answer between any two reads or writes of the loop, has room for two bytes inside
-- of it, and loses an answer that finds the RX FIFO full. The USB device
-- is a log of the calls that the PICOBOOT interface and mass storage make. In Usb the callbacks of a
-- transfer are parameters: what on_packet does (grow the transfer, halt its endpoint, finish the packet or
-- leave it), and an on_complete is an event, which the code calls last. The functions of a transfer call
-- each other and are called back, so they take the calls they make as an argument and Usb.Transfers.run
-- ties the knot on fuel, one unit for each level of calls; 40 units are more than the two buffers, a queued
-- packet and a chained transfer can use. The abort of a buffer by the controller is taken to be acknowledged
-- or to time out with the same effect. In Volume what
-- the generator prints, and in Boot what the flash chip returns on each attempt, the samples of the boot
-- pin, and whether the crystal and the PLL start, are arguments; the clock set-up is the list of its register
-- accesses, and a wait that does not end leaves the clocks as they are. A switch of clk_ref away from a
-- source that has stopped does nothing. Debug output, the activity lamp and
-- timing are left out. connect_internal_flash of the flash driver, the registers that start the
-- USB device, and the assembly files but for the three routines named above are not modelled. The
-- interrupt (Usb.Interrupt) reads buf_status once; the bits of buf_cpu_should_handle that it reads are
-- arguments. In BootDevice.Requests the revisions, the request numbers of boot/picoboot.h and the bytes of a
-- command status are arguments, and the resets of bulk endpoints are in the logs of the interfaces.
pub mod Common
pub mod Sdk
pub mod Address
pub mod Task
pub mod Machine
pub mod Flash
pub mod Execute
pub mod Disk
pub mod Stream
pub mod Picoboot
pub mod Worker
pub mod Driver
pub mod Text
pub mod Volume
pub mod Watchdog
pub mod Boot
pub mod BootDevice
pub mod Msc
pub mod Usb
