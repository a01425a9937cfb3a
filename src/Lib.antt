-- ===== src/Lib.antt =====
-- rv32imac-soc: the Zephyr drivers of the five-stage RISC-V SoC, with the hardware that they drive.
--
-- Parts and how they interact. The drivers read and write memory-mapped registers; Bus.antt is that
-- bus, the record of sys_read32 and sys_write32 over the state of a device, and the state passing
-- that driver code runs in. A driver is stated over any bus. Its theorems take the bus that the
-- registers of the SoC give, where each access is a clock edge.
--
-- Intc.antt: zephyr/drivers/interrupt_controller/intc_rv32_5stage.c. `acknowledge` and `dispatch`
-- are the two halves of rv32_5stage_intc_isr, composed as `isr`; intr_enable, intr_disable,
-- intr_get_state, intr_get_line_state and `initialize` are the rest of the API. Intc/Hw.antt is
-- src/intc.v; Intc/Wires says what one clock edge does to each wire, Intc/Masks and Intc/Service
-- what the driver makes of it, Intc/Dispatch is the service loop, Intc/Pauses has the quiet cycles that
-- src/cpu.v leaves between two accesses, and Intc/Pauses/Handler the handler with them.
-- Uart.antt: zephyr/drivers/serial/uart_rv32_5stage.c, one definition for each uart_rv32_5stage_*
-- function. Uart/Hw.antt is src/uart_mmio.v. Uart/Poll, Uart/Fifo and Uart/Irq are the theorems of
-- the polled half, the FIFO half and the interrupt half. Uart/Lines.antt is the interrupt outputs of
-- that module and how src/cpu.v leads them into the aggregator.
-- Cache.antt: zephyr/drivers/cache/cache_rv32_5stage.c, the walks `displace_range` and
-- `displace_all` and the Zephyr interface over them. Cache/Hw.antt is src/dcache_bram.v, a direct-
-- mapped write-back cache in front of DRAM. Cache/Walk says which sets a walk touches, over any
-- memory; Cache/Displace and Cache/Release what that does to the lines of the cache;
-- Cache/Coherence what a device behind the cache and the CPU then see.
-- Cache/Fsm.antt is src/dcache_bram.v once more, a clock edge at a time, with its block RAM, the
-- speculative read, the store-to-load bypass and the states of a miss. Cache/Fsm/Phases,
-- Cache/Fsm/Steps, Cache/Fsm/Serve and Cache/Fsm/Latency follow a request through the states,
-- Cache/Fsm/Found and Cache/Fsm/Refine take it to the access at once of Cache/Hw, Cache/Fsm/Sweep is
-- the sweep of the tags after a reset.
-- Gemm.antt and Gemm/Run.antt: zephyr/drivers/misc/gemm_rv32_5stage.c with
-- zephyr/include/rv32_5stage/gemm.h. Gemm/World.antt holds the driver's data, the effects that it
-- has on the outside (register writes, calls of the cache driver, the lock and the semaphore), kept
-- in their order, and the environment that answers its questions. gemm_run_batch is cut at its
-- phases: `prepare` (the registers and `submit`, the loop that pushes the descriptors), `kick`,
-- `await` with `wait`, then `account` and `collect`, or `give_up`. The completion interrupt is
-- taken after the kick, after the wait, or not at all, as the environment chooses. Gemm/Submit,
-- Gemm/Batch, Gemm/Batch/Wait, Gemm/Batch/Returns and Gemm/Batch/Signals are the theorems about a
-- batch, Gemm/Account those about its statistics, Gemm/Descriptor and Gemm/Init those about the
-- words that the driver packs and unpacks.
-- Gemm/Lock and Gemm/Lock/Calls follow the driver's lock over any sequence of calls, a step relation
-- on the worlds.
-- Gemm/Race.antt is the same driver with many threads in it: a step relation that cuts gemm_run_batch
-- where another thread may run. Gemm/Race/Pieces are the theorems about the pieces, Gemm/Race/Owner
-- and Gemm/Race/Inv what holds between two steps, Gemm/Race/Woven a trace with foreign flushes in
-- it, Gemm/Race/Serial the order of the batches.
-- Threads.antt: zephyr/samples/gemm_threads/src/main.c, the sample on top of the accelerator
-- driver: stage_operands, check_results and, in Threads/Runner, gemm_runner on the driver's
-- `run_batch`. Threads/Main.antt is the rest of the program: the worker, run_mode (`start_run`, the
-- thread, `end_run`), the sweep and `main`; Threads/Report is what it prints, a `Line` for each
-- call of printk. What the kernel decides, when the worker runs and how many cycles a thread is
-- charged, are answers of a `Kernel`.
-- Threads/Stage, Threads/Check and Threads/Verdict are the theorems about the self-check,
-- Threads/Sweep those about the crossover, Threads/Main/Loop how the runs compose, and
-- Threads/Main/Returns, Threads/Main/Going, Threads/Main/Passes and Threads/Main/Worker the theorems
-- about the whole program.
-- CacheTest.antt: zephyr/samples/cache_test/src/main.c, the smoke test of the cache driver, on the
-- cache of src/dcache_bram.v. Cache/Flat says what the CPU sees of that cache and DRAM: one flat
-- memory; CacheTest/Preserve takes the test through it, CacheTest/Ratio is the ratio that it prints.
-- Wiring.antt: the macros that instantiate the three drivers from the device tree, the tables of
-- operations that they register, and the interface of zephyr/include/rv32_5stage/gemm.h as a record
-- over any states. Wiring/Table and Wiring/Service join the instances at the interrupt controller,
-- and Wiring/Boot is the start of the three drivers on one board, by their init levels; Wiring/Boot/Quieted,
-- Wiring/Boot/Both and Wiring/Boot/Started are what it leaves.
-- Port.antt: fpga/coremark/core_portme.c and core_portme.h, and the two functions of
-- fpga/coremark/ee_printf.c that reach the board, uart_send_char and ee_printf. Port/Clock and
-- Port/Console are their theorems.
-- Baremetal.antt: the helpers of fpga/tests/test_mm_accel.c: uart_print_int32, the cache walks,
-- which Baremetal/Flush relates to those of the driver, and scalar_gemm.
-- Common.antt and its children: library names passed on, Boolean tests, lists, machine words, bit
-- operations, counting loops and integers.
--
-- Numbers. A register or an address is a native number; sums of uint32_t wrap at 2 ^ 32, and the
-- statistics of the accelerator driver do. A pointer is its address, NULL is 0.
--
-- Fuel. Six loops run on fuel; `none` is the loop that has not ended. The service loop of the
-- interrupt handler has eight sources and ends within nine rounds. The walk over a range ends
-- within a round more than the lines that the range occupies, if the range ends a line below the
-- top of the address space. The spins on the transmitter, in the driver and in the port of
-- CoreMark, and on the accelerator's STATUS end when the hardware is ready; that it becomes ready is
-- a hypothesis of the theorems about them. Likewise a wait for the semaphore with K_FOREVER, of which
-- `none` is the wait that does not end. A request to the cache, cycle by cycle, is served within
-- 2 L + 6 cycles if the memory behind the cache answers within L.
--
-- Parameters. What Zephyr supplies is an argument with its documented behaviour: find_lsb_set
-- (`FindLsbSet`), ROUND_DOWN (`RoundDown`), the handlers of _sw_isr_table and the numbering of its
-- entries (`IsMultiLevel`), the calls that enable a line, the answers of the semaphore, the cycles
-- charged to threads. So are the nodes of the device tree. What EEMBC's ee_vsprintf writes is the
-- argument of ee_printf, and the numbers of time_in_secs are a type with a conversion and a division.
--
-- The operand arrays and the destinations of the sample are functions of the index; `fits_arrays` says
-- whether the program stays inside the arrays of C, and without that `main` has no result.
--
-- Not modelled: quiet cycles between the accesses to the interrupt controller, but in Intc/Pauses, the
-- volatile accumulator of the displacement walks, which lies on the stack behind the same cache,
-- the variant of the cache on the sky130 SRAM macro, which is not in the repository (of
-- the block RAM, a word that is read in the cycle of its write is the old one, as the text says),
-- the transmitter and the receiver behind the serial registers, a switch of threads within a flush,
-- within the kick or within the accounts of a batch, the creation and the scheduling of threads,
-- the phases of the bare-metal tests, CoreMark itself, which is EEMBC's, with its formatted output.
pub mod Common
pub mod Bus
pub mod Intc
pub mod Uart
pub mod Cache
pub mod CacheTest
pub mod Gemm
pub mod Threads
pub mod Baremetal
pub mod Port
pub mod Wiring
