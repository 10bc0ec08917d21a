-- ===== src/Lib.antt =====
-- Verification of the RISC-V debug support library.
--
-- A debugger talks to the simulated chip over a socket. The C server of tb/remote_bitbang turns
-- each byte that it receives into levels of the JTAG pins, once for each tick of the simulator.
-- The pins clock the test access port, whose scans become requests to the registers of the debug
-- module. These drive the system bus access, and the debug memory, which holds the harts in the debug
-- ROM and shows them the instructions of a command as a program. The programs that the core runs
-- print and exit through the system calls of tb/prog.
--
-- Bitbang: tb/remote_bitbang/remote_bitbang.c, and tb/remote_bitbang/sim_jtag.c. `Server` holds the C
--   globals under their names. `rbs_init`, `rbs_accept`, `rbs_tick`, `rbs_execute_command`,
--   `rbs_reset`, `rbs_set`, `rbs_set_pins`, `rbs_done`, `rbs_exit_code` and `jtag_tick` are the C
--   functions; `Loops` has their polling loops and `Tick` what the simulator calls.
--   The operating system is an argument: lists of answers of accept, read and write stand in the
--   state, and a loop uses one answer in each round, so no fuel is needed. `waiting` is a loop that
--   still polls where the list ends; `aborted` is a call of abort(). What goes to stderr is left out.
-- Syscalls: tb/prog/syscalls.c, the system calls of the programs that the simulated core runs. Each C
--   function is the definition of its name. Memory and the linker's symbols are arguments; `_write`
--   takes as fuel one more than the number of bytes, which is proved to be enough.
-- Tap: src/dmi_jtag_tap.sv, the controller that the pins clock. `posedge` and `negedge` are the two edges
--   of TCK; each `always_comb` block is a function, a later `if` overriding an earlier one. The
--   instruction register has 5 bits, as in src/dmi_jtag.sv. `Wire` joins the server's pins to the
--   port as tb/SimJTAG.sv does, from call to call of `jtag_tick`, and `Ticks` is when it calls. The
--   scan-test clock is left out.
-- Encoding: debug_rom/encoding.h, the MATCH and MASK constants of the instructions and the register
--   addresses and fields, as tables, and the register addresses of src/dm_pkg.sv. `decode` is this
--   library's: the header declares the entries and leaves the search to its users.
-- Rom: the park loop of debug_rom/debug_rom.S in its four generated forms, the C arrays of
--   debug_rom/debug_rom.h and debug_rom/debug_rom_one_scratch.h and the hardware ROMs of
--   debug_rom/debug_rom.sv and debug_rom/debug_rom_one_scratch.sv, with their read port. `Generator` is
--   debug_rom/gen_rom.py, which writes these files.
-- Sba: src/dm_sba.sv, which carries the debugger's accesses to the system bus. `fsm` is the block `p_fsm`, its
--   `unique case` and then the two error checks that override it; `cycles` is its register over a list of
--   answers of the bus. BusWidth is 32 or 64.
-- Dmi: src/dmi_jtag.sv, which turns scans of the test access port into requests to the debug module. `posedge`
--   is a rising edge of TCK, with the strobes of the port and the answers of the clock domain crossing as
--   arguments; `fsm` and `dr_d` are the blocks `p_fsm` and `p_shift`.
-- Csrs: src/dm_csrs.sv, the registers that the debugger reads and writes. `Access` has the two cases of
--   the block `csr_read_write`, `Step` the rest of it and `p_regs`; `Words` and `Status` are what a read
--   shows. The packed structures are records, and a vector with a bit for each hart is a function.
-- Opcodes: the functions of src/dm_pkg.sv that make instruction words. `Asm` reads such a word as an
--   instruction with operands, and `Generated` compares it with the tables of Encoding.
-- Mem: src/dm_mem.sv. `Commands` is the block `p_abstract_cmd_rom`, `Control` the block `p_hart_ctrl_queue`,
--   and `Memory` the accesses of the harts and the registers. `Hart` is the meaning of the generated
--   instructions by the RISC-V manual, with the memory as an argument: what the words do is stated
--   with it. `Window` takes the bus between a hart and the module as a record of operations and laws,
--   so that the data registers are that memory. `clog2` looks for its result in as many rounds as its argument, which lies below that
--   power of two.
-- Top: src/dm_top.sv. `step` is a cycle of Csrs and Mem with what the system bus access hands over as an
--   input, and `Joined.step` connects Sba to it. In both, what one part answers to another is computed
--   without the strobes of the cycle (`clear_resumeack` and those of the system bus), on which it
--   does not depend; the code has the same wires. `Obi` is src/dm_obi_top.sv around all of it.
-- Bench: tb/tb_top_verilator.cpp, the loop of the simulation and the dump of the memory. The design that
--   Verilator builds is an argument. The loop takes its rounds as fuel: any number from the round on
--   in which the design finishes is enough. Eight places are enough for the digits of a `uint32_t`.
-- Common: lists, tests, bytes, bit masks and shift registers that the parts share.
--
-- Not modelled: the clock domain crossing src/dmi_cdc.sv and the response FIFO of src/dm_csrs.sv, whose
-- library is a submodule; the assembly source debug_rom/debug_rom.S, of which the images are
-- modelled; the interface declarations src/dmi_intf.sv; the named values of fields, the
-- memory map, the cause numbers and the access macros of debug_rom/encoding.h; and the
-- SystemVerilog test benches, which have memories and clocks of their own.
pub mod Common
pub mod Bitbang
pub mod Syscalls
pub mod Tap
pub mod Encoding
pub mod Rom
pub mod Sba
pub mod Dmi
pub mod Opcodes
pub mod Mem
pub mod Csrs
pub mod Top
pub mod Bench
