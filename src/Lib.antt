-- ===== src/Lib.antt =====
-- A model of the core of mgsim, a discrete-event simulator of many-core microthreaded machines, and
-- proofs of what its parts promise one another.
--
-- The kernel (sim/kernel.cpp) runs clocks; a clock runs processes in the phases acquire, check and
-- commit. Processes communicate through storages (sim/buffer.hpp, sim/register.hpp, sim/flag.hpp,
-- sim/linkedlist.hpp): what a process writes in the commit phase is noted, and the kernel's call of
-- `Update` between cycles effects it, and activates or deactivates the process that is sensitive to
-- the storage. Processes that share a structure request one of its ports (sim/ports.cpp), and an
-- arbiter selects one of them in each cycle. The machine (arch/) is built from these.
--
-- Files:
--   Base       the names and lemmas that all files share.
--   Storage    sim/storage.h, sim/storage.hpp: RegisterUpdate, Notify, Unnotify. A storage's calls on
--              the kernel are kept as a list, from which Storage/Wake counts the activations.
--              Storage/Buffer, Register, Flag and LinkedList model the class of that name, one
--              function per method; Buffer/Fifo, Register/Laws, Flag/Laws and LinkedList/Cycles define
--              a cycle (what its processes call, then `Update`) and compare it with a queue, an
--              optional value, a Boolean and a sequence of indices. Buffer/Answer is about the calls of
--              Push in the phases of a cycle.
--   Kernel     sim/clock.h and the state of sim/kernel.h; Kernel/Gcd is `gcd` and `lcm`, and
--              Kernel/Frequency is `Kernel::CreateClock`, both of sim/kernel.cpp. Kernel/Schedule is
--              `Kernel::ActivateClock`, and Kernel/Activation the run queue of a clock
--              (`Clock::ActivateProcess` of sim/clock.hpp, `Process::Deactivate` of sim/process.hpp).
--              Kernel/Machine is the kernel with the processes, storages and arbitrators, and what
--              components ask of it; Kernel/Step is the phases of a cycle of `Kernel::Step` and
--              `Kernel::UpdateStorages`, Kernel/Advance the end of the cycle, and Kernel/Step/Loop
--              `Kernel::Step` around them. Kernel/Step/Rule is about the order of the calls, and
--              Kernel/Step/Marks about `Kernel::Abort` and `Kernel::Stop` in a step.
--   Ports      sim/ports.cpp: AddProcess, AddRequest and Arbitrate of the priority and the cyclic
--              port. The two loops are one function, `choose`, over a test and a key. Ports/Mixed is the
--              port with both kinds of processes, Ports/Structure the structure with ports that write
--              to an index, and Ports/Access what a process calls in each phase (Invoke, Read, Write).
--   Drisc      The tables of a core, with their shares of entries by context. Drisc/RaUnit is
--              arch/drisc/RAUnit.cpp; RaUnit/Layout reads the list of blocks as a row of areas with
--              owners. Drisc/ThreadTable is arch/drisc/ThreadTable.cpp and ThreadTable/FreeList its
--              list of free entries. Drisc/FamilyTable is arch/drisc/FamilyTable.cpp.
--              Drisc/FreeCounts is about the counts of both tables.
--   Log2       sim/log2.h.
--   Tlb        arch/drisc/mmu: Tlb/Table is the class `Table` of Table.cpp, the lines that hold the
--              translations, and Tlb/Table/Store its stores, victims and invalidation. A line's links
--              are indices; Tlb/Table/Links, Unlink and Lru are about the order of last use that they
--              keep, and Order and Evict about lookups in it. Locked, Pending, Victim, Free and Start
--              are named for what they are about. Tlb/Address is arch/Address.cpp.
--   Memory     arch/VirtualMemory.cpp: Memory/Ranges is the reservations (Reserve, Unreserve,
--              UnreserveAll, has, CheckPermissions), Memory/Blocks the contents (Read, Write).
--              Memory/Banks is arch/BankSelector.cpp: Map and Unmap of six of its selectors.
--              Memory/Serial is arch/mem/SerialMemory.cpp, a memory that keeps its requests in a
--              Storage/Buffer and its contents in Memory/Blocks; Serial/Order is about the order in
--              which it does them, Serial/Phases about its calls in the phases of a cycle.
-- Files named Tests run the definitions on concrete inputs.
--
-- Conventions: a failed assertion or an exception is `none`; the phase and the running clock are an
-- argument (`Context`) where a method reads them; `size_t`, `uint64_t` and `unsigned long` are 64 bits
-- wide, and sums and products of the code are taken modulo 2^64 where they can leave that range. In
-- the register allocation unit sizes and indices are bounded by a register file, and no sum wraps.
-- `unsigned` is 32 bits wide. std::map is a list in the order of its keys, but for the indices that a
-- write port keeps by process, where no code depends on the order; std::deque and std::vector are lists.
-- A pointer to an object of a fixed set is the object's number.
--
-- In Kernel/Step the delegates of the processes, `OnArbitrate` and `Update` are arguments: functions on
-- a state of the components' own, which answer with the requests that they make of the kernel.
--
-- Fuel: a step of the kernel needs two units more than cycles, since each cycle in which something is
-- done takes time forward while a clock is active, and a step in which nothing is done is the last; the
-- loop of `gcd` has the second number plus one, which falls in each round; the search for
-- free registers has the number of blocks, since each round passes one; `Read` and `Write` have the
-- number of bytes plus one, since each round takes a byte at least; the folding bank selectors have the
-- address plus one, which falls in each round but the last; `ilog2` has 65, a round for each bit and
-- the last test.
--
-- Not modelled: the allocator, the pipeline, the caches and directories, the memories but the serial
-- one, the networks and devices of the machine; the command line, the configuration and the dumps of
-- the state. The trace checks of storages and the statistics' registration have no effect on the
-- simulation.
pub mod Base
pub mod Log2
pub mod Storage
pub mod Kernel
pub mod Ports
pub mod Drisc
pub mod Tlb
pub mod Memory
