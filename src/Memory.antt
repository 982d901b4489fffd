-- ===== src/Memory.antt =====
-- arch/VirtualMemory.h, arch/VirtualMemory.cpp: the address space of the simulated system, its
-- reservations (`m_ranges`) and its contents (`m_blocks`); arch/BankSelector.cpp: the banks of a memory.
pub mod Ranges
pub mod Blocks
pub mod Banks
pub mod Serial
mod Tests
