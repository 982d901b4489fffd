-- ===== src/Tlb.antt =====
-- arch/drisc/mmu: the translation of addresses. A table holds the translations of pages of one size.
pub mod Address
pub mod Table
mod Tests
