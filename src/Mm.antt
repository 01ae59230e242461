-- ===== src/Mm.antt =====
-- boron/source/mm: the memory manager.
pub mod PoolSpace
pub mod Sla
pub mod Pfn
pub mod Pmm
