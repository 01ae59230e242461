-- ===== src/Ex.antt =====
-- boron/source/ex: the executive.
pub mod HandleTable
pub mod RwLock
