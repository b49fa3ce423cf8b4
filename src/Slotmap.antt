-- ===== src/Slotmap.antt =====
-- Slot maps: `rustyfill/src/collections/slotmap`.
pub mod Key
pub mod Basic
pub mod Iter
pub mod Drain
pub mod Disjoint
pub mod Secondary
