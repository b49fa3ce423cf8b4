-- ===== src/Tests.antt =====
-- Tests, and the theorems at concrete inputs.
mod SlotmapBasic
mod SlotmapSecondary
mod SecondaryEntries
mod ModulePath
mod Vec
mod Arc
mod Interner
mod Shards
mod Report
