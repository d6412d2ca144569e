-- ===== src/SkipList.antt =====
-- `SkipList` of crossbeam-skiplist/src/base.rs.
pub mod Chain
pub mod Compare
pub mod Defs
pub mod Descend
pub mod Enter
pub mod Erase
pub mod Find
pub mod Iterate
pub mod Judge
pub mod Lookup
pub mod Mark
pub mod Next
pub mod Queries
pub mod Fresh
pub mod Insert
pub mod Install
pub mod Installed
pub mod InstallKey
pub mod Invariant
pub mod Removal
pub mod Removed
pub mod RemoveKey
pub mod Remove
pub mod Result
pub mod Search
pub mod Start
pub mod Unlink
pub mod Walk
mod Tests
