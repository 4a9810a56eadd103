-- ===== src/Store.antt =====
-- internal/store: the database, its transactions and the operations on it.
pub mod Schema
pub mod Tx
pub mod Rows
pub mod Progress
pub mod Quests
pub mod ShelfLife
pub mod Containers
pub mod Batches
pub mod Sound
pub mod Flow
pub mod Dates
pub mod Tree
pub mod Locations
pub mod HolidayWeeks
pub mod Jobs
pub mod RowSets
pub mod Stocktake
pub mod Consumption
