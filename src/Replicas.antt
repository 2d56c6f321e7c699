-- ===== src/Replicas.antt =====
-- The operations on replicas and on data objects as a whole, of endpoints/data_objects/src/main.cpp.
pub mod Input
pub mod Copies
pub mod Changes
pub mod Queries
pub mod Modify
pub mod Operations
pub mod Refusals
pub mod Plain
pub mod Guarded
pub mod Privileges
pub mod Paths
pub mod Columns
pub mod Asked
pub mod Changed
