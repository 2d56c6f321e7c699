-- ===== src/DataObjects.antt =====
-- endpoints/data_objects/src/main.cpp: parallel writes and the transfer of bytes.
pub mod Io
pub mod Streams
pub mod Init
pub mod Accounting
pub mod Limits
pub mod Leak
pub mod Shutdown
pub mod Select
pub mod Closing
pub mod Claims
pub mod Reachable
pub mod Held
pub mod Exclusive
pub mod Write
pub mod Writer
pub mod Read
