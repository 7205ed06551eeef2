-- ===== src/Metadata.antt =====
-- src/metadata.rs: the metadata of packets.
pub mod Missing
pub mod Gained
pub mod Refused
pub mod Added
pub mod Sorted
pub mod Read
pub mod Ids
pub mod Add
