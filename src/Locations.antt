-- ===== src/Locations.antt =====
-- src/location.rs: which packets each location is known to hold.

pub mod Read
pub mod Known
pub mod Marked
pub mod Sorted
use outpack_server.Float.{F64}
use outpack_server.Prelude.{Text}

pub record LocationEntry : Type 0 where
  pub packet : Text
  pub time : F64
  pub hash : Text
