-- ===== src/Io.antt =====
-- The part of `std::path`, `std::fs` and `std::io` that the program uses: paths, a file system as a
-- state, and operations that read and change it.
pub mod FilePath
pub mod Names
pub mod Fs
pub mod Binds
pub mod Laws
pub mod Keeps
pub mod Writes
pub mod MadeDirs
pub mod Moves
