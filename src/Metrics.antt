-- ===== src/Metrics.antt =====
-- src/metrics.rs: the gauges of the repository, and `enumerate_files` of src/store.rs. The registry
-- and the text format are those of the crate prometheus.
pub mod Http
pub mod Totals
pub mod Registry
use outpack_server.Io.FilePath.{FilePath}
use outpack_server.Io.Fs.{Fs, IoResult, dir, file, is_under}
use outpack_server.Metadata.Ids.{get_ids}
use outpack_server.Prelude.{
  Bytes, List, Text, [], codes, false, if◌then◌else◌, length, true, ℕ, ◌%◌, ◌++◌, ◌+◌, ◌^◌, ◌∷◌,
}
use outpack_server.Result.{err, ok, panicked}
use outpack_server.Store.{files_dir}

-- `WalkDir` below a directory, and its entries that are files. A directory that is missing is an
-- entry that fails, and those are passed over.
unfoldable pub files_under : FilePath → Fs → List (FilePath × Bytes)
files_under p [] = []
files_under p ((q, dir) ∷ fs) = files_under p fs
files_under p ((q, file bytes) ∷ fs) =
    let rest = files_under p fs in if is_under p q then (q, bytes) ∷ rest else rest

unfoldable pub enumerate_files : Fs → FilePath → List (FilePath × Bytes)
unfolding files_under
enumerate_files fs root = files_under (files_dir root) fs

-- A gauge holds the bits of an `i64`.
pub record RepositoryMetrics : Type 0 where
  pub metadata_total : ℕ
  pub packets_total : ℕ
  pub files_total : ℕ
  pub file_size_bytes_total : ℕ

abbrev pub as_i64 : ℕ → ℕ
as_i64 n = n % 2 ^ 64

-- `files_size`, a `u64` that wraps around.
unfoldable pub total_size : List (FilePath × Bytes) → ℕ
total_size [] = 0
total_size ((_, bytes) ∷ l) = (length bytes + total_size l) % 2 ^ 64

abbrev set_files : List (FilePath × Bytes) → RepositoryMetrics → RepositoryMetrics
set_files found m = record {
  metadata_total = m.metadata_total;
  packets_total = m.packets_total;
  files_total = as_i64 (length found);
  file_size_bytes_total = total_size found;
}

abbrev set_metadata : ℕ → RepositoryMetrics → RepositoryMetrics
set_metadata n m = record {
  metadata_total = as_i64 n;
  packets_total = m.packets_total;
  files_total = m.files_total;
  file_size_bytes_total = m.file_size_bytes_total;
}

abbrev set_packets : ℕ → RepositoryMetrics → RepositoryMetrics
set_packets n m = record {
  metadata_total = m.metadata_total;
  packets_total = as_i64 n;
  files_total = m.files_total;
  file_size_bytes_total = m.file_size_bytes_total;
}

-- The gauges are set one by one, so an error leaves those before it set. The lists are the ids of
-- the known packets, those of the unpacked ones, and the files.
abbrev pub set_gauges :
    IoResult (List Text)
    → IoResult (List Text)
    → List (FilePath × Bytes)
    → RepositoryMetrics
    → IoResult (Unit {0}) × RepositoryMetrics
set_gauges (err e) unpacked found m = (err e, m)
set_gauges panicked unpacked found m = (panicked, m)
set_gauges (ok known) (err e) found m = (err e, set_metadata (length known) m)
set_gauges (ok known) panicked found m = (panicked, set_metadata (length known) m)
set_gauges (ok known) (ok unpacked) found m =
    (ok tt, set_files found (set_packets (length unpacked) (set_metadata (length known) m)))

unfoldable pub update : Fs → FilePath → RepositoryMetrics → IoResult (Unit {0}) × RepositoryMetrics
unfolding enumerate_files total_size
update fs root m =
    set_gauges (get_ids fs root false) (get_ids fs root true) (enumerate_files fs root) m

-- The namespace of the gauges.
abbrev namespaced : Text → Text
namespaced t = codes "outpack_server_" ++ t

-- The gauges by their names.
unfoldable pub gauges : RepositoryMetrics → List (Text × ℕ)
gauges m =
    (namespaced (codes "metadata_total"), m.metadata_total)
    ∷ (namespaced (codes "packets_total"), m.packets_total)
    ∷ (namespaced (codes "files_total"), m.files_total)
    ∷ (namespaced (codes "file_size_bytes_total"), m.file_size_bytes_total)
    ∷ []

-- What is collected: all gauges, or nothing where the update fails.
abbrev pub reported : IoResult (Unit {0}) × RepositoryMetrics → List (Text × ℕ) × RepositoryMetrics
reported (ok _, m) = (gauges m, m)
reported (_, m) = ([], m)

unfoldable pub collect_metrics :
    Fs → FilePath → RepositoryMetrics → List (Text × ℕ) × RepositoryMetrics
unfolding update gauges
collect_metrics fs root m = reported (update fs root m)
