-- ===== src/Metrics/Totals.antt =====
-- src/metrics.rs, `RepositoryMetrics`: what the gauges report.

use outpack_server.Io.FilePath.{FilePath}
use outpack_server.Io.Fs.{Fs, IoResult}
use outpack_server.Metadata.Ids.{get_ids}
use outpack_server.Metrics.{
  RepositoryMetrics, collect_metrics, enumerate_files, gauges, reported, set_gauges, total_size,
  update,
}
use outpack_server.Metrics.Registry.{names_of, repository_descs}
use outpack_server.Prelude.{
  Bytes, List, Text, [], ap, arith, false, inl, inr, length, map, refl, true, ℕ, ◌%◌, ◌+◌, ◌<◌, ◌^◌,
  ◌∙◌, ◌∷◌, ◌≡◌, ◌⊎◌,
}
use outpack_server.Result.{err, ok, panicked}

-- The gauges as numbers that do not wrap around.
abbrev pub size_of : List (FilePath × Bytes) → ℕ
size_of [] = 0
size_of ((_, bytes) ∷ l) = length bytes + size_of l

pub total_size_lem : (l : List (FilePath × Bytes)) → total_size l ≡ size_of l % 2 ^ 64
unfolding total_size
total_size_lem [] = refl
total_size_lem ((q, bytes) ∷ l) = let rest = total_size_lem l in omega arith

abbrev pub IsBelowLimit : RepositoryMetrics → Type 0
IsBelowLimit m =
    (m.metadata_total < 2 ^ 64)
    × (m.packets_total < 2 ^ 64)
    × (m.files_total < 2 ^ 64)
    × (m.file_size_bytes_total < 2 ^ 64)

-- A number that wraps around is below the limit.
wrapped : (n : ℕ) → n % 2 ^ 64 < 2 ^ 64
wrapped n = omega arith

total_size-lt : (l : List (FilePath × Bytes)) → total_size l < 2 ^ 64
total_size-lt l = omega (arith, total_size_lem l)

set_gauges-IsBelowLimit :
    (known unpacked : IoResult (List Text)) (found : List (FilePath × Bytes))
    (m : RepositoryMetrics)
    → IsBelowLimit m
    → IsBelowLimit (set_gauges known unpacked found m).1
set_gauges-IsBelowLimit (err e) unpacked found m h = h
set_gauges-IsBelowLimit panicked unpacked found m h = h
set_gauges-IsBelowLimit (ok known) (err e) found m (a, b, c, d) = (wrapped (length known), b, c, d)
set_gauges-IsBelowLimit (ok known) panicked found m (a, b, c, d) = (wrapped (length known), b, c, d)
set_gauges-IsBelowLimit (ok known) (ok unpacked) found m h =
    (wrapped (length known), wrapped (length unpacked), wrapped (length found), total_size-lt found)

-- The gauges that are described, or none.
abbrev IsReport : List (Text × ℕ) → RepositoryMetrics → Type 0
IsReport values m =
    ((values ≡ gauges m) × (map (λ v. v.0) values ≡ names_of repository_descs)) ⊎ (values ≡ [])

reported_lem :
    (r : IoResult (Unit {0}) × RepositoryMetrics)
    → IsBelowLimit r.1
    → let (values, m) = reported r in IsBelowLimit m × IsReport values m
unfolding gauges
reported_lem (ok _, m) h = (h, inl (refl, refl))
reported_lem (err e, m) h = (h, inr refl)
reported_lem (panicked, m) h = (h, inr refl)

module _ (fs : Fs) (root : FilePath) where
  -- The numbers of the repository, where the two lists of packets are read.
  abbrev pub totals : List Text → List Text → RepositoryMetrics
  totals known unpacked = record {
    metadata_total = length known;
    packets_total = length unpacked;
    files_total = length (enumerate_files fs root);
    file_size_bytes_total = size_of (enumerate_files fs root);
  }

  pub collect_metrics-totals :
      (m : RepositoryMetrics) (known unpacked : List Text)
      → get_ids fs root false ≡ ok known
      → get_ids fs root true ≡ ok unpacked
      → IsBelowLimit (totals known unpacked)
      → collect_metrics fs root m ≡ (gauges (totals known unpacked), totals known unpacked)
  unfolding collect_metrics update
  collect_metrics-totals m known unpacked e f (a, b, c, d) =
      let found = enumerate_files fs root in
      let known_fits : length known % 2 ^ 64 ≡ length known = omega arith in
      let unpacked_fits : length unpacked % 2 ^ 64 ≡ length unpacked = omega arith in
      let files_fit : length found % 2 ^ 64 ≡ length found = omega arith in
      let size_fits : total_size found ≡ size_of found = omega (arith, total_size_lem found) in
      ap (λ l. reported (set_gauges l (get_ids fs root true) found m)) e
      ∙ ap (λ l. reported (set_gauges (ok known) l found m)) f
      ∙ rw (known_fits, unpacked_fits, files_fit, size_fits) refl

  -- From gauges below 2^64, the gauges are below 2^64 after a collection, and what is reported is
  -- nothing, or the gauges under the names with which they are registered, in that order.
  collect_metrics-IsBelowLimit :
      (m : RepositoryMetrics)
      → IsBelowLimit m
      → let (values, m') = collect_metrics fs root m in IsBelowLimit m' × IsReport values m'
  unfolding collect_metrics update
  collect_metrics-IsBelowLimit m h =
      let found = enumerate_files fs root in
      reported_lem (update fs root m)
        (set_gauges-IsBelowLimit (get_ids fs root false) (get_ids fs root true) found m h)
