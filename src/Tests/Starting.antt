-- ===== src/Tests/Starting.antt =====
-- src/metrics.rs and the start of the server, at a concrete registry and repository.
use outpack_server.Api.Preflight.{preflight}
use outpack_server.Api.Serve.{handle}
use outpack_server.Api.Start.{api}
use outpack_server.Api.Started.{api-preflight}
use outpack_server.Config.File.{outpack_dir}
use outpack_server.Io.FilePath.{join, split}
use outpack_server.Io.Fs.{read_dir}
use outpack_server.Metadata.Ids.{get_ids}
use outpack_server.Metrics.{
  RepositoryMetrics, collect_metrics, enumerate_files, files_under, gauges,
}
use outpack_server.Metrics.Registry.{Desc, IsRegistry, Prometheus, fresh, names_of}
use outpack_server.Metrics.Totals.{IsBelowLimit, collect_metrics-totals, totals}
use outpack_server.Prelude.{
  List, Text, [], arith, codes, false, if◌then◌else◌, is_utf8, list_eq, nat_eq, refl, true, ◌++◌,
  ◌∷◌, ◌≡◌,
}
use outpack_server.Result.{and_then, err, ok}
use outpack_server.Tests.Repositories.{first_id, full_disk, made, root, second_id}
use outpack_server.Tests.Served.{host}

abbrev named : Text → Desc
named n = record { fq_name = n; help = []; labels = [] }

-- A registry that keeps the names.
abbrev names_registry : Prometheus
names_registry = record {
  Registry = List Text;
  new = [];
  register = λ taken ds.
      if fresh taken (names_of ds)
      then ok (names_of ds ++ taken)
      else err (codes "Duplicate metrics");
  registered = λ taken. taken;
  process_descs = named (codes "process_open_fds") ∷ named (codes "process_threads") ∷ [];
}

names_registry-IsRegistry : IsRegistry names_registry
unfolding list_eq nat_eq
names_registry-IsRegistry = record {
  registered-new = refl;
  register-fresh = λ r ds e. (names_of ds ++ r, rw e refl, refl);
  process-fresh = refl;
  process-named = refl;
}

api-preflight_example :
    api names_registry host made root
    ≡ and_then (preflight host.json made root) (λ _. ok (handle host root))
api-preflight_example = api-preflight names_registry names_registry-IsRegistry host made root

abbrev at_zero : RepositoryMetrics
at_zero = record {
  metadata_total = 0;
  packets_total = 0;
  files_total = 0;
  file_size_bytes_total = 0;
}

abbrev known : List Text
known = second_id ∷ first_id ∷ []

abbrev unpacked : List Text
unpacked = first_id ∷ []

known_read : get_ids full_disk root false ≡ ok known
unfolding get_ids read_dir join split list_eq nat_eq is_utf8
known_read = refl

unpacked_read : get_ids full_disk root true ≡ ok unpacked
unfolding get_ids read_dir join split list_eq nat_eq is_utf8
unpacked_read = refl

one_file :
    enumerate_files full_disk root
    ≡ (outpack_dir root ++ (codes "files" ∷ codes "sha256" ∷ codes "00" ∷ codes "4" ∷ []), 7 ∷ [])
      ∷ []
unfolding enumerate_files files_under join split list_eq nat_eq
one_file = refl

few : IsBelowLimit (totals full_disk root known unpacked)
few = rw one_file (omega arith, omega arith, omega arith, omega arith)

collect_metrics-totals_example :
    collect_metrics full_disk root at_zero
    ≡ (gauges (totals full_disk root known unpacked), totals full_disk root known unpacked)
collect_metrics-totals_example =
    collect_metrics-totals full_disk root at_zero known unpacked known_read unpacked_read few
