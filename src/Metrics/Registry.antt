-- ===== src/Metrics/Registry.antt =====
-- src/metrics.rs: the metrics that the server registers, over the registry of the crate prometheus.

use outpack_server.Prelude.{
  Bool, List, Text, [], all, codes, contains, false, list_eq, map, nat_eq, none, not, some,
  strip_prefix, true, ◌&&◌, ◌++◌, ◌∷◌, ◌≡◌,
}
use outpack_server.Result.{Result, ok, ◌>>=◌}

-- A metric: its full name, its help and the names of its labels.
pub record Desc : Type 0 where
  pub fq_name : Text
  pub help : Text
  pub labels : List Text

abbrev pub names_of : List Desc → List Text
names_of ds = map (λ (d : Desc). d.fq_name) ds

-- `Opts::new(..).namespace(..)`
abbrev make_opts : Text → Text → Text → List Text → Desc
make_opts namespace name help labels = record {
  fq_name = namespace ++ (codes "_" ++ name);
  help = help;
  labels = labels;
}

-- `RepositoryMetrics::new` and `desc`
abbrev pub repository_descs : List Desc
repository_descs =
    make_opts (codes "outpack_server") (codes "metadata_total")
      (codes "Number of packet metadata in the repository") []
    ∷ make_opts (codes "outpack_server") (codes "packets_total")
        (codes "Number of packets contained in the repository") []
    ∷ make_opts (codes "outpack_server") (codes "files_total")
        (codes "Number of files in the repository") []
    ∷ make_opts (codes "outpack_server") (codes "file_size_bytes_total")
        (codes "Total file size of the repository, in bytes") []
    ∷ []

-- `HttpMetrics::new`
abbrev pub requests_total_desc : Desc
requests_total_desc =
    make_opts (codes "http") (codes "requests_total") (codes "Total number of HTTP requests")
      (codes "endpoint" ∷ codes "method" ∷ codes "status" ∷ [])

abbrev pub requests_duration_seconds_desc : Desc
requests_duration_seconds_desc =
    make_opts (codes "http") (codes "requests_duration_seconds")
      (codes "HTTP request duration in seconds for all requests")
      (codes "endpoint" ∷ codes "method" ∷ codes "status" ∷ [])

abbrev pub requests_in_flight_desc : Desc
requests_in_flight_desc =
    make_opts (codes "http") (codes "requests_in_flight")
      (codes "Number of HTTP requests currently in-flight") (codes "endpoint" ∷ codes "method" ∷ [])

abbrev pub build_info_desc : Desc
build_info_desc =
    make_opts (codes "outpack_server") (codes "build_info")
      (codes "Build information about the server")
      (codes "version" ∷ codes "revision" ∷ codes "rustc" ∷ [])

-- What the program uses of the crate prometheus: a registry, to which a collector is added by what
-- it describes, and the metrics of the process.
pub record Prometheus : Type 1 where
  pub Registry : Type 0
  pub new : Registry
  pub register : Registry → List Desc → Result Text Registry
  pub registered : Registry → List Text
  pub process_descs : List Desc

-- Whether no name is taken, or given twice.
abbrev pub fresh : List Text → List Text → Bool
fresh taken [] = true
fresh taken (n ∷ ns) = not (contains taken n) && (not (contains ns n) && fresh taken ns)

-- The names of the metrics of the process begin with `process_`.
abbrev pub of_process : Text → Bool
of_process n = elim (strip_prefix (codes "process_") n) [ none ↦ false | some _ ↦ true ]

-- A registry refuses only names that it has.
pub record IsRegistry (p : Prometheus) : Type 0 where
  pub registered-new : p.registered p.new ≡ []
  pub register-fresh :
      (r : p.Registry) (ds : List Desc)
      → fresh (p.registered r) (names_of ds) ≡ true
      → (r' : p.Registry) × (p.register r ds ≡ ok r')
        × (p.registered r' ≡ names_of ds ++ p.registered r)
  pub process-fresh : fresh [] (names_of p.process_descs) ≡ true
  pub process-named : all of_process (names_of p.process_descs) ≡ true

module _ (p : Prometheus) where
  unfoldable pub register_process_metrics : p.Registry → Result Text p.Registry
  register_process_metrics registry = p.register registry p.process_descs

  unfoldable pub register_build_info_metrics : p.Registry → Result Text p.Registry
  register_build_info_metrics registry = p.register registry (build_info_desc ∷ [])

  unfoldable pub register_repository : p.Registry → Result Text p.Registry
  register_repository registry = p.register registry repository_descs

  unfoldable pub register_http : p.Registry → Result Text p.Registry
  register_http registry = do
    first ← p.register registry (requests_total_desc ∷ [])
    second ← p.register first (requests_duration_seconds_desc ∷ [])
    p.register second (requests_in_flight_desc ∷ [])
