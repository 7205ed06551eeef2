-- ===== src/Api/Start.antt =====
-- src/api.rs, `api`: the server is put together.

use outpack_server.Api.Preflight.{preflight}
use outpack_server.Api.Serve.{Host, Reply, Request, Site, handle}
use outpack_server.Io.FilePath.{FilePath}
use outpack_server.Io.Fs.{Fs}
use outpack_server.Metrics.Registry.{
  Prometheus, register_build_info_metrics, register_http, register_process_metrics,
  register_repository,
}
use outpack_server.Prelude.{Text}
use outpack_server.Result.{Result, ok, panicked, ◌>>=◌, ◌>>◌}

-- `Result::expect`: an error is a panic.
abbrev pub expect {ℓ} : {A : Type ℓ} → Result Text A → Result Text A
expect (ok a) = ok a
expect _ = panicked

module _ (p : Prometheus) (host : Host) where
  -- What answers requests, once the metrics are registered and the repository is accepted.
  unfoldable pub api : Fs → FilePath → Result Text (Request → Site → Reply × Site)
  unfolding register_process_metrics register_build_info_metrics register_repository register_http
      preflight
  api fs root = do
    registry ← expect (register_process_metrics p p.new)
    registry ← expect (register_build_info_metrics p registry)
    registry ← expect (register_repository p registry)
    registry ← expect (register_http p registry)
    preflight host.json fs root
    ok (handle host root)
