-- ===== src/Api/Layers.antt =====
-- src/api.rs, `api`, and src/metrics.rs, `HttpMetrics::track`: the layer that records each request.

use outpack_server.Api.Routes.{Method, get, post}
use outpack_server.Api.Serve.{Host, Reply, Request, Site, handle, reply_status}
use outpack_server.Float.{F64}
use outpack_server.Io.FilePath.{FilePath}
use outpack_server.Metrics.Http.{Endpoint, HttpMetrics, track_begin, track_end}
use outpack_server.Prelude.{
  List, Option, Text, [], codes, if◌then◌else◌, list_eq, nat_eq, none, some, ◌&&◌, ◌==◌, ◌∷◌,
}

-- `MatchedPath`: the pattern of the route that the names of a path match, for any method.
unfoldable pub matched_path : List Text → Option Text
matched_path [] = some (codes "/")
matched_path (a ∷ []) =
    if a == codes "checksum"
    then some (codes "/checksum")
    else if a == codes "metrics"
    then some (codes "/metrics")
    else none
matched_path (a ∷ b ∷ []) =
    if (a == codes "metadata") && (b == codes "list")
    then some (codes "/metadata/list")
    else if (a == codes "packets") && (b == codes "missing")
    then some (codes "/packets/missing")
    else if (a == codes "files") && (b == codes "missing")
    then some (codes "/files/missing")
    else if (a == codes "packit") && (b == codes "metadata")
    then some (codes "/packit/metadata")
    else if a == codes "file"
    then some (codes "/file/:hash")
    else if a == codes "packet"
    then some (codes "/packet/:hash")
    else if (a == codes "git") && (b == codes "fetch")
    then some (codes "/git/fetch")
    else if (a == codes "git") && (b == codes "branches")
    then some (codes "/git/branches")
    else none
matched_path (a ∷ b ∷ c ∷ []) =
    if (a == codes "metadata") && (c == codes "json")
    then some (codes "/metadata/:id/json")
    else if (a == codes "metadata") && (c == codes "text")
    then some (codes "/metadata/:id/text")
    else none
matched_path _ = none

abbrev pub method_text : Method → Text
method_text get = codes "GET"
method_text post = codes "POST"

-- What is recorded of a request: the pattern and the method.
abbrev pub endpoint_of : Request → Option Endpoint
endpoint_of request = elim (matched_path request.names) [
  | none ↦ none
  | some p ↦ some (record { path = p; method = method_text request.method })
]

-- A request that is answered before the next one begins, and how long that took.
module _ (host : Host) (root : FilePath) where
  unfoldable pub answer_one : Request → F64 → Site × HttpMetrics → Reply × (Site × HttpMetrics)
  unfolding handle track_begin track_end matched_path
  answer_one request duration (site, metrics) =
      let endpoint = endpoint_of request in
      let begun = track_begin endpoint metrics in
      let (reply, site') = handle host root request site in
      (reply, (site', track_end endpoint (reply_status reply) duration begun))
