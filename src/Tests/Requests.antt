-- ===== src/Tests/Requests.antt =====
-- src/metrics.rs at concrete requests.

use outpack_server.Float.{nan}
use outpack_server.Metrics.Http.{
  Answer, Endpoint, HttpMetrics, Runs, Server, begun, count, count-Runs, ended, is_of, new_metrics,
  same_endpoint, started, track_begin, track_end,
}
use outpack_server.Prelude.{[], codes, length, list_eq, nat_eq, none, refl, some, ◌+◌, ◌∷◌, ◌≡◌}

abbrev files : Endpoint
files = record { path = codes "/file/:hash"; method = codes "GET" }

abbrev checksum : Endpoint
checksum = record { path = codes "/checksum"; method = codes "GET" }

-- Three requests begin, one of them for no route, and the first ends.
abbrev recorded : HttpMetrics
recorded =
    track_end (some files) 200 nan
      (track_begin none (track_begin (some checksum) (track_begin (some files) new_metrics)))

abbrev server : Server
server = record { metrics = recorded; in_progress = none ∷ some checksum ∷ [] }

server-Runs : Runs server
server-Runs =
    ended (none ∷ some checksum ∷ []) [] (some files) 200 nan
      (begun none (begun (some checksum) (begun (some files) started)))

count-Runs_example :
    (count (λ e. same_endpoint e files) recorded.in_flight_added
      ≡ count (λ e. same_endpoint e files) recorded.in_flight_taken
        + count (is_of files) (none ∷ some checksum ∷ []))
    × (count (λ e. same_endpoint e files) recorded.in_flight_taken
        ≡ count (λ (a : Answer). same_endpoint a.endpoint files) recorded.requests_total)
    × (length recorded.requests_duration_seconds ≡ length recorded.requests_total)
count-Runs_example = count-Runs server-Runs files

one_in_flight : count (λ e. same_endpoint e checksum) recorded.in_flight_added ≡ 1
unfolding count track_end track_begin list_eq nat_eq
one_in_flight = refl
