-- ===== src/Metrics/Http.antt =====
-- src/metrics.rs, `HttpMetrics::track`: what is recorded of requests that run at the same time.

use outpack_server.Float.{F64}
use outpack_server.Prelude.{
  Bool, List, Option, Text, [], ap, arith, false, if◌then◌else◌, length, list_eq, nat_eq, nat_eqb,
  none, refl, some, suc, sym, ℕ, ◌&&◌, ◌++◌, ◌+◌, ◌==◌, ◌∙◌, ◌∷◌, ◌≡◌,
}

-- The pattern of the route and the method.
pub record Endpoint : Type 0 where
  pub path : Text
  pub method : Text

-- `with_label_values` of a request, and of a request with the status of its response.
abbrev pub same_endpoint : Endpoint → Endpoint → Bool
same_endpoint a b = a.path == b.path && a.method == b.method

pub record Answer : Type 0 where
  pub endpoint : Endpoint
  pub status : ℕ

abbrev pub same_answer : Answer → Answer → Bool
same_answer a b = same_endpoint a.endpoint b.endpoint && nat_eqb a.status b.status

-- The gauge is kept as what was added to it and what was taken away; the histogram as what it
-- observed. The labels that were never used have no entry.
pub record HttpMetrics : Type 0 where
  pub requests_total : List Answer
  pub requests_duration_seconds : List (Answer × F64)
  pub in_flight_added : List Endpoint
  pub in_flight_taken : List Endpoint

-- The first half of `track`, up to the call of the next handler. A path that no route matches is
-- not recorded.
unfoldable pub track_begin : Option Endpoint → HttpMetrics → HttpMetrics
track_begin none m = m
track_begin (some endpoint) m = record {
  requests_total = m.requests_total;
  requests_duration_seconds = m.requests_duration_seconds;
  in_flight_added = endpoint ∷ m.in_flight_added;
  in_flight_taken = m.in_flight_taken;
}

-- The second half, once the response is there.
unfoldable pub track_end : Option Endpoint → ℕ → F64 → HttpMetrics → HttpMetrics
track_end none status duration m = m
track_end (some endpoint) status duration m =
    let answer : Answer = record { endpoint = endpoint; status = status } in
    record {
      requests_total = answer ∷ m.requests_total;
      requests_duration_seconds = (answer, duration) ∷ m.requests_duration_seconds;
      in_flight_added = m.in_flight_added;
      in_flight_taken = endpoint ∷ m.in_flight_taken;
    }

-- How many of the list pass the test.
unfoldable pub count {ℓ} : {A : Type ℓ} → (A → Bool) → List A → ℕ
count f [] = 0
count f (x ∷ l) = let rest = count f l in if f x then suc rest else rest

-- A server: what is recorded, and the requests that have begun and not ended.
pub record Server : Type 0 where
  pub metrics : HttpMetrics
  pub in_progress : List (Option Endpoint)

abbrev pub new_metrics : HttpMetrics
new_metrics = record {
  requests_total = [];
  requests_duration_seconds = [];
  in_flight_added = [];
  in_flight_taken = [];
}

-- Requests begin, and end in any order. A request that is cut off while it waits for its answer, by
-- a connection that is closed, stays one that has begun and not ended: nothing is recorded of it.
pub data Runs : Server → Type 0 where
  started : Runs (record { metrics = new_metrics; in_progress = [] })
  begun :
      {m : HttpMetrics} {in_progress : List (Option Endpoint)} (request : Option Endpoint)
      → Runs (record { metrics = m; in_progress = in_progress })
      → Runs (record { metrics = track_begin request m; in_progress = request ∷ in_progress })
  ended :
      {m : HttpMetrics} (front back : List (Option Endpoint)) (request : Option Endpoint)
      (status : ℕ) (duration : F64)
      → Runs (record { metrics = m; in_progress = front ++ (request ∷ back) })
      → Runs (record { metrics = track_end request status duration m; in_progress = front ++ back })
  cut_off :
      {m : HttpMetrics} (front back : List (Option Endpoint)) (request : Option Endpoint)
      → Runs (record { metrics = m; in_progress = front ++ (request ∷ back) })
      → Runs (record { metrics = m; in_progress = front ++ (request ∷ back) })

-- Whether a request that is open is one of the endpoint.
abbrev pub is_of : Endpoint → Option Endpoint → Bool
is_of endpoint none = false
is_of endpoint (some e) = same_endpoint e endpoint

count-append {ℓ} :
    {A : Type ℓ} (f : A → Bool) (a b : List A) → count f (a ++ b) ≡ count f a + count f b
unfolding count
count-append f [] b = ground arith
count-append f (x ∷ a) b = ground (arith, count-append f a b)

-- However the requests overlap, for each endpoint, the gauge of the requests in flight stands at
-- the number of its requests that have begun and not ended, and each request that ended was counted
-- once and timed once.
pub count-Runs :
    {s : Server}
    → Runs s
    → (endpoint : Endpoint)
    → let m = s.metrics in
      let ended_there =
        count (λ (a : Answer). same_endpoint a.endpoint endpoint) m.requests_total in
      (count (λ e. same_endpoint e endpoint) m.in_flight_added
        ≡ count (λ e. same_endpoint e endpoint) m.in_flight_taken
          + count (is_of endpoint) s.in_progress)
      × (count (λ e. same_endpoint e endpoint) m.in_flight_taken ≡ ended_there)
      × (length m.requests_duration_seconds ≡ length m.requests_total)
unfolding count track_begin track_end
count-Runs started endpoint = (refl, refl, refl)
count-Runs (begun none h) endpoint = count-Runs h endpoint
count-Runs (begun (some e) h) endpoint =
    let (a, b, c) = count-Runs h endpoint in (ground arith, b, c)
count-Runs (cut_off front back request h) endpoint = count-Runs h endpoint
count-Runs (ended front back none status duration h) endpoint =
    let (a, b, c) = count-Runs h endpoint in
    let l : count (is_of endpoint) (front ++ (none ∷ back))
        ≡ count (is_of endpoint) (front ++ back) =
      count-append (is_of endpoint) front (none ∷ back)
      ∙ sym (count-append (is_of endpoint) front back) in
    (ground (arith, a, l), b, c)
count-Runs (ended front back (some e) status duration h) endpoint =
    let (a, b, c) = count-Runs h endpoint in
    (
      ground (
        arith,
        count-append (is_of endpoint) front (some e ∷ back),
        count-append (is_of endpoint) front back,
      ),
      ground arith,
      ap (λ n. suc n) c,
    )
