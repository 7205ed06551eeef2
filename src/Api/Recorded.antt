-- ===== src/Api/Recorded.antt =====
-- src/api.rs and src/metrics.rs: which requests are recorded, and with what.

use outpack_server.Api.{route_not_found}
use outpack_server.Api.Layers.{answer_one, matched_path, method_text}
use outpack_server.Api.Routes.{Method, fallback, route}
use outpack_server.Api.Serve.{
  Host, Reply, Request, Site, dispatch, handle, json_reply, read_reply, reply_status,
}
use outpack_server.Float.{F64}
use outpack_server.Io.FilePath.{FilePath, split}
use outpack_server.Metrics.Http.{Endpoint, HttpMetrics, track_begin, track_end}
use outpack_server.Prelude.{
  &&-eq-true, ==_iff, Bool, List, Option, Option-cases, Text, [], ap, arith, codes, false,
  if◌then◌else◌, inl, inr, keep, list_eq, nat_eq, nat_eqb, none, not, refl, some, subst, true, ◌&&◌,
  ◌==◌, ◌∷◌, ◌≡◌, ◌⊎◌,
}
use outpack_server.Responses.{error_response}

-- One line of both tables.
same_line :
    {A B : Type 0} (c : Bool) (p : A) {o : Option A} (r : B) {s t : B}
    → (if c then some p else o) ≡ none
    → (o ≡ none → s ≡ t)
    → (if c then r else s) ≡ t
same_line true p r e h = cc
same_line false p r e h = h e

-- The table of the routes and that of their patterns agree.
unmatched-fallback :
    (m : Method) (names : List Text) → matched_path names ≡ none → route m names ≡ fallback
unfolding matched_path route
unmatched-fallback m [] e = cc
unmatched-fallback m (a ∷ []) e = ground arith
unmatched-fallback m (a ∷ b ∷ []) e =
    same_line (a == codes "metadata" && b == codes "list") _ _ e (λ e.
      same_line (a == codes "packets" && b == codes "missing") _ _ e (λ e.
        same_line (a == codes "files" && b == codes "missing") _ _ e (λ e.
          same_line (a == codes "packit" && b == codes "metadata") _ _ e (λ e.
            same_line (a == codes "file") _ _ e (λ e. same_line (a == codes "packet") _ _ e (λ e.
              same_line (a == codes "git" && b == codes "fetch") _ _ e
                (λ e. same_line (a == codes "git" && b == codes "branches") _ _ e (λ e. refl))))))))
unmatched-fallback m (a ∷ b ∷ c ∷ []) e = ground arith
unmatched-fallback m (a ∷ b ∷ c ∷ d ∷ l) e = refl

-- A segment of a pattern fits a name if it is that name, or a variable, which begins with a colon.
abbrev fits_name : Text → Text → Bool
fits_name [] t = [] == t
fits_name (c ∷ segment) t = if nat_eqb c b':' then true else (c ∷ segment) == t

abbrev fit_all : List Text → List Text → Bool
fit_all [] [] = true
fit_all (s ∷ segments) (t ∷ names) = fits_name s t && fit_all segments names
fit_all _ _ = false

-- The pattern of a route, cut at its slashes, fits the names of a path.
abbrev pub IsPatternOf : Text → List Text → Type 0
IsPatternOf p names = fit_all (keep (λ s. not (s == [])) (split b'/' p)) names ≡ true

-- One line of the table of patterns.
pattern_line :
    (P : Text → Type 0) (c : Bool) (x p : Text) {o : Option Text}
    → (c ≡ true → P x)
    → (o ≡ some p → P p)
    → (if c then some x else o) ≡ some p
    → P p
pattern_line P true x p h k e = subst P (cc) (h refl)
pattern_line P false x p h k e = k e

both_names : (a b m n : Text) → (a == m && b == n) ≡ true → (a ≡ m) × (b ≡ n)
both_names a b m n e =
    let (l, r) = &&-eq-true (a == m) (b == n) e in ((==_iff a m).0 l, (==_iff b n).0 r)

matched-two :
    (a b m n p x : Text) {o : Option Text}
    → IsPatternOf x (m ∷ n ∷ [])
    → (o ≡ some p → IsPatternOf p (a ∷ b ∷ []))
    → (if (a == m) && (b == n) then some x else o) ≡ some p
    → IsPatternOf p (a ∷ b ∷ [])
matched-two a b m n p x h k e =
    pattern_line (λ y. IsPatternOf y (a ∷ b ∷ [])) ((a == m) && (b == n)) x p
      (λ c. let (l, r) = both_names a b m n c in rw (l, r) h) k e

matched_path-IsPatternOf :
    (names : List Text) (p : Text) → matched_path names ≡ some p → IsPatternOf p names
unfolding matched_path split list_eq nat_eq
matched_path-IsPatternOf [] p e =
    let same : codes "/" ≡ p = cc in subst (λ y. IsPatternOf y []) same refl
matched_path-IsPatternOf (a ∷ []) p e =
    let P : Text → Type 0 = λ y. IsPatternOf y (a ∷ []) in
    pattern_line P (a == codes "checksum") (codes "/checksum") p
      (λ c. rw ((==_iff a (codes "checksum")).0 c) refl)
      (λ e.
        pattern_line P (a == codes "metrics") (codes "/metrics") p
          (λ c. rw ((==_iff a (codes "metrics")).0 c) refl) (λ e. cc) e)
      e
matched_path-IsPatternOf (a ∷ b ∷ []) p e =
    let P : Text → Type 0 = λ y. IsPatternOf y (a ∷ b ∷ []) in
    matched-two a b (codes "metadata") (codes "list") p (codes "/metadata/list") refl
      (λ e.
        matched-two a b (codes "packets") (codes "missing") p (codes "/packets/missing") refl
          (λ e.
            matched-two a b (codes "files") (codes "missing") p (codes "/files/missing") refl
              (λ e.
                matched-two a b (codes "packit") (codes "metadata") p (codes "/packit/metadata")
                  refl
                  (λ e.
                    pattern_line P (a == codes "file") (codes "/file/:hash") p
                      (λ c. rw ((==_iff a (codes "file")).0 c) refl)
                      (λ e.
                        pattern_line P (a == codes "packet") (codes "/packet/:hash") p
                          (λ c. rw ((==_iff a (codes "packet")).0 c) refl)
                          (λ e.
                            matched-two a b (codes "git") (codes "fetch") p (codes "/git/fetch")
                              refl
                              (λ e.
                                matched-two a b (codes "git") (codes "branches") p
                                  (codes "/git/branches") refl (λ e. cc) e)
                              e)
                          e)
                      e)
                  e)
              e)
          e)
      e
matched_path-IsPatternOf (a ∷ b ∷ c ∷ []) p e =
    let P : Text → Type 0 = λ y. IsPatternOf y (a ∷ b ∷ c ∷ []) in
    pattern_line P (a == codes "metadata" && c == codes "json") (codes "/metadata/:id/json") p
      (λ h. let (l, r) = both_names a c (codes "metadata") (codes "json") h in rw (l, r) refl)
      (λ e.
        pattern_line P (a == codes "metadata" && c == codes "text") (codes "/metadata/:id/text") p
          (λ h. let (l, r) = both_names a c (codes "metadata") (codes "text") h in rw (l, r) refl)
          (λ e. cc) e)
      e
matched_path-IsPatternOf (a ∷ b ∷ c ∷ d ∷ l) p e = cc

module _ (host : Host) (root : FilePath) (request : Request) (site : Site)
    (metrics : HttpMetrics) where
  -- The path matches no route: nothing is recorded, and the answer is that of the fallback.
  abbrev pub IsUnmatched : Reply × (Site × HttpMetrics) → Type 0
  IsUnmatched r =
      (matched_path request.names ≡ none)
      × (r.0 ≡ json_reply (error_response route_not_found))
      × (r.1 ≡ (site, metrics))

  -- The request is counted under its method and a pattern that its path fits, with the status of
  -- its answer, and is no longer in flight.
  abbrev pub IsCounted : Reply × (Site × HttpMetrics) → Type 0
  IsCounted r =
      (e : Endpoint) × (IsPatternOf e.path request.names)
      × (e.method ≡ method_text request.method)
      × (r.1.1.requests_total
          ≡ record { endpoint = e; status = reply_status r.0 } ∷ metrics.requests_total)
      × (r.1.1.in_flight_added ≡ e ∷ metrics.in_flight_added)
      × (r.1.1.in_flight_taken ≡ e ∷ metrics.in_flight_taken)

  fallback-reply :
      route request.method request.names ≡ fallback
      → handle host root request site ≡ (json_reply (error_response route_not_found), site)
  unfolding handle dispatch read_reply
  fallback-reply e = ap (λ r. dispatch host root r request site) e

  pub answer_one-recorded :
      (duration : F64)
      → IsUnmatched (answer_one host root request duration (site, metrics))
        ⊎ IsCounted (answer_one host root request duration (site, metrics))
  unfolding answer_one track_begin track_end
  answer_one-recorded duration =
      let named : Option Text → Option Endpoint = λ o. elim o [
        | none ↦ none
        | some p ↦ some (record { path = p; method = method_text request.method })
      ] in
      let recorded : Option Text → HttpMetrics = λ o.
        track_end (named o) (reply_status (handle host root request site).0) duration
          (track_begin (named o) metrics) in
      elim (Option-cases (matched_path request.names)) [
        | inl missing_path ↦
            let reply =
              fallback-reply (unmatched-fallback request.method request.names missing_path) in
            inl (missing_path, ap (λ r. r.0) reply, λ i. ((reply i).1, recorded (missing_path i)))
        | inr (p, there) ↦
            let e : Endpoint = record { path = p; method = method_text request.method } in
            inr (
              e,
              matched_path-IsPatternOf request.names p there,
              refl,
              ap (λ o. (recorded o).requests_total) there,
              ap (λ o. (recorded o).in_flight_added) there,
              ap (λ o. (recorded o).in_flight_taken) there,
            )
      ]
