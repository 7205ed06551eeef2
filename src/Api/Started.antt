-- ===== src/Api/Started.antt =====
-- src/api.rs, `api`: the metrics can always be registered.

use outpack_server.Api.Preflight.{preflight}
use outpack_server.Api.Serve.{Host, handle}
use outpack_server.Api.Start.{api}
use outpack_server.Io.FilePath.{FilePath}
use outpack_server.Io.Fs.{Fs}
use outpack_server.Metrics.Registry.{
  Desc, IsRegistry, Prometheus, build_info_desc, fresh, names_of, of_process,
  register_build_info_metrics, register_http, register_process_metrics, register_repository,
  repository_descs, requests_duration_seconds_desc, requests_in_flight_desc, requests_total_desc,
}
use outpack_server.Prelude.{
  &&-eq-true, ==_iff, Bool, Bool-cases, List, Text, [], all, ap, append-nil, append_assoc, arith,
  contains, false, inl, inr, list_eq, nat_eq, not, refl, sym, true, ◌++◌, ◌==◌, ◌∙◌, ◌∷◌, ◌≡◌,
}
use outpack_server.Result.{and_then, ok}

not-true : (b : Bool) → not b ≡ true → b ≡ false
not-true b h = ground arith

-- A name that is not one of the process, among names of which some are.
contains-process :
    (mine names : List Text) (n : Text)
    → all of_process names ≡ true
    → of_process n ≡ false
    → contains (mine ++ names) n ≡ contains mine n
contains-process [] [] n h e = refl
contains-process [] (m ∷ names) n h e =
    let (first, more) = &&-eq-true (of_process m) (all of_process names) h in
    elim (Bool-cases (n == m)) [
      | inl y ↦ absurd (cc (ap of_process ((==_iff n m).0 y), first, e))
      | inr differs ↦ rw differs (contains-process [] names n more e)
    ]
contains-process (m ∷ mine) names n h e = rw (contains-process mine names n h e) refl

fresh-process :
    (mine names new : List Text)
    → all of_process names ≡ true
    → all (λ n. not (of_process n)) new ≡ true
    → fresh (mine ++ names) new ≡ fresh mine new
fresh-process mine names [] h e = refl
fresh-process mine names (n ∷ new) h e =
    let (first, more) = &&-eq-true (not (of_process n)) (all (λ m. not (of_process m)) new) e in
    rw
      (
        contains-process mine names n h (not-true (of_process n) first),
        fresh-process mine names new h more,
      )
      refl

module _ (p : Prometheus) (lawful : IsRegistry p) where
  abbrev Has : p.Registry → List Text → Type 0
  Has r mine = p.registered r ≡ mine ++ names_of p.process_descs

  -- New names that are not those of the process are added.
  registers :
      (mine : List Text) (ds : List Desc) (r : p.Registry)
      → Has r mine
      → all (λ n. not (of_process n)) (names_of ds) ≡ true
      → fresh mine (names_of ds) ≡ true
      → (r' : p.Registry) × (p.register r ds ≡ ok r') × Has r' (names_of ds ++ mine)
  registers mine ds r has apart new =
      let taken =
        ap (λ names. fresh names (names_of ds)) has
        ∙ fresh-process mine (names_of p.process_descs) (names_of ds) lawful.process-named apart
        ∙ new in
      let (r', done, has') = lawful.register-fresh r ds taken in
      (
        r',
        done,
        has'
            ∙ ap (λ names. names_of ds ++ names) has
            ∙ sym (append_assoc (names_of ds) mine (names_of p.process_descs)),
      )

  -- Where the registry refuses only names that it has, and the names of the metrics of the process
  -- are different ones that begin with `process_`, the server is put together, and answers by its
  -- handlers, exactly where the repository passes `preflight`: no metric fails to be registered.
  pub api-preflight :
      (host : Host) (fs : Fs) (root : FilePath)
      → api p host fs root ≡ and_then (preflight host.json fs root) (λ _. ok (handle host root))
  unfolding api register_process_metrics register_build_info_metrics register_repository
      register_http list_eq nat_eq
  api-preflight host fs root =
      let (a, at_a, has_a) = lawful.register-fresh p.new p.process_descs (
        ap (λ names. fresh names (names_of p.process_descs)) lawful.registered-new
        ∙ lawful.process-fresh) in
      let begun : Has a [] =
        has_a
        ∙ ap (λ names. names_of p.process_descs ++ names) lawful.registered-new
        ∙ append-nil (names_of p.process_descs) in
      let built = names_of (build_info_desc ∷ []) in
      let stored = names_of repository_descs ++ built in
      let counted = names_of (requests_total_desc ∷ []) ++ stored in
      let timed = names_of (requests_duration_seconds_desc ∷ []) ++ counted in
      let (b, at_b, has_b) = registers [] (build_info_desc ∷ []) a begun refl refl in
      let (c, at_c, has_c) = registers built repository_descs b has_b refl refl in
      let (d, at_d, has_d) = registers stored (requests_total_desc ∷ []) c has_c refl refl in
      let (e, at_e, has_e) =
        registers counted (requests_duration_seconds_desc ∷ []) d has_d refl refl in
      let (f, at_f, has_f) = registers timed (requests_in_flight_desc ∷ []) e has_e refl refl in
      rw (at_a, at_b, at_c, at_d, at_e, at_f) refl
