-- ===== src/Api/Reads.antt =====
-- src/api.rs, `api`: which requests may change the disk.

use outpack_server.Api.Routes.{
  Method, Route, add_file_route, add_packet_route, get, git_fetch_route, post, route,
}
use outpack_server.Api.Serve.{Host, Request, Site, dispatch, handle}
use outpack_server.Io.FilePath.{FilePath}
use outpack_server.Prelude.{
  ==_iff, Bool, Bool-cases, List, Text, [], arith, codes, false, inl, inr, list_eq, nat_eq, refl,
  true, ◌&&◌, ◌==◌, ◌∷◌, ◌≡◌, ◌⊎◌,
}

-- The routes whose handlers may write.
abbrev writing : Route → Bool
writing (add_file_route _) = true
writing (add_packet_route _) = true
writing git_fetch_route = true
writing _ = false

-- The requests of those routes.
abbrev pub MayWrite : Method → List Text → Type 0
MayWrite m names =
    (m ≡ post)
    × (((t : Text) × (names ≡ codes "file" ∷ t ∷ []))
        ⊎ (((t : Text) × (names ≡ codes "packet" ∷ t ∷ []))
            ⊎ (names ≡ codes "git" ∷ codes "fetch" ∷ [])))

dispatch-reads :
    (host : Host) (root : FilePath) (r : Route) (request : Request) (site : Site)
    → writing r ≡ false
    → (dispatch host root r request site).1.disk ≡ site.disk
unfolding dispatch
dispatch-reads host root (add_file_route _) request site e = cc
dispatch-reads host root (add_packet_route _) request site e = cc
dispatch-reads host root git_fetch_route request site e = cc
dispatch-reads host root r request site e = refl

route-writing : (m : Method) (names : List Text) → writing (route m names) ≡ true → MayWrite m names
unfolding route
route-writing m [] e = ground arith
route-writing m (a ∷ []) e = ground arith
route-writing get (a ∷ b ∷ []) e = ground arith
route-writing post (a ∷ b ∷ []) e = elim (Bool-cases (a == codes "file")) [
  | inl y ↦ (refl, inl (b, cc ((==_iff a (codes "file")).0 y)))
  | inr n ↦ elim (Bool-cases (a == codes "packet")) [
    | inl y ↦ (refl, inr (inl (b, cc ((==_iff a (codes "packet")).0 y))))
    | inr n' ↦ elim (Bool-cases (a == codes "git" && b == codes "fetch")) [
      | inl y ↦ (refl, inr (inr (ground arith)))
      | inr n'' ↦ absurd (ground (arith, n, n', n''))
    ]
  ]
]
route-writing m (a ∷ b ∷ c ∷ []) e = ground arith
route-writing m (a ∷ b ∷ c ∷ d ∷ l) e = cc

-- A request changes nothing on the disk, unless it posts a file, a packet or a fetch of git.
pub handle-reads :
    (host : Host) (root : FilePath) (request : Request) (site : Site)
    → ((handle host root request site).1.disk ≡ site.disk) ⊎ MayWrite request.method request.names
unfolding handle
handle-reads host root request site =
    let r = route request.method request.names in
    elim (Bool-cases (writing r)) [
      | inl may_write ↦ inr (route-writing request.method request.names may_write)
      | inr reads_only ↦ inl (dispatch-reads host root r request site reads_only)
    ]
