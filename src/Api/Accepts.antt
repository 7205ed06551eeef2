-- ===== src/Api/Accepts.antt =====
-- src/api.rs, `check_config`: which configurations it accepts.

use outpack_server.Api.Preflight.{check_config, preflight}
use outpack_server.Config.{Config, new_config}
use outpack_server.Config.File.{outpack_dir}
use outpack_server.Hash.{HashAlgorithm, md5, same_algorithm, sha1, sha256, sha384, sha512}
use outpack_server.Init.{outpack_init}
use outpack_server.Init.Fresh.{outpack_init-read_config}
use outpack_server.Io.FilePath.{FilePath}
use outpack_server.Io.Fs.{Fs, exists}
use outpack_server.Json.{IsLawful, Json}
use outpack_server.Prelude.{arith, false, none, refl, true, ◌↔◌, ◌≡◌}
use outpack_server.Result.{ok}

same_algorithm_sha256 : (a : HashAlgorithm) → same_algorithm a sha256 ≡ true → a ≡ sha256
same_algorithm_sha256 sha256 e = refl
same_algorithm_sha256 md5 e = cc
same_algorithm_sha256 sha1 e = cc
same_algorithm_sha256 sha384 e = cc
same_algorithm_sha256 sha512 e = cc

-- A configuration is accepted exactly when it has a file store and the complete tree, hashes with
-- sha256, and has no archive.
pub check_config-eq-ok_iff :
    (c : Config)
    → (check_config c ≡ ok tt) ↔ (
        (c.core.use_file_store ≡ true)
        × (c.core.require_complete_tree ≡ true)
        × (c.core.hash_algorithm ≡ sha256)
        × (c.core.path_archive ≡ none))
unfolding check_config
check_config-eq-ok_iff c = (
  λ h. ground (arith, same_algorithm_sha256 c.core.hash_algorithm),
  λ (a, b, d, e). rw (a, b, d, e) refl,
)

-- Where `.outpack` is not there, configurations that are written read back, and `outpack_init`
-- with a file store, the complete tree and no archive succeeds, the repository passes `preflight`.
pub preflight-outpack_init :
    (json : Json) (root : FilePath) (fs : Fs)
    → IsLawful json
    → exists fs (outpack_dir root) ≡ false
    → (outpack_init json root none true true fs).0 ≡ ok tt
    → preflight json (outpack_init json root none true true fs).1 root ≡ ok tt
unfolding preflight new_config
preflight-outpack_init json root fs lawful new e =
    let found = outpack_init-read_config json root none true true fs lawful new e in
    let (cfg, c, read) = found.1 in
    let accepted : check_config cfg ≡ ok tt = (check_config-eq-ok_iff cfg).1 (ground arith) in
    rw (found.0, read) accepted
