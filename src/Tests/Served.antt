-- ===== src/Tests/Served.antt =====
-- src/api.rs at concrete requests.
use outpack_server.Api.{file_of, get_file, open_file}
use outpack_server.Api.Intact.{FetchesApart, Serves-IsIntact}
use outpack_server.Api.Kept.{HasTwoParts, handle-stored}
use outpack_server.Api.Layers.{answer_one}
use outpack_server.Api.Posted.{posted-served}
use outpack_server.Api.Reads.{MayWrite, handle-reads}
use outpack_server.Api.Recorded.{IsCounted, IsUnmatched, answer_one-recorded}
use outpack_server.Api.Routes.{Method, get, post, route}
use outpack_server.Api.Serve.{
  Host, Request, Site, answered_one, dispatch, file_reply, handle, opened, read_reply, reply_status,
}
use outpack_server.Api.Statuses.{file_status, handle-file_status}
use outpack_server.Float.{nan}
use outpack_server.Git.{Git, GitResult}
use outpack_server.Hash.{Hash, algorithm_text, captures, parse_algorithm, parse_hash, sha256}
use outpack_server.Io.FilePath.{join, split}
use outpack_server.Io.Fs.{Fs, create, dir, entry_at, file, insert, node, write}
use outpack_server.Io.Laws.{file_at}
use outpack_server.Locations.Read.{concat}
use outpack_server.Metadata.Read.{get_path}
use outpack_server.Metrics.Http.{new_metrics}
use outpack_server.Prelude.{
  Bytes, List, Text, [], all, arith, codes, inl, inr, leb, length, list_eq, map, nat_eq, nat_eqb,
  none, not, refl, some, subst, trim_start, true, ◌&&◌, ◌++◌, ◌∷◌, ◌≡◌, ◌≢◌, ◌⊎◌,
}
use outpack_server.Responses.{error_response, error_status}
use outpack_server.Result.{err, ok}
use outpack_server.Store.{file_path, files_dir}
use outpack_server.Store.Intact.{IsIntact}
use outpack_server.Store.Receive.{
  Chunk, bytes_of, from_request, received, stream_to_file, upload_path,
}
use outpack_server.Store.TempFiles.{NamesTemp}
use outpack_server.Tests.Codec.{fields_json}
use outpack_server.Tests.Stores.{
  count, disk, disk-IsIntact, disk_without_files, four, four_at, four_hash, four_path, four_valid,
  no_four, root, root_there, temp_name,
}

abbrev no_git {ℓ} : {A : Type ℓ} → GitResult A
no_git = err (record { message = codes "could not find repository"; code = codes "NotFound" })

abbrev git : Git
git = record {
  Repository = Unit {0};
  Remote = Unit {0};
  Branch = Unit {0};
  Reference = Unit {0};
  Commit = Unit {0};
  open_repository = λ _. no_git;
  find_remote = λ _ _. no_git;
  fetch_refspecs = λ _. no_git;
  fetch = λ _ _. no_git;
  find_branch = λ _ _. no_git;
  branches = λ _. no_git;
  branch_name = λ _. none;
  resolve = λ _. no_git;
  reference_name = λ _. [];
  peel_to_commit = λ _. no_git;
  commit_id = λ _. [];
  commit_time = λ _. 0;
  commit_message = λ _. [];
}

abbrev pub host : Host
host = record {
  json = fields_json;
  digest = count;
  walk = λ l. l;
  temp_name = temp_name;
  temp_dir = [];
  git = git;
  fetched = λ _ fs. fs;
  is_header_value = λ t. all (λ b. leb 32 b && not (nat_eqb b 127)) t;
}

temps : NamesTemp host.temp_name
temps fs p = (codes "X", refl)

apart : FetchesApart host root
apart fs q below = refl

-- A request with no query and no body but its chunks.
abbrev request_of : Method → List Text → List Chunk → Request
request_of method names stream = record {
  method = method;
  names = names;
  known_since = inr none;
  alg = inr none;
  wanted_ids = err (record { message = []; body_text = [] });
  wanted_hashes = err (record { message = []; body_text = [] });
  packet = inl (record { status = 400; message = [] });
  stream = stream;
  time = 0;
}

abbrev chunks : List Bytes
chunks = codes "ab" ∷ codes "cd" ∷ []

abbrev post_four : Request
post_four = request_of post (codes "file" ∷ four_hash ∷ []) (map bytes_of chunks)

abbrev get_four : Request
get_four = request_of get (codes "file" ∷ four_hash ∷ []) []

abbrev get_index : Request
get_index = request_of get [] []

abbrev site_of : Fs → Site
site_of fs = record {
  disk = fs;
  gauges = record {
    metadata_total = 0;
    packets_total = 0;
    files_total = 0;
    file_size_bytes_total = 0;
  };
}

abbrev site : Site
site = site_of disk

abbrev posted : Site
posted = (handle host root post_four site).1

handle-reads_example : ((handle host root get_index site).1.disk ≡ disk) ⊎ MayWrite get []
handle-reads_example = handle-reads host root get_index site

Serves-IsIntact_example : IsIntact count root (handle host root get_four posted).1.disk
Serves-IsIntact_example =
    Serves-IsIntact host root site (handle host root get_four posted).1 apart
      (answered_one get_four (λ body e. cc) (answered_one post_four (λ body e. cc) opened))
      disk-IsIntact

-- A disk on which the file is stored, and one without a directory for uploads.
abbrev full_site : Site
full_site = site_of ((four_path, file four) ∷ disk)

four_stored : file_at full_site.disk four_path ≡ some four
unfolding node entry_at list_eq nat_eq
four_stored = refl

four_read : parse_hash four_hash ≡ ok (record { algorithm = sha256; value = codes "004" })
unfolding parse_hash captures parse_algorithm trim_start list_eq nat_eq
four_read = refl

four_parts : HasTwoParts four_hash
four_parts = (_, four_read, refl)

four_sized :
    (h : Hash)
    → parse_hash four_hash ≡ ok h
    → (length h.value ≢ 2) × (leb (length h.value) 257 ≡ true)
four_sized h e =
    let same : record { algorithm = sha256; value = codes "004" } ≡ h = cc (four_read, e) in
    subst (λ (k : Hash). (length k.value ≢ 2) × (leb (length k.value) 257 ≡ true)) same
      ((λ d. omega (arith, d)), refl)

-- A line break after the hash reads as the same hash and makes no value of a header.
broken_line :
    reply_status
      (handle host root
        (request_of get (codes "file" ∷ (four_hash ++ codes "\n") ∷ []) [])
        full_site).0
    ≡ 500
unfolding handle dispatch read_reply route list_eq nat_eq get_file file_path parse_hash captures
    parse_algorithm trim_start join split open_file node entry_at error_response error_status
    algorithm_text
broken_line = refl

handle-stored_example :
    (handle host root get_four (handle host root post_four full_site).1).0
    ≡ file_reply (file_of four_hash four)
handle-stored_example =
    handle-stored host root temps apart four_hash four_path four_at four (λ _. Unit {0}) full_site
      (handle host root post_four full_site).1 get_four four_parts refl
      (answered_one post_four tt opened) four_stored refl refl

uploads_there : node disk (files_dir root) ≡ some dir
unfolding node entry_at list_eq nat_eq join split
uploads_there = refl

upload_new : node disk (upload_path temp_name [] (some (files_dir root)) disk) ≡ none
unfolding node entry_at list_eq nat_eq join split
upload_new = refl

no_data :
    let fs = (from_request temp_name [] (some (files_dir root)) (map bytes_of chunks) disk).1 in
    node fs (join (root ++ (temp_name fs root ∷ [])) (codes "data")) ≡ none
unfolding node entry_at list_eq nat_eq join split from_request stream_to_file create write received
    insert
no_data = refl

posted-served_example :
    (reply_status (handle host root post_four site).0 ≡ 200)
    × ((handle host root get_four (handle host root get_index posted).1).0
        ≡ file_reply (file_of four_hash (concat chunks)))
posted-served_example =
    posted-served host root temps apart four_hash four_path four_at chunks post_four site
      uploads_there upload_new no_four refl refl refl get_four (handle host root get_index posted).1
      (λ _. Unit {0}) root_there no_data (λ q h. disk_without_files q) four_valid four_parts refl
      (answered_one get_index tt opened) refl refl

handle-file_status_example :
    reply_status (handle host root get_four site).0
    ≡ file_status host root four_hash (parse_hash four_hash) disk
handle-file_status_example =
    handle-file_status host root get_four site four_hash four_sized refl refl

answer_one-recorded_example :
    IsUnmatched host root get_four site new_metrics
      (answer_one host root get_four nan (site, new_metrics))
    ⊎ IsCounted host root get_four site new_metrics
        (answer_one host root get_four nan (site, new_metrics))
answer_one-recorded_example = answer_one-recorded host root get_four site new_metrics nan

-- The id of a packet can lead out of the directory of the metadata.
escaped : get_path root (codes "../files/sha256/00/4") ≡ four_path
unfolding get_path join split list_eq nat_eq
escaped = refl
