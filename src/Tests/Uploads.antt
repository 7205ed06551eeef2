-- ===== src/Tests/Uploads.antt =====
-- src/upload.rs: bodies of requests at a concrete disk.

use outpack_server.Io.FilePath.{FilePath}
use outpack_server.Io.Fs.{Fs, dir, entry_at, fail, is_under, node, other}
use outpack_server.Io.Laws.{file_at}
use outpack_server.Prelude.{
  Bytes, List, Text, [], codes, false, list_eq, map, nat_eq, none, refl, some, ◌++◌, ◌∷◌, ◌≡◌, ◌≢◌,
}
use outpack_server.Result.{ok}
use outpack_server.Store.Put.{uploaded}
use outpack_server.Store.Receive.{broken, bytes_of, from_request, upload_dir, upload_path}
use outpack_server.Store.Received.{from_request-broken, from_request-whole}

abbrev uploads : FilePath
uploads = codes "srv" ∷ []

abbrev disk : Fs
disk = (uploads, dir) ∷ []

abbrev temp_name : Fs → FilePath → Text
temp_name fs p = codes ".tmpX"

abbrev upload_file : FilePath
upload_file = uploads ++ (temp_name disk uploads ∷ [])

abbrev chunks : List Bytes
chunks = codes "ab" ∷ codes "cd" ∷ []

uploads_there : node disk (upload_dir temp_name [] (some uploads)) ≡ some dir
unfolding node entry_at list_eq nat_eq
uploads_there = refl

upload_new : node disk (upload_path temp_name [] (some uploads) disk) ≡ none
unfolding node entry_at list_eq nat_eq
upload_new = refl

from_request-whole_example :
    let (result, fs') = from_request temp_name [] (some uploads) (map bytes_of chunks) disk in
    (result ≡ ok (uploaded upload_file))
    × (file_at fs' upload_file ≡ some (codes "abcd"))
    × ((q : FilePath) → upload_file ≢ q → file_at fs' q ≡ file_at disk q)
from_request-whole_example =
    from_request-whole temp_name [] (some uploads) disk uploads_there upload_new chunks

from_request-broken_example :
    let stream = map bytes_of chunks ++ (broken (codes "reset") ∷ []) in
    let (result, fs') = from_request temp_name [] (some uploads) stream disk in
    (result ≡ fail other (codes "reset"))
    × (file_at fs' upload_file ≡ none)
    × ((q : FilePath) → is_under upload_file q ≡ false → file_at fs' q ≡ file_at disk q)
from_request-broken_example =
    from_request-broken temp_name [] (some uploads) disk uploads_there upload_new chunks
      (codes "reset") []
