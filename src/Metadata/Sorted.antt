-- ===== src/Metadata/Sorted.antt =====
-- src/metadata.rs, `get_metadata_from_date`: the order of the packets.

use outpack_server.Float.{F64}
use outpack_server.Io.FilePath.{FilePath}
use outpack_server.Io.Fs.{Fs, read_dir}
use outpack_server.Json.{Json}
use outpack_server.Metadata.Read.{by_id, get_metadata_from_date, metadata_dir, names_since}
use outpack_server.Packet.{Packet}
use outpack_server.Prelude.{
  IsSortedBy, List, Option, arith, sort_by, sort_by-IsSorted, subst, text_le_total, ◌≡◌,
}
use outpack_server.Result.{>>=-eq-ok, collect, ok}

-- Where `get_metadata_from_date` succeeds, its packets are in the order of their ids.
pub get_metadata_from_date-IsSortedBy :
    (json : Json) (fs : Fs) (root : FilePath) (from : Option F64) (ps : List Packet)
    → get_metadata_from_date json fs root from ≡ ok ps
    → IsSortedBy (λ (p : Packet). p.id) ps
unfolding get_metadata_from_date
get_metadata_from_date-IsSortedBy json fs root from ps e =
    let (names, _, e1) = >>=-eq-ok (read_dir fs (metadata_dir root)) _ e in
    let (wanted, _, e2) = >>=-eq-ok (names_since json fs root from names) _ e1 in
    let (packets, _, e3) = >>=-eq-ok (collect _ wanted) _ e2 in
    let same : sort_by by_id packets ≡ ps = ground arith in
    subst (IsSortedBy (λ (p : Packet). p.id)) same
      (sort_by-IsSorted by_id (λ a b. text_le_total a.id b.id) packets)
