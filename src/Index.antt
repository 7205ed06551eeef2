-- ===== src/Index.antt =====
-- src/index.rs: the packets that queries are evaluated over.

use outpack_server.Io.FilePath.{FilePath}
use outpack_server.Io.Fs.{Fs, IoResult}
use outpack_server.Json.{Json}
use outpack_server.Metadata.Read.{get_metadata_from_date}
use outpack_server.Packet.{Packet}
use outpack_server.Prelude.{List, none}
use outpack_server.Result.{ok, ◌>>=◌}

pub record Index : Type 0 where
  pub packets : List Packet

unfoldable pub get_packet_index : Json → Fs → FilePath → IoResult Index
get_packet_index json fs root = do
  packets ← get_metadata_from_date json fs root none
  ok (record { packets = packets })
