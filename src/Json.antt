-- ===== src/Json.antt =====
-- The crate serde_json, as a parameter: what the program's types are read from and written to.

use outpack_server.Config.{Config}
use outpack_server.Io.Fs.{IoResult}
use outpack_server.Locations.{LocationEntry}
use outpack_server.Packet.{JsonValue, Packet}
use outpack_server.Prelude.{Bytes, ◌≡◌}
use outpack_server.Result.{ok}

pub record Json : Type 0 where
  pub config_of : Bytes → IoResult Config
  pub config_to : Config → Bytes
  pub entry_of : Bytes → IoResult LocationEntry
  pub entry_to : LocationEntry → Bytes
  pub packet_of : Bytes → IoResult Packet
  pub value_of : Bytes → IoResult JsonValue

-- A configuration, which has texts and truth values only, is read back from what is written of it.
pub record IsLawful (json : Json) : Type 0 where
  pub config_of-config_to : (c : Config) → json.config_of (json.config_to c) ≡ ok c
