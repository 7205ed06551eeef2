-- ===== src/Packet.antt =====
-- src/metadata.rs: packets and their parts. JSON values are those of the crate serde_json.
use outpack_server.Float.{F64}
use outpack_server.Prelude.{
  Bool, List, Option, Text, [], false, if◌then◌else◌, list_eq, nat_eq, none, some, ℕ, ◌==◌, ◌||◌,
  ◌∷◌,
}

-- `serde_json::Value`. A number is kept as what `Number::as_f64` gives of it.
mutual
  pub data JsonValue : Type 0 where
    null : JsonValue
    boolean : Bool → JsonValue
    numeric : Option F64 → JsonValue
    text : Text → JsonValue
    array : JsonItems → JsonValue
    object : JsonFields → JsonValue

  pub data JsonItems : Type 0 where
    no_items : JsonItems
    item : JsonValue → JsonItems → JsonItems

  pub data JsonFields : Type 0 where
    no_fields : JsonFields
    field : Text → JsonValue → JsonFields → JsonFields

-- `HashMap<String, Value>`: the order of the entries stands for the order of an iteration.
abbrev pub Parameters : Type 0
Parameters = List (Text × JsonValue)

-- `HashMap::get`
unfoldable pub get : Text → Parameters → Option JsonValue
get k [] = none
get k ((j, v) ∷ m) = if j == k then some v else get k m

pub record PacketFile : Type 0 where
  pub path : Text
  pub hash : Text
  pub size : ℕ

pub record DependencyFile : Type 0 where
  pub here : Text
  pub there : Text

pub record PacketDependency : Type 0 where
  pub packet : Text
  pub files : List DependencyFile

pub record PacketTime : Type 0 where
  pub start : F64
  pub end : F64

pub record Packet : Type 0 where
  pub id : Text
  pub name : Text
  pub custom : Option JsonValue
  pub parameters : Option Parameters
  pub files : List PacketFile
  pub depends : List PacketDependency
  pub time : PacketTime

-- `impl PartialEq for Packet`: packets are the same if their ids are.
abbrev pub same_packet : Packet → Packet → Bool
same_packet a b = a.id == b.id

-- `packets.contains(&p)`
abbrev pub has_packet : List Packet → Packet → Bool
has_packet [] p = false
has_packet (x ∷ xs) p = same_packet x p || has_packet xs p

pub record PackitPacket : Type 0 where
  pub id : Text
  pub name : Text
  pub parameters : Option Parameters
  pub time : PacketTime
  pub custom : Option JsonValue

-- `PackitPacket::from`
unfoldable pub packit_of : Packet → PackitPacket
packit_of p = record {
  id = p.id;
  name = p.name;
  parameters = p.parameters;
  time = p.time;
  custom = p.custom;
}
