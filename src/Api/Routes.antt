-- ===== src/Api/Routes.antt =====
-- src/api.rs, `api`: the routes of the server.

use outpack_server.Prelude.{List, Text, [], codes, if◌then◌else◌, list_eq, nat_eq, ◌&&◌, ◌==◌, ◌∷◌}

pub data Method : Type 0 where
  get post : Method

-- The handlers, with the part of the path that each takes.
pub data Route : Type 0 where
  index_route list_location_route checksum_route missing_packets_route : Route
  missing_files_route metadata_since_route git_fetch_route git_branches_route : Route
  metrics_route fallback method_not_allowed : Route
  metadata_by_id_route metadata_raw_route get_file_route add_file_route add_packet_route :
      Text → Route

-- The handler for a method, where the path has one for that method only.
abbrev only : Method → Method → Route → Route
only get get r = r
only post post r = r
only _ _ r = method_not_allowed

-- The names of a path, with no empty one. A variable name such as `:id` stands for any name.
unfoldable pub route : Method → List Text → Route
route m [] = only get m index_route
route m (a ∷ []) =
    if a == codes "checksum"
    then only get m checksum_route
    else if a == codes "metrics"
    then only get m metrics_route
    else fallback
route m (a ∷ b ∷ []) =
    if (a == codes "metadata") && (b == codes "list")
    then only get m list_location_route
    else if (a == codes "packets") && (b == codes "missing")
    then only post m missing_packets_route
    else if (a == codes "files") && (b == codes "missing")
    then only post m missing_files_route
    else if (a == codes "packit") && (b == codes "metadata")
    then only get m metadata_since_route
    else if a == codes "file"
    then elim m [ get ↦ get_file_route b | post ↦ add_file_route b ]
    else if a == codes "packet"
    then only post m (add_packet_route b)
    else if (a == codes "git") && (b == codes "fetch")
    then only post m git_fetch_route
    else if (a == codes "git") && (b == codes "branches")
    then only get m git_branches_route
    else fallback
route m (a ∷ b ∷ c ∷ []) =
    if (a == codes "metadata") && (c == codes "json")
    then only get m (metadata_by_id_route b)
    else if (a == codes "metadata") && (c == codes "text")
    then only get m (metadata_raw_route b)
    else fallback
route m _ = fallback
