-- ===== src/Io/Names.antt =====
-- The names that the program gives to its directories and files are names of files.
use outpack_server.Io.FilePath.{IsName}
use outpack_server.Prelude.{codes, refl}

pub outpack-IsName : IsName (codes ".outpack")
outpack-IsName = ((λ e. cc), (λ e. cc), (λ e. cc), refl)

pub files-IsName : IsName (codes "files")
files-IsName = ((λ e. cc), (λ e. cc), (λ e. cc), refl)

pub metadata-IsName : IsName (codes "metadata")
metadata-IsName = ((λ e. cc), (λ e. cc), (λ e. cc), refl)

pub location-IsName : IsName (codes "location")
location-IsName = ((λ e. cc), (λ e. cc), (λ e. cc), refl)

pub local-IsName : IsName (codes "local")
local-IsName = ((λ e. cc), (λ e. cc), (λ e. cc), refl)

-- The data of an upload in its temporary directory.
pub data-IsName : IsName (codes "data")
data-IsName = ((λ e. cc), (λ e. cc), (λ e. cc), refl)
