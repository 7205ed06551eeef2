-- ===== src/Responses.antt =====
-- src/responses.rs: the answers of the server.
use outpack_server.Git.{GitError}
use outpack_server.Hash.{HashError}
use outpack_server.Io.Fs.{
  ErrorKind, IoError, already_exists, invalid_data, invalid_input, is_a_directory, not_a_directory,
  not_found, other, unexpected_eof,
}
use outpack_server.Prelude.{List, Option, Text, [], codes, none, some, ℕ, ◌∷◌}
use outpack_server.Result.{Result, err, ok, panicked}

pub record OutpackError : Type 0 where
  pub error : Text
  pub detail : Text
  pub kind : Option ErrorKind

-- `impl Display for io::ErrorKind`
abbrev pub kind_text : ErrorKind → Text
kind_text not_found = codes "entity not found"
kind_text invalid_input = codes "invalid input parameter"
kind_text invalid_data = codes "invalid data"
kind_text unexpected_eof = codes "unexpected end of file"
kind_text already_exists = codes "entity already exists"
kind_text not_a_directory = codes "not a directory"
kind_text is_a_directory = codes "is a directory"
kind_text other = codes "other error"

-- `impl From<io::Error> for OutpackError`
unfoldable pub from_io_error : IoError → OutpackError
from_io_error e = record { error = kind_text e.kind; detail = e.message; kind = some e.kind }

-- `impl From<hash::HashError> for OutpackError`
unfoldable pub from_hash_error : HashError → OutpackError
from_hash_error e = record {
  error = kind_text invalid_input;
  detail = e.explanation;
  kind = some invalid_input;
}

-- `impl From<git2::Error> for OutpackError`
unfoldable pub from_git_error : GitError → OutpackError
from_git_error e = record { error = e.message; detail = e.code; kind = some other }

-- The crate axum's refusal of a body, by its two texts.
pub record JsonRejection : Type 0 where
  pub message : Text
  pub body_text : Text

-- `impl From<JsonRejection> for OutpackError`
unfoldable pub from_rejection : JsonRejection → OutpackError
from_rejection e = record { error = e.message; detail = e.body_text; kind = some invalid_input }

pub record SuccessResponse {ℓ} (A : Type ℓ) : Type ℓ where
  pub status : Text
  pub payload : A
  pub errors : Option (List OutpackError)

pub record FailResponse : Type 0 where
  pub status : Text
  pub payload : Option Text
  pub errors : Option (List OutpackError)

-- A response: its status code and its body.
pub data Response {ℓ} (A : Type ℓ) : Type ℓ where
  success : ℕ → SuccessResponse A → Response A
  failure : ℕ → FailResponse → Response A

abbrev pub status_code {ℓ} : {A : Type ℓ} → Response A → ℕ
status_code (success n _) = n
status_code (failure n _) = n

-- The status of an error.
unfoldable pub error_status : Option ErrorKind → ℕ
error_status (some not_found) = 404
error_status (some invalid_input) = 400
error_status (some unexpected_eof) = 400
error_status _ = 500

-- `internal_error` of src/api.rs: what is answered where a handler panics.
abbrev pub internal_error : OutpackError
internal_error = record {
  error = codes "UNKNOWN_ERROR";
  detail = codes "Something went wrong";
  kind = some other;
}

module _ {ℓ} {A : Type ℓ} where
  unfoldable pub error_response : OutpackError → Response A
  unfolding error_status
  error_response e =
      failure (error_status e.kind)
        (record { status = codes "failure"; payload = none; errors = some (e ∷ []) })

  unfoldable pub success_response : A → Response A
  success_response a = success 200 (record { status = codes "success"; payload = a; errors = none })

  unfoldable pub into_response : Result OutpackError A → Response A
  unfolding error_response success_response
  into_response (ok a) = success_response a
  into_response (err e) = error_response e
  into_response panicked = error_response internal_error
