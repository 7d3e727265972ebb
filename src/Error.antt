-- ===== src/Error.antt =====
-- error.rs and the errors of nuts_bytes that it tells apart.
use nuts_archive.Prelude.{Option, some}

-- `HeaderMagicError` of header.rs
pub data HeaderMagicError : Type 0 where
  header_magic : HeaderMagicError

-- `UserdataMagicError` of userdata.rs
pub data UserdataMagicError : Type 0 where
  userdata_magic : UserdataMagicError

-- `nuts_bytes::Error`: a custom error that is one of these, `TakeBytes(Eof)`, `PutBytes(NoSpace)`, and
-- all others.
pub data BytesError : Type 0 where
  custom_header : HeaderMagicError → BytesError
  custom_userdata : UserdataMagicError → BytesError
  eof no_space other : BytesError

-- `I` is the block id of the backend and `F` the error of the container.
pub data Error (I F : Type 0) : Type 0 where
  bytes : BytesError → Error I F
  container : F → Error I F
  overwrite_userdata : Error I F
  invalid_userdata : Option BytesError → Error I F
  invalid_header : BytesError → Error I F
  full invalid_block_size unexpected_eof : Error I F
  invalid_type : Option I → Error I F

-- `impl From<nuts_bytes::Error> for Error`
unfoldable pub from_bytes_error : {I F : Type 0} → BytesError → Error I F
from_bytes_error (custom_header e) = invalid_header (custom_header e)
from_bytes_error (custom_userdata e) = invalid_userdata (some (custom_userdata e))
from_bytes_error eof = invalid_block_size
from_bytes_error no_space = invalid_block_size
from_bytes_error other = bytes other

-- The error is one that the container reported.
abbrev pub IsFailure : {I F : Type 0} → Error I F → Type 0
IsFailure (container f) = Unit {0}
IsFailure (bytes e) = ⊥
IsFailure overwrite_userdata = ⊥
IsFailure (invalid_userdata e) = ⊥
IsFailure (invalid_header e) = ⊥
IsFailure full = ⊥
IsFailure invalid_block_size = ⊥
IsFailure unexpected_eof = ⊥
IsFailure (invalid_type id) = ⊥
