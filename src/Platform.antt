-- ===== src/Platform.antt =====
-- What the archive takes from other crates: blocks, errors and state of a nuts_container
-- `Container`, the encodings of nuts_bytes, and the clock and time stamps of chrono.
pub mod Laws
pub mod Memory
use nuts_archive.Prelude.{ℕ, Bool, Option, List}
use nuts_archive.Outcome.{Outcome, Exec}
use nuts_archive.Error.{BytesError}

-- `ToBytes::to_bytes` into a growing buffer, and `FromBytes::from_bytes` with the unread rest.
pub record Codec (A : Type 0) : Type 0 where
  pub to_bytes : A → List ℕ
  pub from_bytes : List ℕ → Outcome BytesError (A × List ℕ)

pub record Platform : Type 1 where
  -- nuts_container: `Backend::Id`, `Container<B>` and `container::Error<B>`
  pub BlockId : Type 0
  pub Container : Type 0
  pub Failure : Type 0
  pub null : BlockId
  pub is_null : BlockId → Bool
  pub id_eq : BlockId → BlockId → Bool
  pub id_size : ℕ
  pub block_size : Container → ℕ
  pub userdata : Container → List ℕ
  pub aquire_block : Exec Container Failure BlockId
  -- `read` is given the length of the destination and returns the bytes that were read
  pub read_block : BlockId → ℕ → Exec Container Failure (List ℕ)
  pub write_block : BlockId → List ℕ → Exec Container Failure ℕ
  pub update_userdata : List ℕ → Exec Container Failure (Unit {0})
  -- nuts_bytes: an `i64` is given by its 64 bits, a string by its UTF-8 bytes
  pub u16 : Codec ℕ
  pub u64 : Codec ℕ
  pub i64 : Codec ℕ
  pub magic12 : Codec (List ℕ)
  pub text : Codec (List ℕ)
  pub block_id : Codec BlockId
  -- `Writer<&mut [u8]>`: the bytes go into the buffer at a position; a buffer keeps its length
  pub put_slice : List ℕ → ℕ → List ℕ → Outcome BytesError (List ℕ)
  pub partial_put : List ℕ → ℕ → List ℕ → List ℕ
  -- chrono: `timestamp_millis`, and `timestamp_millis_opt(..).earliest()`
  pub Time : Type 0
  pub timestamp_millis : Time → ℕ
  pub timestamp_millis_opt : ℕ → Option Time
  -- the lossy conversion of bytes to a string
  pub from_utf8_lossy : List ℕ → List ℕ
