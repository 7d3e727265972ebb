-- ===== src/Userdata.antt =====
-- userdata.rs
pub mod Created
pub mod Codec
use nuts_archive.Prelude.{ℕ, List, ◌++◌, Bool, not, ◌&&◌, none, is_empty, if◌then◌else◌}
use nuts_archive.Outcome.{ok, err, panic, Exec, pure, raise, zoom, gets, ◌>>=◌, ◌>>◌}
use nuts_archive.Bytes
use nuts_archive.Error.{
  Error, userdata_magic, custom_userdata, container, overwrite_userdata, invalid_userdata,
  from_bytes_error,
}
use nuts_archive.Magic.{magic, validate_magic}
use nuts_archive.Platform.{Platform}

pub record Userdata (I : Type 0) : Type 0 where
  pub magic_field : List ℕ
  pub id : I

unfoldable pub new : {I : Type 0} → I → Userdata I
new id = record { magic_field = magic; id = id }

module _ ⦃p : Platform⦄ where
  open p use {
    BlockId, Container, Failure, userdata, aquire_block, update_userdata, magic12, block_id,
  }

  -- `#[derive(FromBytes, ToBytes)]`
  unfoldable pub to_bytes : Userdata BlockId → List ℕ
  to_bytes u = magic12.to_bytes u.magic_field ++ block_id.to_bytes u.id

  unfoldable pub from_bytes : Bytes.Parser (Userdata BlockId)
  from_bytes = Bytes.◌>>=◌ magic12.from_bytes λ found.
      Bytes.◌>>=◌ (Bytes.check custom_userdata (validate_magic userdata_magic found))
        λ m. Bytes.◌>>=◌ block_id.from_bytes λ id. Bytes.pure (record { magic_field = m; id = id })

  -- A function that takes a `&mut Container<B>` and returns an `ArchiveResult`.
  abbrev pub OnContainer : Type 0 → Type 0
  OnContainer A = Exec Container (Error BlockId Failure) A

  abbrev pub fallible : {A : Type 0} → Exec Container Failure A → OnContainer A
  fallible m = zoom (λ s. s) (λ _ s. s) container m

  unfoldable pub create : Bool → OnContainer (Userdata BlockId)
  create force = do
    found ← gets userdata
    if not force && not (is_empty found) then raise overwrite_userdata else do
      id ← fallible aquire_block
      let u = new id
      fallible (update_userdata (to_bytes u))
      pure u

  unfoldable pub load : OnContainer (Userdata BlockId)
  load = do
    found ← gets userdata
    if is_empty found then raise (invalid_userdata none) else λ s. elim (from_bytes found) [
      | ok (u, rest) ↦ (ok u, s)
      | err e ↦ (err (from_bytes_error e), s)
      | panic ↦ (panic, s)
    ]
