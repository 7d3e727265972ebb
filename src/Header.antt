-- ===== src/Header.antt =====
-- header.rs
pub mod Codec
use nuts_archive.Prelude.{ℕ, ◌+◌, ◌*◌, ◌%◌, ◌^◌, List, ◌++◌}
use nuts_archive.Bytes.{Parser, pure, check, ◌>>=◌}
use nuts_archive.Error.{header_magic, custom_header}
use nuts_archive.Magic.{magic, magic_size, validate_magic}
use nuts_archive.DateTime
use nuts_archive.Platform.{Platform}

pub record Header (T : Type 0) : Type 0 where
  pub magic_field : List ℕ
  pub revision : ℕ
  pub created : T
  pub modified : T
  pub nfiles : ℕ

unfoldable pub size : ℕ
size = magic_size + 2 + 2 * 8 + 8

module _ ⦃p : Platform⦄ where
  open p use {Time, u16, u64, magic12}

  unfoldable pub create : Time → Header Time
  create now = record {
    magic_field = magic;
    revision = 1;
    created = now;
    modified = now;
    nfiles = 0;
  }

  unfoldable pub inc_files : Time → Header Time → Header Time
  inc_files now h = record h { nfiles = (h.nfiles + 1) % 2 ^ 64; modified = now }

  -- `#[derive(FromBytes, ToBytes)]`
  unfoldable pub to_bytes : Header Time → List ℕ
  unfolding DateTime.to_bytes
  to_bytes h =
      magic12.to_bytes h.magic_field
      ++ (u16.to_bytes h.revision
          ++ (DateTime.to_bytes h.created
              ++ (DateTime.to_bytes h.modified ++ u64.to_bytes h.nfiles)))

  unfoldable pub from_bytes : Time → Parser (Header Time)
  from_bytes now = do
    found ← magic12.from_bytes
    m ← check custom_header (validate_magic header_magic found)
    r ← u16.from_bytes
    c ← DateTime.from_bytes now
    d ← DateTime.from_bytes now
    n ← u64.from_bytes
    pure (record { magic_field = m; revision = r; created = c; modified = d; nfiles = n })
