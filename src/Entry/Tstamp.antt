-- ===== src/Entry/Tstamp.antt =====
-- entry/tstamp.rs
use nuts_archive.Prelude.{ℕ, ◌*◌, List, ◌++◌}
use nuts_archive.Bytes.{Parser, pure, ◌>>=◌}
use nuts_archive.DateTime
use nuts_archive.Platform.{Platform}

pub record Timestamps (T : Type 0) : Type 0 where
  pub appended : T
  pub created : T
  pub changed : T
  pub modified : T

unfoldable pub size : ℕ
size = 4 * 8

module _ {T : Type 0} where
  unfoldable pub new : T → Timestamps T
  new now = record { appended = now; created = now; changed = now; modified = now }

  unfoldable pub set_created : T → Timestamps T → Timestamps T
  set_created t s = record s { created = t }

  unfoldable pub set_changed : T → Timestamps T → Timestamps T
  set_changed t s = record s { changed = t }

  unfoldable pub set_modified : T → Timestamps T → Timestamps T
  set_modified t s = record s { modified = t }

module _ ⦃p : Platform⦄ where
  open p use {Time}

  -- `#[derive(FromBytes, ToBytes)]`
  unfoldable pub to_bytes : Timestamps Time → List ℕ
  unfolding DateTime.to_bytes
  to_bytes s =
      DateTime.to_bytes s.appended
      ++ (DateTime.to_bytes s.created
          ++ (DateTime.to_bytes s.changed ++ DateTime.to_bytes s.modified))

  unfoldable pub from_bytes : Time → Parser (Timestamps Time)
  from_bytes now = do
    a ← DateTime.from_bytes now
    b ← DateTime.from_bytes now
    c ← DateTime.from_bytes now
    d ← DateTime.from_bytes now
    pure (record { appended = a; created = b; changed = c; modified = d })
