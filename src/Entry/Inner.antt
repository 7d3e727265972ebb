-- ===== src/Entry/Inner.antt =====
-- entry.rs: the first block of an entry.
pub mod Codec
pub mod Stored
use nuts_archive.Prelude.{ℕ, ◌+◌, List, ◌++◌, Bool}
use nuts_archive.Outcome.{ok, err, panic, pure, ◌>>=◌, ◌>>◌}
use nuts_archive.Bytes
use nuts_archive.Error.{from_bytes_error}
use nuts_archive.Pager
use nuts_archive.Pager.{Paged}
use nuts_archive.Platform.{Platform}
use nuts_archive.Entry.Mode
use nuts_archive.Entry.Tstamp
use nuts_archive.Entry.Tstamp.{Timestamps}

pub record Inner (T : Type 0) : Type 0 where
  pub name : List ℕ
  pub mode : Mode.Mode
  pub tstamps : Timestamps T
  pub size : ℕ

unfoldable pub min_entry_size : ℕ
unfolding Tstamp.size
min_entry_size = (8 + 1) + 2 + Tstamp.size + 8

unfoldable pub new : {T : Type 0} → T → List ℕ → Mode.Mode → Inner T
unfolding Tstamp.new
new now name mode = record { name = name; mode = mode; tstamps = Tstamp.new now; size = 0 }

module _ ⦃p : Platform⦄ where
  open p use {BlockId, Time, u16, u64, text}

  -- `#[derive(FromBytes, ToBytes)]`
  unfoldable pub to_bytes : Inner Time → List ℕ
  to_bytes e =
      text.to_bytes e.name
      ++ (u16.to_bytes e.mode ++ (Tstamp.to_bytes e.tstamps ++ u64.to_bytes e.size))

  unfoldable pub from_bytes : Time → Bytes.Parser (Inner Time)
  from_bytes now = Bytes.◌>>=◌ text.from_bytes λ n. Bytes.◌>>=◌ u16.from_bytes λ m.
      Bytes.◌>>=◌ (Tstamp.from_bytes now) λ t.
        Bytes.◌>>=◌ u64.from_bytes
          λ s. Bytes.pure (record { name = n; mode = m; tstamps = t; size = s })

  unfoldable pub load : Time → BlockId → Paged (Inner Time)
  load now id = do
    bytes ← Pager.read_buf id
    λ s. elim (from_bytes now bytes) [
      | ok (e, rest) ↦ (ok e, s)
      | err e ↦ (err (from_bytes_error e), s)
      | panic ↦ (panic, s)
    ]

  unfoldable pub flush : Inner Time → BlockId → Paged (Unit {0})
  flush e id = do Pager.write id (to_bytes e); pure tt

-- The methods that `populate_mode_api!` and `populate_tstamp_api!` give to entries and builders.
module _ {T : Type 0} where
  unfoldable pub can_read : Inner T → Mode.Group → Bool
  can_read e g = Mode.can_read e.mode g

  unfoldable pub can_write : Inner T → Mode.Group → Bool
  can_write e g = Mode.can_write e.mode g

  unfoldable pub can_execute : Inner T → Mode.Group → Bool
  can_execute e g = Mode.can_execute e.mode g

  unfoldable pub set_readable : Mode.Group → Bool → Inner T → Inner T
  set_readable g readable e = record e { mode = Mode.set_readable g readable e.mode }

  unfoldable pub set_writable : Mode.Group → Bool → Inner T → Inner T
  set_writable g writable e = record e { mode = Mode.set_writable g writable e.mode }

  unfoldable pub set_executable : Mode.Group → Bool → Inner T → Inner T
  set_executable g executable e = record e { mode = Mode.set_executable g executable e.mode }

  unfoldable pub appended : Inner T → T
  appended e = e.tstamps.appended

  unfoldable pub created : Inner T → T
  created e = e.tstamps.created

  unfoldable pub changed : Inner T → T
  changed e = e.tstamps.changed

  unfoldable pub modified : Inner T → T
  modified e = e.tstamps.modified

  unfoldable pub set_created : T → Inner T → Inner T
  set_created t e = record e { tstamps = Tstamp.set_created t e.tstamps }

  unfoldable pub set_changed : T → Inner T → Inner T
  set_changed t e = record e { tstamps = Tstamp.set_changed t e.tstamps }

  unfoldable pub set_modified : T → Inner T → Inner T
  set_modified t e = record e { tstamps = Tstamp.set_modified t e.tstamps }
