-- ===== src/Entry/Inner/Codec.antt =====
-- The encoding of the first block of an entry (entry.rs).
use nuts_archive.Prelude.{
  ℕ, ◌+◌, ◌^◌, ◌<◌, ◌≡◌, refl, ap, ◌∙◌, List, ◌++◌, arith, length, length-append, append_assoc,
}
use nuts_archive.Outcome.{ok}
use nuts_archive.DateTime.Codec.{
  IsMillis, reread, reread-IsMillis, length-to_bytes, from_bytes-to_bytes,
}
use nuts_archive.Platform.{Platform}
use nuts_archive.Platform.Laws.{Laws}
use nuts_archive.Entry.Tstamp
use nuts_archive.Entry.Tstamp.{Timestamps}
use nuts_archive.Entry.Inner.{Inner, min_entry_size, to_bytes, from_bytes}

-- An entry whose name and numbers fit their types.
pub record IsInner ⦃p : Platform⦄ (e : Inner p.Time) : Type 0 where
  pub name_fits : length e.name < 2 ^ 64
  pub mode_fits : e.mode < 2 ^ 16
  pub size_fits : e.size < 2 ^ 64

-- Times that are whole milliseconds.
pub record IsWhole ⦃p : Platform⦄ (s : Timestamps p.Time) : Type 0 where
  pub appended_millis : IsMillis s.appended
  pub created_millis : IsMillis s.created
  pub changed_millis : IsMillis s.changed
  pub modified_millis : IsMillis s.modified

module _ ⦃p : Platform⦄ where
  open p use {Time}

  -- The times and the entry that are read back from their encoding: the times have lost what is below
  -- the millisecond.
  abbrev pub reread_times : Time → Timestamps Time → Timestamps Time
  reread_times now s = record {
    appended = reread now s.appended;
    created = reread now s.created;
    changed = reread now s.changed;
    modified = reread now s.modified;
  }

  abbrev pub reread_inner : Time → Inner Time → Inner Time
  reread_inner now e = record e { tstamps = reread_times now e.tstamps }

  reread_times-IsWhole : (now : Time) (s : Timestamps Time) → IsWhole s → reread_times now s ≡ s
  reread_times-IsWhole now s w =
      rw
        (
          reread-IsMillis now s.appended w.appended_millis,
          reread-IsMillis now s.created w.created_millis,
          reread-IsMillis now s.changed w.changed_millis,
          reread-IsMillis now s.modified w.modified_millis,
        )
        refl

module _ ⦃p : Platform⦄ (l : Laws p) where
  open p use {Time}

  length-Tstamp : (s : Timestamps Time) → length (Tstamp.to_bytes s) ≡ 32
  unfolding Tstamp.to_bytes
  length-Tstamp s = rw (
    length-append,
    length-append,
    length-append,
    length-to_bytes l s.appended,
    length-to_bytes l s.created,
    length-to_bytes l s.changed,
    length-to_bytes l s.modified,
  )

  -- For an entry whose name and numbers fit their types, `min_entry_size` is the length of the
  -- encoding with a name of one byte; each further byte of the name adds one.
  pub length-to_bytes-IsInner :
      (e : Inner Time) → IsInner e → length (to_bytes e) + 1 ≡ min_entry_size + length e.name
  unfolding to_bytes min_entry_size
  length-to_bytes-IsInner e is =
      rw
        (
          length-append,
          length-append,
          length-append,
          l.text_lem.length_bytes e.name is.name_fits,
          l.u16_lem.length_bytes e.mode is.mode_fits,
          length-Tstamp e.tstamps,
          l.u64_lem.length_bytes e.size is.size_fits,
        )
        (omega arith)

  pub from_bytes-to_bytes-reread :
      (now : Time) (e : Inner Time) (rest : List ℕ)
      → IsInner e
      → from_bytes now (to_bytes e ++ rest) ≡ ok (reread_inner now e, rest)
  unfolding from_bytes to_bytes Tstamp.to_bytes Tstamp.from_bytes
  from_bytes-to_bytes-reread now e rest is = simp append_assoc (
      rw (
        l.text_lem.round_trip e.name _ is.name_fits,
        l.u16_lem.round_trip e.mode _ is.mode_fits,
        from_bytes-to_bytes l now e.tstamps.appended _,
        from_bytes-to_bytes l now e.tstamps.created _,
        from_bytes-to_bytes l now e.tstamps.changed _,
        from_bytes-to_bytes l now e.tstamps.modified _,
        l.u64_lem.round_trip e.size rest is.size_fits,
      ))

  -- An entry whose numbers and name fit and whose times are whole milliseconds is read back from its
  -- encoding, whatever bytes follow.
  pub from_bytes-to_bytes-IsInner :
      (now : Time) (e : Inner Time) (rest : List ℕ)
      → IsInner e
      → IsWhole e.tstamps
      → from_bytes now (to_bytes e ++ rest) ≡ ok (e, rest)
  from_bytes-to_bytes-IsInner now e rest is whole =
      from_bytes-to_bytes-reread now e rest is
      ∙ ap (λ s. ok (record e { tstamps = s }, rest)) (reread_times-IsWhole now e.tstamps whole)
