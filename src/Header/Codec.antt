-- ===== src/Header/Codec.antt =====
-- The encoding of the header (header.rs).
use nuts_archive.Prelude.{
  ℕ, ◌^◌, ◌<◌, ◌≡◌, ◌≢◌, refl, ap, ◌∙◌, List, ◌++◌, arith, length, length-append, append_assoc,
}
use nuts_archive.Outcome.{ok, err}
use nuts_archive.Error.{header_magic, custom_header}
use nuts_archive.Magic.{magic, validate_magic_ok, validate_magic_err}
use nuts_archive.DateTime.Codec.{
  IsMillis, reread, reread-IsMillis, length-to_bytes, from_bytes-to_bytes,
}
use nuts_archive.Platform.{Platform}
use nuts_archive.Platform.Laws.{Laws}
use nuts_archive.Header.{Header, size, create, inc_files, to_bytes, from_bytes}

-- A header with the magic, whose numbers fit their types.
pub record IsHeader ⦃p : Platform⦄ (h : Header p.Time) : Type 0 where
  pub is_magic : h.magic_field ≡ magic
  pub revision_fits : h.revision < 2 ^ 16
  pub nfiles_fits : h.nfiles < 2 ^ 64

module _ ⦃p : Platform⦄ where
  open p use {Time}

  pub IsHeader-create : (now : Time) → IsHeader (create now)
  unfolding create
  IsHeader-create now = record {
    is_magic = refl;
    revision_fits = omega arith;
    nfiles_fits = omega arith;
  }

  pub IsHeader-inc_files : (now : Time) (h : Header Time) → IsHeader h → IsHeader (inc_files now h)
  unfolding inc_files
  IsHeader-inc_files now h is = record {
    is_magic = is.is_magic;
    revision_fits = is.revision_fits;
    nfiles_fits = omega arith;
  }

  -- The header that is read back from the encoding of a header: its times have lost what is below
  -- the millisecond.
  abbrev pub reread_header : Time → Header Time → Header Time
  reread_header now h = record h {
    created = reread now h.created;
    modified = reread now h.modified;
  }

  pub IsHeader-reread_header :
      (now : Time) (h : Header Time) → IsHeader h → IsHeader (reread_header now h)
  IsHeader-reread_header now h is = record {
    is_magic = is.is_magic;
    revision_fits = is.revision_fits;
    nfiles_fits = is.nfiles_fits;
  }

module _ ⦃p : Platform⦄ (l : Laws p) where
  open p use {Time}

  -- The encoding of a header with the magic, whose numbers fit their types, has the length
  -- `Header::size`.
  pub length-to_bytes-IsHeader : (h : Header Time) → IsHeader h → length (to_bytes h) ≡ size
  unfolding to_bytes size
  length-to_bytes-IsHeader h is = rw (
    length-append,
    length-append,
    length-append,
    length-append,
    l.magic12_lem.length_bytes h.magic_field (rw is.is_magic refl),
    l.u16_lem.length_bytes h.revision is.revision_fits,
    length-to_bytes l h.created,
    length-to_bytes l h.modified,
    l.u64_lem.length_bytes h.nfiles is.nfiles_fits,
  )

  pub from_bytes-to_bytes-reread :
      (now : Time) (h : Header Time) (rest : List ℕ)
      → IsHeader h
      → from_bytes now (to_bytes h ++ rest) ≡ ok (reread_header now h, rest)
  unfolding from_bytes to_bytes
  from_bytes-to_bytes-reread now h rest is = simp append_assoc (
      rw (
        l.magic12_lem.round_trip h.magic_field _ (rw is.is_magic refl),
        validate_magic_ok header_magic h.magic_field is.is_magic,
        l.u16_lem.round_trip h.revision _ is.revision_fits,
        from_bytes-to_bytes l now h.created _,
        from_bytes-to_bytes l now h.modified _,
        l.u64_lem.round_trip h.nfiles rest is.nfiles_fits,
      ))

  -- A header with the magic, whose numbers fit their types and whose times are whole milliseconds, is
  -- read back from its encoding, whatever bytes follow, and these bytes are left over.
  pub from_bytes-to_bytes-IsHeader :
      (now : Time) (h : Header Time) (rest : List ℕ)
      → IsHeader h
      → IsMillis h.created
      → IsMillis h.modified
      → from_bytes now (to_bytes h ++ rest) ≡ ok (h, rest)
  from_bytes-to_bytes-IsHeader now h rest is created modified =
      from_bytes-to_bytes-reread now h rest is
      ∙ ap (λ c. ok (record h { created = c; modified = reread now h.modified }, rest))
          (reread-IsMillis now h.created created)
      ∙ ap (λ m. ok (record h { modified = m }, rest)) (reread-IsMillis now h.modified modified)

  -- Twelve bytes in front that are not the magic are refused, whatever follows.
  pub from_bytes_bad_header_magic :
      (now : Time) (m rest : List ℕ)
      → length m ≡ 12
      → m ≢ magic
      → from_bytes now (p.magic12.to_bytes m ++ rest) ≡ err (custom_header header_magic)
  unfolding from_bytes
  from_bytes_bad_header_magic now m rest h ne =
      rw (l.magic12_lem.round_trip m rest h, validate_magic_err header_magic m ne)
