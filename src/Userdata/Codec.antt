-- ===== src/Userdata/Codec.antt =====
-- The encoding of the user data (userdata.rs).
use nuts_archive.Prelude.{
  ℕ, ◌≡◌, ◌≢◌, refl, List, ◌++◌, length, append_assoc, append-nil, sym, ap, ◌∙◌, [], is_empty,
  is_empty_of_length, false, ◌<◌, length-append, arith,
}
use nuts_archive.Outcome.{ok, err}
use nuts_archive.Error.{userdata_magic, custom_userdata}
use nuts_archive.Magic.{magic, validate_magic_ok, validate_magic_err}
use nuts_archive.Platform.{Platform}
use nuts_archive.Platform.Laws.{Laws}
use nuts_archive.Userdata.{new, to_bytes, from_bytes}

module _ ⦃p : Platform⦄ (l : Laws p) where
  open p use {BlockId, magic12}

  -- The id of a new user data record is read back from its encoding, whatever bytes follow.
  pub from_bytes-to_bytes-new :
      (id : BlockId) (rest : List ℕ) → from_bytes (to_bytes (new id) ++ rest) ≡ ok (new id, rest)
  unfolding from_bytes to_bytes new
  from_bytes-to_bytes-new id rest = rw (
    append_assoc,
    l.magic12_lem.round_trip magic _ refl,
    validate_magic_ok userdata_magic magic refl,
    l.block_id_lem.round_trip id rest tt,
  )

  pub from_bytes-to_bytes_end : (id : BlockId) → from_bytes (to_bytes (new id)) ≡ ok (new id, [])
  from_bytes-to_bytes_end id =
      ap from_bytes (sym (append-nil (to_bytes (new id)))) ∙ from_bytes-to_bytes-new id []

  -- The user data of an archive is never empty.
  pub is_empty-to_bytes : (id : BlockId) → is_empty (to_bytes (new id)) ≡ false
  is_empty-to_bytes id = is_empty_of_length (to_bytes (new id)) (longer id)
    where
      longer : (id : BlockId) → 0 < length (to_bytes (new id))
      longer id =
          unfold to_bytes new in
          omega (
            arith,
            length-append (magic12.to_bytes magic) (p.block_id.to_bytes id),
            l.magic12_lem.length_bytes magic refl,
          )

  -- Twelve bytes in front that are not the magic are refused, whatever follows.
  pub from_bytes_bad_userdata_magic :
      (m rest : List ℕ)
      → length m ≡ 12
      → m ≢ magic
      → from_bytes (magic12.to_bytes m ++ rest) ≡ err (custom_userdata userdata_magic)
  unfolding from_bytes
  from_bytes_bad_userdata_magic m rest h ne =
      rw (l.magic12_lem.round_trip m rest h, validate_magic_err userdata_magic m ne)
