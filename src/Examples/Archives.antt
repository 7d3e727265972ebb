-- ===== src/Examples/Archives.antt =====
-- The theorems of the archive, the header block and the user data at concrete values.
use nuts_archive.Prelude.{◌≡◌, refl, ◌⊎◌, false, [], ◌∷◌, arith}
use nuts_archive.Outcome.{err}
use nuts_archive.Outcome.Ensures.{Ensures}
use nuts_archive.Error.{IsFailure, invalid_block_size, overwrite_userdata}
use nuts_archive.Platform.Laws.{UnchangedBut}
use nuts_archive.Platform.Memory.{Container, memory, memory_laws, aquire_block}
use nuts_archive.Header
use nuts_archive.Header.{Header}
use nuts_archive.Header.Codec.{IsHeader-create, reread_header}
use nuts_archive.Pager
use nuts_archive.Pager.{Pager}
use nuts_archive.Pager.Blocks.{filled, IsPager, contents}
use nuts_archive.Tree
use nuts_archive.Tree.{Tree}
use nuts_archive.Tree.Codec.{IsTree-new}
use nuts_archive.Userdata
use nuts_archive.Userdata.Created.{Created, IsAllowed, create-Created}
use nuts_archive.Entry.Mode.Rights.{}
use nuts_archive.Entry.Inner
use nuts_archive.Entry.Inner.{Inner}
use nuts_archive.State.{flush_header}
use nuts_archive.State.HeaderBlock.{header_bytes, flush_header-contents}
use nuts_archive.Archive
use nuts_archive.Archive.{create, open_archive}
use nuts_archive.Archive.Reopen.{CreateError, open-create, create_too_small}
use nuts_archive.Examples.{empty, now, one_lt, id1}

open-create_example :
    Ensures
      (λ a c'.
        (a.header ≡ Header.create now)
        × (a.tree ≡ Tree.new)
        × Ensures
            (λ b _.
              (b.header ≡ reread_header now a.header)
              × (b.header_id ≡ a.header_id)
              × (b.tree ≡ a.tree))
            (λ e _. IsFailure e)
            (open_archive now c'))
      (λ e _. CreateError memory_laws false (empty 64) e)
      (create now false (empty 64))
unfolding Header.size Tree.size
open-create_example = open-create memory_laws now now false (empty 64) (omega arith)

create_too_small_example : create now false (empty 55) ≡ (
  err invalid_block_size,
  record (empty 55) { count = 1; userdata = Userdata.to_bytes (Userdata.new id1) },
)
unfolding Header.size Tree.size Inner.min_entry_size Archive.min_block_size Userdata.create
    aquire_block Userdata.new Userdata.to_bytes one_lt
create_too_small_example =
    create_too_small memory_laws now false (empty 55)
      (record (empty 55) { count = 1; userdata = Userdata.to_bytes (Userdata.new id1) })
      (Userdata.new id1) (omega arith) (omega arith) refl

flush_header-contents_example :
    Ensures
      (λ _ s'.
        (contents memory_laws s'.inner id1 ≡ filled 64 (header_bytes (Header.create now) Tree.new))
        × IsPager s'
        × UnchangedBut memory_laws.blocks id1 (empty 64) s'.inner)
      (λ e s'. IsFailure e × IsPager s' × UnchangedBut memory_laws.blocks id1 (empty 64) s'.inner)
      (flush_header id1 (Header.create now) Tree.new (Pager.new (empty 64)))
unfolding Header.size Tree.size Pager.new
flush_header-contents_example =
    flush_header-contents memory_laws id1 (Header.create now) Tree.new (Pager.new (empty 64)) refl
      (IsHeader-create now) IsTree-new (omega arith)

-- A container with user data.
abbrev used : Container
used = record (empty 64) { userdata = 7 ∷ [] }

create-Created_example :
    Ensures
      (λ u c'.
        (u ≡ Userdata.new u.id)
        × Created memory_laws u.id used c'
        × IsAllowed memory_laws false used)
      (λ e c'.
        (IsFailure e × IsAllowed memory_laws false used)
        ⊎ ((e ≡ overwrite_userdata) × (false ≡ false) × (false ≡ false) × (c' ≡ used)))
      (Userdata.create false used)
create-Created_example = create-Created memory_laws false used
