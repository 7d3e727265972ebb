-- ===== src/Examples/Entries.antt =====
-- The theorems of the entries at concrete values.
use nuts_archive.Prelude.{◌*◌, ◌≤◌, ◌<◌, ◌≡◌, refl, ◌⊎◌, [], ◌∷◌, arith}
use nuts_archive.Outcome.Ensures.{Ensures}
use nuts_archive.Error.{from_bytes_error, eof, IsFailure}
use nuts_archive.Platform.Laws.{Unchanged, UnchangedBut}
use nuts_archive.Platform.Memory.{memory, memory_laws}
use nuts_archive.Header.Codec.{}
use nuts_archive.Pager
use nuts_archive.Pager.{Pager}
use nuts_archive.Entry.Inner.Stored.{load-flush, load-flush_long_name}
use nuts_archive.Entry.Mut
use nuts_archive.Entry.Mut.{EntryMut}
use nuts_archive.Entry.Mut.Writing.{Wrote, write-Wrote}
use nuts_archive.Entry.Immut
use nuts_archive.Entry.Immut.Content.{content_blocks-le}
use nuts_archive.Entry.Mode.Rights.{}
use nuts_archive.Entry.Inner
use nuts_archive.Entry.Inner.{Inner}
use nuts_archive.Entry.Inner.Codec.{reread_inner, length-to_bytes-IsInner}
use nuts_archive.Examples.{
  empty, now, id1, entry, entry-IsInner, five_bytes, long_entry, long_entry-IsInner, writer,
  archive, writer-IsWriting,
}

content_blocks-le_example :
    (5 ≤ Immut.content_blocks 4 (record { inner = five_bytes; idx = 0; rcache = []; ridx = 0 }) * 4)
    × (Immut.content_blocks 4 (record { inner = five_bytes; idx = 0; rcache = []; ridx = 0 }) * 4
        < 9)
content_blocks-le_example =
    content_blocks-le 4 (record { inner = five_bytes; idx = 0; rcache = []; ridx = 0 })
      (omega arith)

load-flush_example :
    Ensures
      (λ _ s'.
        UnchangedBut memory_laws.blocks id1 (empty 64) s'.inner
        × Ensures
            (λ e' s''.
              (e' ≡ reread_inner now entry) × Unchanged memory_laws.blocks s'.inner s''.inner)
            (λ f _. IsFailure f)
            (Inner.load now id1 s'))
      (λ f s'. IsFailure f × UnchangedBut memory_laws.blocks id1 (empty 64) s'.inner)
      (Inner.flush entry id1 (Pager.new (empty 64)))
unfolding Pager.new Inner.min_entry_size Inner.new
load-flush_example =
    load-flush memory_laws now entry id1 (Pager.new (empty 64)) refl entry-IsInner
      (omega (arith, length-to_bytes-IsInner memory_laws entry entry-IsInner))

load-flush_long_name_example :
    Ensures
      (λ _ s'.
        Ensures
          (λ _ _. ⊥)
          (λ f _. IsFailure f ⊎ (f ≡ from_bytes_error eof))
          (Inner.load now id1 s'))
      (λ f _. IsFailure f)
      (Inner.flush long_entry id1 (Pager.new (empty 64)))
unfolding Pager.new Inner.new
load-flush_long_name_example =
    load-flush_long_name memory_laws now long_entry id1 (Pager.new (empty 64)) refl
      long_entry-IsInner (omega arith)

write-Wrote_example :
    Ensures
      (λ n r. Wrote memory_laws writer archive (7 ∷ 8 ∷ []) n r.0 r.1.pager.inner)
      (λ f _. IsFailure f)
      (Mut.write (7 ∷ 8 ∷ []) (writer, archive))
write-Wrote_example =
    write-Wrote memory_laws writer archive (7 ∷ 8 ∷ []) writer-IsWriting (omega arith)
