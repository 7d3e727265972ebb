-- ===== src/Examples/Growing.antt =====
-- The theorems of the growth of an archive, at concrete values.
use nuts_archive.Prelude.{
  ◌+◌, ◌*◌, ◌%◌, ◌^◌, replicate, ◌≤◌, ◌≡◌, refl, ◌⊎◌, some, none, [], ◌∷◌, arith,
}
use nuts_archive.Outcome.Ensures.{Ensures}
use nuts_archive.Error.{IsFailure, full}
use nuts_archive.Header
use nuts_archive.Header.Codec.{reread_header}
use nuts_archive.Platform.Memory.{Time, memory, memory_laws}
use nuts_archive.State.Growing.{IsArchive}
use nuts_archive.Tree
use nuts_archive.Tree.Codec.{IsTree-new}
use nuts_archive.Tree.Node.{ids_per_node}
use nuts_archive.Tree.Forest.Levels.{Appended}
use nuts_archive.Tree.Forest.Aquire.{aquire-Appended}
use nuts_archive.Archive.{create, open_archive}
use nuts_archive.Archive.Reopen.{Stored}
use nuts_archive.Archive.Persisted.{ReadsEntry, open-write_all}
use nuts_archive.Archive.Start.{open-IsArchive}
use nuts_archive.Entry.Inner
use nuts_archive.Entry.Inner.Codec.{reread_inner, length-to_bytes-IsInner}
use nuts_archive.Entry.Immut
use nuts_archive.Entry.Immut.ReadBack.{read_vec-write_all}
use nuts_archive.Entry.Immut.Following.{next-build}
use nuts_archive.Entry.Mut
use nuts_archive.Entry.Mut.{EntryMut, SymlinkBuilder}
use nuts_archive.Entry.Mut.Appending as Appending
use nuts_archive.Entry.Mut.NextBlock.{write-Appended}
use nuts_archive.Entry.Mut.WriteAll.{Continued, write_all-Continued}
use nuts_archive.Entry.Mut.Linking.{Entered, build_symlink-Entered}
use nuts_archive.Examples.{now, id3, entry, entry-IsInner}
use nuts_archive.Examples.Disk.{
  id4, bare, over, disk, one_block, grown, with_file, bare-IsArchive, file_block,
  with_file-IsArchive, file, file-IsAppending, file-IsStored, header_stored,
}

aquire-Appended_example :
    Ensures
      (λ id q'.
        Appended memory_laws (id4 ∷ []) one_block (over grown) id q' × (q'.0.nblocks ≡ 1 + 1))
      (λ e _. IsFailure e ⊎ ((e ≡ full) × ((12 + 64 + 64 * 64 + 64 * 64 * 64) % 2 ^ 64 ≤ 1)))
      (Tree.aquire (one_block, over grown))
unfolding ids_per_node
aquire-Appended_example =
    aquire-Appended memory_laws (id4 ∷ []) one_block (over grown) file_block.ready refl

bare-Stored : Stored memory_laws id3 (Header.create now) Tree.new (disk Tree.new)
bare-Stored = record { named = refl; block = header_stored Tree.new 3 IsTree-new }

open-IsArchive_example :
    Ensures
      (λ b _.
        IsArchive memory_laws [] b
        × (b.header ≡ reread_header now (Header.create now))
        × (b.header_id ≡ id3)
        × (b.tree.nblocks ≡ Tree.new.nblocks))
      (λ e _. IsFailure e)
      (open_archive now (disk Tree.new))
open-IsArchive_example = open-IsArchive memory_laws now [] bare bare-IsArchive bare-Stored

write-Appended_example :
    Ensures
      (λ n q. Appending.Appended memory_laws [] [] file with_file (7 ∷ 8 ∷ []) n q)
      (λ f _. IsFailure f ⊎ ((f ≡ full) × ((12 + 64 + 64 * 64 + 64 * 64 * 64) % 2 ^ 64 ≤ 1)))
      (Mut.write (7 ∷ 8 ∷ []) (file, with_file))
unfolding ids_per_node
write-Appended_example =
    write-Appended memory_laws [] [] [] file with_file file-IsAppending (7 ∷ 8 ∷ []) (omega arith)
      (omega arith)

write_all-Continued_example :
    Ensures
      (λ _ q. Continued memory_laws [] [] (replicate 100 7) (file, with_file) q)
      (λ f _. IsFailure f ⊎ (f ≡ full))
      (Mut.write_all (replicate 100 7) (file, with_file))
write_all-Continued_example =
    write_all-Continued memory_laws [] [] [] (replicate 100 7) file with_file file-IsAppending
      file-IsStored (omega arith)

read_vec-write_all_example :
    Ensures
      (λ _ (e', a').
        Ensures
          (λ v _. v ≡ replicate 100 7)
          (λ f _. IsFailure f)
          (Immut.read_vec
            (record { inner = e'.entry; idx = 0; rcache = []; ridx = 0 }, a'.tree, a'.pager)))
      (λ f _. IsFailure f ⊎ (f ≡ full))
      (Mut.write_all (replicate 100 7) (file, with_file))
read_vec-write_all_example =
    read_vec-write_all memory_laws [] [] [] (replicate 100 7) file with_file file-IsAppending
      file-IsStored (omega arith)

next-build_example :
    Ensures
      (λ o _. o ≡ none)
      (λ f _. IsFailure f)
      (Immut.next now
        (record { inner = file.entry; idx = 0; rcache = []; ridx = 0 })
        (one_block, over grown))
    × Ensures
        (λ _ a2.
          Ensures
            (λ o _.
              o ≡ some (record { inner = reread_inner now entry; idx = 1; rcache = []; ridx = 0 }))
            (λ f _. IsFailure f)
            (Immut.next now
              (record { inner = file.entry; idx = 0; rcache = []; ridx = 0 })
              (a2.tree, a2.pager)))
        (λ f _. IsFailure f ⊎ (f ≡ full))
        (Mut.build now entry with_file)
unfolding Inner.min_entry_size Inner.new
next-build_example =
    next-build memory_laws [] [] [] file with_file file-IsAppending now now
      (record { inner = file.entry; idx = 0; rcache = []; ridx = 0 }) refl refl entry entry-IsInner
      (omega (arith, length-to_bytes-IsInner memory_laws entry entry-IsInner))

-- A link with a target of two bytes.
abbrev link : SymlinkBuilder Time
link = Mut.symlink_builder now (97 ∷ []) (98 ∷ 99 ∷ [])

build_symlink-Entered_example :
    Ensures
      (λ _ a'.
        (e : EntryMut) × Entered memory_laws link.builder link.target (id4 ∷ []) with_file (e, a'))
      (λ f _. IsFailure f ⊎ (f ≡ full))
      (Mut.build_symlink now link with_file)
unfolding Mut.symlink_builder Inner.new
build_symlink-Entered_example =
    build_symlink-Entered memory_laws now link (id4 ∷ []) with_file with_file-IsArchive refl
      (omega arith)

open-write_all_example :
    Ensures
      (λ _ (e', a').
        Ensures
          (λ b _. ReadsEntry memory_laws now 0 e'.entry (replicate 100 7) b)
          (λ f _. IsFailure f)
          (open_archive now a'.pager.inner))
      (λ f _. IsFailure f ⊎ (f ≡ full))
      (Mut.write_all (replicate 100 7) (file, with_file))
unfolding Mut.new Inner.min_entry_size Inner.new
open-write_all_example =
    open-write_all memory_laws now [] [] [] (replicate 100 7) file with_file file-IsAppending
      file-IsStored (omega arith) refl entry-IsInner
      (omega (arith, length-to_bytes-IsInner memory_laws entry entry-IsInner))
