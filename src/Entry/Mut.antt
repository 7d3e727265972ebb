-- ===== src/Entry/Mut.antt =====
-- entry/mut.rs: builders of entries, and the entry that is written at the end of the archive.
pub mod Writing
pub mod Building
pub mod Blocks
pub mod Appending
pub mod NextBlock
pub mod WriteAll
pub mod Linking
use nuts_archive.Prelude.{
  ℕ, zero, suc, ◌+◌, ◌-◌, ◌%◌, ◌^◌, List, [], ◌∷◌, length, take, drop, replicate, min, ◌==◌,
  if◌then◌else◌,
}
use nuts_archive.Outcome.{Exec, pure, abort, zoom, gets, modify, ◌>>=◌, ◌>>◌}
use nuts_archive.Error.{Error}
use nuts_archive.Header
use nuts_archive.Pager
use nuts_archive.Platform.{Platform}
use nuts_archive.Platform.Laws.{splice}
use nuts_archive.State.{Archive, OnArchive, on_pager, on_tree, flush_header}
use nuts_archive.Tree
use nuts_archive.Entry.Mode
use nuts_archive.Entry.Inner
use nuts_archive.Entry.Inner.{Inner}

-- `EntryMut`; the pager, the header and the tree that it borrows are the state of a run.
pub record EntryMut ⦃p : Platform⦄ : Type 0 where
  pub entry : Inner p.Time
  pub first : p.BlockId
  pub last : p.BlockId
  pub cache : List ℕ

-- `SymlinkBuilder`; `FileBuilder` and `DirectoryBuilder` hold the `Inner` alone.
pub record SymlinkBuilder (T : Type 0) : Type 0 where
  pub builder : Inner T
  pub target : List ℕ

unfoldable pub file_builder : {T : Type 0} → T → List ℕ → Inner T
file_builder now name = Inner.new now name Mode.file

unfoldable pub directory_builder : {T : Type 0} → T → List ℕ → Inner T
directory_builder now name = Inner.new now name Mode.directory

unfoldable pub symlink_builder : {T : Type 0} → T → List ℕ → List ℕ → SymlinkBuilder T
symlink_builder now name target = record {
  builder = Inner.new now name Mode.symlink;
  target = target;
}

module _ ⦃p : Platform⦄ where
  open p use {BlockId, Failure, Time, block_size}

  unfoldable pub new : Inner Time → BlockId → EntryMut
  new entry id = record { entry = entry; first = id; last = id; cache = [] }

  -- `InnerBuilder::build`; `now` is the time at which the header is updated.
  unfoldable pub build : Time → Inner Time → OnArchive EntryMut
  build now entry = do
    id ← on_tree Tree.aquire
    on_pager (Inner.flush entry id)
    modify (λ a. record a { header = Header.inc_files now a.header })
    a ← gets (λ a. a)
    on_pager (flush_header a.header_id a.header a.tree)
    pure (new entry id)

  -- A method of the entry: the entry, and the archive that it borrows from.
  abbrev pub OnEntry : Type 0 → Type 0
  OnEntry A = Exec (EntryMut × Archive) (Error BlockId Failure) A

  abbrev pub on_archive : {A : Type 0} → OnArchive A → OnEntry A
  on_archive m = zoom (λ s. s.1) (λ s a. (s.0, a)) (λ e. e) m

  -- At the end of a block the next one is aquired. The result is the room that is left.
  pub make_room : ℕ → ℕ → OnEntry ℕ
  make_room size pos =
      if pos == 0
      then (do
        id ← on_archive (on_tree Tree.aquire)
        modify (λ (e, a). (record e { last = id; cache = replicate size 0 }, a))
        pure size)
      else (do
        filled ← gets (λ s. length s.0.cache)
        if filled == size then pure (size - pos) else abort)

  -- The part of `write` behind the choice of the block.
  pub fill_room : ℕ → List ℕ → ℕ → OnEntry ℕ
  fill_room pos buf available = do
    let nbytes = min (length buf) available
    modify (λ (e, a). (record e { cache = splice e.cache pos (take nbytes buf) }, a))
    e ← gets (λ s. s.0)
    on_archive (on_pager (Pager.write e.last e.cache))
    modify (λ (e, a).
        (record e { entry = record (e.entry) { size = (e.entry.size + nbytes) % 2 ^ 64 } }, a))
    (e', a) ← gets (λ s. s)
    on_archive (on_pager (Inner.flush e'.entry e'.first))
    on_archive (on_pager (flush_header a.header_id a.header a.tree))
    pure nbytes

  unfoldable pub write : List ℕ → OnEntry ℕ
  unfolding make_room fill_room
  write buf = do
    size ← gets (λ s. block_size s.1.pager.inner)
    start ← gets (λ s. s.0.entry.size)
    available ← make_room size (start % size)
    fill_room (start % size) buf available

  -- The loop of `write_all`, with one round for each byte of the buffer.
  pub write_all_loop : ℕ → List ℕ → OnEntry (Unit {0})
  write_all_loop zero [] = pure tt
  write_all_loop zero (x ∷ buf) = abort
  write_all_loop (suc fuel) [] = pure tt
  write_all_loop (suc fuel) (x ∷ buf) = do
    n ← write (x ∷ buf)
    write_all_loop fuel (drop n (x ∷ buf))

  unfoldable pub write_all : List ℕ → OnEntry (Unit {0})
  unfolding write_all_loop
  write_all buf = write_all_loop (length buf) buf

  unfoldable pub build_file : Time → Inner Time → OnArchive EntryMut
  build_file = build

  unfoldable pub build_directory : Time → Inner Time → OnArchive (Unit {0})
  build_directory now entry = do build now entry; pure tt

  unfoldable pub build_symlink : Time → SymlinkBuilder Time → OnArchive (Unit {0})
  build_symlink now b = do
    e ← build now b.builder
    λ a. let (r, s) = write_all b.target (e, a) in (r, s.1)
