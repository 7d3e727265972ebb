-- ===== src/Archive.antt =====
-- lib.rs: the archive.
pub mod Reopen
pub mod Start
pub mod Persisted
use nuts_archive.Prelude.{
  ℕ, zero, suc, ◌+◌, Bool, Option, none, some, List, ltb, max, ◌===◌, if◌then◌else◌,
}
use nuts_archive.Outcome.{ok, err, panic, pure, abort, zoom, gets, ◌>>=◌, ◌>>◌}
use nuts_archive.Error.{invalid_block_size, from_bytes_error}
use nuts_archive.Header
use nuts_archive.Pager
use nuts_archive.Pager.{Paged}
use nuts_archive.Platform.{Platform}
use nuts_archive.Tree
use nuts_archive.Tree.{OnTree}
use nuts_archive.Userdata
use nuts_archive.Userdata.{OnContainer}
use nuts_archive.Entry.Inner
use nuts_archive.Entry.Inner.{Inner}
use nuts_archive.Entry.Mut
use nuts_archive.Entry.Mut.{SymlinkBuilder}
use nuts_archive.Entry.Immut
use nuts_archive.Entry.Immut.{Entry}
use nuts_archive.State.{Archive, OnArchive, on_tree, flush_header}

pub record Info (T : Type 0) : Type 0 where
  pub created : T
  pub modified : T
  pub blocks : ℕ
  pub files : ℕ

module _ ⦃p : Platform⦄ where
  open p use {BlockId, Container, Failure, Time, block_size}

  unfoldable pub min_block_size : ℕ
  unfolding Header.size Tree.size Inner.min_entry_size
  min_block_size = max (max Header.size Tree.size) Inner.min_entry_size

  -- A step on the container inside of the pager.
  abbrev pub in_container : {A : Type 0} → OnContainer A → Paged A
  in_container m = zoom (λ s. s.inner) (λ s c. record s { inner = c }) (λ e. e) m

  -- The steps of `Archive::create` behind the test of the block size.
  create_in : Time → Bool → Paged Archive
  create_in now force = do
    u ← in_container (Userdata.create force)
    let header = Header.create now
    let tree = Tree.new
    flush_header u.id header tree
    s ← gets (λ s. s)
    pure (record { pager = s; header_id = u.id; header = header; tree = tree })

  -- The container comes back in the state, so that a failure shows what it left behind.
  unfoldable pub create : Time → Bool → OnContainer Archive
  unfolding create_in
  create now force c =
      if ltb (block_size c) min_block_size
      then (err invalid_block_size, c)
      else zoom Pager.new (λ _ s. s.inner) (λ e. e) (create_in now force) c

  -- The two reads of `Archive::open` from the header block.
  unfoldable pub parse_header : Time → List ℕ → Paged (Header.Header Time × Tree.Tree BlockId)
  parse_header now bytes s = elim (Header.from_bytes now bytes) [
    | err e ↦ (err (from_bytes_error e), s)
    | panic ↦ (panic, s)
    | ok (header, rest) ↦ elim (Tree.from_bytes rest) [
      | err e ↦ (err (from_bytes_error e), s)
      | panic ↦ (panic, s)
      | ok (tree, rest') ↦ (ok (header, tree), s)
    ]
  ]

  open_in : Time → Paged Archive
  open_in now = do
    u ← in_container Userdata.load
    bytes ← Pager.read_buf u.id
    (header, tree) ← parse_header now bytes
    s ← gets (λ s. s)
    pure (record { pager = s; header_id = u.id; header = header; tree = tree })

  unfoldable pub open_archive : Time → OnContainer Archive
  unfolding open_in
  open_archive now c =
      if ltb (block_size c) min_block_size
      then (err invalid_block_size, c)
      else zoom Pager.new (λ _ s. s.inner) (λ e. e) (open_in now) c

  unfoldable pub info : Archive → Info Time
  info a = record {
    created = a.header.created;
    modified = a.header.modified;
    blocks = a.tree.nblocks;
    files = a.header.nfiles;
  }

  unfoldable pub first : Time → OnArchive (Option (Entry Time))
  first now = on_tree (do
    found ← Immut.first now
    elim found [ none ↦ pure none | some inner ↦ (Immut.try_from inner >>= λ e. pure (some e)) ])

  -- The loop of `lookup`; each round goes to a later block, so one round for each block is enough.
  lookup_loop : Time → List ℕ → ℕ → Option (Entry Time) → OnTree (Option (Entry Time))
  lookup_loop now name fuel none = pure none
  lookup_loop now name zero (some e) = abort
  lookup_loop now name (suc fuel) (some e) =
      let rest : OnTree (Option (Entry Time)) = do
        following ← Immut.next_entry now e
        lookup_loop now name fuel following
      in if Immut.name e === name then pure (some e) else rest

  unfoldable pub lookup : Time → List ℕ → OnArchive (Option (Entry Time))
  unfolding lookup_loop
  lookup now name = do
    n ← gets (λ a. a.tree.nblocks)
    e ← first now
    on_tree (lookup_loop now name (n + 1) e)

  -- The builders of new entries; what they borrow of the archive is the state of `build`.
  unfoldable pub append_file : Time → List ℕ → Inner Time
  append_file now name = Mut.file_builder now name

  unfoldable pub append_directory : Time → List ℕ → Inner Time
  append_directory now name = Mut.directory_builder now name

  unfoldable pub append_symlink : Time → List ℕ → List ℕ → SymlinkBuilder Time
  append_symlink now name target = Mut.symlink_builder now name target

  -- `into_container`, and `as_ref`
  unfoldable pub into_container : Archive → Container
  into_container a = a.pager.inner
