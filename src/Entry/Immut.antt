-- ===== src/Entry/Immut.antt =====
-- entry/immut.rs: entries that are read, and the way from one to the next.
pub mod Content
pub mod Reading
pub mod Pieces
pub mod Whole
pub mod Rounds
pub mod ReadBack
pub mod Located
pub mod Following
use nuts_archive.Prelude.{
  ℕ, zero, suc, ◌+◌, ◌-◌, ◌*◌, ◌/◌, ◌%◌, Bool, true, false, Option, none, some, List, [], ◌∷◌, ◌++◌,
  length, take, drop, replicate, is_empty, min, ◌==◌, leb, if◌then◌else◌,
}
use nuts_archive.Outcome.{Exec, pure, raise, abort, zoom, gets, modify, ◌>>=◌, ◌>>◌}
use nuts_archive.Error.{Error, unexpected_eof, invalid_type}
use nuts_archive.Pager
use nuts_archive.Pager.{Pager}
use nuts_archive.Platform.{Platform}
use nuts_archive.Tree
use nuts_archive.Tree.{Tree, OnTree}
use nuts_archive.Entry.Mode
use nuts_archive.Entry.Inner
use nuts_archive.Entry.Inner.{Inner}

-- `InnerEntry`; the pager and the tree that it borrows are the state of a run.
pub record InnerEntry (T : Type 0) : Type 0 where
  pub inner : Inner T
  pub idx : ℕ
  pub rcache : List ℕ
  pub ridx : ℕ

-- `Entry`, with `FileEntry`, `DirectoryEntry` and `SymlinkEntry` in its variants.
pub data Entry (T : Type 0) : Type 0 where
  file directory : InnerEntry T → Entry T
  symlink : InnerEntry T → (target : List ℕ) → Entry T

module _ {T : Type 0} where
  unfoldable pub inner_entry : Entry T → InnerEntry T
  inner_entry (file e) = e
  inner_entry (directory e) = e
  inner_entry (symlink e target) = e

  unfoldable pub name : Entry T → List ℕ
  unfolding inner_entry
  name e = (inner_entry e).inner.name

  unfoldable pub size : Entry T → ℕ
  unfolding inner_entry
  size e = (inner_entry e).inner.size

  unfoldable pub is_file : Entry T → Bool
  is_file (file e) = true
  is_file (directory e) = false
  is_file (symlink e target) = false

  unfoldable pub is_directory : Entry T → Bool
  is_directory (file e) = false
  is_directory (directory e) = true
  is_directory (symlink e target) = false

  unfoldable pub is_symlink : Entry T → Bool
  is_symlink (file e) = false
  is_symlink (directory e) = false
  is_symlink (symlink e target) = true

  -- `as_file` and `into_file`, and so on for the other variants
  unfoldable pub into_file : Entry T → Option (InnerEntry T)
  into_file (file e) = some e
  into_file (directory e) = none
  into_file (symlink e target) = none

  unfoldable pub into_directory : Entry T → Option (InnerEntry T)
  into_directory (file e) = none
  into_directory (directory e) = some e
  into_directory (symlink e target) = none

  unfoldable pub into_symlink : Entry T → Option (InnerEntry T × List ℕ)
  into_symlink (file e) = none
  into_symlink (directory e) = none
  into_symlink (symlink e target) = some (e, target)

  -- The number of blocks behind the first one, for a block size.
  unfoldable pub content_blocks : ℕ → InnerEntry T → ℕ
  content_blocks block_size e =
      if e.inner.size % block_size == 0
      then e.inner.size / block_size
      else e.inner.size / block_size + 1

module _ ⦃p : Platform⦄ where
  open p use {BlockId, Container, Failure, Time, block_size, from_utf8_lossy}

  unfoldable pub load : Time → ℕ → BlockId → OnTree (InnerEntry Time)
  load now idx id = do
    inner ← Tree.on_pager (Inner.load now id)
    pure (record { inner = inner; idx = idx; rcache = []; ridx = 0 })

  -- The entry at a block index; `None` is `none`, and `Some(Err(..))` the error of the run.
  unfoldable pub entry_at : Time → ℕ → OnTree (Option (InnerEntry Time))
  unfolding load
  entry_at now idx = do
    found ← Tree.lookup idx
    elim found [ none ↦ pure none | some id ↦ (load now idx id >>= λ e. pure (some e)) ]

  unfoldable pub first : Time → OnTree (Option (InnerEntry Time))
  unfolding entry_at
  first now = entry_at now 0

  unfoldable pub next : Time → InnerEntry Time → OnTree (Option (InnerEntry Time))
  unfolding entry_at content_blocks
  next now e = do
    size ← gets (λ s. block_size s.1.inner)
    entry_at now (e.idx + content_blocks size e + 1)

  -- A method of the entry: the entry, and the tree and pager that it borrows.
  abbrev pub OnEntry : Type 0 → Type 0
  OnEntry A = Exec (InnerEntry Time × Tree BlockId × Pager Container) (Error BlockId Failure) A

  abbrev pub on_tree : {A : Type 0} → OnTree A → OnEntry A
  on_tree m = zoom (λ s. (s.1, s.2)) (λ s (t, q). (s.0, t, q)) (λ e. e) m

  -- The last part of `read`: bytes of the cache are moved to the destination.
  pub drain : ℕ → OnEntry (List ℕ)
  drain wanted (e, t, s) =
      let len = min (length e.rcache) wanted in
      pure (take len e.rcache) (record e { rcache = drop len e.rcache }, t, s)

  -- `self.rcache` is filled from the block of an id, and the entry goes on to the next block.
  pub fetch : BlockId → OnEntry (Unit {0})
  fetch id = do
    cache_size ← gets (λ s. length s.0.rcache)
    d ← on_tree (Tree.on_pager (Pager.read id cache_size))
    if length d == cache_size
        then modify (λ (e, t, s). (record e { rcache = d; ridx = e.ridx + 1 }, t, s))
        else abort

  -- The destination is given by its length; the result is the bytes that are put into it.
  unfoldable pub read : ℕ → OnEntry (List ℕ)
  unfolding drain fetch content_blocks
  read wanted = do
    e ← gets (λ s. s.0)
    size ← gets (λ s. block_size s.2.inner)
    if is_empty e.rcache
        then (if leb (content_blocks size e) e.ridx then pure [] else do
          let remaining = e.inner.size - e.ridx * size
          modify (λ (e, t, s). (record e { rcache = replicate (min remaining size) 0 }, t, s))
          found ← on_tree (Tree.lookup (e.idx + e.ridx + 1))
          elim found [ none ↦ pure [] | some id ↦ fetch id >> drain wanted ])
        else drain wanted

  -- The loop of `read_all`, with what was read and what is still wanted. One round for each byte
  -- that is wanted is enough, for a round that reads nothing ends it.
  read_all_loop : ℕ → ℕ → List ℕ → OnEntry (List ℕ)
  read_all_loop fuel zero acc = pure acc
  read_all_loop zero (suc wanted) acc = abort
  read_all_loop (suc fuel) (suc wanted) acc = do
    d ← read (suc wanted)
    elim d [
      | [] ↦ raise unexpected_eof
      | x ∷ xs ↦ read_all_loop fuel (suc wanted - length (x ∷ xs)) (acc ++ x ∷ xs)
    ]

  unfoldable pub read_all : ℕ → OnEntry (List ℕ)
  unfolding read_all_loop
  read_all wanted = read_all_loop wanted wanted []

  unfoldable pub read_vec : OnEntry (List ℕ)
  read_vec = do wanted ← gets (λ s. s.0.inner.size); read_all wanted

  -- The loop of `SymlinkEntry::read_target`, in chunks of 64 bytes.
  read_target_loop : ℕ → List ℕ → OnEntry (List ℕ)
  read_target_loop zero vec = abort
  read_target_loop (suc fuel) vec = do
    d ← read 64
    elim d [ [] ↦ pure vec | x ∷ xs ↦ read_target_loop fuel (vec ++ x ∷ xs) ]

  unfoldable pub read_target : OnEntry (List ℕ)
  unfolding read_target_loop
  read_target = do
    size ← gets (λ s. s.0.inner.size)
    vec ← read_target_loop (size + 1) []
    pure (from_utf8_lossy vec)

  -- `SymlinkEntry::new`
  unfoldable pub new_symlink : OnEntry (Entry Time)
  new_symlink = do target ← read_target; e ← gets (λ s. s.0); pure (symlink e target)

  -- `TryFrom<InnerEntry> for Entry`
  unfoldable pub try_from : InnerEntry Time → OnTree (Entry Time)
  try_from e =
      if Mode.is_file e.inner.mode
      then pure (file e)
      else if Mode.is_directory e.inner.mode
      then pure (directory e)
      else if Mode.is_symlink e.inner.mode
      then (λ (t, s). let (r, (e', t', s')) = new_symlink (e, t, s) in (r, (t', s')))
      else do found ← Tree.lookup e.idx; raise (invalid_type found)

  unfoldable pub next_entry : Time → Entry Time → OnTree (Option (Entry Time))
  next_entry now e = do
    found ← next now (inner_entry e)
    elim found [ none ↦ pure none | some inner ↦ (try_from inner >>= λ e'. pure (some e')) ]
