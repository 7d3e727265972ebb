-- ===== src/Examples.antt =====
-- Containers in memory with block ids of one byte, and trees and entries in them: the values at which
-- the theorems are applied.
pub mod Archives
pub mod Codecs
pub mod Rights
pub mod Trees
pub mod Entries
pub mod Disk
pub mod Growing
use nuts_archive.Prelude.{
  ℕ, ◌+◌, ◌*◌, ◌≤◌, ◌<◌, ◌≡◌, refl, ◌⊎◌, true, false, List, [], ◌∷◌, ◌++◌, arith, length, replicate,
  if◌then◌else◌, ap,
}
use nuts_archive.Outcome.{ok, err}
use nuts_archive.Outcome.Ensures.{Ensures}
use nuts_archive.Error.{
  from_bytes_error, bytes, other, eof, IsFailure, invalid_block_size, overwrite_userdata,
}
use nuts_archive.Platform.Laws.{Unchanged, UnchangedBut, Grown}
use native.Mathlib.Bridge.{le_by_compare, IsLe}
use nuts_archive.Platform.Memory.{
  BlockId, Time, Container, null, memory, to_time-eq, aquire_block, read_block, id_from_bytes,
}
use nuts_archive.DateTime.Codec.{IsMillis}
use nuts_archive.Header
use nuts_archive.Header.{Header}
use nuts_archive.Header.Codec.{
  IsHeader, IsHeader-create, length-to_bytes-IsHeader, from_bytes-to_bytes-IsHeader,
  from_bytes_bad_header_magic,
}
use nuts_archive.Pager
use nuts_archive.Pager.{Pager}
use nuts_archive.Pager.Blocks.{filled, IsPager, contents}
use nuts_archive.Tree
use nuts_archive.Tree.{Tree}
use nuts_archive.Tree.Codec.{IsTree, IsTree-new, length-to_bytes-IsTree, from_bytes-to_bytes-IsTree}
use nuts_archive.Tree.Node
use nuts_archive.Tree.Node.Stored.{NodeAt, flush-NodeAt, aquire-NodeAt, fill-NodeAt}
use nuts_archive.Tree.Cache
use nuts_archive.Tree.Cache.{Cache}
use nuts_archive.Tree.Cache.Added.{AquireResult, aquire-AquireResult}
use nuts_archive.Tree.Cache.Coherent.{refresh-NodeAt, refresh_again}
use nuts_archive.Tree.Routes.{Kept}
use nuts_archive.Tree.Routes.Lookup.{Found}
use nuts_archive.Entry.Inner.Stored.{load-flush, load-flush_long_name}
use nuts_archive.State.{Archive}
use nuts_archive.Entry.Mut
use nuts_archive.Entry.Mut.{EntryMut}
use nuts_archive.Entry.Mut.Writing.{IsWriting, Wrote, write-Wrote}
use nuts_archive.Entry.Immut
use nuts_archive.Entry.Immut.Content.{content_blocks-le}
use nuts_archive.Entry.Immut.Reading.{Reads}
use nuts_archive.Userdata
use nuts_archive.Userdata.Codec.{from_bytes-to_bytes-new, from_bytes_bad_userdata_magic}
use nuts_archive.Userdata.Created.{Created, create-Created}
use nuts_archive.Entry.Mode
use nuts_archive.Entry.Mode.Rights.{
  same_group, set_readable_lem, set_writable_lem, set_executable_lem,
}
use nuts_archive.Entry.Tstamp
use nuts_archive.Entry.Inner
use nuts_archive.Entry.Inner.{Inner}
use nuts_archive.Entry.Inner.Codec.{
  IsInner, IsWhole, length-to_bytes-IsInner, from_bytes-to_bytes-IsInner,
}
use nuts_archive.State.{flush_header}
use nuts_archive.State.HeaderBlock.{header_bytes, flush_header-contents}
use nuts_archive.Archive
use nuts_archive.Archive.{create, open_archive}
use nuts_archive.Archive.Reopen.{CreateError, open-create, create_too_small}

-- A container of empty blocks of the given size.
abbrev empty : ℕ → Container
empty size = record { size = size; userdata = []; count = 0; bytes = λ n. [] }

abbrev now : Time
now = (5, omega arith)

one_lt : 1 < 256
unfolding IsLe
one_lt = le_by_compare 2 256 tt

abbrev id1 : BlockId
id1 = (1, one_lt)

now-IsMillis : IsMillis now
now-IsMillis = to_time-eq now

-- Four ids, two of them null.
abbrev ids : List BlockId
ids = id1 ∷ null ∷ id1 ∷ null ∷ []

abbrev pager4 : Pager Container
pager4 = record { inner = empty 4; buf = replicate 4 0 }

abbrev cache4 : Cache BlockId
cache4 = record { id = id1; node = ids }

-- A block whose second byte is no id.
abbrev damaged : Pager Container
damaged = record { inner = record (empty 4) { bytes = λ n. 1 ∷ 300 ∷ [] }; buf = replicate 4 0 }

abbrev half_filled : Cache BlockId × Pager Container
half_filled = (record { id = id1; node = id1 ∷ [] }, record damaged { buf = 1 ∷ 300 ∷ 0 ∷ 0 ∷ [] })

create-IsHeader : IsHeader (Header.create now)
create-IsHeader = IsHeader-create now

-- A tree with blocks, and with a cached node.
abbrev tree : Tree BlockId
tree = record {
  direct = replicate 12 id1;
  indirect = id1;
  d_indirect = null;
  t_indirect = null;
  nblocks = 13;
  cache = cache4 ∷ [];
}

tree-IsTree : IsTree tree
tree-IsTree = record { direct_full = refl; nblocks_fits = omega arith }

-- A file named `ab`.
abbrev entry : Inner Time
entry = Inner.new now (97 ∷ 98 ∷ []) Mode.file

entry-IsInner : IsInner entry
unfolding Inner.new Mode.file Tstamp.new
entry-IsInner = record { name_fits = omega arith; mode_fits = omega arith; size_fits = omega arith }

now-IsWhole : IsWhole entry.tstamps
unfolding Inner.new Tstamp.new
now-IsWhole = record {
  appended_millis = now-IsMillis;
  created_millis = now-IsMillis;
  changed_millis = now-IsMillis;
  modified_millis = now-IsMillis;
}

-- Thirteen blocks, the last one below a node in block 1, whose first entry is block 1 again.
abbrev node_pager : Pager Container
node_pager = record {
  inner = record (empty 4) { count = 1; bytes = λ n. 1 ∷ [] };
  buf = replicate 4 0;
}

abbrev short_tree : Tree BlockId
short_tree = record tree { cache = [] }

-- Five bytes in the blocks 12 and 13.
abbrev five_bytes : Inner Time
five_bytes = record entry { size = 5 }

-- A name of 57 bytes, for blocks of 64.
abbrev long_entry : Inner Time
long_entry = Inner.new now (replicate 57 97) Mode.file

long_entry-IsInner : IsInner long_entry
unfolding Inner.new Mode.file Tstamp.new
long_entry-IsInner = record {
  name_fits = omega arith;
  mode_fits = omega arith;
  size_fits = omega arith;
}

-- Three bytes are written, for which the blocks 1, 2 and 3 hold the entry, its content and the header.
abbrev id2 : BlockId
id2 = (2, omega arith)

abbrev id3 : BlockId
id3 = (3, omega arith)

abbrev writer : EntryMut
writer = record {
  entry = record entry { size = 3 };
  first = id1;
  last = id2;
  cache = replicate 64 9;
}

abbrev archive : Archive
archive = record {
  pager = record { inner = record (empty 64) { count = 3 }; buf = replicate 64 0 };
  header_id = id3;
  header = Header.create now;
  tree = Tree.new;
}

writer-IsWriting : IsWriting writer archive
unfolding Header.size Tree.size
writer-IsWriting = record {
  is_pager = refl;
  is_header = IsHeader-create now;
  is_tree = IsTree-new;
  header_fits = omega arith;
  inside = λ e. absurd (omega (arith, e));
  cached = refl;
  last_not_first = λ e. absurd (omega (arith, ap (λ (i : BlockId). i.0) e));
  last_not_header = λ e. absurd (omega (arith, ap (λ (i : BlockId). i.0) e));
  first_not_header = λ e. absurd (omega (arith, ap (λ (i : BlockId). i.0) e));
}
