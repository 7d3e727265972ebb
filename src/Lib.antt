-- ===== src/Lib.antt =====
-- nuts-archive: an archive of files, directories and symlinks inside a nuts container.
--
-- The program. The blocks of the container are read and written through a pager with a buffer of one
-- block (src/pager.rs). The user data of the container name the header block (src/userdata.rs),
-- which holds the header (src/header.rs) and the tree (src/tree.rs). The tree gives the blocks of
-- the archive an index: 12 of them directly, the others through one, two or three levels of nodes
-- (src/tree/node.rs), the last of which are cached (src/tree/cache.rs). An entry is a first block
-- with its name, mode, times and size (src/entry.rs, src/entry/mode.rs, src/entry/tstamp.rs),
-- followed by the blocks of its content; src/entry/mut.rs appends entries, src/entry/immut.rs reads
-- them, and src/lib.rs creates and opens archives and looks up names.
--
-- The files. Each operation keeps its name, and is a function of the module of its file:
--   Error       src/error.rs, and the errors of nuts_bytes
--   Pager       src/pager.rs; Pager/Blocks: what it does to the blocks
--   Bytes       what the derived `FromBytes` and `ToBytes` do with fields and arrays
--   Magic, DateTime, Header, Userdata   the files of these names; Codec in each: the encoding
--   Tree, Tree/Node, Tree/Cache   src/tree.rs, src/tree/node.rs, src/tree/cache.rs
--   Tree/Forest   the blocks below the tree as a forest: each has one place, a way of entries from a
--               pointer of the tree. Walks, Nodes: ways, and when they stay; Grow: one place more, by
--               a pointer (Pointer) or an entry of a node (Entry); Ready: with the caches; Roots,
--               Ensured, Adding, Levels, Leaf, Direct: the steps of aquiring, and Aquire the whole;
--               Look, Lookup, Listed: the same for looking up; Start: a new tree; Contents: writing
--               other blocks
--   Tree/Routes   which id the stored nodes give an index; Tree/Routes/Lookup: the way of `lookup`
--   Entry/Mut/Writing   what one `write` inside of a block does to the blocks
--   Entry/Mut/Blocks, Appending, NextBlock, WriteAll   the blocks of the entry at the end of the
--               archive, and what `write` and `write_all` add to them
--   Entry/Mut/Building, Linking   `build` of an entry, and of a symlink
--   Entry/Immut/Content, Entry/Immut/Reading   the number of content blocks; what one `read` takes
--   Entry/Immut/Pieces, Whole, Rounds, ReadBack   the content block by block; one round of reading it;
--               reading what was written; Located, Following: what is at an index; from an entry to the next
--   Entry/Mode, Entry/Tstamp, Entry/Inner   src/entry/mode.rs, src/entry/tstamp.rs, src/entry.rs
--   Entry/Mut, Entry/Immut   src/entry/mut.rs, src/entry/immut.rs
--   State, Archive   src/lib.rs: the archive and `flush_header`; creating, opening, lookup
--   State/Growing   the archive as a list of blocks behind its header block; Archive/Start: a new and
--               an opened archive; Archive/Persisted: what was written is there after opening again
--   Prelude     lists, bits and tests shared by all
--   Outcome     results, and state passing: a method of a struct that borrows the pager or the tree
--               is a function of the state of all of them; a panic is an outcome of its own
--   Platform    what is used of nuts_container, nuts_bytes and chrono, as a record of operations;
--               Platform/Laws: what is relied on of them; Platform/Memory: an instance
--   Examples    the theorems at concrete values
--
-- The model. A `u64`, `usize` or `u16` is a natural number, with the remainder written out where a sum
-- can wrap around as it does in a release build; `usize` has 64 bits, and an `i64` of milliseconds
-- stands for its 64 bits. A stored time
-- has lost what is below the millisecond: `reread`, `reread_header` and `reread_inner` are the values
-- that are read back. The current time is an argument of what reads the clock; where one
-- operation reads it twice, both readings are the same. `Some(Err(e))` is the error `e` of the run.
-- The destination of a read is given by its length, and the result is what was put into it; a pager
-- keeps its buffer when a read fails. Asserts and indices out of range are
-- panics; a block size of 0, by which the program would divide, does not occur.
--
-- The bounds. `write_all` has one round for each byte of its buffer, `read_all` one for each byte
-- that is wanted, the target of a symlink one more than its size, and `lookup` of a name one for each
-- block of the archive; running out of rounds is a panic. Loops over nodes are structural.
--
-- Not modelled: log messages, the texts of `Display` and `Debug`, the crates nuts_container,
-- nuts_bytes and chrono themselves, and accessors that only hand out a reference.
pub mod Prelude
pub mod Outcome
pub mod Error
pub mod Platform
pub mod Pager
pub mod Bytes
pub mod Magic
pub mod DateTime
pub mod Header
pub mod Userdata
pub mod Tree
pub mod State
pub mod Entry
pub mod Archive
pub mod Examples
