-- ===== src/Examples/Disk.antt =====
-- An archive with no block, and one with the first block of a file, in a container in memory.
use nuts_archive.Prelude.{ℕ, ◌≡◌, refl, ◌∙◌, [], ◌∷◌, arith, replicate, ◌==◌, if◌then◌else◌, inl}
use nuts_archive.Header
use nuts_archive.Header.Codec.{IsHeader-create}
use nuts_archive.Pager.{Pager}
use nuts_archive.Pager.Blocks.{filled, contents, padded-short}
use nuts_archive.Platform.Memory.{
  BlockId, Container, null, memory, memory_laws, memory_contents, memory_live, memory_Grown,
}
use nuts_archive.State.{Archive}
use nuts_archive.State.Growing.{IsArchive}
use nuts_archive.State.HeaderBlock.{header_bytes, length-header_bytes}
use nuts_archive.Tree
use nuts_archive.Tree.{Tree}
use nuts_archive.Tree.Codec.{IsTree}
use nuts_archive.Tree.Node.{ids_per_node}
use nuts_archive.Tree.Forest.Ready.{IsReady}
use nuts_archive.Tree.Forest.Start.{new-IsReady, new_empty}
use nuts_archive.Tree.Forest.Direct.{direct_added}
use nuts_archive.Tree.Forest.Levels.{Appended}
use nuts_archive.Userdata
use nuts_archive.Entry.Inner
use nuts_archive.Entry.Mut
use nuts_archive.Entry.Mut.{EntryMut}
use nuts_archive.Entry.Mut.Blocks.{IsAppending}
use nuts_archive.Entry.Mut.WriteAll.{IsStored}
use nuts_archive.Examples.{now, id3, entry, empty}

abbrev pub id4 : BlockId
id4 = (4, omega arith)

-- Block 3 is the header block, and in block 4 is a file.
abbrev pub disk : Tree BlockId → Container
disk t = record (empty 64) {
  count = 3;
  userdata = Userdata.to_bytes (Userdata.new id3);
  bytes = λ n. if n == 3 then header_bytes (Header.create now) t else Inner.to_bytes entry;
}

abbrev pub over : Container → Pager Container
over c = record { inner = c; buf = replicate 64 0 }

abbrev pub bare : Archive
bare = record {
  pager = over (disk Tree.new);
  header_id = id3;
  header = Header.create now;
  tree = Tree.new;
}

abbrev pub one_block : Tree BlockId
one_block = record Tree.new { direct = id4 ∷ replicate 11 null; nblocks = 1 }

abbrev pub grown : Container
grown = record (disk one_block) { count = 4 }

abbrev pub with_file : Archive
with_file = record {
  pager = over grown;
  header_id = id3;
  header = Header.create now;
  tree = one_block;
}

pub new_tree-IsReady : (t : Tree BlockId) → IsReady memory_laws [] (Tree.new, over (disk t))
unfolding ids_per_node
new_tree-IsReady t = new-IsReady memory_laws (over (disk t)) refl (omega arith)

pub bare-IsArchive : IsArchive memory_laws [] bare
unfolding Tree.new Header.size Tree.size ids_per_node
bare-IsArchive = record {
  ready = new_tree-IsReady Tree.new;
  count = refl;
  count_fits = omega arith;
  is_header = IsHeader-create now;
  header_fits = omega arith;
  header_live = memory_live (disk Tree.new) id3;
  header_free = λ r way at. new_empty memory_laws (disk Tree.new) r way id3 at;
}

pub file_block :
    Appended memory_laws [] Tree.new (over (disk one_block)) id4 (one_block, over grown)
unfolding Tree.new
file_block =
    direct_added memory_laws [] Tree.new (over (disk one_block)) (new_tree-IsReady one_block) 0 id4
      (over grown) refl (omega arith) refl refl (memory_Grown (disk one_block) (omega arith))

pub with_file-IsArchive : IsArchive memory_laws (id4 ∷ []) with_file
unfolding Tree.new Header.size Tree.size ids_per_node
with_file-IsArchive = record {
  ready = file_block.ready;
  count = refl;
  count_fits = omega arith;
  is_header = IsHeader-create now;
  header_fits = omega arith;
  header_live = memory_live grown id3;
  header_free = λ r way at.
      new_empty memory_laws (disk one_block) r way id3
        (file_block.grew.no_new_place id3 (memory_live (disk one_block) id3) r way at);
}

abbrev pub file : EntryMut
file = Mut.new entry id4

pub file-IsAppending : IsAppending memory_laws [] [] [] (file, with_file)
unfolding Mut.new Inner.new
file-IsAppending = record { archive = with_file-IsArchive; sized = refl; holds = inl (refl, refl) }

one_block-IsTree : IsTree one_block
unfolding Tree.new
one_block-IsTree = record { direct_full = refl; nblocks_fits = omega arith }

pub header_stored :
    (t : Tree BlockId) (n : ℕ)
    → IsTree t
    → contents memory_laws (record (disk t) { count = n }) id3
      ≡ filled 64 (header_bytes (Header.create now) t)
unfolding Header.size Tree.size
header_stored t n is =
    memory_contents (record (disk t) { count = n }) id3
    ∙ padded-short 64 (header_bytes (Header.create now) t) (
        omega
          (arith, length-header_bytes memory_laws (Header.create now) t (IsHeader-create now) is))

pub file-IsStored : IsStored memory_laws (file, with_file)
unfolding Mut.new
file-IsStored = (memory_contents grown id4, header_stored one_block 4 one_block-IsTree)
