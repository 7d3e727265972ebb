-- ===== src/Examples/Codecs.antt =====
-- The theorems of the encodings at concrete values.
use nuts_archive.Prelude.{◌+◌, ◌≡◌, refl, [], ◌∷◌, ◌++◌, length, replicate}
use nuts_archive.Outcome.{ok, err}
use nuts_archive.Error.{header_magic, userdata_magic, custom_header, custom_userdata}
use nuts_archive.Platform.Memory.{memory, memory_laws}
use nuts_archive.Header
use nuts_archive.Header.{Header}
use nuts_archive.Header.Codec.{
  length-to_bytes-IsHeader, from_bytes-to_bytes-IsHeader, from_bytes_bad_header_magic,
}
use nuts_archive.Tree
use nuts_archive.Tree.{Tree}
use nuts_archive.Tree.Codec.{length-to_bytes-IsTree, from_bytes-to_bytes-IsTree}
use nuts_archive.Userdata
use nuts_archive.Userdata.Codec.{from_bytes-to_bytes-new, from_bytes_bad_userdata_magic}
use nuts_archive.Entry.Mode.Rights.{}
use nuts_archive.Entry.Inner
use nuts_archive.Entry.Inner.{Inner}
use nuts_archive.Entry.Inner.Codec.{length-to_bytes-IsInner, from_bytes-to_bytes-IsInner}
use nuts_archive.Examples.{
  now, now-IsMillis, now-IsWhole, id1, create-IsHeader, tree, tree-IsTree, entry, entry-IsInner,
}

from_bytes-to_bytes-IsHeader_example :
    Header.from_bytes now (Header.to_bytes (Header.create now) ++ 7 ∷ [])
    ≡ ok (Header.create now, 7 ∷ [])
unfolding Header.create
from_bytes-to_bytes-IsHeader_example =
    from_bytes-to_bytes-IsHeader memory_laws now (Header.create now) (7 ∷ []) create-IsHeader
      now-IsMillis now-IsMillis

length-to_bytes-IsHeader_example : length (Header.to_bytes (Header.create now)) ≡ Header.size
length-to_bytes-IsHeader_example =
    length-to_bytes-IsHeader memory_laws (Header.create now) create-IsHeader

from_bytes_bad_header_magic_example :
    Header.from_bytes now (replicate 12 7 ++ 1 ∷ []) ≡ err (custom_header header_magic)
from_bytes_bad_header_magic_example =
    from_bytes_bad_header_magic memory_laws now (replicate 12 7) (1 ∷ []) refl (λ e. cc)

from_bytes-to_bytes-IsTree_example :
    Tree.from_bytes (Tree.to_bytes tree ++ 7 ∷ []) ≡ ok (record tree { cache = [] }, 7 ∷ [])
from_bytes-to_bytes-IsTree_example =
    from_bytes-to_bytes-IsTree memory_laws tree (7 ∷ []) tree-IsTree

length-to_bytes-IsTree_example : length (Tree.to_bytes tree) ≡ Tree.size
length-to_bytes-IsTree_example = length-to_bytes-IsTree memory_laws tree tree-IsTree

from_bytes-to_bytes-IsInner_example :
    Inner.from_bytes now (Inner.to_bytes entry ++ 7 ∷ []) ≡ ok (entry, 7 ∷ [])
from_bytes-to_bytes-IsInner_example =
    from_bytes-to_bytes-IsInner memory_laws now entry (7 ∷ []) entry-IsInner now-IsWhole

length-to_bytes-IsInner_example :
    length (Inner.to_bytes entry) + 1 ≡ Inner.min_entry_size + length entry.name
length-to_bytes-IsInner_example = length-to_bytes-IsInner memory_laws entry entry-IsInner

from_bytes-to_bytes-new_example :
    Userdata.from_bytes (Userdata.to_bytes (Userdata.new id1) ++ 7 ∷ [])
    ≡ ok (Userdata.new id1, 7 ∷ [])
from_bytes-to_bytes-new_example = from_bytes-to_bytes-new memory_laws id1 (7 ∷ [])

from_bytes_bad_userdata_magic_example :
    Userdata.from_bytes (replicate 12 7 ++ 1 ∷ []) ≡ err (custom_userdata userdata_magic)
from_bytes_bad_userdata_magic_example =
    from_bytes_bad_userdata_magic memory_laws (replicate 12 7) (1 ∷ []) refl (λ e. cc)
