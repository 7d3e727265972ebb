-- ===== src/Archive/Start.antt =====
-- A new archive has the list of blocks with no element (lib.rs).
use nuts_archive.Prelude.{◌≡◌, refl, sym, ap, ◌∙◌, List, get_elem?, none, arith, subst}
use nuts_archive.Outcome.Ensures.{Ensures, mono}
use nuts_archive.Error.{IsFailure}
use nuts_archive.Header
use nuts_archive.Header.Codec.{IsHeader-reread_header, reread_header}
use nuts_archive.Platform.{Platform}
use nuts_archive.Platform.Laws.{Laws}
use nuts_archive.State.{Archive}
use nuts_archive.State.Growing.{IsArchive, archive_tree}
use nuts_archive.Tree
use nuts_archive.Tree.{Tree}
use nuts_archive.Tree.Forest.{pointers, Place, IsForest}
use nuts_archive.Tree.Forest.Walks.{Place-Unchanged, IsForest-Unchanged, Unchanged-sym}
use nuts_archive.Archive.{open_archive}
use nuts_archive.Archive.Reopen.{Stored, Opened, open-Opened, min_block_size-le}

module _ ⦃p : Platform⦄ (l : Laws p) where
  open p use {Time, Container, block_size, id_size}

  pub reopened :
      (now : Time) (ids : List p.BlockId) (a : Archive)
      → IsArchive l ids a
      → (b : Archive) → Opened l now a.header_id a.header a.tree a.pager.inner b
      → IsArchive l ids b
  reopened now ids a is b o =
      let u = o.unchanged in
      let same : pointers b.tree ≡ pointers a.tree = rw o.tree refl in
      let same_nblocks : b.tree.nblocks ≡ a.tree.nblocks =
        ap (λ (t : Tree p.BlockId). t.nblocks) o.tree in
      record {
        ready = record {
          forest =
              subst (λ v. IsForest l b.pager.inner v ids) (sym same)
                (IsForest-Unchanged l a.pager.inner b.pager.inner u is.ready.forest);
          is_pager = o.is_pager;
          cached = λ level k at.
              let none_cached : get_elem? b.tree.cache level ≡ none =
                ap (λ (t : Tree p.BlockId). get_elem? t.cache level) o.tree in
              absurd cc;
        };
        count = same_nblocks ∙ is.count;
        count_fits = rw same_nblocks is.count_fits;
        is_header = rw o.header (IsHeader-reread_header now a.header is.is_header);
        header_fits = omega (arith, is.header_fits, u.same_size);
        header_live = rw o.header_id (u.same_live a.header_id ∙ is.header_live);
        header_free = λ r way at. is.header_free r way (
            Place-Unchanged l b.pager.inner a.pager.inner
              (Unchanged-sym l a.pager.inner b.pager.inner u)
              (subst (λ v. Place l b.pager.inner v r way a.header_id) same
                (subst (λ j. Place l b.pager.inner (pointers b.tree) r way j) o.header_id at)));
      }

  -- `open` of the container of an archive, whose header block is written and named by its user
  -- data, gives an archive with the same list of blocks, number of blocks and header block, and
  -- the same header with each of its times as it is read back from its milliseconds. It fails only
  -- if the container does, and does not panic. An archive here: its tree gives the blocks of the
  -- list the indices from 0 on, each block of the tree is allocated and at one place only, every
  -- cache agrees with its block, the number of blocks is right and fits a `u64`, the header has
  -- the magic and numbers that fit, the header block is allocated, has room for header and tree
  -- and is no block of the tree, and the buffer of the pager is one block.
  pub open-IsArchive :
      (now : Time) (ids : List p.BlockId) (a : Archive)
      → IsArchive l ids a
      → Stored l a.header_id a.header a.tree a.pager.inner
      → Ensures
          (λ b _.
            IsArchive l ids b
            × (b.header ≡ reread_header now a.header)
            × (b.header_id ≡ a.header_id)
            × (b.tree.nblocks ≡ a.tree.nblocks))
          (λ e _. IsFailure e)
          (open_archive now a.pager.inner)
  open-IsArchive now ids a is stored =
      mono
        (open-Opened l now a.header_id a.header a.tree a.pager.inner is.is_header
          (archive_tree l is) (omega (arith, is.header_fits, min_block_size-le l)) stored)
        (λ b c o. (
          reopened now ids a is b o,
          o.header,
          o.header_id,
          ap (λ (t : Tree p.BlockId). t.nblocks) o.tree,
        ))
        (λ e c i. i)
