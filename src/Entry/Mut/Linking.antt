-- ===== src/Entry/Mut/Linking.antt =====
-- `build` and `write_all` in one: a symlink at the end of the archive (entry/mut.rs).
use nuts_archive.Prelude.{
  ℕ, ◌^◌, ◌<◌, ◌≡◌, refl, ap, ◌∙◌, inl, inr, true, false, some, List, [], length, get_elem?, arith,
  subst,
}
use nuts_archive.Outcome.Ensures.{Ensures, bind, mono, dropped}
use nuts_archive.Pager.Blocks.{contents}
use nuts_archive.Platform.{Platform}
use nuts_archive.Platform.Laws.{Laws}
use nuts_archive.State.{Archive}
use nuts_archive.State.Growing.{IsArchive, listed}
use nuts_archive.Entry.Inner.{Inner}
use nuts_archive.Entry.Mut.{EntryMut, SymlinkBuilder, new, build_symlink}
use nuts_archive.Entry.Mut.Building.{Built, build-Built}
use nuts_archive.Entry.Mut.Blocks.{IsAppending}
use nuts_archive.Entry.Mut.WriteAll.{IsStored, Continued, Stops, write_all-Continued}

module _ ⦃p : Platform⦄ (l : Laws p) where
  open p use {BlockId, Container, Time, block_size}

  -- A new entry with its content is at the end of the archive.
  pub record Entered (entry : Inner Time) (content : List ℕ) (ids : List BlockId) (a : Archive)
      (q : EntryMut × Archive) : Type 0 where
    pub blocks : List BlockId
    pub same_userdata : p.userdata q.1.pager.inner ≡ p.userdata a.pager.inner
    pub same_header_id : q.1.header_id ≡ a.header_id
    pub after : IsAppending l ids blocks content q
    pub stored : IsStored l q
    pub same_entry : q.0.entry ≡ record entry { size = length content }
    pub kept :
        (k : ℕ) (b : BlockId)
        → get_elem? ids k ≡ some b
        → contents l q.1.pager.inner b ≡ contents l a.pager.inner b

  module _ (now : Time) (entry : Inner Time) (ids : List BlockId) (a : Archive) (e : EntryMut)
      (a1 : Archive) (is : IsArchive l ids a) (unwritten : entry.size ≡ 0)
      (x : Built l now entry ids a e a1) where
    built_entry : e.entry ≡ entry
    unfolding new
    built_entry = ap (λ (m : EntryMut). m.entry) x.made

    built-IsAppending : IsAppending l ids [] [] (e, a1)
    built-IsAppending = record {
      archive = x.archive;
      sized = ap (λ (i : Inner Time). i.size) built_entry ∙ unwritten;
      holds = inl (refl, refl);
    }

    built-IsStored : IsStored l (e, a1)
    built-IsStored = (
      x.entry_block ∙ rw (built_entry, x.grows.same_size) refl,
      ap (contents l a1.pager.inner) x.grows.same_header_id
          ∙ x.header_block
          ∙ rw x.grows.same_size refl,
    )

    built_kept :
        (k : ℕ) (b : BlockId)
        → get_elem? ids k ≡ some b
        → contents l a1.pager.inner b ≡ contents l a.pager.inner b
    built_kept k b at =
        let (live, content, not_header) = listed l is k b at in
        x.grows.kept b live content not_header (λ z.
          let used : l.blocks.live a.pager.inner e.first ≡ true =
            subst (λ i. l.blocks.live a.pager.inner i ≡ true) z live in
          let unused : l.blocks.live a.pager.inner e.first ≡ false = x.fresh in absurd cc)

    -- What `write_all` adds to a new entry.
    entered :
        (content : List ℕ) (q : EntryMut × Archive)
        → Continued l ids [] content (e, a1) q
        → Entered entry content ids a q
    entered content q c = record {
      blocks = c.blocks;
      same_userdata = c.same_userdata ∙ x.grows.same_userdata;
      same_header_id = c.same_header_id ∙ x.grows.same_header_id;
      after = c.after;
      stored = c.stored;
      same_entry =
          c.same_entry ∙ ap (λ (i : Inner Time). record i { size = length content }) built_entry;
      kept = λ k b at. c.kept k b at ∙ built_kept k b at;
    }

  -- Building a symlink on an archive ends and does not panic. If it succeeds, its blocks are
  -- behind those of the archive, the ones after the first hold the target, its size is the length
  -- of the target, entry and header are in their blocks, and the blocks of earlier entries keep
  -- their bytes. It fails only if the container does, or with `Full`. The builder is as `new`
  -- makes it, with the size 0, and the target has less than 2 ^ 64 bytes. An archive here: its
  -- tree gives the blocks of the list the indices from 0 on, each block of the tree is allocated
  -- and at one place only, every cache agrees with its block, the number of blocks is right and
  -- fits a `u64`, the header has the magic and numbers that fit, the header block is allocated,
  -- has room for header and tree and is no block of the tree, and the buffer of the pager is one
  -- block.
  pub build_symlink-Entered :
      (now : Time) (b : SymlinkBuilder Time) (ids : List BlockId) (a : Archive)
      → IsArchive l ids a
      → b.builder.size ≡ 0
      → length b.target < 2 ^ 64
      → Ensures
          (λ _ a'. (e : EntryMut) × Entered b.builder b.target ids a (e, a'))
          (λ f _. Stops l f)
          (build_symlink now b a)
  unfolding build_symlink
  build_symlink-Entered now b ids a is unwritten small =
      bind (build-Built l now b.builder ids a is)
        (λ e a1 x.
          dropped (λ q. q.1)
            (mono
              (write_all-Continued l ids [] [] b.target e a1
                (built-IsAppending now b.builder ids a e a1 is unwritten x)
                (built-IsStored now b.builder ids a e a1 is unwritten x) (omega (arith, small)))
              (λ _ q c. (q.0, entered now b.builder ids a e a1 is unwritten x b.target q c))
              (λ f q s. s)))
        (λ f q s. elim s [ inl i ↦ inl i | inr (e, _) ↦ inr e ])
