-- ===== src/Entry/Mut/Building.antt =====
-- `build`: the first block of an entry at the end of the archive (entry/mut.rs).
use nuts_archive.Prelude.{
  ◌%◌, ◌^◌, ◌≤◌, ◌≡◌, refl, sym, ap, ◌∙◌, ◌⊎◌, inl, inr, false, List, [], ◌∷◌, ◌++◌, length,
  get_elem?-last,
}
use nuts_archive.Outcome.Ensures.{Ensures, done, bind}
use nuts_archive.Error.{IsFailure, full}
use nuts_archive.Header
use nuts_archive.Header.Codec.{IsHeader-inc_files}
use nuts_archive.Pager.Blocks.{filled, contents}
use nuts_archive.Platform.{Platform}
use nuts_archive.Platform.Laws.{Laws, padded}
use nuts_archive.State.{Archive}
use nuts_archive.State.HeaderBlock.{header_bytes, flush_header-contents}
use nuts_archive.State.Growing.{
  IsArchive, Grows, Grows-trans, aquire-Extended, listed, written-IsArchive, written-Grows,
  header-IsArchive, header-IsContent, archive_tree, after_pager,
}
use nuts_archive.Tree.Forest.{capacity}
use nuts_archive.Entry.Inner
use nuts_archive.Entry.Inner.{Inner}
use nuts_archive.Entry.Mut.{EntryMut, new, build}
use nuts_archive.Entry.Mut.Writing.{flush-padded}

module _ ⦃p : Platform⦄ (l : Laws p) where
  open p use {BlockId, Container, Time, block_size}

  -- One more block, with the entry, and one more file in the header.
  pub record Built (now : Time) (entry : Inner Time) (ids : List BlockId) (a : Archive)
      (e : EntryMut) (a' : Archive) : Type 0 where
    pub archive : IsArchive l (ids ++ e.first ∷ []) a'
    pub grows : Grows l e.first a a'
    pub made : e ≡ new entry e.first
    pub fresh : l.blocks.live a.pager.inner e.first ≡ false
    pub counted : a'.header ≡ Header.inc_files now a.header
    pub entry_block :
        contents l a'.pager.inner e.first ≡ padded (block_size a.pager.inner) (Inner.to_bytes entry)
    pub header_block :
        contents l a'.pager.inner a.header_id
        ≡ filled (block_size a.pager.inner) (header_bytes a'.header a'.tree)

  header-Grows :
      (j : BlockId) (a : Archive) (h : Header.Header Time) → Grows l j a (record a { header = h })
  header-Grows j a h = record {
    same_size = refl;
    same_userdata = refl;
    same_header_id = refl;
    still_live = λ i u. u;
    no_new_place = λ i u r way at. at;
    kept = λ i u c x y. refl;
  }

  module _ (now : Time) (entry : Inner Time) (ids : List BlockId) (a : Archive)
      (is : IsArchive l ids a) where
    pub build-Built :
        Ensures
          (λ e a'. Built now entry ids a e a')
          (λ f _. IsFailure f ⊎ ((f ≡ full) × (capacity a.pager.inner % 2 ^ 64 ≤ a.tree.nblocks)))
          (build now entry a)
    unfolding build new
    build-Built =
        bind (aquire-Extended l is)
          (λ id a1 x.
            let here = listed l x.archive (length ids) id (get_elem?-last ids id) in
            let grows1 = x.grows id in
            after_pager a1 _ (flush-padded l entry id a1.pager x.archive.ready.is_pager)
              (λ _ q2 (same2, pager2, u2).
                let a2 : Archive = record a1 { pager = q2 } in
                let is2 = written-IsArchive l x.archive id q2 here.1 pager2 u2 in
                let grows2 = written-Grows l x.archive id q2 here.1 pager2 u2 id (inl refl) in
                let h = Header.inc_files now a1.header in
                let is_h = IsHeader-inc_files now a1.header x.archive.is_header in
                let a3 : Archive = record a2 { header = h } in
                let is3 = header-IsArchive l is2 h is_h in
                after_pager a3 _
                  (flush_header-contents l a1.header_id h a1.tree q2 pager2 is_h
                    (archive_tree l x.archive) is2.header_fits)
                  (λ _ q4 (same4, pager4, u4). done (record {
                    archive =
                        written-IsArchive l is3 a1.header_id q4 (header-IsContent l is3) pager4 u4;
                    grows = Grows-trans l grows1 (
                        Grows-trans l grows2 (
                          Grows-trans l (header-Grows id a2 h) (
                            written-Grows l is3 a1.header_id q4 (header-IsContent l is3) pager4 u4
                              id (inr refl))));
                    made = refl;
                    fresh = x.fresh;
                    counted = ap (Header.inc_files now) x.same_header;
                    entry_block =
                        u4.same_contents id here.2
                        ∙ same2
                        ∙ ap (λ n. padded n (Inner.to_bytes entry)) grows1.same_size;
                    header_block =
                        ap (contents l q4.inner) (sym grows1.same_header_id)
                        ∙ same4
                        ∙ ap (λ n. filled n (header_bytes h a1.tree))
                            (u2.same_size ∙ grows1.same_size);
                  }))
                  (λ g q4 (i, _, _). inl i))
              (λ g q2 i. inl i))
          (λ f a' w. w)
