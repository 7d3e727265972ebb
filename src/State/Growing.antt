-- ===== src/State/Growing.antt =====
-- The archive as a list of blocks behind its header block, and how the list grows (lib.rs).
use native.Mathlib.Nat.{mod-lt}
use nuts_archive.Prelude.{
  ℕ, ◌+◌, ◌%◌, ◌^◌, ◌≤◌, ◌<◌, ◌≡◌, ◌≢◌, refl, sym, ap, ◌∙◌, ◌⊎◌, inl, inr, true, false, some, List,
  [], ◌∷◌, ◌++◌, length, length-append, get_elem?, arith, subst,
}
use nuts_archive.Outcome.{Outcome, and_then, lift_outcome}
use nuts_archive.Outcome.Ensures.{Ensures, done, failed, mono, zoomed}
use nuts_archive.Error.{Error, IsFailure, full}
use nuts_archive.Header
use nuts_archive.Header.Codec.{IsHeader}
use nuts_archive.Pager.{Pager}
use nuts_archive.Pager.Blocks.{IsPager, contents}
use nuts_archive.Platform.{Platform}
use nuts_archive.Platform.Laws.{Laws, UnchangedBut}
use nuts_archive.State.{Archive, OnArchive, on_tree}
use nuts_archive.Tree
use nuts_archive.Tree.{Tree}
use nuts_archive.Tree.Codec.{IsTree}
use nuts_archive.Tree.Forest.{pointers, Root, depth, Place, capacity}
use nuts_archive.Tree.Forest.Grow.{IsContent}
use nuts_archive.Tree.Forest.Ready.{IsReady}
use nuts_archive.Tree.Forest.Contents.{content-IsReady, no_new_place}
use nuts_archive.Tree.Forest.Aquire.{aquire-Appended}

module _ ⦃p : Platform⦄ where
  open p use {BlockId, Container, Failure}

  -- A step on the pager, and what follows it.
  module _ {A B : Type 0} {P : A → Pager Container → Type 0}
      {Q : Error BlockId Failure → Pager Container → Type 0} {P' : B → Archive → Type 0}
      {Q' : Error BlockId Failure → Archive → Type 0} (a : Archive) (f : A → OnArchive B) where
    pub after_pager :
        {r : Outcome (Error BlockId Failure) A × Pager Container}
        → Ensures P Q r
        → ((x : A) (q : Pager Container) → P x q → Ensures P' Q' (f x (record a { pager = q })))
        → ((g : Error BlockId Failure) (q : Pager Container)
            → Q g q
            → Q' g (record a { pager = q }))
        → Ensures P' Q' (and_then (lift_outcome (λ g. g) r.0, record a { pager = r.1 }) f)
    after_pager (done h) next fail = next _ _ h
    after_pager (failed h) next fail = failed (fail _ _ h)

module _ ⦃p : Platform⦄ (l : Laws p) where
  open p use {BlockId, Container, block_size}

  -- The tree holds the blocks `ids` as a forest, and none of its blocks is the header block, which is
  -- allocated and has room for header and tree; the header has the magic, and all numbers fit.
  pub record IsArchive (ids : List BlockId) (a : Archive) : Type 0 where
    pub ready : IsReady l ids (a.tree, a.pager)
    pub count : a.tree.nblocks ≡ length ids
    pub count_fits : a.tree.nblocks < 2 ^ 64
    pub is_header : IsHeader a.header
    pub header_fits : Header.size + Tree.size ≤ block_size a.pager.inner
    pub header_live : l.blocks.live a.pager.inner a.header_id ≡ true
    pub header_free :
        (r : Root) (way : List ℕ) → Place l a.pager.inner (pointers a.tree) r way a.header_id → ⊥

  -- From one archive to a later one: no block is lost, and those that are neither nodes, nor the header
  -- block, nor the block `id` keep their bytes.
  pub record Grows (id : BlockId) (a a' : Archive) : Type 0 where
    pub same_size : block_size a'.pager.inner ≡ block_size a.pager.inner
    pub same_userdata : p.userdata a'.pager.inner ≡ p.userdata a.pager.inner
    pub same_header_id : a'.header_id ≡ a.header_id
    pub still_live :
        (j : BlockId) → l.blocks.live a.pager.inner j ≡ true → l.blocks.live a'.pager.inner j ≡ true
    pub no_new_place :
        (j : BlockId)
        → l.blocks.live a.pager.inner j ≡ true
        → (r : Root) (way : List ℕ) → Place l a'.pager.inner (pointers a'.tree) r way j
        → Place l a.pager.inner (pointers a.tree) r way j
    pub kept :
        (j : BlockId)
        → l.blocks.live a.pager.inner j ≡ true
        → IsContent l a.pager.inner (pointers a.tree) j
        → j ≢ a.header_id
        → j ≢ id
        → contents l a'.pager.inner j ≡ contents l a.pager.inner j

  pub Grows-trans :
      {id : BlockId} {a1 a2 a3 : Archive} → Grows id a1 a2 → Grows id a2 a3 → Grows id a1 a3
  Grows-trans g h = record {
    same_size = h.same_size ∙ g.same_size;
    same_userdata = h.same_userdata ∙ g.same_userdata;
    same_header_id = h.same_header_id ∙ g.same_header_id;
    still_live = λ j u. h.still_live j (g.still_live j u);
    no_new_place =
        λ j u r way at. g.no_new_place j u r way (h.no_new_place j (g.still_live j u) r way at);
    kept = λ j u n x y.
        h.kept j (g.still_live j u) (λ r way at. n r way (g.no_new_place j u r way at))
          (λ e. x (e ∙ g.same_header_id)) y
        ∙ g.kept j u n x y;
  }

  module _ {ids : List BlockId} {a : Archive} (is : IsArchive ids a) where
    -- A block of the archive is at full depth only, allocated, and not the header block.
    pub listed :
        (k : ℕ) (b : BlockId)
        → get_elem? ids k ≡ some b
        → (l.blocks.live a.pager.inner b ≡ true)
          × IsContent l a.pager.inner (pointers a.tree) b
          × (b ≢ a.header_id)
    listed k b at =
        let (r, (way, h, whole, i)) = is.ready.forest.placed k b at in
        (
          is.ready.forest.live r way b h,
          (λ r' way' h'.
              let (e, e') = is.ready.forest.apart r' r way' way b h' h in
              ap length e' ∙ whole ∙ sym (ap depth e)),
          (λ e.
              is.header_free r way
                (subst (λ x. Place l a.pager.inner (pointers a.tree) r way x) e h)),
        )

    -- No block is in the list twice.
    pub listed_once :
        (k k' : ℕ) (b : BlockId) → get_elem? ids k ≡ some b → get_elem? ids k' ≡ some b → k ≡ k'
    listed_once k k' b at at' =
        let (r, (way, h, whole, i)) = is.ready.forest.placed k b at in
        let (r', (way', h', whole', i')) = is.ready.forest.placed k' b at' in
        let (e, e') = is.ready.forest.apart r r' way way' b h h' in sym i ∙ rw (e, e') i'

    pub archive_tree : IsTree a.tree
    archive_tree = record {
      direct_full = is.ready.forest.direct_full;
      nblocks_fits = is.count_fits;
    }

    pub header-IsContent : IsContent l a.pager.inner (pointers a.tree) a.header_id
    header-IsContent r way at = absurd (is.header_free r way at)

    pub header-IsArchive :
        (h : Header.Header p.Time) → IsHeader h → IsArchive ids (record a { header = h })
    header-IsArchive h ok = record {
      ready = is.ready;
      count = is.count;
      count_fits = is.count_fits;
      is_header = ok;
      header_fits = is.header_fits;
      header_live = is.header_live;
      header_free = is.header_free;
    }

    -- A block that is no node, or the header block, is written.
    module _ (id : BlockId) (q : Pager Container)
        (content : IsContent l a.pager.inner (pointers a.tree) id) (is_pager : IsPager q)
        (u : UnchangedBut l.blocks id a.pager.inner q.inner) where
      pub written-IsArchive : IsArchive ids (record a { pager = q })
      written-IsArchive = record {
        ready = content-IsReady l ids a.tree a.pager q id is.ready content u is_pager;
        count = is.count;
        count_fits = is.count_fits;
        is_header = is.is_header;
        header_fits = omega (arith, is.header_fits, u.same_size);
        header_live = u.same_live a.header_id ∙ is.header_live;
        header_free = λ r way at.
            is.header_free r way
              (no_new_place l ids a.tree a.pager q id is.ready content u a.header_id r way at);
      }

      pub written-Grows :
          (j : BlockId) → (id ≡ j) ⊎ (id ≡ a.header_id) → Grows j a (record a { pager = q })
      written-Grows j which = record {
        same_size = u.same_size;
        same_userdata = u.same_userdata;
        same_header_id = refl;
        still_live = λ i h. u.same_live i ∙ h;
        no_new_place = λ i h. no_new_place l ids a.tree a.pager q id is.ready content u i;
        kept = λ i h n x y.
            u.same_contents i
              (λ e. elim which [ inl here ↦ y (e ∙ here) | inr header ↦ x (e ∙ header) ]);
      }

    -- The steps of `aquire`, on the whole archive.
    pub record Extended (id : BlockId) (a' : Archive) : Type 0 where
      pub archive : IsArchive (ids ++ id ∷ []) a'
      pub grows : (j : BlockId) → Grows j a a'
      pub fresh : l.blocks.live a.pager.inner id ≡ false
      pub same_header : a'.header ≡ a.header

    pub aquire-Extended :
        Ensures
          (λ id a'. Extended id a')
          (λ f _. IsFailure f ⊎ ((f ≡ full) × (capacity a.pager.inner % 2 ^ 64 ≤ a.tree.nblocks)))
          (on_tree Tree.aquire a)
    aquire-Extended =
        zoomed (λ (t, q). record a { tree = t; pager = q }) (λ e. e)
          (mono (aquire-Appended l ids a.tree a.pager is.ready is.count)
            (λ id (t, q) (x, n). record {
              archive = record {
                ready = x.ready;
                count = omega (arith, n, is.count, length-append ids (id ∷ []));
                count_fits = rw x.counted (mod-lt (a.tree.nblocks + 1) (omega arith));
                is_header = is.is_header;
                header_fits = omega (arith, is.header_fits, x.grew.same_size);
                header_live = x.grew.still_live a.header_id is.header_live;
                header_free = λ r way at.
                    is.header_free r way (x.grew.no_new_place a.header_id is.header_live r way at);
              };
              grows = λ j. record {
                same_size = x.grew.same_size;
                same_userdata = x.grew.same_userdata;
                same_header_id = refl;
                still_live = x.grew.still_live;
                no_new_place = x.grew.no_new_place;
                kept = λ i h c _ _. x.grew.kept i h c;
              };
              fresh = x.fresh;
              same_header = refl;
            })
            (λ e q w. w))
