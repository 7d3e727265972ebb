-- ===== src/Tree/Forest/Levels.antt =====
-- One level of `aquire`: a node is read, and its entry becomes a node or a block (tree.rs).
use nuts_archive.Prelude.{
  ℕ, suc, ◌+◌, ◌%◌, ◌^◌, ◌<◌, ◌≡◌, refl, sym, ◌∙◌, Bool, true, false, Option, some, List, [], ◌∷◌,
  ◌++◌, length, arith, subst, length-append,
}
use nuts_archive.Outcome.{and_then, pure, ◌>>=◌}
use nuts_archive.Outcome.Ensures.{Ensures, done, bind}
use nuts_archive.Error.{IsFailure}
use nuts_archive.Pager.{Pager}
use nuts_archive.Platform.{Platform}
use nuts_archive.Platform.Laws.{Laws}
use nuts_archive.Tree.{Tree, OnTree, on_cache, entry_at, aquire_inner}
use nuts_archive.Tree.Cache
use nuts_archive.Tree.Cache.{Cache}
use nuts_archive.Tree.Node.{ids_per_node}
use nuts_archive.Tree.Node.Stored.{ids_per_node-same}
use nuts_archive.Tree.Forest.{pointers, Root, depth, Place, IsForest}
use nuts_archive.Tree.Forest.Walks.{Walk-snoc, Place-Unchanged}
use nuts_archive.Tree.Forest.Grow.{Grew, Grew-trans, Unchanged-Grew, grow-node}
use nuts_archive.Tree.Forest.Ready.{IsReady, Reread, Holding, refresh-Ready}
use nuts_archive.Tree.Forest.Adding.{Planted, AddResult, add-Ready}
use nuts_archive.Tree.Forest.Roots.{Advanced}

module _ ⦃p : Platform⦄ (l : Laws p) where
  open p use {BlockId, Container, Failure, null}

  -- One more block belongs to the archive: the tree leads to it, it is counted, it was not allocated
  -- before, and the blocks that were allocated before and are no nodes are the same.
  pub record Appended (ids : List BlockId) (t : Tree BlockId) (s : Pager Container) (id : BlockId)
      (q' : Tree BlockId × Pager Container) : Type 0 where
    pub ready : IsReady l (ids ++ id ∷ []) q'
    pub grew : Grew l s.inner (pointers t) q'.1.inner (pointers q'.0)
    pub counted : q'.0.nblocks ≡ (t.nblocks + 1) % 2 ^ 64
    pub fresh : l.blocks.live s.inner id ≡ false
    pub now_live : l.blocks.live q'.1.inner id ≡ true

  pub Reread-Grew :
      {t t' : Tree BlockId} {s s' : Pager Container}
      → Reread l (t, s) (t', s')
      → Grew l s.inner (pointers t) s'.inner (pointers t')
  Reread-Grew {t} {t'} {s} {s'} w =
      subst (λ v. Grew l s.inner (pointers t) s'.inner v) (sym w.same_pointers)
        (Unchanged-Grew l w.unchanged)

  pub Reread-Advanced :
      {ids : List BlockId} {t0 t : Tree BlockId} {s0 s : Pager Container}
      {q' : Tree BlockId × Pager Container}
      → Advanced l ids t0 s0 (t, s)
      → Reread l (t, s) q'
      → IsReady l ids q'
      → Advanced l ids t0 s0 q'
  Reread-Advanced a w ready = record {
    ready = ready;
    grew = Grew-trans l a.grew (Reread-Grew w);
    same_nblocks = w.same_nblocks ∙ a.same_nblocks;
  }

  pub Reread-Place :
      {t : Tree BlockId} {s : Pager Container} {q' : Tree BlockId × Pager Container} {r : Root}
      {way : List ℕ} {b : BlockId}
      → Reread l (t, s) q'
      → Place l s.inner (pointers t) r way b
      → Place l q'.1.inner (pointers q'.0) r way b
  Reread-Place {t} {s} {q'} {r} {way} {b} w h =
      subst (λ v. Place l q'.1.inner v r way b) (sym w.same_pointers)
        (Place-Unchanged l s.inner q'.1.inner w.unchanged h)

  module _ (level i : ℕ) (leaf : Bool) (r : Root) (way : List ℕ) (top : BlockId)
      (ids : List BlockId) (t : Tree BlockId) (s : Pager Container)
      (q' : Tree BlockId × Pager Container) (ready : IsReady l ids (t, s))
      (a : Planted l level i leaf r way top t s q') where
    pub planted-Grew : Grew l s.inner (pointers t) q'.1.inner (pointers q'.0)
    planted-Grew =
        subst (λ v. Grew l s.inner (pointers t) q'.1.inner v) (sym a.same_pointers) a.grew

    pub planted_ids : ids_per_node q'.1.inner ≡ ids_per_node s.inner
    planted_ids = ids_per_node-same l s.inner q'.1.inner a.grew.same_size

    pub planted-IsReady :
        (ids' : List BlockId) → IsForest l q'.1.inner (pointers t) ids' → IsReady l ids' q'
    planted-IsReady ids' f = record {
      forest = subst (λ v. IsForest l q'.1.inner v ids') (sym a.same_pointers) f;
      is_pager = a.is_pager;
      cached = rw a.same_pointers a.cached;
    }

  module _ (ids : List BlockId) (t0 : Tree BlockId) (s0 : Pager Container) (level i : ℕ) (r : Root)
      (way : List ℕ) (top : BlockId) where
    -- What one level above the last leaves behind.
    abbrev pub Descended : Option BlockId → Tree BlockId × Pager Container → ℕ → Type 0
    Descended found q' n =
        Advanced l ids t0 s0 q'
        × ((id : BlockId) × (found ≡ some id)
            × Place l q'.1.inner (pointers q'.0) r (way ++ i ∷ []) id)
        × (length q'.0.cache ≡ n)

    inner_added :
        (t : Tree BlockId) (s : Pager Container)
        → Advanced l ids t0 s0 (t, s)
        → Place l s.inner (pointers t) r way top
        → length way ≡ level
        → suc level < depth r
        → i < ids_per_node s.inner
        → Holding l level top (t, s)
        → Ensures
            (λ found q'. Descended found q' (length t.cache))
            (λ e _. IsFailure e)
            (aquire_inner level i true (t, s))
    unfolding aquire_inner entry_at
    inner_added t s adv h deep above lt holding =
        bind
          (add-Ready l level i false r way top t s adv.ready h deep (omega (arith, above))
            (λ _. refl) lt holding)
          (λ added q w. result added q w) (λ e q w. w)
      where
        result :
            (added : Bool) (q : Tree BlockId × Pager Container)
            → AddResult l level i false r way top t s added q
            → Ensures
                (λ found q'. Descended found q' (length t.cache))
                (λ e _. IsFailure e)
                ((entry_at level i >>= λ id. pure (some id)) q)
        result true (t1, s1) a =
            let (k, at, got) = a.there in
            rw (at, entry_at, got)
              (done (
                record {
                  ready =
                      planted-IsReady level i false r way top ids t s (t1, s1) adv.ready a ids
                        (grow-node l a.new_place adv.ready.forest
                          (planted_ids level i false r way top ids t s (t1, s1) adv.ready a)
                          adv.ready.forest.direct_full
                          (omega (arith, length-append way (i ∷ []), deep, above)));
                  grew =
                      Grew-trans l adv.grew
                        (planted-Grew level i false r way top ids t s (t1, s1) adv.ready a);
                  same_nblocks = a.same_nblocks ∙ adv.same_nblocks;
                },
                (
                  a.block,
                  refl,
                  subst (λ v. Place l s1.inner v r (way ++ i ∷ []) a.block) (sym a.same_pointers)
                      a.new_place.new,
                ),
                a.same_length,
              ))
        result false q (same, (k, at, e, n, (id, got, ne))) =
            subst
              (λ q.
                Ensures (λ found q'. Descended found q' (length t.cache)) (λ e _. IsFailure e)
                  ((entry_at level i >>= λ id. pure (some id)) q))
              (sym same)
              (rw (at, entry_at, got)
                (done (
                  adv,
                  (
                    id,
                    refl,
                    record {
                      short = omega (arith, length-append way (i ∷ []), deep, above);
                      top = h.top;
                      root_at = h.root_at;
                      walk = Walk-snoc l s.inner h.top top id way i k.node h.walk n got ne;
                    },
                  ),
                  refl,
                )))

    -- The node of the level is read, its entry becomes a node if it is null, and `g` goes on there.
    pub inner_step :
        {A : Type 0} {P : A → Tree BlockId × Pager Container → Type 0}
        (g : Option BlockId → OnTree A) (t : Tree BlockId) (s : Pager Container)
        → Advanced l ids t0 s0 (t, s)
        → Place l s.inner (pointers t) r way top
        → length way ≡ level
        → suc level < depth r
        → i < ids_per_node s0.inner
        → level < length t.cache
        → ((id : BlockId) (t' : Tree BlockId) (s' : Pager Container)
            → Advanced l ids t0 s0 (t', s')
            → Place l s'.inner (pointers t') r (way ++ i ∷ []) id
            → length t'.cache ≡ length t.cache
            → Ensures P (λ e _. IsFailure e) (g (some id) (t', s')))
        → Ensures P
            (λ e _. IsFailure e)
            (and_then
              (on_cache level (Cache.refresh top) (t, s))
              (λ _. aquire_inner level i true >>= g))
    inner_step g t s adv h deep above lt here next =
        bind
          (refresh-Ready l ids level r way top t s adv.ready here h deep
            (omega (arith, above, deep)))
          (λ _ (t1, s1) (ready, w, holding, long).
            bind
              (inner_added t1 s1 (Reread-Advanced adv w ready) (Reread-Place w h) deep above
                (omega (
                  arith,
                  lt,
                  ids_per_node-same l s0.inner s1.inner
                      (Reread-Advanced adv w ready).grew.same_size,
                ))
                holding)
              (λ found (t2, s2) (adv2, (id, e, place), long').
                rw e (next id t2 s2 adv2 place (long' ∙ long)))
              (λ e q i. i))
          (λ e q i. i)
