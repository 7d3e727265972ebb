-- ===== src/Tree/Forest/Look.antt =====
-- One level of `lookup`: a node is read, and its entry leads on (tree.rs).
use nuts_archive.Prelude.{
  ℕ, ◌<◌, ◌≡◌, ◌≢◌, refl, ap, ◌∙◌, false, Option, some, List, length, get_elem?, arith,
}
use nuts_archive.Outcome.{Outcome, and_then, ◌>>=◌}
use nuts_archive.Outcome.Ensures.{Ensures, done, bind, mono}
use nuts_archive.Error.{Error, IsFailure}
use nuts_archive.Pager.{Pager}
use nuts_archive.Pager.Blocks.{IsPager}
use nuts_archive.Tree.Forest.Walks.{Place-Unchanged, IsForest-Unchanged}
use nuts_archive.Platform.{Platform}
use nuts_archive.Platform.Laws.{Laws, Unchanged}
use nuts_archive.Tree.{Tree, OnTree, on_cache, entry_at, resize_cache, aquire_inner, aquire_leaf}
use nuts_archive.Tree.Cache
use nuts_archive.Tree.Cache.{Cache}
use nuts_archive.Tree.Node.Stored.{NodeAt, NodeAt-eq}
use nuts_archive.Tree.Routes.Steps.{NodeAt-same, Unchanged-trans}
use nuts_archive.Tree.Routes.Lookup.{is_null_false}
use nuts_archive.Tree.Forest.{pointers, Root, depth, Place}
use nuts_archive.Tree.Forest.Ready.{IsReady, Reread, refresh-Ready, resize-Ready}
use nuts_archive.Tree.Forest.Levels.{Reread-Place}

module _ ⦃p : Platform⦄ (l : Laws p) where
  open p use {BlockId, Container, null}

  pub Reread-trans :
      {q1 q2 q3 : Tree BlockId × Pager Container} → Reread l q1 q2 → Reread l q2 q3 → Reread l q1 q3
  Reread-trans w v = record {
    same_pointers = v.same_pointers ∙ w.same_pointers;
    same_nblocks = v.same_nblocks ∙ w.same_nblocks;
    unchanged = Unchanged-trans l w.unchanged v.unchanged;
  }

  module _ (ids : List BlockId) (t : Tree BlockId) (s : Pager Container) where
    -- As after some reads.
    abbrev pub IsAfter : Tree BlockId × Pager Container → Type 0
    IsAfter q = IsReady l ids q × Reread l (t, s) q

    -- So it stays when no block is changed.
    pub IsAfter-Unchanged :
        (t1 : Tree BlockId) (s1 s2 : Pager Container)
        → IsAfter (t1, s1)
        → IsPager s2
        → Unchanged l.blocks s1.inner s2.inner
        → IsAfter (t1, s2)
    IsAfter-Unchanged t1 s1 s2 (ready, w) pager u = (
      record {
        forest = IsForest-Unchanged l s1.inner s2.inner u ready.forest;
        is_pager = pager;
        cached = λ level k at ne.
            let (n, (r, (way, place, deep, above))) = ready.cached level k at ne in
            (
              NodeAt-same l s1.inner s2.inner k.id k.node u n,
              (r, (way, Place-Unchanged l s1.inner s2.inner u place, deep, above)),
            );
      },
      Reread-trans w (record { same_pointers = refl; same_nblocks = refl; unchanged = u }),
    )

    -- The id `b` was found, with no change but of the caches.
    abbrev pub Finds :
        BlockId
        → Outcome (Error BlockId p.Failure) BlockId × (Tree BlockId × Pager Container)
        → Type 0
    Finds b = Ensures (λ id q'. (id ≡ b) × IsAfter q') (λ e _. IsFailure e)

    pub resized :
        (n : ℕ) (q : Tree BlockId × Pager Container)
        → IsAfter q
        → Ensures
            (λ _ q'. IsAfter q' × (length q'.0.cache ≡ n))
            (λ e _. IsFailure e)
            (resize_cache n q)
    resized n (t1, s1) (ready, w) =
        mono (resize-Ready l ids n t1 s1 ready)
          (λ _ q (ready', w', long). ((ready', Reread-trans w w'), long)) (λ e q i. i)

    module _ (level i : ℕ) (r : Root) (way : List ℕ) (top : BlockId) (node : List BlockId)
        (id b : BlockId) (h : Place l s.inner (pointers t) r way top)
        (n : NodeAt l s.inner top node) (got : get_elem? node i ≡ some id)
        (deep : length way ≡ level) (above : level < depth r) where
      -- The node of the level is in its cache.
      abbrev Loaded : ℕ → Tree BlockId × Pager Container → Type 0
      Loaded long q =
          IsAfter q
          × (length q.0.cache ≡ long)
          × ((k : Cache BlockId) × (get_elem? q.0.cache level ≡ some k)
              × (get_elem? k.node i ≡ some id))

      loading :
          (q : Tree BlockId × Pager Container)
          → IsAfter q
          → level < length q.0.cache
          → Ensures
              (λ _ q'. Loaded (length q.0.cache) q')
              (λ e _. IsFailure e)
              (on_cache level (Cache.refresh top) q)
      loading (t1, s1) (ready, w) here =
          mono
            (refresh-Ready l ids level r way top t1 s1 ready here (Reread-Place l w h) deep
              (omega (arith, deep, above)))
            (λ _ (t2, s2) (ready', w', (k, at, e, n'), long).
              let w2 : Reread l (t, s) (t2, s2) = Reread-trans w w' in
              let same : k.node ≡ node =
                NodeAt-eq l s2.inner top n'
                  (NodeAt-same l s.inner s2.inner top node w2.unchanged n) in
              ((ready', w2), long, (k, at, ap (λ x. get_elem? x i) same ∙ got)))
            (λ e q i. i)

      -- The last level returns the entry.
      pub leaf_found :
          (q : Tree BlockId × Pager Container)
          → IsAfter q
          → level < length q.0.cache
          → id ≡ b
          → Finds b
              (and_then (on_cache level (Cache.refresh top) q) (λ _. aquire_leaf level i false))
      unfolding aquire_leaf entry_at
      leaf_found q after here e =
          bind (loading q after here)
            (λ _ (t1, s1) (after', long, (k, at, found)).
              rw (at, entry_at, found) (done (e, after')))
            (λ e q w. w)

      -- A level above goes on with it.
      pub inner_found :
          (g : Option BlockId → OnTree BlockId) (q : Tree BlockId × Pager Container)
          → IsAfter q
          → level < length q.0.cache
          → id ≢ null
          → ((q' : Tree BlockId × Pager Container)
              → IsAfter q'
              → length q'.0.cache ≡ length q.0.cache
              → Finds b (g (some id) q'))
          → Finds b (
              and_then
                (on_cache level (Cache.refresh top) q)
                (λ _. aquire_inner level i false >>= g))
      unfolding aquire_inner entry_at
      inner_found g q after here ne next =
          bind (loading q after here)
            (λ _ (t1, s1) (after', long, (k, at, found)).
              rw (at, entry_at, found, is_null_false l id ne) (next (t1, s1) after' long))
            (λ e q w. w)
