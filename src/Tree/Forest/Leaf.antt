-- ===== src/Tree/Forest/Leaf.antt =====
-- The last level of `aquire`: a node is read, and its entry becomes a block (tree.rs).
use nuts_archive.Prelude.{
  ℕ, suc, ◌+◌, ◌%◌, ◌^◌, ◌<◌, ◌≡◌, refl, sym, ap, ◌∙◌, inl, inr, Bool, true, false, List, [], ◌∷◌,
  ◌++◌, length, arith, subst, length-append, Bool-cases, if◌then◌else◌,
}
use nuts_archive.Outcome.{and_then, pure}
use nuts_archive.Outcome.Ensures.{Ensures, done, bind}
use nuts_archive.Error.{IsFailure}
use nuts_archive.Pager.{Pager}
use nuts_archive.Platform.{Platform}
use nuts_archive.Platform.Laws.{Laws}
use nuts_archive.Tree.{Tree, on_cache, entry_at, inc_nblocks, aquire_leaf}
use nuts_archive.Tree.Cache
use nuts_archive.Tree.Cache.{Cache}
use nuts_archive.Tree.Node.{ids_per_node}
use nuts_archive.Tree.Node.Stored.{ids_per_node-same}
use nuts_archive.Tree.Forest.{pointers, Root, depth, index, Place}
use nuts_archive.Tree.Forest.Walks.{Walk-snoc}
use nuts_archive.Tree.Forest.Grow.{Grew-trans, grow-block}
use nuts_archive.Tree.Forest.Ready.{IsReady, Holding, refresh-Ready}
use nuts_archive.Tree.Forest.Adding.{Planted, AddResult, add-Ready}
use nuts_archive.Tree.Forest.Roots.{Advanced}
use nuts_archive.Tree.Forest.Levels.{
  Appended, Reread-Advanced, Reread-Place, planted-Grew, planted_ids, planted-IsReady,
}

module _ ⦃p : Platform⦄ (l : Laws p) where
  open p use {BlockId, Container, null, is_null, block_size}

  module _ (ids : List BlockId) (t0 : Tree BlockId) (s0 : Pager Container) (level i : ℕ) (r : Root)
      (way : List ℕ) (top : BlockId) where
    -- A new block is planted, and the counter is one higher.
    abbrev Counted : Tree BlockId → Pager Container → Tree BlockId × Pager Container → Type 0
    Counted t s q =
        (t1 : Tree BlockId) × ((s1 : Pager Container) × (Planted l level i true r way top t s
              (t1, s1)
            × (q ≡ (record t1 { nblocks = (t1.nblocks + 1) % 2 ^ 64 }, s1))))

    leaf_added :
        (t : Tree BlockId) (s : Pager Container)
        → Advanced l ids t0 s0 (t, s)
        → Place l s.inner (pointers t) r way top
        → length way ≡ level
        → suc level ≡ depth r
        → i < ids_per_node s.inner
        → index (ids_per_node s.inner) r (way ++ i ∷ []) ≡ length ids
        → Holding l level top (t, s)
        → Ensures
            (λ id q'. Appended l ids t0 s0 id q')
            (λ e _. IsFailure e)
            (aquire_leaf level i true (t, s))
    unfolding aquire_leaf entry_at inc_nblocks
    leaf_added t s adv h deep last lt next holding =
        bind
          (bind
            (add-Ready l level i true r way top t s adv.ready h deep (omega (arith, last))
              (λ up. absurd (omega (arith, up, last))) lt holding)
            (λ added q w. counting added q w) (λ e q w. w))
          (λ _ q w. reading q w) (λ e q w. w)
      where
        counting :
            (added : Bool) (q : Tree BlockId × Pager Container)
            → AddResult l level i true r way top t s added q
            → Ensures
                (λ _ q'. Counted t s q')
                (λ e _. IsFailure e)
                ((if added then inc_nblocks else pure tt) q)
        counting true (t1, s1) a = done (t1, (s1, (a, refl)))
        counting false q (same, (k, at, e, n, (id, got, ne))) =
            let h' : Place l s.inner (pointers t) r (way ++ i ∷ []) id = record {
              short = omega (arith, length-append way (i ∷ []), deep, last);
              top = h.top;
              root_at = h.root_at;
              walk = Walk-snoc l s.inner h.top top id way i k.node h.walk n got ne;
            } in
            absurd (
              omega (
                arith,
                next,
                adv.ready.forest.bounded r (way ++ i ∷ []) id h'
                    (omega (arith, length-append way (i ∷ []), deep, last)),
              ))

        before : (b : BlockId) → l.blocks.live s.inner b ≡ false → l.blocks.live s0.inner b ≡ false
        before b unused = elim (Bool-cases (l.blocks.live s0.inner b)) [
          | inl used ↦ let now = adv.grew.still_live b used in absurd cc
          | inr e ↦ e
        ]

        reading :
            (q : Tree BlockId × Pager Container)
            → Counted t s q
            → Ensures
                (λ id q'. Appended l ids t0 s0 id q')
                (λ e _. IsFailure e)
                (entry_at level i q)
        reading q (t1, (s1, (a, e))) =
            let (k, at, got) = a.there in
            let counted : Tree BlockId = record t1 { nblocks = (t1.nblocks + 1) % 2 ^ 64 } in
            let ready' : IsReady l (ids ++ a.block ∷ []) (t1, s1) =
              planted-IsReady l level i true r way top ids t s (t1, s1) adv.ready a
                (ids ++ a.block ∷ [])
                (grow-block l a.new_place adv.ready.forest
                  (planted_ids l level i true r way top ids t s (t1, s1) adv.ready a)
                  adv.ready.forest.direct_full
                  (omega (arith, length-append way (i ∷ []), deep, last)) next) in
            subst
              (λ q.
                Ensures (λ id q'. Appended l ids t0 s0 id q') (λ e _. IsFailure e)
                  (entry_at level i q))
              (sym e)
              (rw (at, entry_at, got)
                (done (record {
                  ready = record {
                    forest = ready'.forest;
                    is_pager = ready'.is_pager;
                    cached = ready'.cached;
                  };
                  grew =
                      Grew-trans l adv.grew
                        (planted-Grew l level i true r way top ids t s (t1, s1) adv.ready a);
                  counted = ap (λ n. (n + 1) % 2 ^ 64) (a.same_nblocks ∙ adv.same_nblocks);
                  fresh = before a.block a.new_place.unused;
                  now_live = a.new_place.now_live;
                })))

    pub leaf_step :
        (t : Tree BlockId) (s : Pager Container)
        → Advanced l ids t0 s0 (t, s)
        → Place l s.inner (pointers t) r way top
        → length way ≡ level
        → suc level ≡ depth r
        → i < ids_per_node s0.inner
        → index (ids_per_node s0.inner) r (way ++ i ∷ []) ≡ length ids
        → level < length t.cache
        → Ensures
            (λ id q'. Appended l ids t0 s0 id q')
            (λ e _. IsFailure e)
            (and_then (on_cache level (Cache.refresh top) (t, s)) (λ _. aquire_leaf level i true))
    leaf_step t s adv h deep last lt next here =
        bind
          (refresh-Ready l ids level r way top t s adv.ready here h deep
            (omega (arith, last, deep)))
          (λ _ (t1, s1) (ready, w, holding, long).
            let same =
              ids_per_node-same l s0.inner s1.inner
                (Reread-Advanced l adv w ready).grew.same_size in
            leaf_added t1 s1 (Reread-Advanced l adv w ready) (Reread-Place l w h) deep last
              (omega (arith, lt, same)) (rw same next) holding)
          (λ e q i. i)
