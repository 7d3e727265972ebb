-- ===== src/Tree/Forest/Ready.antt =====
-- The tree in memory and the blocks agree, and what reading a node does to this (tree.rs).
use nuts_archive.Prelude.{
  ℕ, ◌-◌, ◌<◌, ◌≡◌, ◌≢◌, refl, sym, ap, ◌∙◌, inl, inr, true, some, List, ◌++◌, length, get_elem?,
  set, take, replicate, arith, subst, get_elem?-resized, length-append, length-take,
  length-replicate, length-set, get_elem?-some, get_elem?-set_self, get_elem?-set_ne, ◌==◌, ==_iff,
  Bool-cases,
}
use nuts_archive.Outcome.Ensures.{Ensures, done, mono, zoomed}
use nuts_archive.Error.{IsFailure}
use nuts_archive.Pager.{Pager}
use nuts_archive.Pager.Blocks.{IsPager}
use nuts_archive.Platform.{Platform}
use nuts_archive.Platform.Laws.{Laws, Unchanged, Unchanged-refl}
use nuts_archive.Tree.{Tree, on_cache, resize_cache}
use nuts_archive.Tree.Cache
use nuts_archive.Tree.Cache.{Cache}
use nuts_archive.Tree.Cache.Coherent.{refresh-NodeAt}
use nuts_archive.Tree.Node
use nuts_archive.Tree.Node.{ids_per_node}
use nuts_archive.Tree.Node.Stored.{NodeAt, Unreadable}
use nuts_archive.Tree.Routes.Steps.{NodeAt-same}
use nuts_archive.Tree.Forest.{Pointers, pointers, Root, depth, Place, IsForest}
use nuts_archive.Tree.Forest.Walks.{Place-Unchanged, IsForest-Unchanged, Walk-end}

module _ ⦃p : Platform⦄ (l : Laws p) where
  open p use {BlockId, Container, null, id_eq}

  -- A cache is new, or holds the node at a place of its level.
  abbrev pub IsCached : Container → Pointers BlockId → ℕ → Cache BlockId → Type 0
  IsCached c v level k =
      k.id ≢ null
      → NodeAt l c k.id k.node
        × ((r : Root) × ((way : List ℕ) × Place l c v r way k.id
              × (length way ≡ level)
              × (level < depth r)))

  -- The blocks below the tree form a forest with the ids of the archive, and every cache agrees
  -- with the block that it was read from.
  pub record IsReady (ids : List BlockId) (q : Tree BlockId × Pager Container) : Type 0 where
    pub forest : IsForest l q.1.inner (pointers q.0) ids
    pub is_pager : IsPager q.1
    pub cached :
        (level : ℕ) (k : Cache BlockId)
        → get_elem? q.0.cache level ≡ some k
        → IsCached q.1.inner (pointers q.0) level k

  -- The cache of a level holds the node of the block `top`.
  abbrev pub Holding : ℕ → BlockId → Tree BlockId × Pager Container → Type 0
  Holding level top q =
      (k : Cache BlockId) × (get_elem? q.0.cache level ≡ some k)
      × (k.id ≡ top)
      × NodeAt l q.1.inner top k.node

  -- Only caches differ, and the blocks are the same.
  pub record Reread (q q' : Tree BlockId × Pager Container) : Type 0 where
    pub same_pointers : pointers q'.0 ≡ pointers q.0
    pub same_nblocks : q'.0.nblocks ≡ q.0.nblocks
    pub unchanged : Unchanged l.blocks q.1.inner q'.1.inner

  readable :
      (c : Container) (id : BlockId) (node : List BlockId)
      → NodeAt l c id node
      → Unreadable l c id
      → ⊥
  readable c id node (rest, at) (x, bad) = cc

  pub refresh-Ready :
      (ids : List BlockId) (level : ℕ) (r : Root) (way : List ℕ) (top : BlockId) (t : Tree BlockId)
      (s : Pager Container)
      → IsReady ids (t, s)
      → level < length t.cache
      → Place l s.inner (pointers t) r way top
      → length way ≡ level
      → length way < depth r
      → Ensures
          (λ _ q'.
            IsReady ids q'
            × Reread (t, s) q'
            × Holding level top q'
            × (length q'.0.cache ≡ length t.cache))
          (λ e _. IsFailure e)
          (on_cache level (Cache.refresh top) (t, s))
  refresh-Ready ids level r way top t s ready lt h deep above =
      let (node, there) = ready.forest.nodes r way top h above in
      let (k, at) = get_elem?-some t.cache level lt in
      let top_not_null : top ≢ null = Walk-end l s.inner h.top top way h.walk in
      rw (at, on_cache)
        (zoomed (λ (c', q). (record t { cache = set t.cache level c' }, q)) (λ e. e)
          (mono
            (refresh-NodeAt l top k s ready.is_pager
              (λ e. (ready.cached level k at (λ z. top_not_null (sym e ∙ z))).0))
            (λ _ (k', s') (e, n, _, is', u).
              let n' : NodeAt l s'.inner top k'.node =
                NodeAt-same l s.inner s'.inner top k'.node u n in
              (
                record {
                  forest = IsForest-Unchanged l s.inner s'.inner u ready.forest;
                  is_pager = is';
                  cached = λ level' k2 at'. elim (Bool-cases (level == level')) [
                    | inl hit ↦
                        let same : level ≡ level' = (==_iff level level').0 hit in
                        let new_cache : some k' ≡ some k2 =
                          sym (get_elem?-set_self t.cache level k' lt)
                          ∙ ap (λ i. get_elem? (set t.cache level k') i) same
                          ∙ at' in
                        let is_new : k' ≡ k2 = cc in
                        subst (λ x. IsCached s'.inner (pointers t) level' x) is_new
                          (λ _. (
                            rw e n',
                            (
                              r,
                              (
                                way,
                                rw e (Place-Unchanged l s.inner s'.inner u h),
                                deep ∙ same,
                                omega (arith, above, deep, same),
                              ),
                            ),
                          ))
                    | inr miss ↦
                        let differs : level ≢ level' = λ e.
                          let hit : (level == level') ≡ true = (==_iff level level').1 e in
                          absurd cc in
                        λ ne.
                          let (n2, (r2, (way2, h2, deep2, above2))) =
                            ready.cached level' k2
                              (sym (get_elem?-set_ne t.cache level level' k' differs) ∙ at') ne in
                          (
                            NodeAt-same l s.inner s'.inner k2.id k2.node u n2,
                            (r2, (way2, Place-Unchanged l s.inner s'.inner u h2, deep2, above2)),
                          )
                  ];
                },
                record { same_pointers = refl; same_nblocks = refl; unchanged = u },
                (k', get_elem?-set_self t.cache level k' lt, e, n'),
                length-set t.cache level k',
              ))
            (λ e q' (_, _, why). elim why [
              | inl failure ↦ failure
              | inr bad ↦ absurd (readable s.inner top node there bad)
            ])))

  pub resize-Ready :
      (ids : List BlockId) (n : ℕ) (t : Tree BlockId) (s : Pager Container)
      → IsReady ids (t, s)
      → Ensures
          (λ _ q'. IsReady ids q' × Reread (t, s) q' × (length q'.0.cache ≡ n))
          (λ e _. IsFailure e)
          (resize_cache n (t, s))
  unfolding resize_cache Cache.new
  resize-Ready ids n t s ready =
      let empty : Cache BlockId = record { id = null; node = Node.new s } in
      let t' : Tree BlockId = record t {
        cache = take n t.cache ++ replicate (n - length t.cache) empty;
      } in
      let kept : IsReady ids (t', s) = record {
        forest = ready.forest;
        is_pager = ready.is_pager;
        cached = λ level k at.
            elim (get_elem?-resized n t.cache (n - length t.cache) empty level k at) [
              | inl old ↦ ready.cached level k old
              | inr e ↦ λ ne. absurd (ne (ap (λ (c : Cache BlockId). c.id) e))
            ];
      } in
      let same : Reread (t, s) (t', s) = record {
        same_pointers = refl;
        same_nblocks = refl;
        unchanged = Unchanged-refl s.inner;
      } in
      done (
        kept,
        same,
        omega (
          arith,
          length-append (take n t.cache) (replicate (n - length t.cache) empty),
          length-take n t.cache,
          length-replicate (n - length t.cache) empty,
        ),
      )
