-- ===== src/Tree/Cache/Added.antt =====
-- `aquire` of a cache and the block of its node (tree/cache.rs).
use nuts_archive.Prelude.{
  ℕ, ◌<◌, ◌≡◌, ◌≢◌, refl, sym, ap, ◌∙◌, inl, inr, Bool, true, false, some, List, arith, length,
  get_elem?, set, length-set, get_elem?-some, Bool-cases, if◌then◌else◌,
}
use nuts_archive.Outcome.Ensures.{Ensures, done, bind, mono, zoomed}
use nuts_archive.Error.{IsFailure}
use nuts_archive.Pager
use nuts_archive.Pager.{Pager, Paged}
use nuts_archive.Pager.Blocks.{IsPager, contents, aquire-Grown}
use nuts_archive.Platform.{Platform}
use nuts_archive.Platform.Laws.{Laws, Grown, UnchangedBut}
use nuts_archive.Tree.Node
use nuts_archive.Tree.Node.{ids_per_node}
use nuts_archive.Tree.Node.Stored.{NodeAt, ids_per_node-same, flush-NodeAt, aquire-NodeAt}
use nuts_archive.Tree.Cache.{Cache, aquire, on_pager}

module _ ⦃p : Platform⦄ (l : Laws p) where
  open p use {BlockId, Container, Failure, null, is_null, block_size, userdata}

  -- A block, or a block with a node of null ids, that was not allocated before.
  pub record Taken (leaf : Bool) (s : Pager Container) (block : BlockId) (s' : Pager Container)
      : Type 0 where
    pub same_size : block_size s'.inner ≡ block_size s.inner
    pub same_userdata : userdata s'.inner ≡ userdata s.inner
    pub not_null : block ≢ null
    pub fresh : l.blocks.live s.inner block ≡ false
    pub now_live : l.blocks.live s'.inner block ≡ true
    pub still_live :
        (j : BlockId) → l.blocks.live s.inner j ≡ true → l.blocks.live s'.inner j ≡ true
    pub kept :
        (j : BlockId)
        → l.blocks.live s.inner j ≡ true
        → contents l s'.inner j ≡ contents l s.inner j
    pub null_node : leaf ≡ false → NodeAt l s'.inner block (Node.new s)

  -- The entry `idx` of the cache was null, and is now a fresh block; the node is in its block.
  pub record Added (leaf : Bool) (idx : ℕ) (c : Cache BlockId) (s : Pager Container)
      (c' : Cache BlockId) (s' : Pager Container) : Type 0 where
    pub block : BlockId
    pub same_userdata : userdata s'.inner ≡ userdata s.inner
    pub was_null : get_elem? c.node idx ≡ some null
    pub not_null : block ≢ null
    pub fresh : l.blocks.live s.inner block ≡ false
    pub stored : c' ≡ record c { node = set c.node idx block }
    pub flushed : NodeAt l s'.inner c.id (set c.node idx block)
    pub now_live : l.blocks.live s'.inner block ≡ true
    pub still_live :
        (j : BlockId) → l.blocks.live s.inner j ≡ true → l.blocks.live s'.inner j ≡ true
    pub kept :
        (j : BlockId)
        → l.blocks.live s.inner j ≡ true
        → j ≢ c.id
        → contents l s'.inner j ≡ contents l s.inner j
    pub null_node :
        l.blocks.live s.inner c.id ≡ true → leaf ≡ false → NodeAt l s'.inner block (Node.new s)

  -- The result of `aquire`: whether a block was added, and else the entry that was there.
  abbrev pub AquireResult :
      Bool → ℕ → Cache BlockId → Pager Container → Bool → Cache BlockId × Pager Container → Type 0
  AquireResult leaf idx c s true (c', s') = Added leaf idx c s c' s'
  AquireResult leaf idx c s false (c', s') =
      (c' ≡ c) × (s' ≡ s) × ((id : BlockId) × (get_elem? c.node idx ≡ some id) × (id ≢ null))

  -- A new block, or a new block with a node of null ids.
  pub Grown-Taken :
      (s s' : Pager Container) (block : BlockId)
      → Grown l.blocks block s.inner s'.inner
      → Taken true s block s'
  Grown-Taken s s' block g = record {
    same_size = g.same_size;
    same_userdata = g.same_userdata;
    not_null = g.not_null;
    fresh = g.fresh;
    now_live = g.now_live;
    still_live = g.still_live;
    kept = g.same_contents;
    null_node = λ e. absurd cc;
  }

  node-Taken :
      (s s' : Pager Container) (block : BlockId) (c : Container)
      → NodeAt l s'.inner block (Node.new s)
      → Grown l.blocks block s.inner c
      → UnchangedBut l.blocks block c s'.inner
      → Taken false s block s'
  node-Taken s s' block c n g u = record {
    same_size = u.same_size ∙ g.same_size;
    same_userdata = u.same_userdata ∙ g.same_userdata;
    not_null = g.not_null;
    fresh = g.fresh;
    now_live = u.same_live block ∙ g.now_live;
    still_live = λ j h. u.same_live j ∙ g.still_live j h;
    kept = λ j h. u.same_contents j (λ e. absurd (live-ne j h e)) ∙ g.same_contents j h;
    null_node = λ _. n;
  }
    where
      live-ne : (j : BlockId) → l.blocks.live s.inner j ≡ true → j ≡ block → ⊥
      live-ne j h e = let f : l.blocks.live s.inner j ≡ false = rw e g.fresh in cc

  -- `Node::aquire` takes a block for a node.
  pub aquire-Taken :
      (s : Pager Container)
      → IsPager s
      → Ensures (λ id s'. IsPager s' × Taken false s id s') (λ e s'. IsFailure e) (Node.aquire s)
  aquire-Taken s is =
      mono (aquire-NodeAt l s is) (λ id s' (n, is', (c, g, u)). (is', node-Taken s s' id c n g u))
        (λ e s' (f, _, _). f)

  taking :
      (leaf : Bool) (c : Cache BlockId) (s : Pager Container)
      → IsPager s
      → Ensures
          (λ id q. (q.0 ≡ c) × IsPager q.1 × Taken leaf s id q.1)
          (λ e q. IsFailure e × IsPager q.1 × (block_size q.1.inner ≡ block_size s.inner))
          (on_pager (if leaf then Pager.aquire else Node.aquire) (c, s))
  taking true c s is =
      zoomed (λ q. (c, q)) (λ e. e)
        (mono (aquire-Grown l s is) (λ id q (is', g). (refl, is', Grown-Taken s q id g))
          (λ e q (f, is', u). (f, is', u.same_size)))
  taking false c s is =
      zoomed (λ q. (c, q)) (λ e. e)
        (mono (aquire-NodeAt l s is)
          (λ id q (n, is', (k, g, u)). (refl, is', node-Taken s q id k n g u)) (λ e q w. w))

  flushing :
      (c : Cache BlockId) (s : Pager Container)
      → IsPager s
      → length c.node ≡ ids_per_node s.inner
      → Ensures
          (λ _ q.
            (q.0 ≡ c)
            × NodeAt l q.1.inner c.id c.node
            × IsPager q.1
            × UnchangedBut l.blocks c.id s.inner q.1.inner)
          (λ e q. IsFailure e × IsPager q.1 × (block_size q.1.inner ≡ block_size s.inner))
          (on_pager (Node.flush c.node c.id) (c, s))
  flushing c s is whole =
      zoomed (λ q. (c, q)) (λ e. e)
        (mono (flush-NodeAt l c.node c.id s is whole) (λ _ q (n, is', u). (refl, n, is', u))
          (λ e q (f, is', u). (f, is', u.same_size)))

  NodeAt-other :
      (c c' : Container) (id j : BlockId) (node : List BlockId)
      → UnchangedBut l.blocks id c c'
      → j ≢ id
      → NodeAt l c j node
      → NodeAt l c' j node
  NodeAt-other c c' id j node u ne at =
      rw (ids_per_node-same l c c' u.same_size, u.same_contents j ne) at

  Added-flushed :
      (leaf : Bool) (idx : ℕ) (c : Cache BlockId) (s q q2 : Pager Container) (block : BlockId)
      → get_elem? c.node idx ≡ some null
      → Taken leaf s block q
      → NodeAt l q2.inner c.id (set c.node idx block)
      → UnchangedBut l.blocks c.id q.inner q2.inner
      → Added leaf idx c s (record c { node = set c.node idx block }) q2
  Added-flushed leaf idx c s q q2 block was t n u = record {
    block = block;
    same_userdata = u.same_userdata ∙ t.same_userdata;
    was_null = was;
    not_null = t.not_null;
    fresh = t.fresh;
    stored = refl;
    flushed = n;
    now_live = u.same_live block ∙ t.now_live;
    still_live = λ j h. u.same_live j ∙ t.still_live j h;
    kept = λ j h ne. u.same_contents j ne ∙ t.kept j h;
    null_node = λ h e.
        NodeAt-other q.inner q2.inner c.id block (Node.new s) u
          (λ same. let f : l.blocks.live s.inner c.id ≡ false = rw (sym same) t.fresh in absurd cc)
          (t.null_node e);
  }

  -- For an entry of a whole node `aquire` does not panic. If the entry is null it becomes a block that
  -- was not allocated, or such a block with a node of null ids, and the changed node is written to
  -- its block; no other allocated block changes. Else nothing changes.
  pub aquire-AquireResult :
      (idx : ℕ) (leaf : Bool) (c : Cache BlockId) (s : Pager Container)
      → IsPager s
      → length c.node ≡ ids_per_node s.inner
      → idx < ids_per_node s.inner
      → Ensures
          (λ added q.
            AquireResult leaf idx c s added q
            × IsPager q.1
            × (block_size q.1.inner ≡ block_size s.inner))
          (λ e q. IsFailure e × IsPager q.1 × (block_size q.1.inner ≡ block_size s.inner))
          (aquire idx leaf (c, s))
  unfolding aquire
  aquire-AquireResult idx leaf c s is whole lt =
      let (old, at) = get_elem?-some c.node idx (omega (arith, whole)) in
      elim (Bool-cases (is_null old)) [
        | inl isnull ↦
            rw (at, aquire, isnull)
              (bind (taking leaf c s is)
                (λ id (c1, q) (e, is1, t). rw e (
                  bind
                    (flushing (record c { node = set c.node idx id }) q is1
                      (length-set c.node idx id
                        ∙ whole
                        ∙ sym (ids_per_node-same l s.inner q.inner t.same_size)))
                    (λ _ (c2, q2) (e2, n, is2, u). done (
                      rw e2 (
                          Added-flushed leaf idx c s q q2 id
                            (at ∙ ap some ((l.is_null_iff old).0 isnull)) t n u),
                      is2,
                      u.same_size ∙ t.same_size,
                    ))
                    (λ e q (f, is2, same2). (f, is2, same2 ∙ t.same_size))))
                (λ e q w. w))
        | inr full ↦
            rw (at, aquire, full)
              (done ((refl, refl, (old, at, λ e. cc ((l.is_null_iff old).1 e))), is, refl))
      ]
