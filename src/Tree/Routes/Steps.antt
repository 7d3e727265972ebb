-- ===== src/Tree/Routes/Steps.antt =====
-- The steps of a lookup: a cache is made to hold a node, and an entry of it is read (tree.rs).
use nuts_archive.Prelude.{
  ℕ, ◌-◌, ◌<◌, ◌≡◌, ◌≢◌, refl, sym, ◌∙◌, inl, inr, false, none, some, List, arith, length, take,
  replicate, get_elem?, set, length-append, length-take, length-replicate, length-set,
  get_elem?-some, get_elem?-set_self, ◌⊎◌, subst, Bool-cases, All-append, All-take, All-replicate,
  All-set, All-get_elem?,
}
use nuts_archive.Outcome.{ok, and_then}
use nuts_archive.Outcome.Ensures.{Ensures, done, bind, mono, zoomed}
use nuts_archive.Bytes.Arrays.{length-array_from_bytes}
use nuts_archive.Pager.{Pager}
use nuts_archive.Platform.{Platform}
use nuts_archive.Platform.Laws.{Laws, Unchanged}
use nuts_archive.Tree.{Tree, on_cache, entry_at, resize_cache, aquire_leaf, aquire_inner}
use nuts_archive.Tree.Cache
use nuts_archive.Tree.Cache.{Cache}
use nuts_archive.Tree.Cache.Coherent.{refresh-NodeAt}
use nuts_archive.Tree.Node
use nuts_archive.Tree.Node.{ids_per_node}
use nuts_archive.Tree.Node.Stored.{NodeAt, ids_per_node-same}
use nuts_archive.Tree.Routes.{Slot, stored, Agrees, Steady, Kept}

module _ ⦃p : Platform⦄ (l : Laws p) where
  open p use {BlockId, Container, null, is_null}

  pub NodeAt-same :
      (c c' : Container) (id : BlockId) (node : List BlockId)
      → Unchanged l.blocks c c'
      → NodeAt l c id node
      → NodeAt l c' id node
  NodeAt-same c c' id node u at = rw (ids_per_node-same l c c' u.same_size, u.same_contents id) at

  NodeAt-back :
      (c c' : Container) (id : BlockId) (node : List BlockId)
      → Unchanged l.blocks c c'
      → NodeAt l c' id node
      → NodeAt l c id node
  NodeAt-back c c' id node u at =
      rw (← ids_per_node-same l c c' u.same_size, ← u.same_contents id) at

  pub Unchanged-trans :
      {a b c : Container} → Unchanged l.blocks a b → Unchanged l.blocks b c → Unchanged l.blocks a c
  Unchanged-trans u v = record {
    same_size = v.same_size ∙ u.same_size;
    same_userdata = v.same_userdata ∙ u.same_userdata;
    same_contents = λ j. v.same_contents j ∙ u.same_contents j;
    same_live = λ j. v.same_live j ∙ u.same_live j;
  }

  -- A cache of the tree after `refresh`, with the node that it holds.
  abbrev pub Holds : Container → ℕ → BlockId → Tree BlockId × Pager Container → Type 0
  Holds c level top q =
      (node : List BlockId) × NodeAt l c top node
      × ((k : Cache BlockId) × (get_elem? q.0.cache level ≡ some k) × (k.node ≡ node))

  pub refresh-Holds :
      (c : Container) (t : Tree BlockId) (level : ℕ) (top : BlockId)
      (q : Tree BlockId × Pager Container)
      → Steady l c t q
      → level < length q.0.cache
      → top ≢ null
      → Ensures
          (λ _ q'. Steady l c t q' × Holds c level top q' × (length q'.0.cache ≡ length q.0.cache))
          (λ e q'. Kept l c q')
          (on_cache level (Cache.refresh top) q)
  refresh-Holds c t level top (t1, s) st lt ne =
      let (k, at) = get_elem?-some t1.cache level lt in
      let good : Agrees l c k = All-get_elem? (Agrees l c) t1.cache level k st.agrees at in
      rw (at, on_cache)
        (zoomed (λ (c', q). (record t1 { cache = set t1.cache level c' }, q)) (λ e. e)
          (mono
            (refresh-NodeAt l top k s st.is_pager
              (λ e. NodeAt-same c s.inner k.id k.node st.unchanged (good (λ z. ne (sym e ∙ z)))))
            (λ _ (k', s') (e, n, _, is', u). (
              record {
                same_tree = st.same_tree;
                agrees =
                    All-set (Agrees l c) t1.cache level k' st.agrees
                      (λ _. rw e (NodeAt-back c s.inner top k'.node st.unchanged n));
                is_pager = is';
                unchanged = Unchanged-trans st.unchanged u;
              },
              (
                k'.node,
                NodeAt-back c s.inner top k'.node st.unchanged n,
                (k', get_elem?-set_self t1.cache level k' lt, refl),
              ),
              length-set t1.cache level k',
            ))
            (λ e q' (is', u, _). (is', Unchanged-trans st.unchanged u))))

  pub resize-Steady :
      (c : Container) (t : Tree BlockId) (n : ℕ) (q : Tree BlockId × Pager Container)
      → Steady l c t q
      → Ensures
          (λ _ q'. Steady l c t q' × (length q'.0.cache ≡ n))
          (λ e q'. Kept l c q')
          (resize_cache n q)
  unfolding resize_cache Cache.new
  resize-Steady c t n (t1, s) st = done (
    record {
      same_tree = st.same_tree;
      agrees =
          All-append (Agrees l c) (take n t1.cache) _ (All-take (Agrees l c) n t1.cache st.agrees) (
            All-replicate (Agrees l c) (n - length t1.cache)
              (record { id = null; node = Node.new s }) (λ ne. absurd (ne refl)));
      is_pager = st.is_pager;
      unchanged = st.unchanged;
    },
    omega (
      arith,
      length-append (take n t1.cache)
          (replicate (n - length t1.cache) (record { id = null; node = Node.new s })),
      length-take n t1.cache,
      length-replicate (n - length t1.cache)
          (let k : Cache BlockId = record { id = null; node = Node.new s } in k),
    ),
  )

  -- The entry of a cached node.
  entry_at-Slot :
      (c : Container) (level i : ℕ) (top : BlockId) (q : Tree BlockId × Pager Container)
      → top ≢ null
      → i < ids_per_node c
      → Holds c level top q
      → (id : BlockId) × Slot l c top i id × (entry_at level i q ≡ (ok id, q))
  unfolding entry_at
  entry_at-Slot c level i top (t1, s) ne lt (node, (rest, read), (k, at, same)) =
      let whole = length-array_from_bytes p.block_id.from_bytes (ids_per_node c) _ rest node read in
      let (id, found) = get_elem?-some node i (omega (arith, whole)) in
      (id, stored ne (rest, read) found, rw (at, entry_at, same, found))

  -- The tree and its caches, once the nodes down to the level are read.
  pub leaf-Slot :
      (c : Container) (t : Tree BlockId) (level i : ℕ) (top : BlockId)
      (q : Tree BlockId × Pager Container)
      → Steady l c t q
      → top ≢ null
      → i < ids_per_node c
      → Holds c level top q
      → Ensures
          (λ id q'. Steady l c t q' × Slot l c top i id)
          (λ e q'. Kept l c q')
          (aquire_leaf level i false q)
  unfolding aquire_leaf
  leaf-Slot c t level i top q st ne lt holds =
      let (id, slot, e) = entry_at-Slot c level i top q ne lt holds in rw e (done (st, slot))

  -- A level above: the way goes on at the id, unless it is null.
  pub inner-Slot :
      (c : Container) (level i : ℕ) (top : BlockId) (q : Tree BlockId × Pager Container)
      → top ≢ null
      → i < ids_per_node c
      → Holds c level top q
      → (Slot l c top i null
          × (entry_at level i q ≡ (ok null, q))
          × (aquire_inner level i false q ≡ (ok none, q)))
        ⊎ ((id : BlockId) × (id ≢ null)
            × Slot l c top i id
            × (aquire_inner level i false q ≡ (ok (some id), q)))
  unfolding aquire_inner
  inner-Slot c level i top q ne lt holds =
      let (id, slot, e) = entry_at-Slot c level i top q ne lt holds in
      elim (Bool-cases (is_null id)) [
        | inl isnull ↦
            let none_here : id ≡ null = (l.is_null_iff id).0 isnull in
            inl (
              subst (λ j. Slot l c top i j) none_here slot,
              e ∙ rw none_here,
              rw (e, aquire_inner, isnull),
            )
        | inr full ↦ inr (id, (λ z. cc ((l.is_null_iff id).1 z)), slot, rw (e, aquire_inner, full))
      ]

  -- `refresh` and what is read of its node.
  pub node-Slot :
      (c : Container) (t : Tree BlockId) (level i : ℕ) (top : BlockId)
      (q : Tree BlockId × Pager Container)
      → Steady l c t q
      → top ≢ null
      → i < ids_per_node c
      → level < length q.0.cache
      → Ensures
          (λ id q'. Steady l c t q' × Slot l c top i id)
          (λ e q'. Kept l c q')
          (and_then (on_cache level (Cache.refresh top) q) (λ _. aquire_leaf level i false))
  node-Slot c t level i top q st ne lt here =
      bind (refresh-Holds c t level top q st here ne)
        (λ _ q' (st', holds, _). leaf-Slot c t level i top q' st' ne lt holds) (λ e q' k. k)
