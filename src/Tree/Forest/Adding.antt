-- ===== src/Tree/Forest/Adding.antt =====
-- An entry of a cached node is aquired (tree/cache.rs, tree.rs).
use nuts_archive.Prelude.{
  ℕ, suc, ◌<◌, ◌≡◌, ◌≢◌, refl, sym, ap, ◌∙◌, inl, inr, Bool, true, false, not, some, List, [], ◌∷◌,
  ◌++◌, length, get_elem?, set, arith, subst, length-set, get_elem?-set_self, get_elem?-set_ne,
  get_elem?-lt, set_same, ◌==◌, ==_iff, Bool-cases,
}
use nuts_archive.Outcome.Ensures.{Ensures, mono, zoomed}
use nuts_archive.Bytes.Arrays.{length-array_from_bytes}
use nuts_archive.Error.{IsFailure}
use nuts_archive.Pager.{Pager}
use nuts_archive.Pager.Blocks.{IsPager}
use nuts_archive.Platform.{Platform}
use nuts_archive.Platform.Laws.{Laws}
use nuts_archive.Tree.{Tree, on_cache}
use nuts_archive.Tree.Cache
use nuts_archive.Tree.Cache.{Cache}
use nuts_archive.Tree.Cache.Added.{Added, AquireResult, aquire-AquireResult}
use nuts_archive.Tree.Node
use nuts_archive.Tree.Node.{ids_per_node}
use nuts_archive.Tree.Node.Stored.{NodeAt, ids_per_node-same}
use nuts_archive.Tree.Forest.{pointers, Root, depth, Place}
use nuts_archive.Tree.Forest.Grow.{Grew, NewPlace, no_new_place_of}
use nuts_archive.Tree.Forest.Grow.Entry.{EntrySet, entry-NewPlace}
use nuts_archive.Tree.Forest.Ready.{IsReady, IsCached, Holding}

module _ ⦃p : Platform⦄ (l : Laws p) where
  open p use {BlockId, Container, null, id_eq, block_size}

  module _ (level i : ℕ) (leaf : Bool) (r : Root) (way : List ℕ) (top : BlockId) (t : Tree BlockId)
      (s : Pager Container) where
    -- A new block is at the entry `i` of the node.
    pub record Planted (q' : Tree BlockId × Pager Container) : Type 0 where
      pub block : BlockId
      pub same_pointers : pointers q'.0 ≡ pointers t
      pub same_nblocks : q'.0.nblocks ≡ t.nblocks
      pub same_length : length q'.0.cache ≡ length t.cache
      pub new_place :
          NewPlace l s.inner (pointers t) q'.1.inner (pointers t) r (way ++ i ∷ []) block
      pub grew : Grew l s.inner (pointers t) q'.1.inner (pointers t)
      pub is_pager : IsPager q'.1
      pub cached :
          (level' : ℕ) (k : Cache BlockId)
          → get_elem? q'.0.cache level' ≡ some k
          → IsCached l q'.1.inner (pointers t) level' k
      pub there :
          (k : Cache BlockId) × (get_elem? q'.0.cache level ≡ some k)
          × (get_elem? k.node i ≡ some block)

    abbrev pub AddResult : Bool → Tree BlockId × Pager Container → Type 0
    AddResult true q' = Planted q'
    AddResult false q' =
        (q' ≡ (t, s))
        × ((k : Cache BlockId) × (get_elem? t.cache level ≡ some k)
            × (k.id ≡ top)
            × NodeAt l s.inner top k.node
            × ((id : BlockId) × (get_elem? k.node i ≡ some id) × (id ≢ null)))

    module _ {ids : List BlockId} (ready : IsReady l ids (t, s))
        (h : Place l s.inner (pointers t) r way top) (deep : length way ≡ level)
        (above : level < depth r) (upper : suc level < depth r → leaf ≡ false) where
      set_here :
          (k k' : Cache BlockId) (s' : Pager Container)
          → k.id ≡ top
          → NodeAt l s.inner top k.node
          → block_size s'.inner ≡ block_size s.inner
          → (a : Added l leaf i k s k' s') → EntrySet l s.inner s'.inner top i a.block (not leaf)
      unfolding Node.new ids_per_node
      set_here k k' s' same n size a = record {
        node = k.node;
        was = n;
        was_null = a.was_null;
        now = subst (λ x. NodeAt l s'.inner x (set k.node i a.block)) same a.flushed;
        not_null = a.not_null;
        unused = a.fresh;
        now_live = a.now_live;
        still_live = a.still_live;
        kept = λ j u ne. a.kept j u (λ e. ne (e ∙ same));
        same_ids = ids_per_node-same l s.inner s'.inner size;
        null_node = λ e. a.null_node (rw same (ready.forest.live r way top h)) (not_true leaf e);
      }
        where
          not_true : (b : Bool) → not b ≡ true → b ≡ false
          not_true true e = absurd cc
          not_true false e = refl

      plant :
          (k k' : Cache BlockId) (s' : Pager Container)
          → get_elem? t.cache level ≡ some k
          → k.id ≡ top
          → NodeAt l s.inner top k.node
          → block_size s'.inner ≡ block_size s.inner
          → IsPager s'
          → Added l leaf i k s k' s'
          → Planted (record t { cache = set t.cache level k' }, s')
      plant k k' s' at same n size is a =
          let e = set_here k k' s' same n size a in
          let g : NewPlace l s.inner (pointers t) s'.inner (pointers t) r (way ++ i ∷ []) a.block =
            entry-NewPlace l e ready.forest h (omega (arith, deep))
              (λ lt. rw (upper (omega (arith, lt, deep))) refl) (λ r id at. at) (λ r id at. at) in
          let new_cache = get_elem?-set_self t.cache level k' (get_elem?-lt t.cache level k at) in
          record {
            block = a.block;
            same_pointers = refl;
            same_nblocks = refl;
            same_length = length-set t.cache level k';
            new_place = g;
            grew = record {
              same_size = size;
              same_userdata = a.same_userdata;
              still_live = a.still_live;
              kept = λ j u c. a.kept j u (λ z. absurd (
                  omega (
                    arith,
                    deep,
                    c r way (subst (λ x. Place l s.inner (pointers t) r way x) (sym (z ∙ same)) h),
                  )));
              no_new_place = no_new_place_of l g;
            };
            is_pager = is;
            cached = λ level' k2 at2. elim (Bool-cases (level == level')) [
              | inl hit ↦
                  let here : level ≡ level' = (==_iff level level').0 hit in
                  let new : some k' ≡ some k2 =
                    sym new_cache ∙ ap (λ m. get_elem? (set t.cache level k') m) here ∙ at2 in
                  let is_new : k' ≡ k2 = cc in
                  subst (λ x. IsCached l s'.inner (pointers t) level' x) (sym a.stored ∙ is_new)
                    (λ _. (
                      a.flushed,
                      (
                        r,
                        (
                          way,
                          rw same (g.forth r way top h),
                          deep ∙ here,
                          omega (arith, above, here),
                        ),
                      ),
                    ))
              | inr miss ↦
                  let differs : level ≢ level' = λ e.
                    let hit : (level == level') ≡ true = (==_iff level level').1 e in absurd cc in
                  λ ne.
                    let (n2, (r2, (way2, h2, deep2, above2))) =
                      ready.cached level' k2
                        (sym (get_elem?-set_ne t.cache level level' k' differs) ∙ at2) ne in
                    let other : k2.id ≢ k.id = λ z. differs (
                      sym deep
                      ∙ ap length (
                          sym
                            (ready.forest.apart r2 r way2 way k2.id h2 (
                              subst (λ x. Place l s.inner (pointers t) r way x) (sym (z ∙ same))
                                h)).1)
                      ∙ deep2) in
                    (
                      rw (e.same_ids, a.kept k2.id (ready.forest.live r2 way2 k2.id h2) other) n2,
                      (r2, (way2, g.forth r2 way2 k2.id h2, deep2, above2)),
                    )
            ];
            there = (
              k',
              new_cache,
              rw a.stored
                  (get_elem?-set_self k.node i a.block (get_elem?-lt k.node i null a.was_null)),
            );
          }

      pub add-Ready :
          i < ids_per_node s.inner
          → Holding l level top (t, s)
          → Ensures
              (λ added q'. AddResult added q')
              (λ e _. IsFailure e)
              (on_cache level (Cache.aquire i leaf) (t, s))
      add-Ready lt (k, at, same, (rest, n)) =
          let whole =
            length-array_from_bytes p.block_id.from_bytes (ids_per_node s.inner) _ rest k.node n in
          rw (at, on_cache)
            (zoomed (λ (c', q). (record t { cache = set t.cache level c' }, q)) (λ e. e)
              (mono (aquire-AquireResult l i leaf k s ready.is_pager whole lt)
                (λ added q w. result added q.0 q.1 w) (λ e q w. w.0)))
        where
          result :
              (added : Bool) (k' : Cache BlockId) (s' : Pager Container)
              → AquireResult l leaf i k s added (k', s')
                × IsPager s'
                × (block_size s'.inner ≡ block_size s.inner)
              → AddResult added (record t { cache = set t.cache level k' }, s')
          result true k' s' (a, is, size) = plant k k' s' at same (rest, n) size is a
          result false k' s' ((e, e', old), is, size) =
              (rw (e, e', set_same t.cache level k at), (k, at, same, (rest, n), old))
