-- ===== src/Tree/Forest/Roots.antt =====
-- The pointers of the tree to its nodes are set when they are needed first (tree.rs).
use nuts_archive.Prelude.{◌<◌, ◌≡◌, ◌≢◌, refl, Bool, false, List, [], arith}
use nuts_archive.Outcome.Ensures.{Ensures, mono, zoomed}
use nuts_archive.Error.{IsFailure}
use nuts_archive.Pager.{Pager}
use nuts_archive.Pager.Blocks.{IsPager}
use nuts_archive.Platform.{Platform}
use nuts_archive.Platform.Laws.{Laws, Unchanged-refl}
use nuts_archive.Tree.{Tree, on_pager}
use nuts_archive.Tree.Cache.Added.{Taken, aquire-Taken}
use nuts_archive.Tree.Node
use nuts_archive.Tree.Node.{ids_per_node}
use nuts_archive.Tree.Node.Stored.{ids_per_node-same}
use nuts_archive.Tree.Forest.{Pointers, pointers, Root, RootAt, depth, Place}
use nuts_archive.Tree.Forest.Grow.{Grew, NewPlace, grow-node, no_new_place_of, Unchanged-Grew}
use nuts_archive.Tree.Forest.Grow.Pointer.{PointerSet, pointer-NewPlace}
use nuts_archive.Tree.Forest.Ready.{IsReady}

module _ ⦃p : Platform⦄ (l : Laws p) where
  open p use {BlockId, Container, null, is_null, block_size}

  -- After some steps from `(t, s)` on, with no change of the archive's blocks.
  pub record Advanced (ids : List BlockId) (t : Tree BlockId) (s : Pager Container)
      (q' : Tree BlockId × Pager Container) : Type 0 where
    pub ready : IsReady l ids q'
    pub grew : Grew l s.inner (pointers t) q'.1.inner (pointers q'.0)
    pub same_nblocks : q'.0.nblocks ≡ t.nblocks

  pub Advanced-refl :
      (ids : List BlockId) (t : Tree BlockId) (s : Pager Container)
      → IsReady l ids (t, s)
      → Advanced ids t s (t, s)
  Advanced-refl ids t s ready = record {
    ready = ready;
    grew = Unchanged-Grew l (Unchanged-refl s.inner);
    same_nblocks = refl;
  }

  -- Which pointer differs.
  pub record OnlyPointer (v v' : Pointers BlockId) (r0 : Root) (b0 : BlockId) : Type 0 where
    pub was_null : (id : BlockId) → RootAt v r0 id → id ≡ null
    pub now : RootAt v' r0 b0
    pub only : (id : BlockId) → RootAt v' r0 id → id ≡ b0
    pub others : (r : Root) (id : BlockId) → r ≢ r0 → RootAt v r id → RootAt v' r id
    pub others_back : (r : Root) (id : BlockId) → r ≢ r0 → RootAt v' r id → RootAt v r id

  pub pointer_set :
      (leaf : Bool) (t t' : Tree BlockId) (s s' : Pager Container) (r0 : Root) (b0 : BlockId)
      → (0 < depth r0 → leaf ≡ false)
      → OnlyPointer (pointers t) (pointers t') r0 b0
      → Taken l leaf s b0 s'
      → PointerSet l s.inner (pointers t) s'.inner (pointers t') r0 b0
  unfolding Node.new ids_per_node
  pointer_set leaf t t' s s' r0 b0 up o k = record {
    was_null = o.was_null;
    now = o.now;
    only = o.only;
    others = o.others;
    others_back = o.others_back;
    not_null = k.not_null;
    unused = k.fresh;
    now_live = k.now_live;
    still_live = k.still_live;
    kept = k.kept;
    same_ids = ids_per_node-same l s.inner s'.inner k.same_size;
    null_node = λ lt. k.null_node (up lt);
  }

  pub pointer-Advanced :
      (ids : List BlockId) (t t' : Tree BlockId) (s s' : Pager Container) (r0 : Root) (b0 : BlockId)
      → IsReady l ids (t, s)
      → OnlyPointer (pointers t) (pointers t') r0 b0
      → Taken l false s b0 s'
      → IsPager s'
      → t'.cache ≡ t.cache
      → t'.direct ≡ t.direct
      → t'.nblocks ≡ t.nblocks
      → 0 < depth r0
      → Advanced ids t s (t', s')
  pointer-Advanced ids t t' s s' r0 b0 ready o k is same_cache same_direct same_nblocks above =
      let set = pointer_set false t t' s s' r0 b0 (λ _. refl) o k in
      let g : NewPlace l s.inner (pointers t) s'.inner (pointers t') r0 [] b0 =
        pointer-NewPlace l set ready.forest in
      record {
        ready = record {
          forest =
              grow-node l g ready.forest set.same_ids (rw same_direct ready.forest.direct_full)
                above;
          is_pager = is;
          cached = λ level c at ne.
              let (n, (r, (way, h, deep, up))) = ready.cached level c (rw (← same_cache) at) ne in
              (
                rw (set.same_ids, k.kept c.id (ready.forest.live r way c.id h)) n,
                (r, (way, g.forth r way c.id h, deep, up)),
              );
        };
        grew = record {
          same_size = k.same_size;
          same_userdata = k.same_userdata;
          still_live = k.still_live;
          kept = λ j u c. k.kept j u;
          no_new_place = no_new_place_of l g;
        };
        same_nblocks = same_nblocks;
      }

  -- What `ensure_*` leaves behind.
  abbrev pub Rooted :
      List BlockId
      → Tree BlockId
      → Pager Container
      → Root
      → BlockId
      → Tree BlockId × Pager Container
      → Type 0
  Rooted ids t s r top q' = Advanced ids t s q' × Place l q'.1.inner (pointers q'.0) r [] top

  pub at_root :
      (c : Container) (v : Pointers BlockId) (r : Root) (top : BlockId)
      → RootAt v r top
      → top ≢ null
      → Place l c v r [] top
  at_root c v r top at ne = record {
    short = omega arith;
    top = top;
    root_at = at;
    walk = (ne, refl);
  }

  pub taking_node :
      (t : Tree BlockId) (s : Pager Container)
      → IsPager s
      → Ensures
          (λ id q. (q.0 ≡ t) × IsPager q.1 × Taken l false s id q.1)
          (λ e _. IsFailure e)
          (on_pager Node.aquire (t, s))
  taking_node t s is =
      zoomed (λ q. (t, q)) (λ e. e)
        (mono (aquire-Taken l s is) (λ id q (is', k). (refl, is', k)) (λ e q i. i))
