-- ===== src/Tree/Routes.antt =====
-- The route from an index to its block, through the ids of the tree and the stored nodes (tree.rs).
pub mod Digits
pub mod Steps
pub mod Lookup
use nuts_archive.Prelude.{
  ℕ, suc, ◌+◌, ◌-◌, ◌*◌, ◌/◌, ◌%◌, ◌^◌, ◌≤◌, ◌<◌, ◌≡◌, ◌≢◌, refl, sym, ap, ◌∙◌, inl, inr, Bool,
  true, false, Option, none, some, List, arith, length, take, replicate, get_elem?, set,
  length-append, length-take, length-replicate, length-set, get_elem?-some, get_elem?-set_self, ◌⊎◌,
  subst, ltb, lt→ltb, le→ltb, Bool-cases, min, All, All-append, All-take, All-replicate, All-set,
  All-get_elem?, if◌then◌else◌,
}
use native.Mathlib.Decide.{dec_lt}
use nuts_archive.Outcome.{ok, err, and_then}
use nuts_archive.Outcome.Ensures.{Ensures, done, failed, bind, mono, zoomed}
use nuts_archive.Bytes.Arrays.{length-array_from_bytes}
use nuts_archive.Pager
use nuts_archive.Pager.{Pager}
use nuts_archive.Pager.Blocks.{IsPager}
use nuts_archive.Platform.{Platform}
use nuts_archive.Platform.Laws.{Laws, Unchanged, Unchanged-refl}
use nuts_archive.Tree.{
  Tree, num_direct, on_cache, entry_at, resize_cache, ensure_indirect, ensure_d_indirect,
  ensure_t_indirect, aquire_leaf, aquire_inner, lookup_direct, lookup_indirect, lookup_d_indirect,
  lookup_t_indirect, lookup_cache, lookup,
}
use nuts_archive.Tree.Cache
use nuts_archive.Tree.Cache.{Cache}
use nuts_archive.Tree.Cache.Coherent.{refresh-NodeAt}
use nuts_archive.Tree.Node
use nuts_archive.Tree.Node.{ids_per_node}
use nuts_archive.Tree.Node.Stored.{NodeAt, ids_per_node-same}

module _ ⦃p : Platform⦄ (l : Laws p) where
  open p use {BlockId, Container, null, is_null}

  -- The id at a place of the node that a block holds; behind a null id every id is null.
  pub data Slot (c : Container) : BlockId → ℕ → BlockId → Type 0 where
    hole : {i : ℕ} → Slot c null i null
    stored :
        {top id : BlockId} {i : ℕ} {node : List BlockId}
        → top ≢ null
        → NodeAt l c top node
        → get_elem? node i ≡ some id
        → Slot c top i id

  -- The id of a block by its index: direct ids first, then those below one, two and three nodes.
  pub data Route (c : Container) (t : Tree BlockId) : ℕ → BlockId → Type 0 where
    direct : {i : ℕ} {id : BlockId} → i < 12 → get_elem? t.direct i ≡ some id → Route c t i id
    single :
        {i : ℕ} {id : BlockId} → i < ids_per_node c → Slot c t.indirect i id → Route c t (12 + i) id
    double :
        {i j : ℕ} {mid id : BlockId}
        → i < ids_per_node c
        → j < ids_per_node c
        → Slot c t.d_indirect i mid
        → Slot c mid j id
        → Route c t (12 + ids_per_node c + (i * ids_per_node c + j)) id
    triple :
        {i j k : ℕ} {outer inner id : BlockId}
        → i < ids_per_node c
        → j < ids_per_node c
        → k < ids_per_node c
        → Slot c t.t_indirect i outer
        → Slot c outer j inner
        → Slot c inner k id
        → Route c t
            (12
              + ids_per_node c
              + ids_per_node c * ids_per_node c
              + ((i * ids_per_node c + j) * ids_per_node c + k))
            id

  -- The cache of a block holds the node that the block holds.
  abbrev pub Agrees : Container → Cache BlockId → Type 0
  Agrees c k = k.id ≢ null → NodeAt l c k.id k.node

  -- The tree holds the pointers of `t`, its caches agree with the blocks, and no block of `c` has
  -- changed.
  pub record Steady (c : Container) (t : Tree BlockId) (q : Tree BlockId × Pager Container)
      : Type 0 where
    pub same_tree : record (q.0) { cache = t.cache } ≡ t
    pub agrees : All (Agrees c) q.0.cache
    pub is_pager : IsPager q.1
    pub unchanged : Unchanged l.blocks c q.1.inner

  -- After an error: the blocks are still the same.
  abbrev pub Kept : Container → Tree BlockId × Pager Container → Type 0
  Kept c q = IsPager q.1 × Unchanged l.blocks c q.1.inner
