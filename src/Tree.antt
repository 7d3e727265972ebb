-- ===== src/Tree.antt =====
-- tree.rs: the blocks of the archive, addressed directly and through up to three levels of nodes.
pub mod Codec
pub mod Node
pub mod Cache
pub mod Routes
pub mod Forest
use nuts_archive.Prelude.{
  ℕ, ◌+◌, ◌-◌, ◌*◌, ◌/◌, ◌%◌, ◌^◌, Bool, true, false, Option, none, some, List, [], ◌++◌, length,
  take, replicate, get_elem?, set, ltb, if◌then◌else◌,
}
use nuts_archive.Outcome.{ok, err, panic, Exec, pure, raise, abort, zoom, gets, modify, ◌>>=◌, ◌>>◌}
use nuts_archive.Bytes
use nuts_archive.Error.{Error, full}
use nuts_archive.Pager
use nuts_archive.Pager.{Pager, Paged}
use nuts_archive.Platform.{Platform}
use Node.{ids_per_node}
use Cache.{OnCache}

abbrev pub num_direct : ℕ
num_direct = 12

pub record Tree (I : Type 0) : Type 0 where
  pub direct : List I
  pub indirect : I
  pub d_indirect : I
  pub t_indirect : I
  pub nblocks : ℕ
  pub cache : List (Cache.Cache I)

module _ ⦃p : Platform⦄ where
  open p use {BlockId, Container, Failure, null, is_null, id_size, block_size, block_id, u64}

  unfoldable pub size : ℕ
  size = num_direct * id_size + 3 * id_size + 8

  unfoldable pub new : Tree BlockId
  new = record {
    direct = replicate num_direct null;
    indirect = null;
    d_indirect = null;
    t_indirect = null;
    nblocks = 0;
    cache = [];
  }

  -- `#[derive(FromBytes, ToBytes)]`; the field `cache` is skipped, and starts empty
  unfoldable pub to_bytes : Tree BlockId → List ℕ
  to_bytes t =
      Bytes.array_to_bytes (λ id. block_id.to_bytes id) t.direct
      ++ (block_id.to_bytes t.indirect
          ++ (block_id.to_bytes t.d_indirect
              ++ (block_id.to_bytes t.t_indirect ++ u64.to_bytes t.nblocks)))

  unfoldable pub from_bytes : Bytes.Parser (Tree BlockId)
  from_bytes = Bytes.◌>>=◌ (Bytes.array_from_bytes block_id.from_bytes num_direct) λ ids.
      Bytes.◌>>=◌ block_id.from_bytes λ i. Bytes.◌>>=◌ block_id.from_bytes λ d.
        Bytes.◌>>=◌ block_id.from_bytes λ t. Bytes.◌>>=◌ u64.from_bytes λ n. Bytes.pure (record {
          direct = ids;
          indirect = i;
          d_indirect = d;
          t_indirect = t;
          nblocks = n;
          cache = [];
        })

  -- A method of the tree: the tree, and the pager that it borrows.
  abbrev pub OnTree : Type 0 → Type 0
  OnTree A = Exec (Tree BlockId × Pager Container) (Error BlockId Failure) A

  abbrev pub on_pager : {A : Type 0} → Paged A → OnTree A
  on_pager m = zoom (λ s. s.1) (λ s q. (s.0, q)) (λ e. e) m

  -- `self.cache[level]` as the receiver of a method
  abbrev pub on_cache : {A : Type 0} → ℕ → OnCache A → OnTree A
  on_cache level m (t, s) = elim (get_elem? t.cache level) [
    | none ↦ abort (t, s)
    | some c ↦
        zoom (λ (_, q). (c, q)) (λ (t, _) (c', q). (record t { cache = set t.cache level c' }, q))
          (λ e. e) m (t, s)
  ]

  -- `&self.cache[level][idx]`
  pub entry_at : ℕ → ℕ → OnTree BlockId
  entry_at level idx (t, s) = elim (get_elem? t.cache level) [
    | none ↦ abort (t, s)
    | some c ↦ elim (get_elem? c.node idx) [ none ↦ abort (t, s) | some id ↦ pure id (t, s) ]
  ]

  -- `self.cache.resize_with(n, || Cache::new(pager))`
  pub resize_cache : ℕ → OnTree (Unit {0})
  unfolding Cache.new
  resize_cache n = modify λ (t, s).
      (record t { cache = take n t.cache ++ replicate (n - length t.cache) (Cache.new s) }, s)

  -- `self.nblocks += 1`
  pub inc_nblocks : OnTree (Unit {0})
  inc_nblocks = modify (λ (t, s). (record t { nblocks = (t.nblocks + 1) % 2 ^ 64 }, s))

  pub lookup_direct : ℕ → Bool → OnTree BlockId
  unfolding inc_nblocks
  lookup_direct idx aquire (t, s) = elim (get_elem? t.direct idx) [
    | none ↦ abort (t, s)
    | some old ↦
        let take_block : OnTree BlockId = do
          id ← on_pager Pager.aquire
          modify (λ (t, s). (record t { direct = set t.direct idx id }, s))
          inc_nblocks
          pure id
        in if aquire
          then (if is_null old then take_block (t, s) else pure old (t, s))
          else pure old (t, s)
  ]

  -- The last level: take the block of the entry, and count it unless the entry was there already.
  pub aquire_leaf : ℕ → ℕ → Bool → OnTree BlockId
  unfolding inc_nblocks entry_at
  aquire_leaf level idx aquire = do
    if aquire
        then (do
          added ← on_cache level (Cache.aquire idx true)
          if added then inc_nblocks else pure tt)
        else pure tt
    entry_at level idx

  -- A level above: `none` if the entry is null and nothing is to be aquired.
  pub aquire_inner : ℕ → ℕ → Bool → OnTree (Option BlockId)
  unfolding entry_at
  aquire_inner level idx aquire =
      if aquire
      then (do on_cache level (Cache.aquire idx false); id ← entry_at level idx; pure (some id))
      else do id ← entry_at level idx; if is_null id then pure none else pure (some id)

  pub ensure_indirect : OnTree BlockId
  ensure_indirect (t, s) =
      let take_node : OnTree BlockId = do
        id ← on_pager Node.aquire
        modify (λ (t, s). (record t { indirect = id }, s))
        pure id
      in if is_null t.indirect then take_node (t, s) else pure t.indirect (t, s)

  pub ensure_d_indirect : OnTree BlockId
  ensure_d_indirect (t, s) =
      let take_node : OnTree BlockId = do
        id ← on_pager Node.aquire
        modify (λ (t, s). (record t { d_indirect = id }, s))
        pure id
      in if is_null t.d_indirect then take_node (t, s) else pure t.d_indirect (t, s)

  pub ensure_t_indirect : OnTree BlockId
  ensure_t_indirect (t, s) =
      let take_node : OnTree BlockId = do
        id ← on_pager Node.aquire
        modify (λ (t, s). (record t { t_indirect = id }, s))
        pure id
      in if is_null t.t_indirect then take_node (t, s) else pure t.t_indirect (t, s)

  pub lookup_indirect : ℕ → Bool → OnTree BlockId
  unfolding ensure_indirect resize_cache aquire_leaf
  lookup_indirect idx aquire = do
    top ← ensure_indirect
    resize_cache 1
    on_cache 0 (Cache.refresh top)
    aquire_leaf 0 idx aquire

  pub lookup_d_indirect : ℕ → Bool → OnTree BlockId
  unfolding ensure_d_indirect resize_cache aquire_leaf aquire_inner
  lookup_d_indirect idx aquire = do
    ipn ← gets (λ s. ids_per_node s.1.inner)
    top ← ensure_d_indirect
    resize_cache 2
    on_cache 0 (Cache.refresh top)
    inner ← aquire_inner 0 (idx / ipn % ipn) aquire
    elim inner [
      | none ↦ entry_at 0 (idx / ipn % ipn)
      | some id ↦ on_cache 1 (Cache.refresh id) >> aquire_leaf 1 (idx % ipn) aquire
    ]

  pub lookup_t_indirect : ℕ → Bool → OnTree BlockId
  unfolding ensure_t_indirect resize_cache aquire_leaf aquire_inner
  lookup_t_indirect idx aquire = do
    ipn ← gets (λ s. ids_per_node s.1.inner)
    top ← ensure_t_indirect
    resize_cache 3
    on_cache 0 (Cache.refresh top)
    outer ← aquire_inner 0 (idx / (ipn * ipn) % ipn) aquire
    elim outer [
      | none ↦ entry_at 0 (idx / (ipn * ipn) % ipn)
      | some id ↦
          on_cache 1 (Cache.refresh id)
          >> (aquire_inner 1 (idx / ipn % ipn) aquire >>= λ inner. elim inner [
            | none ↦ entry_at 1 (idx / ipn % ipn)
            | some id' ↦ on_cache 2 (Cache.refresh id') >> aquire_leaf 2 (idx % ipn) aquire
          ])
    ]

  pub lookup_cache : ℕ → Bool → OnTree BlockId
  lookup_cache idx aquire = do
    ipn ← gets (λ s. ids_per_node s.1.inner)
    if ltb idx num_direct
        then lookup_direct idx aquire
        else if ltb idx (num_direct + ipn)
        then lookup_indirect (idx - num_direct) aquire
        else if ltb idx (num_direct + ipn + ipn * ipn)
        then lookup_d_indirect (idx - num_direct - ipn) aquire
        else lookup_t_indirect (idx - num_direct - ipn - ipn * ipn) aquire

  unfoldable pub aquire : OnTree BlockId
  aquire = do
    ipn ← gets (λ s. ids_per_node s.1.inner)
    n ← gets (λ s. s.0.nblocks)
    if ltb n ((num_direct + ipn + ipn * ipn + ipn * ipn * ipn) % 2 ^ 64)
        then lookup_cache n true
        else raise full

  -- `None` is `none`, and an error in `Some(Err(..))` is the error of the run.
  unfoldable pub lookup : ℕ → OnTree (Option BlockId)
  lookup idx = do
    n ← gets (λ s. s.0.nblocks)
    if ltb idx n
        then (do id ← lookup_cache idx false; if is_null id then pure none else pure (some id))
        else pure none
