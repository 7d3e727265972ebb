-- ===== src/Examples/Trees.antt =====
-- The theorems of the tree, its nodes and caches at concrete values.
use nuts_archive.Prelude.{◌≡◌, refl, ◌⊎◌, true, false, arith, ap}
use nuts_archive.Outcome.{ok}
use nuts_archive.Outcome.Ensures.{Ensures}
use nuts_archive.Error.{from_bytes_error, bytes, other, IsFailure}
use nuts_archive.Platform.Laws.{Unchanged, UnchangedBut, Grown}
use nuts_archive.Platform.Memory.{
  BlockId, Container, memory, memory_laws, read_block, id_from_bytes,
}
use nuts_archive.Header.Codec.{}
use nuts_archive.Pager
use nuts_archive.Pager.{Pager}
use nuts_archive.Pager.Blocks.{IsPager}
use nuts_archive.Tree
use nuts_archive.Tree.{Tree}
use nuts_archive.Tree.Node
use nuts_archive.Tree.Node.Stored.{NodeAt, Unreadable, flush-NodeAt, aquire-NodeAt, fill-NodeAt}
use nuts_archive.Tree.Cache
use nuts_archive.Tree.Cache.{Cache}
use nuts_archive.Tree.Cache.Added.{AquireResult, aquire-AquireResult}
use nuts_archive.Tree.Cache.Coherent.{refresh-NodeAt, refresh_again}
use nuts_archive.Entry.Mode.Rights.{}
use nuts_archive.Examples.{empty, one_lt, id1, ids, pager4, cache4, damaged, half_filled}

flush-NodeAt_example :
    Ensures
      (λ _ s'.
        NodeAt memory_laws s'.inner id1 ids
        × IsPager s'
        × UnchangedBut memory_laws.blocks id1 (empty 4) s'.inner)
      (λ e s'. IsFailure e × IsPager s' × UnchangedBut memory_laws.blocks id1 (empty 4) s'.inner)
      (Node.flush ids id1 pager4)
unfolding Node.ids_per_node
flush-NodeAt_example = flush-NodeAt memory_laws ids id1 pager4 refl refl

aquire-NodeAt_example :
    Ensures
      (λ id s'.
        NodeAt memory_laws s'.inner id (Node.new pager4)
        × IsPager s'
        × ((c : Container) × Grown memory_laws.blocks id (empty 4) c
            × UnchangedBut memory_laws.blocks id c s'.inner))
      (λ e s'. IsFailure e × IsPager s' × (s'.inner.size ≡ 4))
      (Node.aquire pager4)
aquire-NodeAt_example = aquire-NodeAt memory_laws pager4 refl

fill-NodeAt_example :
    Ensures
      (λ _ q.
        NodeAt memory_laws (empty 4) id1 q.0
        × IsPager q.1
        × Unchanged memory_laws.blocks (empty 4) q.1.inner)
      (λ e q.
        IsPager q.1
        × Unchanged memory_laws.blocks (empty 4) q.1.inner
        × (IsFailure e ⊎ Unreadable memory_laws (empty 4) id1))
      (Node.fill id1 (ids, pager4))
fill-NodeAt_example = fill-NodeAt memory_laws id1 ids pager4 refl

aquire-AquireResult_example :
    Ensures
      (λ added q.
        AquireResult memory_laws true 1 cache4 pager4 added q × IsPager q.1 × (q.1.inner.size ≡ 4))
      (λ e q. IsFailure e × IsPager q.1 × (q.1.inner.size ≡ 4))
      (Cache.aquire 1 true (cache4, pager4))
unfolding Node.ids_per_node
aquire-AquireResult_example =
    aquire-AquireResult memory_laws 1 true cache4 pager4 refl refl (omega arith)

refresh-NodeAt_example :
    Ensures
      (λ fresh q.
        (q.0.id ≡ id1)
        × NodeAt memory_laws (empty 4) id1 q.0.node
        × (fresh ≡ true)
        × IsPager q.1
        × Unchanged memory_laws.blocks (empty 4) q.1.inner)
      (λ e q.
        IsPager q.1
        × Unchanged memory_laws.blocks (empty 4) q.1.inner
        × (IsFailure e ⊎ Unreadable memory_laws (empty 4) id1))
      (Cache.refresh id1 (Cache.new pager4, pager4))
unfolding Cache.new
refresh-NodeAt_example =
    refresh-NodeAt memory_laws id1 (Cache.new pager4) pager4 refl
      (λ e. absurd (omega (arith, ap (λ (i : BlockId). i.0) e)))

refresh_again_example : Cache.refresh id1 half_filled ≡ (ok false, half_filled)
unfolding Cache.refresh Cache.new Node.fill Pager.read_buf Pager.read_buf_raw read_block
    id_from_bytes from_bytes_error one_lt
refresh_again_example =
    refresh_again memory_laws id1 (Cache.new pager4) half_filled.0 damaged half_filled.1
      (bytes other) refl
