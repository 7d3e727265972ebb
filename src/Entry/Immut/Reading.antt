-- ===== src/Entry/Immut/Reading.antt =====
-- What `read` takes from the block at the end of a route (entry/immut.rs).
use nuts_archive.Prelude.{
  ℕ, ◌+◌, ◌-◌, ◌*◌, ◌≤◌, ◌≡◌, ◌≢◌, ◌⊎◌, List, [], take, drop, replicate, min,
}
use nuts_archive.Outcome.{Outcome}
use nuts_archive.Outcome.Ensures.{Ensures}
use nuts_archive.Error.{Error}
use nuts_archive.Pager
use nuts_archive.Pager.{Pager}
use nuts_archive.Pager.Blocks.{contents}
use nuts_archive.Platform.{Platform}
use nuts_archive.Platform.Laws.{Laws, Unchanged}
use nuts_archive.Tree
use nuts_archive.Tree.{Tree}
use nuts_archive.Tree.Routes.{Route, Steady}
use nuts_archive.Entry.Inner.{Inner}
use nuts_archive.Entry.Immut.{InnerEntry}

module _ ⦃p : Platform⦄ (l : Laws p) where
  open p use {BlockId, Container, Time, null, block_size}

  module _ (t : Tree BlockId) (s : Pager Container) (st : Steady l s.inner t (t, s)) where
    -- The block with the next bytes, and how many of them are content.
    abbrev pub next_block : InnerEntry Time → ℕ
    next_block e = e.idx + e.ridx + 1

    abbrev pub next_bytes : InnerEntry Time → ℕ
    next_bytes e = min (e.inner.size - e.ridx * block_size s.inner) (block_size s.inner)

    -- The entry after a read: the bytes of a block, the first of them returned and the others kept.
    pub record Took (e : InnerEntry Time) (wanted : ℕ) (d : List ℕ) (e' : InnerEntry Time)
        : Type 0 where
      pub block : BlockId
      pub not_null : block ≢ null
      pub route : Route l s.inner t (next_block e) block
      pub returned :
          d ≡ take (min (next_bytes e) wanted) (take (next_bytes e) (contents l s.inner block))
      pub kept :
          e'.rcache
          ≡ drop (min (next_bytes e) wanted) (take (next_bytes e) (contents l s.inner block))
      pub advanced : e'.ridx ≡ e.ridx + 1

    -- What a read with an empty cache may do.
    abbrev pub Reads :
        InnerEntry Time
        → ℕ
        → Outcome (Error BlockId p.Failure) (List ℕ)
          × (InnerEntry Time × Tree BlockId × Pager Container)
        → Type 0
    Reads e wanted =
        Ensures
          (λ d r.
            (((d ≡ []) × ((t.nblocks ≤ next_block e) ⊎ Route l s.inner t (next_block e) null))
              ⊎ Took e wanted d r.0)
            × Unchanged l.blocks s.inner r.2.inner)
          (λ _ r. Unchanged l.blocks s.inner r.2.inner)

    abbrev filled_with_zeros : InnerEntry Time → InnerEntry Time
    filled_with_zeros e = record e { rcache = replicate (next_bytes e) 0 }
