-- ===== src/Tree/Forest/Contents.antt =====
-- A block that is no node is written (entry/mut.rs, lib.rs).
use nuts_archive.Prelude.{ℕ, ◌<◌, ◌≢◌, subst, List, length, arith}
use nuts_archive.Pager.{Pager}
use nuts_archive.Pager.Blocks.{IsPager}
use nuts_archive.Platform.{Platform}
use nuts_archive.Platform.Laws.{Laws, UnchangedBut}
use nuts_archive.Tree.{Tree}
use nuts_archive.Tree.Node.Stored.{ids_per_node-same}
use nuts_archive.Tree.Forest.{pointers, Root, depth, Place}
use nuts_archive.Tree.Forest.Grow.{IsContent}
use nuts_archive.Tree.Forest.Nodes.{SameNodes, Place-kept, Place-back, IsForest-kept}
use nuts_archive.Tree.Forest.Ready.{IsReady}

module _ ⦃p : Platform⦄ (l : Laws p) where
  open p use {BlockId, Container}

  module _ (ids : List BlockId) (t : Tree BlockId) (s s' : Pager Container) (id : BlockId)
      (ready : IsReady l ids (t, s)) (content : IsContent l s.inner (pointers t) id)
      (u : UnchangedBut l.blocks id s.inner s'.inner) where
    not_node :
        (r : Root) (way : List ℕ) (b : BlockId)
        → Place l s.inner (pointers t) r way b
        → length way < depth r
        → b ≢ id
    not_node r way b h above e = absurd (
        omega (arith, above, content r way (subst (λ x. Place l s.inner (pointers t) r way x) e h)))

    same_nodes : SameNodes l s.inner (pointers t) s'.inner
    same_nodes r way b h above = u.same_contents b (not_node r way b h above)

    pub content-IsReady : IsPager s' → IsReady l ids (t, s')
    content-IsReady is =
        let same_ids = ids_per_node-same l s.inner s'.inner u.same_size in
        record {
          forest = IsForest-kept l same_ids same_nodes u.same_live ready.forest;
          is_pager = is;
          cached = λ level k at ne.
              let (n, (r, (way, h, deep, above))) = ready.cached level k at ne in
              (
                rw (same_ids, same_nodes r way k.id h (omega (arith, deep, above))) n,
                (r, (way, Place-kept l same_ids same_nodes r way k.id h, deep, above)),
              );
        }

    pub no_new_place :
        (j : BlockId) (r : Root) (way : List ℕ)
        → Place l s'.inner (pointers t) r way j
        → Place l s.inner (pointers t) r way j
    no_new_place j r way h =
        Place-back l (ids_per_node-same l s.inner s'.inner u.same_size) same_nodes r way j h
