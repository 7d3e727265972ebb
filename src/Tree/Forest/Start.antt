-- ===== src/Tree/Forest/Start.antt =====
-- The tree of a new archive (tree.rs).
use nuts_archive.Prelude.{ℕ, ◌<◌, ◌≡◌, sym, List, [], get_elem?-replicate, length-replicate}
use nuts_archive.Pager.{Pager}
use nuts_archive.Pager.Blocks.{IsPager}
use nuts_archive.Platform.{Platform}
use nuts_archive.Platform.Laws.{Laws}
use nuts_archive.Tree
use nuts_archive.Tree.Node.{ids_per_node}
use nuts_archive.Tree.Forest.{pointers, Root, direct, single, double, triple, RootAt, Place}
use nuts_archive.Tree.Forest.Walks.{Walk-not_null}
use nuts_archive.Tree.Forest.Ready.{IsReady}

module _ ⦃p : Platform⦄ (l : Laws p) where
  open p use {BlockId, Container, null}

  null_root : (r : Root) (top : BlockId) → RootAt (pointers Tree.new) r top → top ≡ null
  unfolding Tree.new
  null_root (direct i) top at = get_elem?-replicate 12 null i top at
  null_root single top at = sym at
  null_root double top at = sym at
  null_root triple top at = sym at

  pub new_empty :
      (c : Container) (r : Root) (way : List ℕ) (b : BlockId)
      → Place l c (pointers Tree.new) r way b
      → ⊥
  new_empty c r way b h = Walk-not_null l c h.top b way h.walk (null_root r h.top h.root_at)

  -- The new tree holds no block, over any container whose blocks hold an id.
  pub new-IsReady :
      (s : Pager Container) → IsPager s → 0 < ids_per_node s.inner → IsReady l [] (Tree.new, s)
  unfolding Tree.new
  new-IsReady s is pos = record {
    forest = record {
      direct_full = length-replicate 12 null;
      some_ids = pos;
      apart = λ r r' way way' b h h'. absurd (new_empty s.inner r way b h);
      live = λ r way b h. absurd (new_empty s.inner r way b h);
      nodes = λ r way b h above. absurd (new_empty s.inner r way b h);
      bounded = λ r way b h whole. absurd (new_empty s.inner r way b h);
      placed = λ k b at. absurd cc;
    };
    is_pager = is;
    cached = λ level k at. absurd cc;
  }
