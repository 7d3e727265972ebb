-- ===== src/Tree/Forest/Nodes.antt =====
-- Walks when the nodes are the same and other blocks may differ (tree.rs).
use nuts_archive.Prelude.{
  ℕ, ◌+◌, ◌≤◌, ◌<◌, ◌≡◌, refl, ◌∙◌, List, [], ◌∷◌, ◌++◌, length, length-append, arith,
}
use nuts_archive.Pager.Blocks.{contents}
use nuts_archive.Platform.{Platform}
use nuts_archive.Platform.Laws.{Laws}
use nuts_archive.Tree.Node.{ids_per_node}
use nuts_archive.Tree.Node.Stored.{NodeAt}
use nuts_archive.Tree.Forest.{Pointers, Root, RootAt, depth, Walk, Place, IsForest}
use nuts_archive.Tree.Forest.Walks.{Walk-not_null, Walk-snoc}

module _ ⦃p : Platform⦄ (l : Laws p) where
  open p use {BlockId, Container, null}

  -- The blocks of the nodes hold the same bytes.
  abbrev pub SameNodes : Container → Pointers BlockId → Container → Type 0
  SameNodes c v c' =
      (r : Root) (way : List ℕ) (b : BlockId)
      → Place l c v r way b
      → length way < depth r
      → contents l c' b ≡ contents l c b

  module _ {c c' : Container} {v : Pointers BlockId} (same_ids : ids_per_node c' ≡ ids_per_node c)
      (same : SameNodes c v c') where
    pub Walk-kept :
        (r : Root) (pre suf : List ℕ) (top mid b : BlockId)
        → RootAt v r top
        → Walk l c top pre mid
        → length pre + length suf ≤ depth r
        → Walk l c mid suf b
        → Walk l c' mid suf b
    Walk-kept r pre [] top mid b at w short h = h
    Walk-kept r pre (j ∷ suf) top mid b at w short (ne, (node, n, (id, got, rest))) =
        let bytes : contents l c' mid ≡ contents l c mid =
          same r pre mid
            (record { short = omega (arith, short); top = top; root_at = at; walk = w })
            (omega (arith, short)) in
        let next : Walk l c top (pre ++ j ∷ []) id =
          Walk-snoc l c top mid id pre j node w n got (Walk-not_null l c id b suf rest) in
        let rest' : Walk l c' id suf b =
          Walk-kept r (pre ++ j ∷ []) suf top id b at next
            (omega (arith, short, length-append pre (j ∷ []))) rest in
        (ne, (node, rw (same_ids, bytes) n, (id, got, rest')))

    pub Walk-back :
        (r : Root) (pre suf : List ℕ) (top mid b : BlockId)
        → RootAt v r top
        → Walk l c top pre mid
        → length pre + length suf ≤ depth r
        → Walk l c' mid suf b
        → Walk l c mid suf b
    Walk-back r pre [] top mid b at w short h = h
    Walk-back r pre (j ∷ suf) top mid b at w short (ne, (node, n, (id, got, rest))) =
        let bytes : contents l c' mid ≡ contents l c mid =
          same r pre mid
            (record { short = omega (arith, short); top = top; root_at = at; walk = w })
            (omega (arith, short)) in
        let n' : NodeAt l c mid node = rw (← same_ids, ← bytes) n in
        let next : Walk l c top (pre ++ j ∷ []) id =
          Walk-snoc l c top mid id pre j node w n' got (Walk-not_null l c' id b suf rest) in
        let rest' : Walk l c id suf b =
          Walk-back r (pre ++ j ∷ []) suf top id b at next
            (omega (arith, short, length-append pre (j ∷ []))) rest in
        (ne, (node, n', (id, got, rest')))

    pub Place-kept :
        (r : Root) (way : List ℕ) (b : BlockId) → Place l c v r way b → Place l c' v r way b
    Place-kept r way b h = record {
      short = h.short;
      top = h.top;
      root_at = h.root_at;
      walk =
          Walk-kept r [] way h.top h.top b h.root_at (Walk-not_null l c h.top b way h.walk, refl)
            (omega (arith, h.short)) h.walk;
    }

    pub Place-back :
        (r : Root) (way : List ℕ) (b : BlockId) → Place l c' v r way b → Place l c v r way b
    Place-back r way b h = record {
      short = h.short;
      top = h.top;
      root_at = h.root_at;
      walk =
          Walk-back r [] way h.top h.top b h.root_at (Walk-not_null l c' h.top b way h.walk, refl)
            (omega (arith, h.short)) h.walk;
    }

    pub IsForest-kept :
        {ids : List BlockId}
        → ((j : BlockId) → l.blocks.live c' j ≡ l.blocks.live c j)
        → IsForest l c v ids
        → IsForest l c' v ids
    IsForest-kept live f = record {
      direct_full = f.direct_full;
      some_ids = omega (arith, same_ids, f.some_ids);
      apart = λ r r' way way' b h h'.
          f.apart r r' way way' b (Place-back r way b h) (Place-back r' way' b h');
      live = λ r way b h. live b ∙ f.live r way b (Place-back r way b h);
      nodes = λ r way b h above.
          let h0 = Place-back r way b h in
          let (node, n) = f.nodes r way b h0 above in
          (node, rw (same_ids, same r way b h0 above) n);
      bounded = λ r way b h whole. rw same_ids (f.bounded r way b (Place-back r way b h) whole);
      placed = λ k b at.
          let (r, (way, h, whole, i)) = f.placed k b at in
          (r, (way, Place-kept r way b h, whole, rw same_ids i));
    }
