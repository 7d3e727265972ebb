-- ===== src/Tree/Forest/Grow.antt =====
-- One more place in the forest (tree.rs).
pub mod Entry
pub mod Pointer
use nuts_archive.Prelude.{
  ℕ, suc, ◌+◌, ◌≤◌, ◌<◌, ◌≡◌, ◌≢◌, refl, sym, ap, ◌∙◌, ◌⊎◌, inl, inr, true, false, some, List, [],
  ◌∷◌, ◌++◌, length, get_elem?, arith, subst, length-append, get_elem?-snoc,
}
use nuts_archive.Pager.Blocks.{contents}
use nuts_archive.Platform.{Platform}
use nuts_archive.Platform.Laws.{Laws, Unchanged}
use nuts_archive.Tree.Node.{ids_per_node}
use nuts_archive.Tree.Node.Stored.{NodeAt}
use nuts_archive.Tree.Forest.Walks.{Place-Unchanged, Unchanged-sym}
use nuts_archive.Tree.Forest.{Pointers, Root, depth, index, Place, IsForest}

module _ ⦃p : Platform⦄ (l : Laws p) where
  open p use {BlockId, Container, block_size}

  -- The block `b0` is new at its place, and was not allocated before; the other places are the same.
  pub record NewPlace (c : Container) (t : Pointers BlockId) (c' : Container)
      (t' : Pointers BlockId) (r0 : Root) (way0 : List ℕ) (b0 : BlockId) : Type 0 where
    pub back :
        (r : Root) (way : List ℕ) (b : BlockId)
        → Place l c' t' r way b
        → Place l c t r way b ⊎ ((r ≡ r0) × (way ≡ way0) × (b ≡ b0))
    pub forth :
        (r : Root) (way : List ℕ) (b : BlockId) → Place l c t r way b → Place l c' t' r way b
    pub new : Place l c' t' r0 way0 b0
    pub still_node :
        (j : BlockId) (node : List BlockId)
        → l.blocks.live c j ≡ true
        → NodeAt l c j node
        → (node' : List BlockId) × NodeAt l c' j node'
    pub new_node : length way0 < depth r0 → (node : List BlockId) × NodeAt l c' b0 node
    pub unused : l.blocks.live c b0 ≡ false
    pub now_live : l.blocks.live c' b0 ≡ true
    pub still_live : (j : BlockId) → l.blocks.live c j ≡ true → l.blocks.live c' j ≡ true

  module _ {c c' : Container} {t t' : Pointers BlockId} {r0 : Root} {way0 : List ℕ} {b0 : BlockId}
      (g : NewPlace c t c' t' r0 way0 b0) {ids : List BlockId} (f : IsForest l c t ids) where
    old-ne-new : (r : Root) (way : List ℕ) (b : BlockId) → Place l c t r way b → b ≡ b0 → ⊥
    old-ne-new r way b h e =
        let used : l.blocks.live c b0 ≡ true =
          subst (λ x. l.blocks.live c x ≡ true) e (f.live r way b h) in
        let unused : l.blocks.live c b0 ≡ false = g.unused in cc

    grown_apart :
        (r r' : Root) (way way' : List ℕ) (b : BlockId)
        → Place l c' t' r way b
        → Place l c' t' r' way' b
        → (r ≡ r') × (way ≡ way')
    grown_apart r r' way way' b h h' = cases (g.back r way b h) (g.back r' way' b h')
      where
        cases :
            Place l c t r way b ⊎ ((r ≡ r0) × (way ≡ way0) × (b ≡ b0))
            → Place l c t r' way' b ⊎ ((r' ≡ r0) × (way' ≡ way0) × (b ≡ b0))
            → (r ≡ r') × (way ≡ way')
        cases (inl o) (inl o') = f.apart r r' way way' b o o'
        cases (inl o) (inr (_, _, e)) = absurd (old-ne-new r way b o e)
        cases (inr (_, _, e)) (inl o') = absurd (old-ne-new r' way' b o' e)
        cases (inr (e, e1, _)) (inr (e', e1', _)) = (e ∙ sym e', e1 ∙ sym e1')

    grown_live :
        (r : Root) (way : List ℕ) (b : BlockId) → Place l c' t' r way b → l.blocks.live c' b ≡ true
    grown_live r way b h = elim (g.back r way b h) [
      | inl o ↦ g.still_live b (f.live r way b o)
      | inr (_, _, e) ↦ subst (λ x. l.blocks.live c' x ≡ true) (sym e) g.now_live
    ]

    grown_nodes :
        (r : Root) (way : List ℕ) (b : BlockId)
        → Place l c' t' r way b
        → length way < depth r
        → (node : List BlockId) × NodeAt l c' b node
    grown_nodes r way b h above = elim (g.back r way b h) [
      | inl o ↦ let (node, n) = f.nodes r way b o above in g.still_node b node (f.live r way b o) n
      | inr (e, e1, e2) ↦
          let (node, n) = g.new_node (omega (arith, above, ap depth e, ap length e1)) in
          (node, subst (λ x. NodeAt l c' x node) (sym e2) n)
    ]

    module _ (same_ids : ids_per_node c' ≡ ids_per_node c) (full : length t'.direct ≡ 12) where
      -- A new node.
      pub grow-node : length way0 < depth r0 → IsForest l c' t' ids
      grow-node above = record {
        direct_full = full;
        some_ids = omega (arith, same_ids, f.some_ids);
        apart = grown_apart;
        live = grown_live;
        nodes = grown_nodes;
        bounded = λ r way b h whole. elim (g.back r way b h) [
          | inl o ↦ rw same_ids (f.bounded r way b o whole)
          | inr (e, e1, _) ↦ absurd (omega (arith, whole, ap length e1, ap depth e, above))
        ];
        placed = λ k b at.
            let (r, (way, h, whole, i)) = f.placed k b at in
            (r, (way, g.forth r way b h, whole, rw same_ids i));
      }

      -- A new block of the archive, behind the others.
      pub grow-block :
          length way0 ≡ depth r0
          → index (ids_per_node c) r0 way0 ≡ length ids
          → IsForest l c' t' (ids ++ b0 ∷ [])
      grow-block bottom next =
          let more = length-append ids (b0 ∷ []) in
          record {
            direct_full = full;
            some_ids = omega (arith, same_ids, f.some_ids);
            apart = grown_apart;
            live = grown_live;
            nodes = grown_nodes;
            bounded = λ r way b h whole. elim (g.back r way b h) [
              | inl o ↦
                  let old : index (ids_per_node c) r way < length ids = f.bounded r way b o whole in
                  rw same_ids (omega (arith, more))
              | inr (e, e1, _) ↦ rw (same_ids, e, e1, next) (omega (arith, more))
            ];
            placed = λ k b at. elim (get_elem?-snoc ids b0 k b at) [
              | inl old ↦
                  let (r, (way, h, whole, i)) = f.placed k b old in
                  (r, (way, g.forth r way b h, whole, rw same_ids i))
              | inr (last, e) ↦ (
                r0,
                (
                  way0,
                  subst (λ x. Place l c' t' r0 way0 x) e g.new,
                  bottom,
                  rw same_ids (next ∙ sym last),
                ),
              )
            ];
          }

  -- Every place of the block is one of the archive's blocks: it is no node of the tree.
  abbrev pub IsContent : Container → Pointers BlockId → BlockId → Type 0
  IsContent c v j = (r : Root) (way : List ℕ) → Place l c v r way j → length way ≡ depth r

  -- Allocated blocks stay so, and those that are no nodes keep their bytes and get no
  -- other place.
  pub record Grew (c : Container) (v : Pointers BlockId) (c' : Container) (v' : Pointers BlockId)
      : Type 0 where
    pub same_size : block_size c' ≡ block_size c
    pub same_userdata : p.userdata c' ≡ p.userdata c
    pub still_live : (j : BlockId) → l.blocks.live c j ≡ true → l.blocks.live c' j ≡ true
    pub kept :
        (j : BlockId)
        → l.blocks.live c j ≡ true
        → IsContent c v j
        → contents l c' j ≡ contents l c j
    pub no_new_place :
        (j : BlockId)
        → l.blocks.live c j ≡ true
        → (r : Root) (way : List ℕ) → Place l c' v' r way j
        → Place l c v r way j

  pub Grew-trans :
      {c1 c2 c3 : Container} {v1 v2 v3 : Pointers BlockId}
      → Grew c1 v1 c2 v2
      → Grew c2 v2 c3 v3
      → Grew c1 v1 c3 v3
  Grew-trans g h = record {
    same_size = h.same_size ∙ g.same_size;
    same_userdata = h.same_userdata ∙ g.same_userdata;
    still_live = λ j u. h.still_live j (g.still_live j u);
    kept = λ j u n.
        h.kept j (g.still_live j u) (λ r way at. n r way (g.no_new_place j u r way at))
        ∙ g.kept j u n;
    no_new_place =
        λ j u r way at. g.no_new_place j u r way (h.no_new_place j (g.still_live j u) r way at);
  }

  pub Unchanged-Grew :
      {c c' : Container} {v : Pointers BlockId} → Unchanged l.blocks c c' → Grew c v c' v
  Unchanged-Grew {c} {c'} u = record {
    same_size = u.same_size;
    same_userdata = u.same_userdata;
    still_live = λ j h. u.same_live j ∙ h;
    kept = λ j h n. u.same_contents j;
    no_new_place = λ j h r way at. Place-Unchanged l c' c (Unchanged-sym l c c' u) at;
  }

  -- The allocated blocks get no new place.
  pub no_new_place_of :
      {c c' : Container} {v v' : Pointers BlockId} {r0 : Root} {way0 : List ℕ} {b0 : BlockId}
      → NewPlace c v c' v' r0 way0 b0
      → (j : BlockId) → l.blocks.live c j ≡ true
      → (r : Root) (way : List ℕ) → Place l c' v' r way j
      → Place l c v r way j
  no_new_place_of {c} {b0} g j h r way at = elim (g.back r way j at) [
    | inl old ↦ old
    | inr (_, _, e) ↦
        let used : l.blocks.live c b0 ≡ true = subst (λ x. l.blocks.live c x ≡ true) e h in
        let unused : l.blocks.live c b0 ≡ false = g.unused in absurd cc
  ]
