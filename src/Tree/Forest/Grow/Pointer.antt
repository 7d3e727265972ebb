-- ===== src/Tree/Forest/Grow/Pointer.antt =====
-- A null pointer of the tree is set to a block that was not allocated before (tree.rs).
use nuts_archive.Prelude.{
  ℕ, ◌+◌, ◌≤◌, ◌<◌, ◌≡◌, ◌≢◌, refl, sym, ap, ◌∙◌, ◌⊎◌, inl, inr, true, false, List, [], ◌∷◌, length,
  get_elem?, arith, subst, get_elem?-replicate, replicate, ◌==◌, ==_iff, Bool-cases,
}
use nuts_archive.Pager.Blocks.{contents}
use nuts_archive.Platform.{Platform}
use nuts_archive.Platform.Laws.{Laws}
use nuts_archive.Tree.Node.{ids_per_node}
use nuts_archive.Tree.Node.Stored.{NodeAt, NodeAt-eq}
use nuts_archive.Tree.Forest.{
  Pointers, Root, direct, single, double, triple, depth, RootAt, Walk, IsForest,
}
use nuts_archive.Tree.Forest.Walks.{Walk-not_null}
use nuts_archive.Tree.Forest.Nodes.{SameNodes, Walk-kept, Walk-back}
use nuts_archive.Tree.Forest.Grow.{NewPlace}

-- A root that tells the roots of one kind apart from the others.
abbrev number : Root → ℕ
number (direct i) = 3 + i
number single = 0
number double = 1
number triple = 2

number_injective : (r r' : Root) → number r ≡ number r' → r ≡ r'
number_injective (direct i) (direct j) e = ap direct (omega (arith, e))
number_injective (direct i) single e = absurd (omega (arith, e))
number_injective (direct i) double e = absurd (omega (arith, e))
number_injective (direct i) triple e = absurd (omega (arith, e))
number_injective single (direct j) e = absurd (omega (arith, e))
number_injective single single e = refl
number_injective single double e = absurd (omega (arith, e))
number_injective single triple e = absurd (omega (arith, e))
number_injective double (direct j) e = absurd (omega (arith, e))
number_injective double single e = absurd (omega (arith, e))
number_injective double double e = refl
number_injective double triple e = absurd (omega (arith, e))
number_injective triple (direct j) e = absurd (omega (arith, e))
number_injective triple single e = absurd (omega (arith, e))
number_injective triple double e = absurd (omega (arith, e))
number_injective triple triple e = refl

root_cases : (r r' : Root) → (r ≡ r') ⊎ (r ≢ r')
root_cases r r' = elim (Bool-cases (number r == number r')) [
  | inl e ↦ inl (number_injective r r' ((==_iff (number r) (number r')).0 e))
  | inr ne ↦ inr (λ e.
      let hit : (number r == number r') ≡ true = (==_iff (number r) (number r')).1 (ap number e) in
      cc)
]

module _ ⦃p : Platform⦄ (l : Laws p) where
  open p use {BlockId, Container, null}

  pub record PointerSet (c : Container) (t : Pointers BlockId) (c' : Container)
      (t' : Pointers BlockId) (r0 : Root) (b0 : BlockId) : Type 0 where
    pub was_null : (id : BlockId) → RootAt t r0 id → id ≡ null
    pub now : RootAt t' r0 b0
    pub only : (id : BlockId) → RootAt t' r0 id → id ≡ b0
    pub others : (r : Root) (id : BlockId) → r ≢ r0 → RootAt t r id → RootAt t' r id
    pub others_back : (r : Root) (id : BlockId) → r ≢ r0 → RootAt t' r id → RootAt t r id
    pub not_null : b0 ≢ null
    pub unused : l.blocks.live c b0 ≡ false
    pub now_live : l.blocks.live c' b0 ≡ true
    pub still_live : (j : BlockId) → l.blocks.live c j ≡ true → l.blocks.live c' j ≡ true
    pub kept : (j : BlockId) → l.blocks.live c j ≡ true → contents l c' j ≡ contents l c j
    pub same_ids : ids_per_node c' ≡ ids_per_node c
    pub null_node : 0 < depth r0 → NodeAt l c' b0 (replicate (ids_per_node c) null)

  module _ {c c' : Container} {t t' : Pointers BlockId} {r0 : Root} {b0 : BlockId}
      (s : PointerSet c t c' t' r0 b0) {ids : List BlockId} (f : IsForest l c t ids) where
    same_nodes : SameNodes l c t c'
    same_nodes r way b h _ = s.kept b (f.live r way b h)

    below_new :
        (way : List ℕ) (b : BlockId)
        → length way ≤ depth r0
        → Walk l c' b0 way b
        → (way ≡ []) × (b ≡ b0)
    below_new [] b short (ne, e) = (refl, sym e)
    below_new (j ∷ way) b short (ne, (node, n, (id, got, rest))) =
        let nulls : node ≡ replicate (ids_per_node c) null =
          NodeAt-eq l c' b0 n (s.null_node (omega (arith, short))) in
        let null_id : id ≡ null =
          get_elem?-replicate (ids_per_node c) null j id
            (ap (λ m. get_elem? m j) (sym nulls) ∙ got) in
        absurd (Walk-not_null l c' id b way rest null_id)

    pub pointer-NewPlace : NewPlace l c t c' t' r0 [] b0
    pointer-NewPlace = record {
      back = λ r way b h. elim (root_cases r r0) [
        | inl e ↦
            let is_new : h.top ≡ b0 = s.only h.top (subst (λ r. RootAt t' r h.top) e h.root_at) in
            let (done, last) =
              below_new way b (omega (arith, h.short, ap depth e))
                (subst (λ x. Walk l c' x way b) is_new h.walk) in
            inr (e, done, last)
        | inr ne ↦
            let at = s.others_back r h.top ne h.root_at in
            inl (record {
              short = h.short;
              top = h.top;
              root_at = at;
              walk =
                  Walk-back l s.same_ids same_nodes r [] way h.top h.top b at
                    (Walk-not_null l c' h.top b way h.walk, refl) (omega (arith, h.short)) h.walk;
            })
      ];
      forth = λ r way b h. elim (root_cases r r0) [
        | inl e ↦ absurd (
            Walk-not_null l c h.top b way h.walk
              (s.was_null h.top (subst (λ r. RootAt t r h.top) e h.root_at)))
        | inr ne ↦ record {
          short = h.short;
          top = h.top;
          root_at = s.others r h.top ne h.root_at;
          walk =
              Walk-kept l s.same_ids same_nodes r [] way h.top h.top b h.root_at
                (Walk-not_null l c h.top b way h.walk, refl) (omega (arith, h.short)) h.walk;
        }
      ];
      new = record { short = omega arith; top = b0; root_at = s.now; walk = (s.not_null, refl) };
      still_node = λ j node h n. (node, rw (s.same_ids, s.kept j h) n);
      new_node = λ lt. (replicate (ids_per_node c) null, s.null_node (omega (arith, lt)));
      unused = s.unused;
      now_live = s.now_live;
      still_live = s.still_live;
    }
