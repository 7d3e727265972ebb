-- ===== src/Tree/Forest/Walks.antt =====
-- Walks from one block to another (tree.rs).
use nuts_archive.Prelude.{
  ℕ, ◌≡◌, ◌≢◌, refl, sym, ◌∙◌, some, List, [], ◌∷◌, ◌++◌, get_elem?, subst, arith,
}
use nuts_archive.Platform.{Platform}
use nuts_archive.Platform.Laws.{Laws, Unchanged}
use nuts_archive.Tree.Node.Stored.{NodeAt, NodeAt-eq, ids_per_node-same}
use nuts_archive.Tree.Routes.Steps.{NodeAt-same}
use nuts_archive.Tree.Forest.{Pointers, Root, Walk, Place, IsForest}

module _ ⦃p : Platform⦄ (l : Laws p) where
  open p use {BlockId, Container, null}

  pub Walk-not_null :
      (c : Container) (top b : BlockId) (way : List ℕ) → Walk l c top way b → top ≢ null
  Walk-not_null c top b [] w = w.0
  Walk-not_null c top b (i ∷ way) w = w.0

  pub Walk-end : (c : Container) (top b : BlockId) (way : List ℕ) → Walk l c top way b → b ≢ null
  Walk-end c top b [] (ne, e) = λ z. ne (e ∙ z)
  Walk-end c top b (i ∷ way) (ne, (node, at, (id, got, w))) = Walk-end c id b way w

  -- One entry more.
  pub Walk-snoc :
      (c : Container) (top b id : BlockId) (way : List ℕ) (i : ℕ) (node : List BlockId)
      → Walk l c top way b
      → NodeAt l c b node
      → get_elem? node i ≡ some id
      → id ≢ null
      → Walk l c top (way ++ i ∷ []) id
  Walk-snoc c top b id [] i node (ne, e) at got ne' =
      (ne, (node, subst (λ x. NodeAt l c x node) (sym e) at, (id, got, (ne', refl))))
  Walk-snoc c top b id (j ∷ way) i node (ne, (node', at', (id', got', w))) at got ne' =
      (ne, (node', at', (id', got', Walk-snoc c id' b id way i node w at got ne')))

  -- A way leads to one block only.
  pub Walk-unique :
      (c : Container) (top b b' : BlockId) (way : List ℕ)
      → Walk l c top way b
      → Walk l c top way b'
      → b ≡ b'
  Walk-unique c top b b' [] (ne, e) (ne', e') = sym e ∙ e'
  Walk-unique c top b b' (i ∷ way) (ne, (node, at, (id, got, w)))
        (ne', (node', at', (id', got', w'))) =
      let same : node ≡ node' = NodeAt-eq l c top at at' in
      let same_id : id ≡ id' = cc in
      Walk-unique c id b b' way w (subst (λ x. Walk l c x way b') (sym same_id) w')

  -- Walks and places when no block has changed.
  pub Walk-Unchanged :
      (c c' : Container) (top b : BlockId) (way : List ℕ)
      → Unchanged l.blocks c c'
      → Walk l c top way b
      → Walk l c' top way b
  Walk-Unchanged c c' top b [] u w = w
  Walk-Unchanged c c' top b (i ∷ way) u (ne, (node, n, (id, got, w))) =
      (ne, (node, NodeAt-same l c c' top node u n, (id, got, Walk-Unchanged c c' id b way u w)))

  pub Place-Unchanged :
      (c c' : Container) {v : Pointers BlockId} {r : Root} {way : List ℕ} {b : BlockId}
      → Unchanged l.blocks c c'
      → Place l c v r way b
      → Place l c' v r way b
  Place-Unchanged c c' {v} {r} {way} {b} u h = record {
    short = h.short;
    top = h.top;
    root_at = h.root_at;
    walk = Walk-Unchanged c c' h.top b way u h.walk;
  }

  pub Unchanged-sym : (c c' : Container) → Unchanged l.blocks c c' → Unchanged l.blocks c' c
  Unchanged-sym c c' u = record {
    same_size = sym u.same_size;
    same_userdata = sym u.same_userdata;
    same_contents = λ j. sym (u.same_contents j);
    same_live = λ j. sym (u.same_live j);
  }

  pub IsForest-Unchanged :
      (c c' : Container) {v : Pointers BlockId} {ids : List BlockId}
      → Unchanged l.blocks c c'
      → IsForest l c v ids
      → IsForest l c' v ids
  IsForest-Unchanged c c' {v} {ids} u f =
      let back = Unchanged-sym c c' u in
      let same = ids_per_node-same l c c' u.same_size in
      record {
        direct_full = f.direct_full;
        some_ids = omega (arith, same, f.some_ids);
        apart = λ r r' way way' b h h'.
            f.apart r r' way way' b (Place-Unchanged c' c back h) (Place-Unchanged c' c back h');
        live = λ r way b h. u.same_live b ∙ f.live r way b (Place-Unchanged c' c back h);
        nodes = λ r way b h above.
            let (node, n) = f.nodes r way b (Place-Unchanged c' c back h) above in
            (node, NodeAt-same l c c' b node u n);
        bounded =
            λ r way b h whole. rw same (f.bounded r way b (Place-Unchanged c' c back h) whole);
        placed = λ k b at.
            let (r, (way, h, whole, i)) = f.placed k b at in
            (r, (way, Place-Unchanged c c' u h, whole, rw same i));
      }
