-- ===== src/Tree/Forest/Listed.antt =====
-- `lookup` of the tree: the block of an index (tree.rs).
use native.Mathlib.Decide.{dec_lt}
use nuts_archive.Prelude.{
  ℕ, ◌+◌, ◌-◌, ◌*◌, ◌<◌, ◌≡◌, ◌≢◌, sym, ap, ◌∙◌, false, some, List, [], ◌∷◌, length, get_elem?,
  arith, get_elem?-some, get_elem?-none, get_elem?-lt, lt→ltb, le→ltb, subst,
}
use native.Mathlib.Nat.{mod-eq_of_lt}
use nuts_archive.Outcome.Ensures.{Ensures, done, bind}
use nuts_archive.Error.{IsFailure}
use nuts_archive.Pager.{Pager}
use nuts_archive.Platform.{Platform}
use nuts_archive.Platform.Laws.{Laws}
use nuts_archive.Tree.{
  Tree, lookup_indirect, lookup_d_indirect, lookup_t_indirect, lookup_cache, lookup,
}
use nuts_archive.Tree.Node.{ids_per_node}
use nuts_archive.Tree.Routes.Digits.{low_digit, high_digits, highest_digit, two_digits-lt}
use nuts_archive.Tree.Routes.Lookup.{is_null_false}
use nuts_archive.Tree.Forest.{
  pointers, Root, direct, single, double, triple, depth, index, Place, Walk,
}
use nuts_archive.Tree.Forest.Walks.{Walk-end}
use nuts_archive.Tree.Forest.Ready.{IsReady, Reread}
use nuts_archive.Tree.Forest.Look.{Finds}
use nuts_archive.Tree.Forest.Lookup.{
  start, entry-lt, direct_found, indirect_found, d_indirect_found, t_indirect_found,
}

module _ ⦃p : Platform⦄ (l : Laws p) where
  open p use {BlockId, Container, null, is_null}

  module _ (ids : List BlockId) (t : Tree BlockId) (s : Pager Container)
      (ready : IsReady l ids (t, s)) where
    abbrev ipn : ℕ
    ipn = ids_per_node s.inner

    at_single :
        (x : ℕ) (b : BlockId)
        → x < ipn
        → Finds l ids t s b (lookup_indirect x false (t, s))
        → Finds l ids t s b (lookup_cache (12 + x) false (t, s))
    unfolding lookup_cache
    at_single x b lt found =
        let back : 12 + x - 12 ≡ x = omega arith in
        rw (le→ltb (12 + x) 12 (omega arith), lt→ltb (12 + x) (12 + ipn) (omega (arith, lt)), back)
          found

    at_double :
        (x : ℕ) (b : BlockId)
        → x < ipn * ipn
        → Finds l ids t s b (lookup_d_indirect x false (t, s))
        → Finds l ids t s b (lookup_cache (12 + ipn + x) false (t, s))
    unfolding lookup_cache
    at_double x b lt found =
        let back : 12 + ipn + x - 12 - ipn ≡ x = omega arith in
        rw
          (
            le→ltb (12 + ipn + x) 12 (omega arith),
            le→ltb (12 + ipn + x) (12 + ipn) (omega arith),
            lt→ltb (12 + ipn + x) (12 + ipn + ipn * ipn) (omega (arith, lt)),
            back,
          )
          found

    at_triple :
        (x : ℕ) (b : BlockId)
        → Finds l ids t s b (lookup_t_indirect x false (t, s))
        → Finds l ids t s b (lookup_cache (12 + ipn + ipn * ipn + x) false (t, s))
    unfolding lookup_cache
    at_triple x b found =
        let back : 12 + ipn + ipn * ipn + x - 12 - ipn - ipn * ipn ≡ x = omega arith in
        rw
          (
            le→ltb (12 + ipn + ipn * ipn + x) 12 (omega arith),
            le→ltb (12 + ipn + ipn * ipn + x) (12 + ipn) (omega arith),
            le→ltb (12 + ipn + ipn * ipn + x) (12 + ipn + ipn * ipn) (omega arith),
            back,
          )
          found

    double_found :
        (i j : ℕ) (b : BlockId)
        → Walk l s.inner t.d_indirect (i ∷ j ∷ []) b
        → Finds l ids t s b (lookup_cache (12 + ipn + (i * ipn + j)) false (t, s))
    double_found i j b w =
        let (ne, (node, n, (id, got, (ne', (node', n', (id', got', _)))))) = w in
        let hi = entry-lt l ids t s ready t.d_indirect id i node n got in
        let hj = entry-lt l ids t s ready id id' j node' n' got' in
        let some_ids = ready.forest.some_ids in
        at_double (i * ipn + j) b (two_digits-lt ipn some_ids ipn i j hi hj) (
          d_indirect_found l ids t s ready (i * ipn + j) b (
            rw (high_digits ipn some_ids i j hj, mod-eq_of_lt hi, low_digit ipn some_ids i j hj) w))

    triple_found :
        (i j k : ℕ) (b : BlockId)
        → Walk l s.inner t.t_indirect (i ∷ j ∷ k ∷ []) b
        → Finds l ids t s b
            (lookup_cache (12 + ipn + ipn * ipn + ((i * ipn + j) * ipn + k)) false (t, s))
    triple_found i j k b w =
        let (
          ne,
          (node, n, (id, got, (ne', (node', n', (id', got', (ne2, (node2, n2, (id2, got2, _)))))))),
        ) =
          w in
        let hi = entry-lt l ids t s ready t.t_indirect id i node n got in
        let hj = entry-lt l ids t s ready id id' j node' n' got' in
        let hk = entry-lt l ids t s ready id' id2 k node2 n2 got2 in
        let some_ids = ready.forest.some_ids in
        at_triple ((i * ipn + j) * ipn + k) b (
          t_indirect_found l ids t s ready ((i * ipn + j) * ipn + k) b (
            rw
              (
                highest_digit ipn some_ids i j k hj hk,
                mod-eq_of_lt hi,
                high_digits ipn some_ids (i * ipn + j) k hk,
                low_digit ipn some_ids i j hj,
                low_digit ipn some_ids (i * ipn + j) k hk,
              )
              w))

    -- The way to a block is the one that its index is taken apart to.
    placed_found :
        (r : Root) (way : List ℕ) (b : BlockId)
        → Place l s.inner (pointers t) r way b
        → length way ≡ depth r
        → Finds l ids t s b (lookup_cache (index ipn r way) false (t, s))
    unfolding lookup_cache
    placed_found (direct i) [] b h whole =
        let lt : i < 12 =
          omega (arith, get_elem?-lt t.direct i h.top h.root_at, ready.forest.direct_full) in
        rw (lt→ltb i 12 lt) (direct_found l ids t s ready i b (h.root_at ∙ ap some h.walk.1))
    placed_found single (i ∷ []) b h whole =
        let w : Walk l s.inner t.indirect (i ∷ []) b =
          subst (λ x. Walk l s.inner x (i ∷ []) b) (sym h.root_at) h.walk in
        let (ne, (node, n, (id, got, _))) = w in
        at_single i b (entry-lt l ids t s ready t.indirect id i node n got)
          (indirect_found l ids t s ready i b w)
    placed_found double (i ∷ j ∷ []) b h whole =
        double_found i j b (subst (λ x. Walk l s.inner x (i ∷ j ∷ []) b) (sym h.root_at) h.walk)
    placed_found triple (i ∷ j ∷ k ∷ []) b h whole =
        triple_found i j k b
          (subst (λ x. Walk l s.inner x (i ∷ j ∷ k ∷ []) b) (sym h.root_at) h.walk)
    placed_found (direct i) (j ∷ way) b h whole = absurd (omega (arith, whole))
    placed_found single [] b h whole = absurd (omega (arith, whole))
    placed_found single (i ∷ j ∷ way) b h whole = absurd (omega (arith, whole))
    placed_found double [] b h whole = absurd (omega (arith, whole))
    placed_found double (i ∷ []) b h whole = absurd (omega (arith, whole))
    placed_found double (i ∷ j ∷ k ∷ way) b h whole = absurd (omega (arith, whole))
    placed_found triple [] b h whole = absurd (omega (arith, whole))
    placed_found triple (i ∷ []) b h whole = absurd (omega (arith, whole))
    placed_found triple (i ∷ j ∷ []) b h whole = absurd (omega (arith, whole))
    placed_found triple (i ∷ j ∷ k ∷ m ∷ way) b h whole = absurd (omega (arith, whole))

  pub lookup-Listed :
      (ids : List BlockId) (t : Tree BlockId) (s : Pager Container) (k : ℕ)
      → IsReady l ids (t, s)
      → t.nblocks ≡ length ids
      → Ensures
          (λ r q'. (r ≡ get_elem? ids k) × IsReady l ids q' × Reread l (t, s) q')
          (λ e _. IsFailure e)
          (lookup k (t, s))
  unfolding lookup
  lookup-Listed ids t s k ready count = elim (dec_lt k t.nblocks) [
    | no h ↦
        rw (le→ltb k t.nblocks (omega arith))
          (done (sym (get_elem?-none ids k (omega arith)), ready, (start l ids t s ready).1))
    | yes h ↦
        let (b, at) = get_elem?-some ids k (omega arith) in
        let (r, (way, place, whole, here)) = ready.forest.placed k b at in
        let not_null : b ≢ null = Walk-end l s.inner place.top b way place.walk in
        rw (lt→ltb k t.nblocks h) (
          bind
            (subst (λ x. Finds l ids t s b (lookup_cache x false (t, s))) here
              (placed_found ids t s ready r way b place whole))
            (λ id q (e, after).
              rw (e, is_null_false l b not_null) (done (sym at, after.0, after.1)))
            (λ e q w. w))
  ]
