-- ===== src/Tree/Forest/Lookup.antt =====
-- `lookup` below each pointer of the tree (tree.rs).

use nuts_archive.Prelude.{
  ℕ, suc, ◌*◌, ◌/◌, ◌%◌, ◌<◌, ◌≡◌, ◌≢◌, refl, false, some, none, List, [], ◌∷◌, ◌++◌, length-append,
  length, get_elem?, arith, get_elem?-lt,
}
use nuts_archive.Outcome.{and_then, ◌>>=◌, ◌>>◌}
use nuts_archive.Outcome.Ensures.{done, bind}
use nuts_archive.Bytes.Arrays.{length-array_from_bytes}
use nuts_archive.Pager.{Pager}
use nuts_archive.Platform.{Platform}
use nuts_archive.Platform.Laws.{Laws, Unchanged-refl}
use nuts_archive.Tree.{
  Tree, on_cache, entry_at, ensure_indirect, ensure_d_indirect, ensure_t_indirect, aquire_leaf,
  aquire_inner, lookup_direct, lookup_indirect, lookup_d_indirect, lookup_t_indirect,
}
use nuts_archive.Tree.Cache
use nuts_archive.Tree.Node.{ids_per_node}
use nuts_archive.Tree.Node.Stored.{NodeAt}
use nuts_archive.Tree.Routes.Lookup.{is_null_false}
use nuts_archive.Tree.Forest.{pointers, Root, single, double, triple, depth, Place, Walk}
use nuts_archive.Tree.Forest.Walks.{Walk-not_null, Walk-snoc}
use nuts_archive.Tree.Forest.Ready.{IsReady}
use nuts_archive.Tree.Forest.Roots.{at_root}
use nuts_archive.Tree.Forest.Look.{IsAfter, Finds, resized, leaf_found, inner_found}

module _ ⦃p : Platform⦄ (l : Laws p) where
  open p use {BlockId, Container, null, is_null}

  module _ (ids : List BlockId) (t : Tree BlockId) (s : Pager Container)
      (ready : IsReady l ids (t, s)) where
    abbrev ipn : ℕ
    ipn = ids_per_node s.inner

    pub start : IsAfter l ids t s (t, s)
    start = (
      ready,
      record { same_pointers = refl; same_nblocks = refl; unchanged = Unchanged-refl s.inner },
    )

    pub entry-lt :
        (top id : BlockId) (i : ℕ) (node : List BlockId)
        → NodeAt l s.inner top node
        → get_elem? node i ≡ some id
        → i < ipn
    entry-lt top id i node (rest, n) got = omega (
      arith,
      get_elem?-lt node i id got,
      length-array_from_bytes p.block_id.from_bytes ipn _ rest node n,
    )

    pub direct_found :
        (i : ℕ) (b : BlockId)
        → get_elem? t.direct i ≡ some b
        → Finds l ids t s b (lookup_direct i false (t, s))
    unfolding lookup_direct
    direct_found i b at = rw (at, lookup_direct) (done (refl, start))

    pub indirect_found :
        (i : ℕ) (b : BlockId)
        → Walk l s.inner t.indirect (i ∷ []) b
        → Finds l ids t s b (lookup_indirect i false (t, s))
    unfolding lookup_indirect ensure_indirect
    indirect_found i b (ne, (node, n, (id, got, (ne', e)))) = rw (is_null_false l t.indirect ne) (
        bind (resized l ids t s 1 (t, s) start)
          (λ _ q (after, long).
            leaf_found l ids t s 0 i single [] t.indirect node id b
              (at_root l s.inner (pointers t) single t.indirect refl ne) n got refl (omega arith) q
              after (omega (arith, long)) e)
          (λ e q w. w))

    -- The level above the last.
    below_node :
        (level next i j : ℕ) (r : Root) (way : List ℕ) (top b : BlockId)
        (q : Tree BlockId × Pager Container)
        → IsAfter l ids t s q
        → Place l s.inner (pointers t) r way top
        → Walk l s.inner top (i ∷ j ∷ []) b
        → length way ≡ level
        → next ≡ suc level
        → suc next ≡ depth r
        → next < length q.0.cache
        → Finds l ids t s b (
            and_then (on_cache level (Cache.refresh top) q) (λ _.
              aquire_inner level i false >>= λ inner. elim inner [
                | none ↦ entry_at level i
                | some id ↦ on_cache next (Cache.refresh id) >> aquire_leaf next j false
              ]))
    below_node level next i j r way top b q after h
          (ne, (node, n, (id, got, (ne', (node', n', (id', got', (ne'', e))))))) deep one last
          here =
        inner_found l ids t s level i r way top node id b h n got deep (omega (arith, one, last)) _
          q after (omega (arith, one, here)) ne'
          (λ q' after' long.
            leaf_found l ids t s next j r (way ++ i ∷ []) id node' id' b
              (record {
                short = omega (arith, length-append way (i ∷ []), deep, one, last);
                top = h.top;
                root_at = h.root_at;
                walk = Walk-snoc l s.inner h.top top id way i node h.walk n got ne';
              })
              n' got' (omega (arith, length-append way (i ∷ []), deep, one)) (omega (arith, last))
              q' after' (omega (arith, here, long)) e)

    pub d_indirect_found :
        (x : ℕ) (b : BlockId)
        → Walk l s.inner t.d_indirect (x / ipn % ipn ∷ x % ipn ∷ []) b
        → Finds l ids t s b (lookup_d_indirect x false (t, s))
    unfolding lookup_d_indirect ensure_d_indirect
    d_indirect_found x b w =
        let ne = Walk-not_null l s.inner t.d_indirect b (x / ipn % ipn ∷ x % ipn ∷ []) w in
        rw (is_null_false l t.d_indirect ne) (
          bind (resized l ids t s 2 (t, s) start)
            (λ _ q (after, long).
              below_node 0 1 (x / ipn % ipn) (x % ipn) double [] t.d_indirect b q after
                (at_root l s.inner (pointers t) double t.d_indirect refl ne) w refl refl refl
                (omega (arith, long)))
            (λ e q w. w))

    -- The same for three levels.
    below_two_nodes :
        (i j k : ℕ) (b : BlockId) (q : Tree BlockId × Pager Container)
        → IsAfter l ids t s q
        → Walk l s.inner t.t_indirect (i ∷ j ∷ k ∷ []) b
        → length q.0.cache ≡ 3
        → Finds l ids t s b (
            and_then (on_cache 0 (Cache.refresh t.t_indirect) q) (λ _.
              aquire_inner 0 i false >>= λ outer. elim outer [
                | none ↦ entry_at 0 i
                | some id ↦
                    on_cache 1 (Cache.refresh id)
                    >> (aquire_inner 1 j false >>= λ inner. elim inner [
                      | none ↦ entry_at 1 j
                      | some id' ↦ on_cache 2 (Cache.refresh id') >> aquire_leaf 2 k false
                    ])
              ]))
    below_two_nodes i j k b q after (ne, (node, n, (id, got, w))) three =
        let top = at_root l s.inner (pointers t) triple t.t_indirect refl ne in
        let ne' : id ≢ null = Walk-not_null l s.inner id b (j ∷ k ∷ []) w in
        inner_found l ids t s 0 i triple [] t.t_indirect node id b top n got refl (omega arith) _ q
          after (omega (arith, three)) ne'
          (λ q' after' long.
            below_node 1 2 j k triple (i ∷ []) id b q' after'
              (record {
                short = omega arith;
                top = t.t_indirect;
                root_at = refl;
                walk = (ne, (node, n, (id, got, (ne', refl))));
              })
              w refl refl refl (omega (arith, three, long)))

    pub t_indirect_found :
        (x : ℕ) (b : BlockId)
        → Walk l s.inner t.t_indirect (x / (ipn * ipn) % ipn ∷ x / ipn % ipn ∷ x % ipn ∷ []) b
        → Finds l ids t s b (lookup_t_indirect x false (t, s))
    unfolding lookup_t_indirect ensure_t_indirect
    t_indirect_found x b w =
        rw
          (is_null_false l t.t_indirect (
            Walk-not_null l s.inner t.t_indirect b
              (x / (ipn * ipn) % ipn ∷ x / ipn % ipn ∷ x % ipn ∷ []) w))
          (bind (resized l ids t s 3 (t, s) start)
            (λ _ q (after, long).
              below_two_nodes (x / (ipn * ipn) % ipn) (x / ipn % ipn) (x % ipn) b q after w long)
            (λ e q w. w))
