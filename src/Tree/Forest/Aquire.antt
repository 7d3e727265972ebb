-- ===== src/Tree/Forest/Aquire.antt =====
-- `aquire` of the tree: one more block behind those of the archive (tree.rs).
use native.Mathlib.Nat.{mod-lt, mod-le, mod-eq_of_lt}
use native.Mathlib.Decide.{dec_lt}
use nuts_archive.Prelude.{
  ℕ, suc, ◌+◌, ◌-◌, ◌*◌, ◌/◌, ◌%◌, ◌^◌, ◌≤◌, ◌<◌, ◌≡◌, refl, ap, ◌∙◌, ◌⊎◌, inl, inr, true, some,
  none, List, [], ◌∷◌, ◌++◌, length, arith, length-append, lt→ltb, le→ltb,
}
use nuts_archive.Outcome.{Outcome, and_then, ◌>>=◌, ◌>>◌}
use nuts_archive.Outcome.Ensures.{Ensures, failed, bind, mono}
use nuts_archive.Error.{Error, IsFailure, full}
use nuts_archive.Pager.{Pager}
use nuts_archive.Platform.{Platform}
use nuts_archive.Platform.Laws.{Laws}
use nuts_archive.Tree.{
  Tree, on_cache, entry_at, aquire_inner, aquire_leaf, lookup_indirect, lookup_d_indirect,
  lookup_t_indirect, lookup_cache, aquire,
}
use nuts_archive.Tree.Cache
use nuts_archive.Tree.Node.{ids_per_node}
use nuts_archive.Tree.Routes.Digits.{digits_two, digits_three}
use nuts_archive.Tree.Forest.{pointers, Root, depth, index, capacity, single, double, triple, Place}
use nuts_archive.Tree.Forest.Ready.{IsReady, resize-Ready}
use nuts_archive.Tree.Forest.Roots.{Advanced}
use nuts_archive.Tree.Forest.Ensured.{
  ensure_indirect-Advanced, ensure_d_indirect-Advanced, ensure_t_indirect-Advanced,
}
use nuts_archive.Tree.Forest.Levels.{Appended, Reread-Advanced, Reread-Place, inner_step}
use nuts_archive.Tree.Forest.Leaf.{leaf_step}
use nuts_archive.Tree.Forest.Direct.{direct-Appended}

module _ ⦃p : Platform⦄ (l : Laws p) where
  open p use {BlockId, Container}

  module _ (ids : List BlockId) (t : Tree BlockId) (s : Pager Container)
      (ready : IsReady l ids (t, s)) where
    abbrev ipn : ℕ
    ipn = ids_per_node s.inner

    abbrev pub Appends :
        Outcome (Error BlockId p.Failure) BlockId × (Tree BlockId × Pager Container) → Type 0
    Appends = Ensures (λ id q'. Appended l ids t s id q') (λ e _. IsFailure e)

    indirect-Appended :
        (i : ℕ) → i < ipn → 12 + i ≡ length ids → Appends (lookup_indirect i true (t, s))
    unfolding lookup_indirect
    indirect-Appended i lt next =
        bind (ensure_indirect-Advanced l ids t s ready)
          (λ top (t1, s1) (adv, place).
            bind (resize-Ready l ids 1 t1 s1 adv.ready)
              (λ _ (t2, s2) (ready2, w, long).
                leaf_step l ids t s 0 i single [] top t2 s2 (Reread-Advanced l adv w ready2)
                  (Reread-Place l w place) refl refl lt next (omega (arith, long)))
              (λ e q w. w))
          (λ e q w. w)

    -- The level above the last.
    below_node :
        (level next i j : ℕ) (r : Root) (way : List ℕ) (top : BlockId) (t' : Tree BlockId)
        (s' : Pager Container)
        → Advanced l ids t s (t', s')
        → Place l s'.inner (pointers t') r way top
        → length way ≡ level
        → next ≡ suc level
        → suc next ≡ depth r
        → i < ipn
        → j < ipn
        → index ipn r ((way ++ i ∷ []) ++ j ∷ []) ≡ length ids
        → next < length t'.cache
        → Appends (
            and_then (on_cache level (Cache.refresh top) (t', s')) (λ _.
              aquire_inner level i true >>= λ inner. elim inner [
                | none ↦ entry_at level i
                | some id ↦ on_cache next (Cache.refresh id) >> aquire_leaf next j true
              ]))
    below_node level next i j r way top t' s' adv place deep one last hi hj end here =
        inner_step l ids t s level i r way top _ t' s' adv place deep (omega (arith, one, last)) hi
          (omega (arith, one, here))
          (λ id t3 s3 adv3 place3 long3.
            leaf_step l ids t s next j r (way ++ i ∷ []) id t3 s3 adv3 place3
              (length-append way (i ∷ []) ∙ omega (arith, deep, one)) last hj end
              (omega (arith, here, long3)))

    -- The same for three levels.
    below_two_nodes :
        (i j k : ℕ) (top : BlockId) (t' : Tree BlockId) (s' : Pager Container)
        → Advanced l ids t s (t', s')
        → Place l s'.inner (pointers t') triple [] top
        → i < ipn
        → j < ipn
        → k < ipn
        → 12 + ipn + ipn * ipn + ((i * ipn + j) * ipn + k) ≡ length ids
        → length t'.cache ≡ 3
        → Appends (
            and_then (on_cache 0 (Cache.refresh top) (t', s')) (λ _.
              aquire_inner 0 i true >>= λ outer. elim outer [
                | none ↦ entry_at 0 i
                | some id ↦
                    on_cache 1 (Cache.refresh id)
                    >> (aquire_inner 1 j true >>= λ inner. elim inner [
                      | none ↦ entry_at 1 j
                      | some id' ↦ on_cache 2 (Cache.refresh id') >> aquire_leaf 2 k true
                    ])
              ]))
    below_two_nodes i j k top t' s' adv place hi hj hk end three =
        inner_step l ids t s 0 i triple [] top _ t' s' adv place refl (omega arith) hi
          (omega (arith, three))
          (λ id t3 s3 adv3 place3 long3.
            below_node 1 2 j k triple (i ∷ []) id t3 s3 adv3 place3 refl refl refl hj hk end
              (omega (arith, three, long3)))

    d_indirect-Appended :
        (x : ℕ)
        → 0 < ipn
        → x < ipn * ipn
        → 12 + ipn + x ≡ length ids
        → Appends (lookup_d_indirect x true (t, s))
    unfolding lookup_d_indirect
    d_indirect-Appended x pos lt end =
        let hi = mod-lt (x / ipn) pos in
        let hj = mod-lt x pos in
        bind (ensure_d_indirect-Advanced l ids t s ready)
          (λ top (t1, s1) (adv, place).
            bind (resize-Ready l ids 2 t1 s1 adv.ready)
              (λ _ (t2, s2) (ready2, w, long).
                below_node 0 1 (x / ipn % ipn) (x % ipn) double [] top t2 s2
                  (Reread-Advanced l adv w ready2) (Reread-Place l w place) refl refl refl hi hj
                  (ap (λ y. 12 + ipn + y) (digits_two ipn x pos lt) ∙ end) (omega (arith, long)))
              (λ e q w. w))
          (λ e q w. w)

    t_indirect-Appended :
        (x : ℕ)
        → 0 < ipn
        → x < ipn * ipn * ipn
        → 12 + ipn + ipn * ipn + x ≡ length ids
        → Appends (lookup_t_indirect x true (t, s))
    unfolding lookup_t_indirect
    t_indirect-Appended x pos lt end =
        let hi = mod-lt (x / (ipn * ipn)) pos in
        let hj = mod-lt (x / ipn) pos in
        let hk = mod-lt x pos in
        bind (ensure_t_indirect-Advanced l ids t s ready)
          (λ top (t1, s1) (adv, place).
            bind (resize-Ready l ids 3 t1 s1 adv.ready)
              (λ _ (t2, s2) (ready2, w, long).
                below_two_nodes (x / (ipn * ipn) % ipn) (x / ipn % ipn) (x % ipn) top t2 s2
                  (Reread-Advanced l adv w ready2) (Reread-Place l w place) hi hj hk
                  (ap (λ y. 12 + ipn + ipn * ipn + y) (digits_three ipn x pos lt) ∙ end) long)
              (λ e q w. w))
          (λ e q w. w)

    lookup_cache-Appended :
        (i : ℕ)
        → i ≡ length ids
        → i < 12 + ipn + ipn * ipn + ipn * ipn * ipn
        → Appends (lookup_cache i true (t, s))
    unfolding lookup_cache
    lookup_cache-Appended i next lt = elim (dec_lt i 12) [
      | yes h ↦ rw (lt→ltb i 12 h) (direct-Appended l ids t s ready i h next)
      | no h ↦ elim (dec_lt i (12 + ipn)) [
        | yes h1 ↦
            rw (le→ltb i 12 (omega arith), lt→ltb i (12 + ipn) h1)
              (indirect-Appended (i - 12) (omega arith) (omega arith))
        | no h1 ↦ elim (dec_lt i (12 + ipn + ipn * ipn)) [
          | yes h2 ↦
              rw
                (
                  le→ltb i 12 (omega arith),
                  le→ltb i (12 + ipn) (omega arith),
                  lt→ltb i (12 + ipn + ipn * ipn) h2,
                )
                (d_indirect-Appended (i - 12 - ipn) ready.forest.some_ids (omega arith)
                  (omega arith))
          | no h2 ↦
              rw
                (
                  le→ltb i 12 (omega arith),
                  le→ltb i (12 + ipn) (omega arith),
                  le→ltb i (12 + ipn + ipn * ipn) (omega arith),
                )
                (t_indirect-Appended (i - 12 - ipn - ipn * ipn) ready.forest.some_ids (omega arith)
                  (omega arith))
        ]
      ]
    ]

  -- In a tree whose blocks form a forest with the ids of the archive, with caches that agree with
  -- them, and whose number of blocks is right, `aquire` appends one block that was not allocated
  -- before: the tree leads to it behind the others, the number of blocks is one higher, and no
  -- block of the archive changes. It does not panic, and fails only if the container does, or with
  -- `Full`, in which case the number of blocks has reached 12 + n + n * n + n * n * n modulo 2 ^
  -- 64, for nodes of n ids.
  pub aquire-Appended :
      (ids : List BlockId) (t : Tree BlockId) (s : Pager Container)
      → IsReady l ids (t, s)
      → t.nblocks ≡ length ids
      → Ensures
          (λ id q'. Appended l ids t s id q' × (q'.0.nblocks ≡ t.nblocks + 1))
          (λ e _. IsFailure e ⊎ ((e ≡ full) × (capacity s.inner % 2 ^ 64 ≤ t.nblocks)))
          (aquire (t, s))
  unfolding aquire
  aquire-Appended ids t s ready count = elim (dec_lt t.nblocks (capacity s.inner % 2 ^ 64)) [
    | yes h ↦
        let small : capacity s.inner % 2 ^ 64 < 2 ^ 64 = mod-lt (capacity s.inner) (omega arith) in
        let below : t.nblocks < capacity s.inner =
          omega (arith, h, mod-le (capacity s.inner) (2 ^ 64)) in
        rw (lt→ltb t.nblocks (capacity s.inner % 2 ^ 64) h) (
          mono (lookup_cache-Appended ids t s ready t.nblocks count below)
            (λ id q' a. (a, a.counted ∙ mod-eq_of_lt (omega (arith, h, small)))) (λ e q w. inl w))
    | no h ↦
        rw (le→ltb t.nblocks (capacity s.inner % 2 ^ 64) (omega arith))
          (failed (inr (refl, omega arith)))
  ]
