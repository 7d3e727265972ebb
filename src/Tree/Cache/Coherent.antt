-- ===== src/Tree/Cache/Coherent.antt =====
-- A cache and the block that it was read from (tree/cache.rs).
use nuts_archive.Prelude.{
  ◌≡◌, refl, sym, ap, ◌∙◌, inl, inr, ◌⊎◌, Bool, true, false, not, Bool-cases,
}
use nuts_archive.Outcome.{Outcome, ok, err, panic, and_then, pure, lift_outcome}
use nuts_archive.Outcome.Ensures.{Ensures, done, bind, mono, zoomed}
use nuts_archive.Error.{Error, IsFailure}
use nuts_archive.Pager.{Pager}
use nuts_archive.Pager.Blocks.{IsPager}
use nuts_archive.Platform.{Platform}
use nuts_archive.Platform.Laws.{Laws, Unchanged, Unchanged-refl}
use nuts_archive.Tree.Node
use nuts_archive.Tree.Node.{ids_per_node}
use nuts_archive.Tree.Node.Stored.{NodeAt, Unreadable, fill-NodeAt}
use nuts_archive.Tree.Cache.{Cache, refresh, on_node}

module _ {S X A : Type 0} where
  and_then-pure_state :
      {B : Type 0} (r : Outcome X A) (b : B) (s : S) → (and_then (r, s) (λ _. pure b)).1 ≡ s
  and_then-pure_state (ok a) b s = refl
  and_then-pure_state (err e) b s = refl
  and_then-pure_state panic b s = refl

module _ ⦃p : Platform⦄ where
  open p use {BlockId, Container, null, id_eq}

  refresh_id :
      (id : BlockId) (c : Cache BlockId) (s : Pager Container)
      → id_eq c.id id ≡ false
      → (refresh id (c, s)).1.0.id ≡ id
  unfolding refresh
  refresh_id id c s miss =
      let filled = Node.fill id (c.node, s) in
      let at : Cache BlockId × Pager Container =
        (record { id = id; node = filled.1.0 }, filled.1.1) in
      rw miss (
        ap (λ (q : Cache BlockId × Pager Container). q.0.id)
          (and_then-pure_state (lift_outcome (λ e. e) filled.0) true at))

module _ ⦃p : Platform⦄ (l : Laws p) where
  open p use {BlockId, Container, Failure, null, is_null, id_eq, block_size}

  -- After `refresh` has failed, a second call takes the cache for up to date: it succeeds without
  -- reading the block, and keeps the node that the first call left behind.
  pub refresh_again :
      (id : BlockId) (c c' : Cache BlockId) (s s' : Pager Container) (e : Error BlockId Failure)
      → refresh id (c, s) ≡ (err e, (c', s'))
      → refresh id (c', s') ≡ (ok false, (c', s'))
  unfolding refresh
  refresh_again id c c' s s' e h = elim (Bool-cases (id_eq c.id id)) [
    | inl hit ↦ absurd (impossible (rw hit at h))
    | inr miss ↦
        let kept : c'.id ≡ id =
          sym (
            ap
              (λ (r : Outcome (Error BlockId Failure) Bool × (Cache BlockId × Pager Container)).
                r.1.0.id)
              h)
          ∙ refresh_id id c s miss in
        rw ((l.id_eq_iff c'.id id).1 kept)
  ]
    where
      impossible :
          {q q' : Cache BlockId × Pager Container}
          → ◌≡◌ {A = Outcome (Error BlockId Failure) Bool × (Cache BlockId × Pager Container)}
              (ok false, q)
              (err e, q')
          → ⊥
      impossible e = cc

  filling :
      (id : BlockId) (c : Cache BlockId) (s : Pager Container)
      → IsPager s
      → Ensures
          (λ _ q.
            (q.0.id ≡ c.id)
            × NodeAt l s.inner id q.0.node
            × IsPager q.1
            × Unchanged l.blocks s.inner q.1.inner)
          (λ e q.
            IsPager q.1
            × Unchanged l.blocks s.inner q.1.inner
            × (IsFailure e ⊎ Unreadable l s.inner id))
          (on_node (Node.fill id) (c, s))
  filling id c s is =
      zoomed (λ (n, q). (record c { node = n }, q)) (λ e. e)
        (mono (fill-NodeAt l id c.node s is) (λ _ q (n, is', u). (refl, n, is', u)) (λ e q w. w))

  -- `refresh` makes the cache hold the node of the block `id`. It changes no block, and reads only
  -- if the cache is for another block. It fails only if the container does or the block does not hold
  -- ids.
  pub refresh-NodeAt :
      (id : BlockId) (c : Cache BlockId) (s : Pager Container)
      → IsPager s
      → (c.id ≡ id → NodeAt l s.inner c.id c.node)
      → Ensures
          (λ fresh q.
            (q.0.id ≡ id)
            × NodeAt l s.inner id q.0.node
            × (fresh ≡ not (id_eq c.id id))
            × IsPager q.1
            × Unchanged l.blocks s.inner q.1.inner)
          (λ e q.
            IsPager q.1
            × Unchanged l.blocks s.inner q.1.inner
            × (IsFailure e ⊎ Unreadable l s.inner id))
          (refresh id (c, s))
  unfolding refresh
  refresh-NodeAt id c s is coherent = elim (Bool-cases (id_eq c.id id)) [
    | inl hit ↦
        let same : c.id ≡ id = (l.id_eq_iff c.id id).0 hit in
        rw hit (done (same, rw same at (coherent same), refl, is, Unchanged-refl s.inner))
    | inr miss ↦ rw miss (
        bind (filling id (record c { id = id }) s is)
          (λ _ q (at, n, is', u). done (at, n, refl, is', u)) (λ e q w. w))
  ]
