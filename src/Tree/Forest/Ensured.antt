-- ===== src/Tree/Forest/Ensured.antt =====
-- `ensure_indirect`, and the same for the other two pointers (tree.rs).
use nuts_archive.Prelude.{◌≡◌, ◌≢◌, refl, sym, ◌∙◌, inl, inr, List, arith, Bool-cases}
use nuts_archive.Outcome.Ensures.{Ensures, done, bind}
use nuts_archive.Error.{IsFailure}
use nuts_archive.Pager.{Pager}
use nuts_archive.Platform.{Platform}
use nuts_archive.Platform.Laws.{Laws}
use nuts_archive.Tree.{Tree, ensure_indirect, ensure_d_indirect, ensure_t_indirect}
use nuts_archive.Tree.Forest.{pointers, Root, direct, single, double, triple, RootAt}
use nuts_archive.Tree.Forest.Ready.{IsReady}
use nuts_archive.Tree.Forest.Roots.{
  Advanced-refl, OnlyPointer, pointer-Advanced, Rooted, at_root, taking_node,
}

module _ ⦃p : Platform⦄ (l : Laws p) where
  open p use {BlockId, Container, null, is_null, block_size}

  only_ensure_indirect :
      (t : Tree BlockId) (id : BlockId)
      → t.indirect ≡ null
      → OnlyPointer l (pointers t) (record (pointers t) { indirect = id }) single id
  only_ensure_indirect t id was = record {
    was_null = λ id e. sym e ∙ was;
    now = refl;
    only = λ id e. sym e;
    others = others;
    others_back = others_back;
  }
    where
      others :
          (r : Root) (j : BlockId)
          → r ≢ single
          → RootAt (pointers t) r j
          → RootAt (record (pointers t) { indirect = id }) r j
      others (direct i) j ne at = at
      others single j ne at = absurd (ne refl)
      others double j ne at = at
      others triple j ne at = at

      others_back :
          (r : Root) (j : BlockId)
          → r ≢ single
          → RootAt (record (pointers t) { indirect = id }) r j
          → RootAt (pointers t) r j
      others_back (direct i) j ne at = at
      others_back single j ne at = absurd (ne refl)
      others_back double j ne at = at
      others_back triple j ne at = at

  pub ensure_indirect-Advanced :
      (ids : List BlockId) (t : Tree BlockId) (s : Pager Container)
      → IsReady l ids (t, s)
      → Ensures
          (λ top q'. Rooted l ids t s single top q')
          (λ e _. IsFailure e)
          (ensure_indirect (t, s))
  unfolding ensure_indirect
  ensure_indirect-Advanced ids t s ready = elim (Bool-cases (is_null t.indirect)) [
    | inr full ↦ rw full (
        done (
          Advanced-refl l ids t s ready,
          at_root l s.inner (pointers t) single t.indirect refl
              (λ z. let e = (l.is_null_iff t.indirect).1 z in absurd cc),
        ))
    | inl isnull ↦ rw isnull (
        bind (taking_node l t s ready.is_pager)
          (λ id (t1, s1) (same, is, k). rw same (
            done (
              pointer-Advanced l ids t (record t { indirect = id }) s s1 single id ready
                  (only_ensure_indirect t id ((l.is_null_iff t.indirect).0 isnull)) k is refl refl
                  refl (omega arith),
              at_root l s1.inner (record (pointers t) { indirect = id }) single id refl k.not_null,
            )))
          (λ e q i. i))
  ]

  only_ensure_d_indirect :
      (t : Tree BlockId) (id : BlockId)
      → t.d_indirect ≡ null
      → OnlyPointer l (pointers t) (record (pointers t) { d_indirect = id }) double id
  only_ensure_d_indirect t id was = record {
    was_null = λ id e. sym e ∙ was;
    now = refl;
    only = λ id e. sym e;
    others = others;
    others_back = others_back;
  }
    where
      others :
          (r : Root) (j : BlockId)
          → r ≢ double
          → RootAt (pointers t) r j
          → RootAt (record (pointers t) { d_indirect = id }) r j
      others (direct i) j ne at = at
      others single j ne at = at
      others double j ne at = absurd (ne refl)
      others triple j ne at = at

      others_back :
          (r : Root) (j : BlockId)
          → r ≢ double
          → RootAt (record (pointers t) { d_indirect = id }) r j
          → RootAt (pointers t) r j
      others_back (direct i) j ne at = at
      others_back single j ne at = at
      others_back double j ne at = absurd (ne refl)
      others_back triple j ne at = at

  pub ensure_d_indirect-Advanced :
      (ids : List BlockId) (t : Tree BlockId) (s : Pager Container)
      → IsReady l ids (t, s)
      → Ensures
          (λ top q'. Rooted l ids t s double top q')
          (λ e _. IsFailure e)
          (ensure_d_indirect (t, s))
  unfolding ensure_d_indirect
  ensure_d_indirect-Advanced ids t s ready = elim (Bool-cases (is_null t.d_indirect)) [
    | inr full ↦ rw full (
        done (
          Advanced-refl l ids t s ready,
          at_root l s.inner (pointers t) double t.d_indirect refl
              (λ z. let e = (l.is_null_iff t.d_indirect).1 z in absurd cc),
        ))
    | inl isnull ↦ rw isnull (
        bind (taking_node l t s ready.is_pager)
          (λ id (t1, s1) (same, is, k). rw same (
            done (
              pointer-Advanced l ids t (record t { d_indirect = id }) s s1 double id ready
                  (only_ensure_d_indirect t id ((l.is_null_iff t.d_indirect).0 isnull)) k is refl
                  refl refl (omega arith),
              at_root l s1.inner (record (pointers t) { d_indirect = id }) double id refl
                  k.not_null,
            )))
          (λ e q i. i))
  ]

  only_ensure_t_indirect :
      (t : Tree BlockId) (id : BlockId)
      → t.t_indirect ≡ null
      → OnlyPointer l (pointers t) (record (pointers t) { t_indirect = id }) triple id
  only_ensure_t_indirect t id was = record {
    was_null = λ id e. sym e ∙ was;
    now = refl;
    only = λ id e. sym e;
    others = others;
    others_back = others_back;
  }
    where
      others :
          (r : Root) (j : BlockId)
          → r ≢ triple
          → RootAt (pointers t) r j
          → RootAt (record (pointers t) { t_indirect = id }) r j
      others (direct i) j ne at = at
      others single j ne at = at
      others double j ne at = at
      others triple j ne at = absurd (ne refl)

      others_back :
          (r : Root) (j : BlockId)
          → r ≢ triple
          → RootAt (record (pointers t) { t_indirect = id }) r j
          → RootAt (pointers t) r j
      others_back (direct i) j ne at = at
      others_back single j ne at = at
      others_back double j ne at = at
      others_back triple j ne at = absurd (ne refl)

  pub ensure_t_indirect-Advanced :
      (ids : List BlockId) (t : Tree BlockId) (s : Pager Container)
      → IsReady l ids (t, s)
      → Ensures
          (λ top q'. Rooted l ids t s triple top q')
          (λ e _. IsFailure e)
          (ensure_t_indirect (t, s))
  unfolding ensure_t_indirect
  ensure_t_indirect-Advanced ids t s ready = elim (Bool-cases (is_null t.t_indirect)) [
    | inr full ↦ rw full (
        done (
          Advanced-refl l ids t s ready,
          at_root l s.inner (pointers t) triple t.t_indirect refl
              (λ z. let e = (l.is_null_iff t.t_indirect).1 z in absurd cc),
        ))
    | inl isnull ↦ rw isnull (
        bind (taking_node l t s ready.is_pager)
          (λ id (t1, s1) (same, is, k). rw same (
            done (
              pointer-Advanced l ids t (record t { t_indirect = id }) s s1 triple id ready
                  (only_ensure_t_indirect t id ((l.is_null_iff t.t_indirect).0 isnull)) k is refl
                  refl refl (omega arith),
              at_root l s1.inner (record (pointers t) { t_indirect = id }) triple id refl
                  k.not_null,
            )))
          (λ e q i. i))
  ]
