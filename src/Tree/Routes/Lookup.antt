-- ===== src/Tree/Routes/Lookup.antt =====
-- `lookup` and the routes of the indices (tree.rs).
use nuts_archive.Prelude.{
  ℕ, ◌+◌, ◌*◌, ◌≤◌, ◌<◌, ◌≡◌, ◌≢◌, inl, inr, ◌⊎◌, false, Option, none, some, length, Bool-cases,
}
use nuts_archive.Outcome.{Outcome}
use nuts_archive.Error.{Error}
use nuts_archive.Outcome.Ensures.{Ensures}
use nuts_archive.Pager.{Pager}
use nuts_archive.Platform.{Platform}
use nuts_archive.Platform.Laws.{Laws}
use nuts_archive.Tree.{Tree}
use nuts_archive.Tree.Cache
use nuts_archive.Tree.Node.{ids_per_node}
use nuts_archive.Tree.Routes.{Route, direct, Steady, Kept}

module _ ⦃p : Platform⦄ (l : Laws p) where
  open p use {BlockId, Container, null, is_null}

  pub is_null_false : (id : BlockId) → id ≢ null → is_null id ≡ false
  is_null_false id ne = elim (Bool-cases (is_null id)) [
    | inl h ↦ absurd (ne ((l.is_null_iff id).0 h))
    | inr h ↦ h
  ]

  module _ (t : Tree BlockId) (s : Pager Container) (st : Steady l s.inner t (t, s)) where
    abbrev c : Container
    c = s.inner

    abbrev ipn : ℕ
    ipn = ids_per_node c

    -- The id at the end of the route of an index, or an error with all blocks as they were.
    abbrev FindsAt :
        ℕ → Outcome (Error BlockId p.Failure) BlockId × (Tree BlockId × Pager Container) → Type 0
    FindsAt i = Ensures (λ id q'. Steady l c t q' × Route l c t i id) (λ e q'. Kept l c q')

    -- Which of the pointers are set, for the number of the blocks.
    pub record IsRooted : Type 0 where
      pub direct_full : length t.direct ≡ 12
      pub some_ids : 0 < ipn
      pub indirect_set : 12 < t.nblocks → t.indirect ≢ null
      pub d_indirect_set : 12 + ipn < t.nblocks → t.d_indirect ≢ null
      pub t_indirect_set : 12 + ipn + ipn * ipn < t.nblocks → t.t_indirect ≢ null
      pub capacity : t.nblocks ≤ 12 + ipn + ipn * ipn + ipn * ipn * ipn

    -- What `lookup` returns for an index.
    abbrev pub Found : ℕ → Option BlockId → Type 0
    Found i none = (t.nblocks ≤ i) ⊎ Route l c t i null
    Found i (some id) = (i < t.nblocks) × (id ≢ null) × Route l c t i id
