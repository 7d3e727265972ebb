-- ===== src/Entry/Immut/Content.antt =====
-- How many blocks the content of an entry takes (`content_blocks` of entry/immut.rs).
use native.Mathlib.Nat.{div-add-mod', mod-lt}
use nuts_archive.Prelude.{
  ℕ, ◌+◌, ◌*◌, ◌%◌, ◌≤◌, ◌<◌, ◌≡◌, ◌==◌, ==_iff, Bool-cases, inl, inr, arith,
}
use nuts_archive.Entry.Immut.{InnerEntry, content_blocks}

-- The blocks of the content have room for its bytes, and one block less has not: the last one is
-- not empty. This wants a block size other than 0.
pub content_blocks-le :
    {T : Type 0} (size : ℕ) (e : InnerEntry T)
    → 0 < size
    → (e.inner.size ≤ content_blocks size e * size)
      × (content_blocks size e * size < e.inner.size + size)
unfolding content_blocks
content_blocks-le size e pos =
    let whole = div-add-mod' e.inner.size size in
    let part = mod-lt e.inner.size pos in
    elim (Bool-cases (e.inner.size % size == 0)) [
      | inl none ↦
          let exact : e.inner.size % size ≡ 0 = (==_iff _ 0).0 none in
          rw none (omega (arith, whole, exact), omega (arith, whole, exact))
      | inr some ↦
          let more : (e.inner.size % size ≡ 0) → ⊥ = λ z. cc ((==_iff _ 0).1 z) in
          rw some (grind (arith, whole, part, more))
    ]
