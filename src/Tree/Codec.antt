-- ===== src/Tree/Codec.antt =====
-- The encoding of the tree (tree.rs).
use nuts_archive.Prelude.{
  ℕ, ◌^◌, ◌<◌, ◌≡◌, refl, sym, ap, ◌∙◌, List, [], ◌++◌, arith, length, length-append, append_assoc,
}
use nuts_archive.Outcome.{ok}
use nuts_archive.Bytes.{array_from_bytes, array_to_bytes}
use nuts_archive.Bytes.Arrays.{length-array_to_bytes, array_from_bytes-array_to_bytes}
use nuts_archive.Platform.{Platform}
use nuts_archive.Platform.Laws.{Laws}
use nuts_archive.Tree.{Tree, num_direct, size, new, to_bytes, from_bytes}

-- The array of the direct blocks has its length, and the counter fits its type.
pub record IsTree {I : Type 0} (t : Tree I) : Type 0 where
  pub direct_full : length t.direct ≡ num_direct
  pub nblocks_fits : t.nblocks < 2 ^ 64

pub IsTree-new : ⦃p : Platform⦄ → IsTree new
unfolding new
IsTree-new ⦃p⦄ = record { direct_full = refl; nblocks_fits = omega arith }

module _ ⦃p : Platform⦄ (l : Laws p) where
  open p use {BlockId, block_id}

  -- The encoding of a tree with 12 direct ids, whose counter fits a `u64`, has the length `Tree::size`.
  pub length-to_bytes-IsTree : (t : Tree BlockId) → IsTree t → length (to_bytes t) ≡ size
  unfolding to_bytes size
  length-to_bytes-IsTree t is =
      rw
        (
          length-append,
          length-append,
          length-append,
          length-append,
          length-array_to_bytes block_id l.block_id_lem t.direct,
          is.direct_full,
          l.block_id_lem.length_bytes t.indirect tt,
          l.block_id_lem.length_bytes t.d_indirect tt,
          l.block_id_lem.length_bytes t.t_indirect tt,
          l.u64_lem.length_bytes t.nblocks is.nblocks_fits,
        )
        (omega arith)

  array_back :
      (xs : List BlockId) (rest : List ℕ)
      → length xs ≡ num_direct
      → array_from_bytes block_id.from_bytes num_direct
          (array_to_bytes (λ id. block_id.to_bytes id) xs ++ rest)
        ≡ ok (xs, rest)
  array_back xs rest h =
      ap
        (λ n.
          array_from_bytes block_id.from_bytes n
            (array_to_bytes (λ id. block_id.to_bytes id) xs ++ rest))
        (sym h)
      ∙ array_from_bytes-array_to_bytes block_id l.block_id_lem xs rest

  -- A tree with 12 direct ids, whose counter fits a `u64`, is read back from its encoding, whatever
  -- bytes follow; the cached nodes are dropped.
  pub from_bytes-to_bytes-IsTree :
      (t : Tree BlockId) (rest : List ℕ)
      → IsTree t
      → from_bytes (to_bytes t ++ rest) ≡ ok (record t { cache = [] }, rest)
  unfolding from_bytes to_bytes
  from_bytes-to_bytes-IsTree t rest is = simp append_assoc (
      rw (
        array_back t.direct _ is.direct_full,
        l.block_id_lem.round_trip t.indirect _ tt,
        l.block_id_lem.round_trip t.d_indirect _ tt,
        l.block_id_lem.round_trip t.t_indirect _ tt,
        l.u64_lem.round_trip t.nblocks rest is.nblocks_fits,
      ))
