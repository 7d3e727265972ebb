-- ===== src/State/HeaderBlock.antt =====
-- The bytes of the header block (`flush_header` of lib.rs).
use nuts_archive.Prelude.{ℕ, ◌+◌, ◌≤◌, ◌<◌, ◌≡◌, refl, List, [], ◌++◌, arith, length, length-append}
use native.Mathlib.Decide.{dec_le}
use nuts_archive.Outcome.{err}
use nuts_archive.Outcome.Ensures.{Ensures}
use nuts_archive.Error.{IsFailure, invalid_block_size}
use nuts_archive.Header
use nuts_archive.Header.{Header}
use nuts_archive.Header.Codec as HeaderCodec
use nuts_archive.Header.Codec.{IsHeader}
use nuts_archive.Pager.{Pager}
use nuts_archive.Pager.Blocks.{
  filled, IsPager, contents, length-filled, put-filled, put-full, write_buf-contents,
  create_writer-filled,
}
use nuts_archive.Platform.{Platform}
use nuts_archive.Platform.Laws.{Laws, UnchangedBut}
use nuts_archive.Tree
use nuts_archive.Tree.{Tree}
use nuts_archive.Tree.Codec as TreeCodec
use nuts_archive.Tree.Codec.{IsTree}
use nuts_archive.State.{flush_header}

module _ ⦃p : Platform⦄ where
  open p use {BlockId, Time}

  -- The bytes of the header block, up to the zeros at its end.
  abbrev pub header_bytes : Header Time → Tree BlockId → List ℕ
  header_bytes h t = Header.to_bytes h ++ Tree.to_bytes t

module _ ⦃p : Platform⦄ (l : Laws p) where
  open p use {BlockId, Container, Time, block_size}

  pub length-header_bytes :
      (h : Header Time) (t : Tree BlockId)
      → IsHeader h
      → IsTree t
      → length (header_bytes h t) ≡ Header.size + Tree.size
  length-header_bytes h t ih it = omega (
    arith,
    length-append (Header.to_bytes h) (Tree.to_bytes t),
    HeaderCodec.length-to_bytes-IsHeader l h ih,
    TreeCodec.length-to_bytes-IsTree l t it,
  )

  -- In a block with room for both, `flush_header` stores the header and the tree in the header
  -- block and changes no other block; it fails only if the container does, and does not panic. The
  -- header has the magic and numbers that fit, the tree 12 direct ids and a counter that fits, and
  -- the buffer of the pager is one block.
  pub flush_header-contents :
      (id : BlockId) (h : Header Time) (t : Tree BlockId) (s : Pager Container)
      → IsPager s
      → IsHeader h
      → IsTree t
      → Header.size + Tree.size ≤ block_size s.inner
      → Ensures
          (λ _ s'.
            (contents l s'.inner id ≡ filled (block_size s.inner) (header_bytes h t))
            × IsPager s'
            × UnchangedBut l.blocks id s.inner s'.inner)
          (λ e s'. IsFailure e × IsPager s' × UnchangedBut l.blocks id s.inner s'.inner)
          (flush_header id h t s)
  unfolding flush_header
  flush_header-contents id h t s is ih it room =
      rw
        (
          create_writer-filled l s,
          is,
          put-filled l s.inner (block_size s.inner) [] (Header.to_bytes h)
              (omega (arith, HeaderCodec.length-to_bytes-IsHeader l h ih)),
          put-filled l s.inner (block_size s.inner) (Header.to_bytes h) (Tree.to_bytes t) (
              omega (
                arith,
                HeaderCodec.length-to_bytes-IsHeader l h ih,
                TreeCodec.length-to_bytes-IsTree l t it,
              )),
        )
        (write_buf-contents l id
          (record { inner = s.inner; buf = filled (block_size s.inner) (header_bytes h t) })
          (length-filled (block_size s.inner) (header_bytes h t)
            (omega (arith, length-header_bytes h t ih it))))

  -- In a smaller block `flush_header` fails, and the container is left alone.
  pub flush_header_too_small :
      (id : BlockId) (h : Header Time) (t : Tree BlockId) (s : Pager Container)
      → IsPager s
      → IsHeader h
      → IsTree t
      → block_size s.inner < Header.size + Tree.size
      → ((flush_header id h t s).0 ≡ err invalid_block_size)
        × ((flush_header id h t s).1.inner ≡ s.inner)
  unfolding flush_header
  flush_header_too_small id h t s is ih it small = elim (dec_le Header.size (block_size s.inner)) [
    | yes front ↦
        rw
          (
            create_writer-filled l s,
            is,
            put-filled l s.inner (block_size s.inner) [] (Header.to_bytes h)
                (omega (arith, HeaderCodec.length-to_bytes-IsHeader l h ih)),
            put-full l s.inner (block_size s.inner) (Header.to_bytes h) (Tree.to_bytes t)
                (omega (arith, HeaderCodec.length-to_bytes-IsHeader l h ih))
                (omega (
                  arith,
                  HeaderCodec.length-to_bytes-IsHeader l h ih,
                  TreeCodec.length-to_bytes-IsTree l t it,
                )),
          )
          (refl, refl)
    | no none ↦
        rw
          (
            create_writer-filled l s,
            is,
            put-full l s.inner (block_size s.inner) [] (Header.to_bytes h) (omega arith)
                (omega (arith, HeaderCodec.length-to_bytes-IsHeader l h ih)),
          )
          (refl, refl)
  ]
