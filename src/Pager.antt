-- ===== src/Pager.antt =====
-- pager.rs: a container with a buffer for one block.
pub mod Blocks
use nuts_archive.Prelude.{ℕ, ◌+◌, List, ◌==◌, if◌then◌else◌, length, replicate}
use nuts_archive.Outcome.{ok, err, panic, Exec, pure, abort, zoom, gets, modify, ◌>>=◌, ◌>>◌}
use nuts_archive.Error.{Error, container, from_bytes_error}
use nuts_archive.Platform.{Platform}

pub record Pager (C : Type 0) : Type 0 where
  pub inner : C
  pub buf : List ℕ

module _ ⦃p : Platform⦄ where
  open p use {
    BlockId, Container, Failure, block_size, read_block, write_block, aquire_block, put_slice,
    partial_put,
  }

  -- `ArchiveResult<A, B>` of a method that holds a `&mut Pager<B>`
  abbrev pub Paged : Type 0 → Type 0
  Paged A = Exec (Pager Container) (Error BlockId Failure) A

  -- `Deref` and `DerefMut`: the methods of the container, their errors by `From`
  abbrev pub on_container : {A : Type 0} → Exec Container Failure A → Paged A
  on_container m = zoom (λ s. s.inner) (λ s c. record s { inner = c }) container m

  unfoldable pub aquire : Paged BlockId
  aquire = on_container aquire_block

  unfoldable pub read : BlockId → ℕ → Paged (List ℕ)
  read id n = on_container (read_block id n)

  unfoldable pub write : BlockId → List ℕ → Paged ℕ
  write id d = on_container (write_block id d)

  unfoldable pub new : Container → Pager Container
  new c = record { inner = c; buf = replicate (block_size c) 0 }

  -- The reader starts at the front of the buffer: what is left to read is the whole buffer.
  unfoldable pub create_reader : Paged (List ℕ)
  create_reader = gets (λ s. s.buf)

  whiteout : Paged (Unit {0})
  whiteout = modify (λ s. record s { buf = replicate (length s.buf) 0 })

  -- The writer is its position in the buffer.
  unfoldable pub create_writer : Paged ℕ
  unfolding whiteout
  create_writer = do whiteout; pure 0

  -- `read_buf_raw`: the buffer is the destination, and the number of bytes read is asserted
  unfoldable pub read_buf_raw : BlockId → Paged (List ℕ)
  unfolding read
  read_buf_raw id = do
    size ← gets (λ s. length s.buf)
    d ← read id size
    if length d == size then (do modify (λ s. record s { buf = d }); pure d) else abort

  -- `writer.write(..)` at a position: the bytes of the value, and the position behind them
  unfoldable pub put : List ℕ → ℕ → Paged ℕ
  put d pos s = elim (put_slice s.buf pos d) [
    | ok buf' ↦ (ok (pos + length d), record s { buf = buf' })
    | err e ↦ (err (from_bytes_error e), record s { buf = partial_put s.buf pos d })
    | panic ↦ (panic, s)
  ]

  unfoldable pub read_buf : BlockId → Paged (List ℕ)
  unfolding read_buf_raw create_reader
  read_buf id = do read_buf_raw id; create_reader

  unfoldable pub write_buf : BlockId → Paged (Unit {0})
  unfolding write
  write_buf id = do d ← gets (λ s. s.buf); write id d; pure tt
