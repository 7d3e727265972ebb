-- ===== src/Pager/Blocks.antt =====
-- What the operations of the pager do to its buffer and to the blocks of the container.
use nuts_archive.Prelude.{zeros, zeros_eq, length-zeros, drop-zeros, ◌<◌}
use nuts_archive.Prelude.{
  ℕ, suc, ◌+◌, ◌-◌, ◌≤◌, ◌≡◌, refl, sym, ap, ◌∙◌, List, [], ◌∷◌, ◌++◌, arith, length, take, drop,
  length-append, append_assoc, append-nil, take_all, ==_iff,
}
use nuts_archive.Outcome.{ok, err}
use nuts_archive.Outcome.Ensures.{Ensures, done, bind, mono, zoomed}
use nuts_archive.Error.{IsFailure, container, invalid_block_size, from_bytes_error}
use nuts_archive.Platform.{Platform}
use nuts_archive.Platform.Laws.{Laws, Unchanged, UnchangedBut, Grown, padded, splice}
use nuts_archive.Pager.{
  Pager, aquire, read, write, create_writer, put, read_buf_raw, read_buf, write_buf,
}

-- A buffer of `size` bytes into which `d` has been written.
abbrev pub filled : ℕ → List ℕ → List ℕ
filled size d = d ++ zeros (size - length d)

splice-front : {A : Type 0} (xs ys zs : List A) → take (length xs) (xs ++ ys) ++ zs ≡ xs ++ zs
splice-front [] ys zs = refl
splice-front (x ∷ xs) ys zs = ap (λ r. x ∷ r) (splice-front xs ys zs)

pub drop-append_add :
    {A : Type 0} (xs ys : List A) (n : ℕ) → drop (length xs + n) (xs ++ ys) ≡ drop n ys
drop-append_add [] ys n = ap (λ m. drop m ys) (omega arith)
drop-append_add (x ∷ xs) ys n =
    ap (λ m. drop m (x ∷ (xs ++ ys))) (shift (length xs) n) ∙ drop-append_add xs ys n
  where
    shift : (a b : ℕ) → suc a + b ≡ suc (a + b)
    shift a b = omega arith

-- Writing `e` behind `d`.
pub splice-filled :
    (size : ℕ) (d e : List ℕ) → splice (filled size d) (length d) e ≡ filled size (d ++ e)
splice-filled size d e =
    splice-front d (zeros (size - length d)) (e ++ drop (length d + length e) (filled size d))
    ∙ rw
        (
          drop-append_add d (zeros (size - length d)) (length e),
          drop-zeros (length e) (size - length d),
          append_assoc,
        )
        (ap (λ k. d ++ (e ++ zeros k)) (omega (arith, length-append d e)))

pub length-filled : (size : ℕ) (d : List ℕ) → length d ≤ size → length (filled size d) ≡ size
length-filled size d h =
    omega (arith, length-append d (zeros (size - length d)), length-zeros (size - length d))

pub padded-full : (size : ℕ) (d : List ℕ) → length d ≡ size → padded size d ≡ d
padded-full size d h =
    let none_left : size - length d ≡ 0 = omega arith in
    rw (take_all size d (omega arith), none_left) (append-nil d)

pub padded-short : (size : ℕ) (d : List ℕ) → length d ≤ size → padded size d ≡ filled size d
padded-short size d h = rw (take_all size d h)

module _ ⦃p : Platform⦄ where
  open p use {BlockId, Container, block_size}

  -- The buffer holds one block.
  abbrev pub IsPager : Pager Container → Type 0
  IsPager s = length s.buf ≡ block_size s.inner

module _ ⦃p : Platform⦄ (l : Laws p) where
  open p use {BlockId, Container, Failure, block_size}

  abbrev pub contents : Container → BlockId → List ℕ
  contents = l.blocks.contents

  pub read-take :
      (id : BlockId) (n : ℕ) (s : Pager Container)
      → Ensures
          (λ d s'.
            (d ≡ take n (contents s.inner id))
            × (s'.buf ≡ s.buf)
            × Unchanged l.blocks s.inner s'.inner)
          (λ e s'. IsFailure e × (s'.buf ≡ s.buf) × Unchanged l.blocks s.inner s'.inner)
          (read id n s)
  unfolding read
  read-take id n s =
      zoomed (λ c. record s { inner = c }) container
        (mono (l.read_lem id n s.inner) (λ d c (e, u). (e, refl, u)) (λ _ c u. (tt, refl, u)))

  read_buf_raw-contents :
      (id : BlockId) (s : Pager Container)
      → IsPager s
      → Ensures
          (λ d s'.
            (s'.buf ≡ contents s.inner id)
            × (d ≡ s'.buf)
            × IsPager s'
            × Unchanged l.blocks s.inner s'.inner)
          (λ e s'. IsFailure e × IsPager s' × Unchanged l.blocks s.inner s'.inner)
          (read_buf_raw id s)
  unfolding read_buf_raw
  read_buf_raw-contents id s is =
      bind (read-take id (length s.buf) s)
        (λ d s' (e, kept, u).
          let whole : d ≡ contents s.inner id =
            e
            ∙ take_all (length s.buf) (contents s.inner id)
                (omega (arith, l.length_contents s.inner id)) in
          let long : length d ≡ length s.buf =
            ap length whole ∙ l.length_contents s.inner id ∙ sym is in
          rw ((==_iff (length d) (length s.buf)).1 long)
            (done (whole, refl, long ∙ is ∙ sym u.same_size, u)))
        (λ _ s' (f, kept, u). (f, ap length kept ∙ is ∙ sym u.same_size, u))

  -- Reading a block returns its bytes and changes no block.
  pub read_buf-contents :
      (id : BlockId) (s : Pager Container)
      → IsPager s
      → Ensures
          (λ d s'. (d ≡ contents s.inner id) × IsPager s' × Unchanged l.blocks s.inner s'.inner)
          (λ e s'. IsFailure e × IsPager s' × Unchanged l.blocks s.inner s'.inner)
          (read_buf id s)
  unfolding read_buf
  read_buf-contents id s is =
      bind (read_buf_raw-contents id s is) (λ d s' (e, _, is', u). done (e, is', u)) (λ _ s' q. q)

  -- A value that fits is written behind what was written before.
  pub put-filled :
      (c : Container) (size : ℕ) (d e : List ℕ)
      → length d + length e ≤ size
      → put e (length d) (record { inner = c; buf = filled size d })
        ≡ (ok (length (d ++ e)), record { inner = c; buf = filled size (d ++ e) })
  unfolding put
  put-filled c size d e fits = rw (
    l.put_slice_fits (filled size d) (length d) e
        (omega (arith, length-filled size d (omega arith))),
    put,
    splice-filled size d e,
    length-append d e,
  )

  -- One that does not fit is the error `InvalidBlockSize`.
  pub put-full :
      (c : Container) (size : ℕ) (d e : List ℕ)
      → length d ≤ size
      → size < length d + length e
      → put e (length d) (record { inner = c; buf = filled size d }) ≡ (
        err invalid_block_size,
        record { inner = c; buf = p.partial_put (filled size d) (length d) e },
      )
  unfolding put from_bytes_error
  put-full c size d e fits full = rw (
    l.put_slice_full (filled size d) (length d) e (omega (arith, length-filled size d fits)),
    put,
  )

  pub write-padded :
      (id : BlockId) (d : List ℕ) (s : Pager Container)
      → IsPager s
      → Ensures
          (λ _ s'.
            (contents s'.inner id ≡ padded (block_size s.inner) d)
            × (s'.buf ≡ s.buf)
            × IsPager s'
            × UnchangedBut l.blocks id s.inner s'.inner)
          (λ e s'. IsFailure e × IsPager s' × UnchangedBut l.blocks id s.inner s'.inner)
          (write id d s)
  unfolding write
  write-padded id d s is =
      zoomed (λ c. record s { inner = c }) container
        (mono (l.write_lem id d s.inner) (λ n c (e, u). (e, refl, is ∙ sym u.same_size, u))
          (λ _ c u. (tt, is ∙ sym u.same_size, u)))

  -- Writing the buffer stores it in the block, and changes no other.
  pub write_buf-contents :
      (id : BlockId) (s : Pager Container)
      → IsPager s
      → Ensures
          (λ _ s'.
            (contents s'.inner id ≡ s.buf) × IsPager s' × UnchangedBut l.blocks id s.inner s'.inner)
          (λ e s'. IsFailure e × IsPager s' × UnchangedBut l.blocks id s.inner s'.inner)
          (write_buf id s)
  unfolding write_buf
  write_buf-contents id s is =
      bind (write-padded id s.buf s is)
        (λ n s' (e, kept, is', u). done (e ∙ padded-full (block_size s.inner) s.buf is, is', u))
        (λ _ s' q. q)

  pub aquire-Grown :
      (s : Pager Container)
      → IsPager s
      → Ensures
          (λ id s'. IsPager s' × Grown l.blocks id s.inner s'.inner)
          (λ e s'. IsFailure e × IsPager s' × Unchanged l.blocks s.inner s'.inner)
          (aquire s)
  unfolding aquire
  aquire-Grown s is =
      zoomed (λ c. record s { inner = c }) container
        (mono (l.aquire_lem s.inner) (λ id c g. (is ∙ sym g.same_size, g))
          (λ _ c u. (tt, is ∙ sym u.same_size, u)))

  pub create_writer-filled :
      (s : Pager Container) → create_writer s ≡ (ok 0, record s { buf = filled (length s.buf) [] })
  unfolding create_writer
  create_writer-filled s =
      ap (λ b. (ok 0, record s { buf = b }))
        (zeros_eq (length s.buf) (length s.buf - 0) (omega arith))
