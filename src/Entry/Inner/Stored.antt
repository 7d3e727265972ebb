-- ===== src/Entry/Inner/Stored.antt =====
-- `flush` and `load` of an entry, and the bytes of its first block (entry.rs).
use nuts_archive.Prelude.{
  ℕ, ◌+◌, ◌-◌, ◌≤◌, ◌<◌, ◌≡◌, refl, ap, ◌∙◌, ◌⊎◌, inl, inr, List, ◌++◌, arith, length, zeros,
  append-nil, length-append, take-append_le,
}
use nuts_archive.Outcome.{ok, err}
use nuts_archive.Outcome.Ensures.{Ensures, done, failed, bind, mono}
use nuts_archive.Error.{IsFailure, eof, from_bytes_error}
use nuts_archive.Pager.{Pager}
use nuts_archive.Pager.Blocks.{IsPager, contents, padded-short, read_buf-contents, write-padded}
use nuts_archive.Platform.{Platform}
use nuts_archive.Platform.Laws.{Laws, Unchanged, UnchangedBut, padded}
use nuts_archive.Entry.Tstamp
use nuts_archive.Entry.Inner.{Inner, to_bytes, from_bytes, load, flush}
use nuts_archive.Entry.Inner.Codec.{IsInner, reread_inner, from_bytes-to_bytes-reread}

module _ ⦃p : Platform⦄ (l : Laws p) where
  open p use {BlockId, Container, Failure, Time, block_size, text, u16, u64}

  -- `load` from a block with the given bytes.
  pub load-contents :
      (now : Time) (id : BlockId) (e : Inner Time) (rest : List ℕ) (s : Pager Container)
      → IsPager s
      → from_bytes now (contents l s.inner id) ≡ ok (e, rest)
      → Ensures
          (λ e' s'. (e' ≡ e) × IsPager s' × Unchanged l.blocks s.inner s'.inner)
          (λ f s'. IsFailure f)
          (load now id s)
  unfolding load
  load-contents now id e rest s is h =
      bind (read_buf-contents l id s is) (λ d s' (same, is', u). rw (same, h) (done (refl, is', u)))
        (λ f s' q. q.0)

  -- An entry whose name and numbers fit their types, and whose encoding fits into a block, is read
  -- back by `load` after `flush`, with each of its times as it is read back from its milliseconds.
  -- `flush` changes no other block; both fail only if the container does, and neither panics. The
  -- buffer of the pager is one block.
  pub load-flush :
      (now : Time) (e : Inner Time) (id : BlockId) (s : Pager Container)
      → IsPager s
      → IsInner e
      → length (to_bytes e) ≤ block_size s.inner
      → Ensures
          (λ _ s'.
            UnchangedBut l.blocks id s.inner s'.inner
            × Ensures
                (λ e' s''. (e' ≡ reread_inner now e) × Unchanged l.blocks s'.inner s''.inner)
                (λ f _. IsFailure f)
                (load now id s'))
          (λ f s'. IsFailure f × UnchangedBut l.blocks id s.inner s'.inner)
          (flush e id s)
  unfolding flush
  load-flush now e id s is ie fits =
      bind (write-padded l id (to_bytes e) s is)
        (λ _ s' (same, _, is', u). done (
          u,
          mono
              (load-contents now id (reread_inner now e)
                (zeros (block_size s.inner - length (to_bytes e))) s' is'
                (ap (from_bytes now) (same ∙ padded-short (block_size s.inner) (to_bytes e) fits)
                  ∙ from_bytes-to_bytes-reread l now e
                      (zeros (block_size s.inner - length (to_bytes e))) ie))
              (λ e' q (x, _, v). (x, v)) (λ f q i. i),
        ))
        (λ f s' (i, _, u). (i, u))

  cut_name :
      (now : Time) (e : Inner Time) (size : ℕ)
      → IsInner e
      → size < 8 + length e.name
      → from_bytes now (padded size (to_bytes e)) ≡ err eof
  unfolding from_bytes to_bytes
  cut_name now e size ie long =
      let whole = l.text_lem.length_bytes e.name ie.name_fits in
      let behind : List ℕ =
        u16.to_bytes e.mode ++ (Tstamp.to_bytes e.tstamps ++ u64.to_bytes e.size) in
      let no_room : size - length (to_bytes e) ≡ 0 =
        omega (arith, whole, length-append (text.to_bytes e.name) behind) in
      rw (
        take-append_le size (text.to_bytes e.name) behind (omega (arith, whole)),
        no_room,
        append-nil,
        l.text_lem.too_short e.name size ie.name_fits long,
      )

  -- An entry whose name and numbers fit their types, and whose name does not fit into a block, is
  -- written without an error of the program, but `load` never reads it: it fails with the end of
  -- the input, or with the container. The buffer of the pager is one block.
  pub load-flush_long_name :
      (now : Time) (e : Inner Time) (id : BlockId) (s : Pager Container)
      → IsPager s
      → IsInner e
      → block_size s.inner < 8 + length e.name
      → Ensures
          (λ _ s'.
            Ensures (λ _ _. ⊥) (λ f _. IsFailure f ⊎ (f ≡ from_bytes_error eof)) (load now id s'))
          (λ f _. IsFailure f)
          (flush e id s)
  unfolding flush load
  load-flush_long_name now e id s is ie long =
      bind (write-padded l id (to_bytes e) s is)
        (λ _ s' (same, _, is', u). done (
          bind (read_buf-contents l id s' is')
            (λ d s'' (same', _, _).
              rw (same' ∙ same, cut_name now e (block_size s.inner) ie long, load)
                (failed (inr refl)))
            (λ f s'' q. inl q.0)))
        (λ f s' q. q.0)
