-- ===== src/Entry/Immut/Following.antt =====
-- The way from an entry to the next one (entry/immut.rs).
use native.Mathlib.Nat.{suc-mul, mul-le-mul_right}
use native.Mathlib.Decide.{dec_lt}
use nuts_archive.Prelude.{
  ℕ, suc, ◌+◌, ◌*◌, ◌≤◌, ◌<◌, ◌≡◌, refl, sym, ap, ◌∙◌, inl, inr, none, some, List, [], ◌∷◌, ◌++◌,
  length, get_elem?, get_elem?-last, length-append, arith,
}
use nuts_archive.Outcome.Ensures.{Ensures, mono}
use nuts_archive.Error.{IsFailure}
use nuts_archive.Header
use nuts_archive.Pager.Blocks.{filled, padded-short}
use nuts_archive.Pager.{Pager}
use nuts_archive.Platform.{Platform}
use nuts_archive.Platform.Laws.{Laws}
use nuts_archive.State.{Archive}
use nuts_archive.Tree.{Tree}
use nuts_archive.Entry.Inner
use nuts_archive.Entry.Inner.{Inner, from_bytes}
use nuts_archive.Entry.Inner.Codec.{IsInner, reread_inner}
use nuts_archive.Entry.Mut.{EntryMut, build}
use nuts_archive.Entry.Mut.Blocks.{bytes, length-bytes, IsAppending}
use nuts_archive.Entry.Mut.Building.{Built, build-Built}
use nuts_archive.Entry.Mut.WriteAll.{Stops}
use nuts_archive.Entry.Immut.{InnerEntry, content_blocks, next, entry_at}
use nuts_archive.Entry.Immut.Located.{entry_at-none, entry_at-some}
use nuts_archive.Entry.Immut.Content.{content_blocks-le}

module _ ⦃p : Platform⦄ (l : Laws p) where
  open p use {BlockId, Container, Time, block_size}

  -- There is one number of blocks with room for the bytes, of which one less has not.
  one_number :
      (size len m n : ℕ)
      → len ≤ m * size
      → m * size < len + size
      → len ≤ n * size
      → n * size < len + size
      → m ≡ n
  one_number size len m n a b c d = elim (dec_lt m n) [
    | yes lt ↦
        let below : suc m * size ≤ n * size = mul-le-mul_right size lt in
        absurd (omega (arith, below, suc-mul m size, a, d))
    | no ge ↦ elim (dec_lt n m) [
      | yes lt ↦
          let below : suc n * size ≤ m * size = mul-le-mul_right size lt in
          absurd (omega (arith, below, suc-mul n size, b, c))
      | no ge' ↦ omega arith
    ]
  ]

  module _ (before blocks : List BlockId) (d : List ℕ) (e : EntryMut) (a : Archive)
      (is : IsAppending l before blocks d (e, a)) where
    abbrev size : ℕ
    size = block_size a.pager.inner

    some_size : 0 < size
    unfolding Header.size
    some_size = omega (arith, is.archive.header_fits)

    enough_blocks : (length d ≤ length blocks * size) × (length blocks * size < length d + size)
    enough_blocks = elim is.holds [
      | inl (no_blocks, empty) ↦ rw (no_blocks, empty) (omega arith, omega (arith, some_size))
      | inr h ↦
          let long : length d ≡ length h.whole * size + length h.part = omega (
            arith,
            ap length h.same_data,
            length-append (bytes l a.pager.inner h.whole) h.part,
            length-bytes l a.pager.inner h.whole,
          ) in
          let count : length blocks ≡ suc (length h.whole) =
            omega (arith, ap length h.same_blocks, length-append h.whole (e.last ∷ [])) in
          let product : length blocks * size ≡ length h.whole * size + size =
            ap (λ k. k * size) count ∙ suc-mul (length h.whole) size in
          (omega (arith, product, long, h.fits), omega (arith, product, long, h.some_part))
    ]

    content_blocks-IsAppending :
        (r : InnerEntry Time) → r.inner.size ≡ e.entry.size → content_blocks size r ≡ length blocks
    content_blocks-IsAppending r same =
        let room = content_blocks-le size r some_size in
        one_number size (length d) (content_blocks size r) (length blocks)
          (omega (arith, room.0, is.sized, same)) (omega (arith, room.1, is.sized, same))
          enough_blocks.0 enough_blocks.1

    -- The index to which `next` of this entry goes.
    next_index :
        (r : InnerEntry Time)
        → r.idx ≡ length before
        → r.inner.size ≡ e.entry.size
        → r.idx + content_blocks size r + 1 ≡ length (before ++ e.first ∷ blocks)
    next_index r place same =
        omega
          (arith, place, content_blocks-IsAppending r same, length-append before (e.first ∷ blocks))

  -- `next` reads the entry at its index.
  next-entry_at :
      (later : Time) (r : InnerEntry Time) (k : ℕ) (t : Tree BlockId) (s : Pager Container)
      → r.idx + content_blocks (block_size s.inner) r + 1 ≡ k
      → next later r (t, s) ≡ entry_at later k (t, s)
  unfolding next entry_at
  next-entry_at later r k t s index = ap (λ n. entry_at later n (t, s)) index

  module _ (before blocks : List BlockId) (d : List ℕ) (e : EntryMut) (a : Archive)
      (is : IsAppending l before blocks d (e, a)) (now later : Time) (r : InnerEntry Time)
      (place : r.idx ≡ length before) (same : r.inner.size ≡ e.entry.size)
      (entry : Inner Time) where
    -- An entry that is built behind the one that is read.
    next-Built :
        IsInner entry
        → length (Inner.to_bytes entry) ≤ block_size a.pager.inner
        → (e2 : EntryMut) (a2 : Archive) → Built l now entry (before ++ e.first ∷ blocks) a e2 a2
        → Ensures
            (λ o _.
              o
              ≡ some (record {
                inner = reread_inner later entry;
                idx = length before + length blocks + 1;
                rcache = [];
                ridx = 0;
              }))
            (λ f _. IsFailure f)
            (next later r (a2.tree, a2.pager))
    next-Built ix fits e2 a2 x =
        let ids = before ++ e.first ∷ blocks in
        let index = next_index before blocks d e a is r place same in
        let end : length ids ≡ length before + length blocks + 1 =
          omega (arith, length-append before (e.first ∷ blocks)) in
        let size = x.grows.same_size in
        rw
          (next-entry_at later r (length before + length blocks + 1) a2.tree a2.pager
            (ap (λ n. r.idx + content_blocks n r + 1) size ∙ index ∙ end))
          (mono
            (entry_at-some l later (ids ++ e2.first ∷ []) a2 x.archive
              (length before + length blocks + 1) e2.first entry
              (ap (get_elem? (ids ++ e2.first ∷ [])) (sym end) ∙ get_elem?-last ids e2.first)
              (x.entry_block
                ∙ padded-short (block_size a.pager.inner) (Inner.to_bytes entry) fits
                ∙ ap (λ n. filled n (Inner.to_bytes entry)) (sym size))
              ix)
            (λ o q w. w.0) (λ f q i. i))

  -- `next` of the entry at the end of an archive, read with its size at the index of its first
  -- block, returns `None`; after `build` has put another entry behind it, `next` of the same
  -- reader returns this one, at the index behind the blocks of the earlier entry, with each of its
  -- times as it is read back from its milliseconds. Nothing panics; `next` fails only if the
  -- container does, `build` also with `Full`. Name and numbers of the new entry fit their types,
  -- and its encoding fits into a block. The entry is at the end of an archive: the blocks behind
  -- its first one are the last of the list and hold its data with zeros behind them, its size is
  -- the length of the data, and if it has data, its cache is the last block. An archive here: its
  -- tree gives the blocks of the list the indices from 0 on, each block of the tree is allocated
  -- and at one place only, every cache agrees with its block, the number of blocks is right and
  -- fits a `u64`, the header has the magic and numbers that fit, the header block is allocated,
  -- has room for header and tree and is no block of the tree, and the buffer of the pager is one
  -- block.
  pub next-build :
      (before blocks : List BlockId) (d : List ℕ) (e : EntryMut) (a : Archive)
      → IsAppending l before blocks d (e, a)
      → (now later : Time) (r : InnerEntry Time) → r.idx ≡ length before
      → r.inner.size ≡ e.entry.size
      → (entry : Inner Time) → IsInner entry
      → length (Inner.to_bytes entry) ≤ block_size a.pager.inner
      → Ensures (λ o _. o ≡ none) (λ f _. IsFailure f) (next later r (a.tree, a.pager))
        × Ensures
            (λ _ a2.
              Ensures
                (λ o _.
                  o
                  ≡ some (record {
                    inner = reread_inner later entry;
                    idx = length before + length blocks + 1;
                    rcache = [];
                    ridx = 0;
                  }))
                (λ f _. IsFailure f)
                (next later r (a2.tree, a2.pager)))
            (λ f _. Stops l f)
            (build now entry a)
  next-build before blocks d e a is now later r place same entry ix fits =
      let ids = before ++ e.first ∷ blocks in
      let index = next_index before blocks d e a is r place same in
      (
        rw (next-entry_at later r (length ids) a.tree a.pager index)
            (entry_at-none l later ids a is.archive (length ids) refl),
        mono (build-Built l now entry ids a is.archive)
            (λ e2 a2 x.
              next-Built before blocks d e a is now later r place same entry ix fits e2 a2 x)
            (λ f q s. elim s [ inl i ↦ inl i | inr (full, _) ↦ inr full ]),
      )
