-- ===== src/Archive/Persisted.antt =====
-- What is written to an entry is there when the archive is opened again (lib.rs, entry/mut.rs,
-- entry/immut.rs).
use nuts_archive.Prelude.{
  ℕ, ◌+◌, ◌^◌, ◌≤◌, ◌<◌, ◌≡◌, refl, sym, ap, ◌∙◌, some, List, [], ◌∷◌, ◌++◌, length, get_elem?,
  get_elem?-behind, length-append, arith,
}
use nuts_archive.Outcome.Ensures.{Ensures, mono}
use nuts_archive.Error.{IsFailure}
use nuts_archive.Pager.{Pager}
use nuts_archive.Pager.Blocks.{filled, padded-short}
use nuts_archive.Platform.{Platform}
use nuts_archive.Platform.Laws.{Laws, Unchanged}
use nuts_archive.State.{Archive}
use nuts_archive.State.Growing.{archive_tree}
use nuts_archive.Tree.{Tree}
use nuts_archive.Tree.Forest.Ready.{IsReady}
use nuts_archive.Userdata
use nuts_archive.Entry.Inner
use nuts_archive.Entry.Inner.{Inner}
use nuts_archive.Entry.Inner.Codec.{IsInner, reread_inner, length-to_bytes-IsInner}
use nuts_archive.Entry.Mut.{EntryMut, write_all}
use nuts_archive.Entry.Mut.Blocks.{bytes_same, IsAppending}
use nuts_archive.Entry.Mut.WriteAll.{IsStored, Continued, Stops, write_all-Continued}
use nuts_archive.Entry.Immut.{InnerEntry, entry_at, read_vec}
use nuts_archive.Entry.Immut.Whole.{HasContent}
use nuts_archive.Entry.Immut.Located.{entry_at-some}
use nuts_archive.Entry.Immut.ReadBack.{appended-HasContent, read_vec-HasContent}
use nuts_archive.Archive.{open_archive}
use nuts_archive.Archive.Reopen.{Opened, open-Opened, min_block_size-le}
use nuts_archive.Archive.Start.{reopened}

module _ ⦃p : Platform⦄ (l : Laws p) where
  open p use {BlockId, Container, Time, block_size, userdata}

  HasContent-Unchanged :
      (ids : List BlockId) (t t' : Tree BlockId) (s s' : Pager Container) (x y : Inner Time)
      (idx : ℕ) (d : List ℕ)
      → HasContent l ids t s x idx d
      → IsReady l ids (t', s')
      → t'.nblocks ≡ length ids
      → Unchanged l.blocks s.inner s'.inner
      → y.size ≡ x.size
      → HasContent l ids t' s' y idx d
  HasContent-Unchanged ids t t' s s' x y idx d h ready count u same = record {
    ready = ready;
    count = count;
    some_size = omega (arith, h.some_size, u.same_size);
    blocks = h.blocks;
    pad = h.pad;
    listed = h.listed;
    stored = bytes_same l s.inner s'.inner h.blocks (λ k b at. u.same_contents b) ∙ h.stored;
    sized = same ∙ h.sized;
  }

  -- `x` as it is read at an index.
  abbrev pub reader : Time → ℕ → Inner Time → InnerEntry Time
  reader later idx x = record { inner = reread_inner later x; idx = idx; rcache = []; ridx = 0 }

  -- In the archive there is the entry `x` at the index `idx`, with the content `d`.
  abbrev pub ReadsEntry : Time → ℕ → Inner Time → List ℕ → Archive → Type 0
  ReadsEntry later idx x d b =
      Ensures
        (λ o (t, s).
          (o ≡ some (reader later idx x))
          × Ensures (λ v _. v ≡ d) (λ f _. IsFailure f) (read_vec (reader later idx x, t, s)))
        (λ f _. IsFailure f) (entry_at later idx (b.tree, b.pager))

  module _ (later : Time) (before blocks : List BlockId) (d : List ℕ) (e : EntryMut) (a : Archive)
      (is : IsAppending l before blocks d (e, a)) (stored : IsStored l (e, a))
      (named : userdata a.pager.inner ≡ Userdata.to_bytes (Userdata.new a.header_id))
      (ix : IsInner e.entry)
      (fits : length (Inner.to_bytes e.entry) ≤ block_size a.pager.inner) where
    abbrev ids : List BlockId
    ids = before ++ e.first ∷ blocks

    at_first_block : get_elem? ids (length before) ≡ some e.first
    at_first_block =
        let same : length before ≡ length before + 0 = omega arith in
        ap (get_elem? ids) same ∙ get_elem?-behind before (e.first ∷ blocks) 0

    Opened-ReadsEntry :
        (b : Archive)
        → Opened l later a.header_id a.header a.tree a.pager.inner b
        → ReadsEntry later (length before) e.entry d b
    Opened-ReadsEntry b o =
        let is_b = reopened l later ids a is.archive b o in
        let h = appended-HasContent l before blocks d e a is in
        mono
          (entry_at-some l later ids b is_b (length before) e.first e.entry at_first_block
            (o.unchanged.same_contents e.first
              ∙ stored.0
              ∙ padded-short (block_size a.pager.inner) (Inner.to_bytes e.entry) fits
              ∙ ap (λ n. filled n (Inner.to_bytes e.entry)) (sym o.unchanged.same_size))
            ix)
          (λ r (t, s) (same, (ready, w)). (
            same,
            read_vec-HasContent l ids t s _ (length before) d (
                HasContent-Unchanged ids b.tree t b.pager s e.entry _ (length before) d
                  (HasContent-Unchanged ids a.tree b.tree a.pager b.pager e.entry e.entry
                    (length before) d h is_b.ready is_b.count o.unchanged refl)
                  ready (w.same_nblocks ∙ is_b.count) w.unchanged refl),
          ))
          (λ f q i. i)

    open-ReadsEntry :
        Ensures
          (λ b _. ReadsEntry later (length before) e.entry d b)
          (λ f _. IsFailure f)
          (open_archive later a.pager.inner)
    open-ReadsEntry =
        mono
          (open-Opened l later a.header_id a.header a.tree a.pager.inner is.archive.is_header
            (archive_tree l is.archive) (omega (arith, is.archive.header_fits, min_block_size-le l))
            (record { named = named; block = stored.1 }))
          (λ b c o. Opened-ReadsEntry b o) (λ f c i. i)

  -- What `write_all` leaves is an entry that fits into its block, if it did before.
  module _ (before : List BlockId) (d buf : List ℕ) (e e' : EntryMut) (a a' : Archive)
      (c : Continued l before d buf (e, a) (e', a')) (ix : IsInner e.entry)
      (small : length d + length buf < 2 ^ 64) where
    written-IsInner : IsInner e'.entry
    written-IsInner = record {
      name_fits = rw c.same_entry ix.name_fits;
      mode_fits = rw c.same_entry ix.mode_fits;
      size_fits = rw c.same_entry (omega (arith, length-append d buf, small));
    }

    written_fits :
        length (Inner.to_bytes e.entry) ≤ block_size a.pager.inner
        → length (Inner.to_bytes e'.entry) ≤ block_size a'.pager.inner
    written_fits fits =
        let same_name : length (e'.entry.name) ≡ length (e.entry.name) =
          ap (λ (i : Inner Time). length i.name) c.same_entry in
        omega (
          arith,
          fits,
          same_name,
          c.same_size,
          length-to_bytes-IsInner l e.entry ix,
          length-to_bytes-IsInner l e'.entry written-IsInner,
        )

  -- What `write_all` writes is there when the archive is opened again. After `write_all` has
  -- succeeded, `open` of the container gives an archive in which, at the index of the first block
  -- of the entry, there is the entry with the header that `write_all` left, each of its times as
  -- it is read back from its milliseconds; and then `read_vec` of it returns the data of the entry
  -- with the buffer behind them. All fail only if the container does, `write_all` also with
  -- `Full`, and none panics. Before, the entry and the header are in their blocks, the user data
  -- name the header block, name and numbers of the entry fit their types, its encoding fits into a
  -- block, and data and buffer together have less than 2 ^ 64 bytes. The entry is at the end of an
  -- archive: the blocks behind its first one are the last of the list and hold its data with zeros
  -- behind them, its size is the length of the data, and if it has data, its cache is the last
  -- block. An archive here: its tree gives the blocks of the list the indices from 0 on, each
  -- block of the tree is allocated and at one place only, every cache agrees with its block, the
  -- number of blocks is right and fits a `u64`, the header has the magic and numbers that fit, the
  -- header block is allocated, has room for header and tree and is no block of the tree, and the
  -- buffer of the pager is one block.
  pub open-write_all :
      (later : Time) (before blocks : List BlockId) (d buf : List ℕ) (e : EntryMut) (a : Archive)
      → IsAppending l before blocks d (e, a)
      → IsStored l (e, a)
      → length d + length buf < 2 ^ 64
      → userdata a.pager.inner ≡ Userdata.to_bytes (Userdata.new a.header_id)
      → IsInner e.entry
      → length (Inner.to_bytes e.entry) ≤ block_size a.pager.inner
      → Ensures
          (λ _ (e', a').
            Ensures
              (λ b _. ReadsEntry later (length before) e'.entry (d ++ buf) b)
              (λ f _. IsFailure f)
              (open_archive later a'.pager.inner))
          (λ f _. Stops l f)
          (write_all buf (e, a))
  open-write_all later before blocks d buf e a is stored small named ix fits =
      mono (write_all-Continued l before blocks d buf e a is stored small)
        (λ _ (e', a') c.
          open-ReadsEntry later before c.blocks (d ++ buf) e' a' c.after c.stored
            (c.same_userdata
              ∙ named
              ∙ ap (λ id. Userdata.to_bytes (Userdata.new id)) (sym c.same_header_id))
            (written-IsInner before d buf e e' a a' c ix small)
            (written_fits before d buf e e' a a' c ix small fits))
        (λ f q i. i)
