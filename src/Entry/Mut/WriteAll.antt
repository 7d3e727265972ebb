-- ===== src/Entry/Mut/WriteAll.antt =====
-- `write_all` ends, and the blocks behind the entry hold the data (entry/mut.rs).
use nuts_archive.Prelude.{
  ℕ, zero, suc, ◌+◌, ◌^◌, ◌≤◌, ◌<◌, ◌≡◌, refl, sym, ap, ◌∙◌, ◌⊎◌, inl, inr, some, List, [], ◌∷◌,
  ◌++◌, append_assoc, append-nil, length, length-append, length-take, length-drop, take, drop,
  take-append-drop, get_elem?, arith, subst,
}
use nuts_archive.Outcome.Ensures.{Ensures, done, bind, mono}
use nuts_archive.Error.{Error, IsFailure, full}
use nuts_archive.Pager.Blocks.{filled, contents}
use nuts_archive.Platform.{Platform}
use nuts_archive.Platform.Laws.{Laws, padded}
use nuts_archive.State.{Archive}
use nuts_archive.State.HeaderBlock.{header_bytes}
use nuts_archive.Entry.Inner
use nuts_archive.Entry.Inner.{Inner}
use nuts_archive.Entry.Mut.{EntryMut, write_all, write_all_loop}
use nuts_archive.Entry.Mut.Blocks.{IsAppending}
use nuts_archive.Entry.Mut.Appending.{Appended}
use nuts_archive.Entry.Mut.NextBlock.{write-Appended}

module _ ⦃p : Platform⦄ (l : Laws p) where
  open p use {BlockId, Container, Time, block_size}

  -- The entry and the header are in their blocks.
  abbrev pub IsStored : EntryMut × Archive → Type 0
  IsStored (e, a) =
      (contents l a.pager.inner e.first
        ≡ padded (block_size a.pager.inner) (Inner.to_bytes e.entry))
      × (contents l a.pager.inner a.header_id
          ≡ filled (block_size a.pager.inner) (header_bytes a.header a.tree))

  -- Data are written behind those of the entry.
  pub record Continued (before : List BlockId) (d buf : List ℕ) (q q' : EntryMut × Archive)
      : Type 0 where
    pub blocks : List BlockId
    pub after : IsAppending l before blocks (d ++ buf) q'
    pub stored : IsStored q'
    pub same_first : q'.0.first ≡ q.0.first
    pub same_entry : q'.0.entry ≡ record (q.0.entry) { size = length (d ++ buf) }
    pub same_header : q'.1.header ≡ q.1.header
    pub same_header_id : q'.1.header_id ≡ q.1.header_id
    pub same_size : block_size q'.1.pager.inner ≡ block_size q.1.pager.inner
    pub same_userdata : p.userdata q'.1.pager.inner ≡ p.userdata q.1.pager.inner
    pub kept :
        (k : ℕ) (b : BlockId)
        → get_elem? before k ≡ some b
        → contents l q'.1.pager.inner b ≡ contents l q.1.pager.inner b

  Appended-IsStored :
      (before : List BlockId) (d : List ℕ) (e : EntryMut) (a : Archive) (buf : List ℕ) (n : ℕ)
      (q : EntryMut × Archive)
      → Appended l before d e a buf n q
      → IsStored q
  Appended-IsStored before d e a buf n q w = (
    ap (contents l q.1.pager.inner) w.same_first
        ∙ w.entry_block
        ∙ ap (λ k. padded k (Inner.to_bytes q.0.entry)) (sym w.same_size),
    ap (contents l q.1.pager.inner) w.same_header_id
        ∙ w.header_block
        ∙ rw (w.same_header, w.same_size) refl,
  )

  none_written :
      (before blocks : List BlockId) (d : List ℕ) (e : EntryMut) (a : Archive)
      → IsAppending l before blocks d (e, a)
      → IsStored (e, a)
      → Continued before d [] (e, a) (e, a)
  none_written before blocks d e a is stored = record {
    blocks = blocks;
    after = subst (λ v. IsAppending l before blocks v (e, a)) (sym (append-nil d)) is;
    stored = stored;
    same_first = refl;
    same_entry =
        ap (λ n. record (e.entry) { size = n }) (is.sized ∙ ap length (sym (append-nil d)));
    same_header = refl;
    same_header_id = refl;
    same_size = refl;
    same_userdata = refl;
    kept = λ k b at. refl;
  }

  -- One write, and the others.
  some_written :
      (before : List BlockId) (d buf : List ℕ) (n : ℕ) (e : EntryMut) (a : Archive)
      (q q' : EntryMut × Archive)
      → Appended l before d e a buf n q
      → Continued before (d ++ take n buf) (drop n buf) q q'
      → Continued before d buf (e, a) q'
  some_written before d buf n e a q q' w c =
      let same : (d ++ take n buf) ++ drop n buf ≡ d ++ buf =
        append_assoc d (take n buf) (drop n buf) ∙ ap (λ r. d ++ r) (take-append-drop n buf) in
      record {
        blocks = c.blocks;
        after = subst (λ v. IsAppending l before c.blocks v q') same c.after;
        stored = c.stored;
        same_first = c.same_first ∙ w.same_first;
        same_entry =
            c.same_entry
            ∙ ap (λ (i : Inner Time). record i { size = length ((d ++ take n buf) ++ drop n buf) })
                w.same_entry
            ∙ ap (λ v. record (e.entry) { size = length v }) same;
        same_header = c.same_header ∙ w.same_header;
        same_header_id = c.same_header_id ∙ w.same_header_id;
        same_size = c.same_size ∙ w.same_size;
        same_userdata = c.same_userdata ∙ w.same_userdata;
        kept = λ k b at. c.kept k b at ∙ w.kept k b at;
      }

  abbrev pub Stops : Error BlockId p.Failure → Type 0
  Stops f = IsFailure f ⊎ (f ≡ full)

  loop-Continued :
      (fuel : ℕ) (before blocks : List BlockId) (d buf : List ℕ) (e : EntryMut) (a : Archive)
      → IsAppending l before blocks d (e, a)
      → IsStored (e, a)
      → length d + length buf < 2 ^ 64
      → length buf ≤ fuel
      → Ensures
          (λ _ q. Continued before d buf (e, a) q)
          (λ f _. Stops f)
          (write_all_loop fuel buf (e, a))
  unfolding write_all_loop
  loop-Continued zero before blocks d [] e a is stored small enough =
      done (none_written before blocks d e a is stored)
  loop-Continued zero before blocks d (x ∷ buf) e a is stored small enough =
      absurd (omega (arith, enough))
  loop-Continued (suc fuel) before blocks d [] e a is stored small enough =
      done (none_written before blocks d e a is stored)
  loop-Continued (suc fuel) before blocks d (x ∷ buf) e a is stored small enough =
      bind (write-Appended l before blocks d e a is (x ∷ buf) (omega arith) small)
        (λ n (e1, a1) w.
          mono
            (loop-Continued fuel before w.blocks (d ++ take n (x ∷ buf)) (drop n (x ∷ buf)) e1 a1
              w.after (Appended-IsStored before d e a (x ∷ buf) n (e1, a1) w)
              (omega (
                arith,
                small,
                w.at_most,
                length-append d (take n (x ∷ buf)),
                length-take n (x ∷ buf),
                length-drop n (x ∷ buf),
              ))
              (omega (arith, enough, w.some_bytes, length-drop n (x ∷ buf))))
            (λ _ q c. some_written before d (x ∷ buf) n e a (e1, a1) q w c) (λ f q s. s))
        (λ f q s. elim s [ inl i ↦ inl i | inr (e, _) ↦ inr e ])

  -- `write_all` ends for each buffer and does not panic. If it succeeds, the blocks of the entry
  -- hold its data with the buffer behind them, the size of the entry is their number, entry and
  -- header are in their blocks, and the blocks before the entry keep their bytes. It fails only if
  -- the container does, or with `Full`. Before, too, the entry and the header are in their blocks
  -- (an empty buffer writes neither), and data and buffer together have less than 2 ^ 64 bytes.
  -- The entry is at the end of an archive: the blocks behind its first one are the last of the
  -- list and hold its data with zeros behind them, its size is the length of the data, and if it
  -- has data, its cache is the last block. An archive here: its tree gives the blocks of the list
  -- the indices from 0 on, each block of the tree is allocated and at one place only, every cache
  -- agrees with its block, the number of blocks is right and fits a `u64`, the header has the
  -- magic and numbers that fit, the header block is allocated, has room for header and tree and is
  -- no block of the tree, and the buffer of the pager is one block.
  pub write_all-Continued :
      (before blocks : List BlockId) (d buf : List ℕ) (e : EntryMut) (a : Archive)
      → IsAppending l before blocks d (e, a)
      → IsStored (e, a)
      → length d + length buf < 2 ^ 64
      → Ensures (λ _ q. Continued before d buf (e, a) q) (λ f _. Stops f) (write_all buf (e, a))
  unfolding write_all
  write_all-Continued before blocks d buf e a is stored small =
      loop-Continued (length buf) before blocks d buf e a is stored small (omega arith)
