-- ===== src/Entry/Immut/ReadBack.antt =====
-- What `write_all` wrote is what `read_vec` reads (entry/mut.rs, entry/immut.rs).
use nuts_archive.Prelude.{
  ℕ, zero, suc, ◌+◌, ◌-◌, ◌*◌, ◌^◌, ◌≤◌, ◌<◌, ◌≡◌, refl, sym, ap, ◌∙◌, inl, inr, List, [], ◌∷◌,
  ◌++◌, append_assoc, append-nil, zeros, length, take, drop, take_all, get_elem?, get_elem?-behind,
  length-append, arith,
}
use nuts_archive.Outcome.{raise}
use nuts_archive.Outcome.Ensures.{Ensures, done, bind, mono}
use nuts_archive.Error.{IsFailure, unexpected_eof}
use nuts_archive.Header
use nuts_archive.Pager.{Pager}
use nuts_archive.Platform.{Platform}
use nuts_archive.Platform.Laws.{Laws}
use nuts_archive.State.{Archive}
use nuts_archive.Tree.{Tree}
use nuts_archive.Platform.Laws.{Unchanged-refl}
use nuts_archive.Entry.Inner.{Inner}
use nuts_archive.Entry.Mut.{EntryMut, write_all}
use nuts_archive.Entry.Mut.Blocks.{bytes, bytes-append, IsAppending}
use nuts_archive.Entry.Mut.WriteAll.{IsStored, Stops, write_all-Continued}
use nuts_archive.Entry.Immut.{InnerEntry, OnEntry, read, read_all, read_all_loop, read_vec}
use nuts_archive.Entry.Immut.Whole.{HasContent, Left, Got}
use nuts_archive.Entry.Immut.Rounds.{read_at}

take-append_ge :
    {A : Type 0} (n : ℕ) (xs ys : List A)
    → length xs ≤ n
    → take n (xs ++ ys) ≡ xs ++ take (n - length xs) ys
take-append_ge n [] ys h = let same : n ≡ n - 0 = omega arith in ap (λ k. take k ys) same
take-append_ge zero (x ∷ xs) ys h = absurd (omega arith)
take-append_ge (suc n) (x ∷ xs) ys h =
    let same : n - length xs ≡ suc n - length (x ∷ xs) = omega arith in
    ap (λ r. x ∷ r) (take-append_ge n xs ys (omega arith) ∙ ap (λ k. xs ++ take k ys) same)

module _ ⦃p : Platform⦄ (l : Laws p) where
  open p use {BlockId, Container, Time, block_size}

  module _ (ids : List BlockId) (t : Tree BlockId) (s : Pager Container) (inner : Inner Time)
      (idx : ℕ) (d : List ℕ) (h : HasContent l ids t s inner idx d) where
    abbrev Reader : Type 0
    Reader = InnerEntry Time × Tree BlockId × Pager Container

    read-Left :
        (wanted : ℕ) (rest : List ℕ) (r : Reader)
        → Left l ids t s inner idx d h rest r
        → Ensures
            (λ got r'. Got l ids t s inner idx d h rest wanted got r')
            (λ f _. IsFailure f)
            (read wanted r)
    read-Left wanted rest (e, t1, s1) w =
        rw (w.same, w.rest_eq)
          (read_at l ids t s inner idx d h wanted w.rcache w.ridx t1 s1 w.after)

    -- What the loop does with a number of rounds.
    abbrev LoopReads : ℕ → Type 0
    LoopReads fuel =
        (wanted : ℕ) (acc rest : List ℕ) (r : Reader)
        → Left l ids t s inner idx d h rest r
        → wanted ≤ fuel
        → wanted ≤ length rest
        → Ensures (λ v _. v ≡ acc ++ take wanted rest) (λ f _. IsFailure f)
            (read_all_loop fuel wanted acc r)

    go_on :
        (fuel : ℕ)
        → LoopReads fuel
        → (wanted : ℕ) (acc rest got : List ℕ) (r : Reader)
        → Got l ids t s inner idx d h rest (suc wanted) got r
        → wanted ≤ fuel
        → suc wanted ≤ length rest
        → Ensures
            (λ v _. v ≡ acc ++ take (suc wanted) rest)
            (λ f _. IsFailure f)
            ((elim got as (λ _. OnEntry (List ℕ)) [
              | [] ↦ raise unexpected_eof
              | x ∷ xs ↦ read_all_loop fuel (suc wanted - length (x ∷ xs)) (acc ++ x ∷ xs)
            ])
              r)
    go_on fuel loop wanted acc rest [] r g enough there =
        absurd (omega (arith, g.at_least (omega arith) (omega (arith, there))))
    go_on fuel loop wanted acc rest (x ∷ xs) r g enough there =
        let got = x ∷ xs in
        let long : length rest ≡ length got + length g.others =
          ap length g.split ∙ length-append got g.others in
        let joined : (acc ++ got) ++ take (suc wanted - length got) g.others
            ≡ acc ++ take (suc wanted) rest =
          append_assoc acc got (take (suc wanted - length got) g.others)
          ∙ ap (λ v. acc ++ v) (sym (take-append_ge (suc wanted) got g.others g.at_most))
          ∙ ap (λ v. acc ++ take (suc wanted) v) (sym g.split) in
        mono
          (loop (suc wanted - length got) (acc ++ got) g.others r g.left (omega (arith, enough))
            (omega (arith, long, there)))
          (λ v r' e. e ∙ joined) (λ f r' i. i)

    loop_reads : (fuel : ℕ) → LoopReads fuel
    unfolding read_all_loop
    loop_reads fuel zero acc rest r w enough there = done (sym (append-nil acc))
    loop_reads zero (suc wanted) acc rest r w enough there = absurd (omega (arith, enough))
    loop_reads (suc fuel) (suc wanted) acc rest r w enough there =
        bind (read-Left (suc wanted) rest r w)
          (λ got r' g.
            go_on fuel (loop_reads fuel) wanted acc rest got r' g (omega (arith, enough)) there)
          (λ f r' i. i)

    pub read_vec-HasContent :
        Ensures
          (λ v _. v ≡ d)
          (λ f _. IsFailure f)
          (read_vec (record { inner = inner; idx = idx; rcache = []; ridx = 0 }, t, s))
    unfolding read_vec read_all
    read_vec-HasContent =
        let start : 0 ≡ 0 * block_size s.inner = omega arith in
        let w : Left l ids t s inner idx d h d
            (record { inner = inner; idx = idx; rcache = []; ridx = 0 }, t, s) =
          record {
            rcache = [];
            ridx = 0;
            same = refl;
            rest_eq = ap (λ k. drop k d) start;
            after = (
              h.ready,
              record {
                same_pointers = refl;
                same_nblocks = refl;
                unchanged = Unchanged-refl s.inner;
              },
            );
          } in
        mono
          (loop_reads inner.size inner.size [] d
            (record { inner = inner; idx = idx; rcache = []; ridx = 0 }, t, s) w (omega arith)
            (omega (arith, h.sized)))
          (λ v r e. e ∙ take_all inner.size d (omega (arith, h.sized))) (λ f r i. i)

  -- The entry at the end of the archive has its data as content.
  pub appended-HasContent :
      (before blocks : List BlockId) (d : List ℕ) (e : EntryMut) (a : Archive)
      → IsAppending l before blocks d (e, a)
      → HasContent l (before ++ e.first ∷ blocks) a.tree a.pager e.entry (length before) d
  unfolding Header.size
  appended-HasContent before blocks d e a is =
      let (pad, stored) = padding in
      record {
        ready = is.archive.ready;
        count = is.archive.count;
        some_size = omega (arith, is.archive.header_fits);
        blocks = blocks;
        pad = pad;
        listed = λ k b at.
            let place : length before + k + 1 ≡ length before + suc k = omega arith in
            ap (λ n. get_elem? (before ++ e.first ∷ blocks) n) place
            ∙ get_elem?-behind before (e.first ∷ blocks) (suc k)
            ∙ at;
        stored = stored;
        sized = is.sized;
      }
    where
      padding : (pad : List ℕ) × (bytes l a.pager.inner blocks ≡ d ++ pad)
      padding = elim is.holds [
        | inl (none_yet, empty) ↦ ([], rw (none_yet, empty) refl)
        | inr h ↦ (
          zeros (block_size a.pager.inner - length h.part),
          ap (bytes l a.pager.inner) h.same_blocks
              ∙ bytes-append l a.pager.inner h.whole e.last
              ∙ ap (λ v. bytes l a.pager.inner h.whole ++ v) h.content
              ∙ sym (
                  append_assoc (bytes l a.pager.inner h.whole) h.part
                    (zeros (block_size a.pager.inner - length h.part)))
              ∙ ap (λ v. v ++ zeros (block_size a.pager.inner - length h.part)) (sym h.same_data),
        )
      ]

  -- After `write_all` has succeeded, `read_vec` of an entry with the header that it leaves, at the
  -- index of its first block, returns the data of the entry with the buffer behind them. Both fail
  -- only if the container does, `write_all` also with `Full`, and neither panics. Before, the
  -- entry and the header are in their blocks, and data and buffer together have less than 2 ^ 64
  -- bytes. The entry is at the end of an archive: the blocks behind its first one are the last of
  -- the list and hold its data with zeros behind them, its size is the length of the data, and if
  -- it has data, its cache is the last block. An archive here: its tree gives the blocks of the
  -- list the indices from 0 on, each block of the tree is allocated and at one place only, every
  -- cache agrees with its block, the number of blocks is right and fits a `u64`, the header has
  -- the magic and numbers that fit, the header block is allocated, has room for header and tree
  -- and is no block of the tree, and the buffer of the pager is one block.
  pub read_vec-write_all :
      (before blocks : List BlockId) (d buf : List ℕ) (e : EntryMut) (a : Archive)
      → IsAppending l before blocks d (e, a)
      → IsStored l (e, a)
      → length d + length buf < 2 ^ 64
      → Ensures
          (λ _ (e', a').
            Ensures
              (λ v _. v ≡ d ++ buf)
              (λ f _. IsFailure f)
              (read_vec (
                record { inner = e'.entry; idx = length before; rcache = []; ridx = 0 },
                a'.tree,
                a'.pager,
              )))
          (λ f _. Stops l f)
          (write_all buf (e, a))
  read_vec-write_all before blocks d buf e a is stored small =
      mono (write_all-Continued l before blocks d buf e a is stored small)
        (λ _ (e', a') c.
          read_vec-HasContent (before ++ e'.first ∷ c.blocks) a'.tree a'.pager e'.entry
            (length before) (d ++ buf)
            (appended-HasContent before c.blocks (d ++ buf) e' a' c.after))
        (λ f q w. w)
