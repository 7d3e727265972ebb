-- ===== src/Entry/Mut/NextBlock.antt =====
-- `write` goes on in the last block, or in a new one (entry/mut.rs).
use native.Mathlib.Nat.{mod-eq_of_lt, mul-add-mod_self_right, mod_self, zero-mod}
use native.Mathlib.Decide.{dec_lt}
use nuts_archive.Prelude.{
  ℕ, suc, ◌+◌, ◌-◌, ◌*◌, ◌%◌, ◌^◌, ◌≤◌, ◌<◌, ◌≡◌, ◌≢◌, refl, sym, ap, ◌∙◌, ◌⊎◌, inl, inr, true,
  some, List, [], ◌∷◌, ◌++◌, append_assoc, append-nil, replicate, length, length-append, get_elem?,
  get_elem?-append, get_elem?-behind, arith, subst, ◌==◌, ==_iff, Bool-cases, zeros_eq,
}
use nuts_archive.Header
use nuts_archive.Outcome.Ensures.{Ensures, done, bind, mono, zoomed}
use nuts_archive.Error.{Error, IsFailure, full}
use nuts_archive.Pager.Blocks.{contents, length-filled}
use nuts_archive.Platform.{Platform}
use nuts_archive.Platform.Laws.{Laws}
use nuts_archive.State.{Archive, on_tree}
use nuts_archive.State.Growing.{IsArchive, Extended, aquire-Extended, listed}
use nuts_archive.Tree
use nuts_archive.Tree.Forest.{capacity}
use nuts_archive.Entry.Mut.{EntryMut, on_archive, make_room, write}
use nuts_archive.Entry.Mut.Blocks.{bytes, bytes_same, bytes-append, length-bytes, IsAppending}
use nuts_archive.Entry.Mut.Appending.{Room, Appended, fill_room-Appended}

module _ ⦃p : Platform⦄ (l : Laws p) where
  open p use {BlockId, Container, Time, block_size}

  module _ (before blocks : List BlockId) (d : List ℕ) (e : EntryMut) (a : Archive)
      (is : IsAppending l before blocks d (e, a)) where
    abbrev size : ℕ
    size = block_size a.pager.inner

    abbrev ids : List BlockId
    ids = before ++ e.first ∷ blocks

    -- A block of the archive keeps its bytes when one more is aquired.
    kept :
        (id : BlockId) (a1 : Archive)
        → Extended l is.archive id a1
        → (k : ℕ) (b : BlockId) → get_elem? ids k ≡ some b
        → contents l a1.pager.inner b ≡ contents l a.pager.inner b
    kept id a1 x k b at =
        let (live, content, not_header) = listed l is.archive k b at in
        (x.grows a.header_id).kept b live content not_header not_header

    some_size : 0 < size
    unfolding Header.size
    some_size = omega (arith, is.archive.header_fits)

    -- At the end of a block, the data fill all blocks.
    full_blocks : (e.entry.size % size) ≡ 0 → d ≡ bytes l a.pager.inner blocks
    full_blocks z = elim is.holds [
      | inl (none, empty) ↦ rw (none, empty) refl
      | inr h ↦
          let long : length d ≡ length h.whole * size + length h.part = omega (
            arith,
            ap length h.same_data,
            length-append (bytes l a.pager.inner h.whole) h.part,
            length-bytes l a.pager.inner h.whole,
          ) in
          let rest : (length h.part) % size ≡ 0 =
            sym (mul-add-mod_self_right (length h.whole) size (length h.part))
            ∙ ap (λ n. n % size) (sym (is.sized ∙ long))
            ∙ z in
          let whole : length h.part ≡ size = elim (dec_lt (length h.part) size) [
            | yes lt ↦ absurd (omega (arith, h.some_part, rest, mod-eq_of_lt lt))
            | no ge ↦ omega (arith, h.fits)
          ] in
          let block : contents l a.pager.inner e.last ≡ h.part =
            h.content
            ∙ ap (λ k. h.part ++ k) (zeros_eq (size - length h.part) 0 (omega (arith, whole)))
            ∙ append-nil h.part in
          h.same_data
          ∙ ap (λ x. bytes l a.pager.inner h.whole ++ x) (sym block)
          ∙ sym (bytes-append l a.pager.inner h.whole e.last)
          ∙ ap (bytes l a.pager.inner) (sym h.same_blocks)
    ]

    aquired :
        (e.entry.size % size) ≡ 0
        → (id : BlockId) (a1 : Archive) → Extended l is.archive id a1
        → Room l before d e a
            (e.entry.size % size)
            size
            (record e { last = id; cache = replicate size 0 }, a1)
    aquired z id a1 x = record {
      whole = blocks;
      part = [];
      archive =
          subst (λ v. IsArchive l v a1) (append_assoc before (e.first ∷ blocks) (id ∷ []))
            x.archive;
      same_size = (x.grows id).same_size;
      same_userdata = (x.grows id).same_userdata;
      same_pos = z;
      room = omega (arith, z, some_size);
      left = omega (arith, z);
      same_data =
          full_blocks z
          ∙ sym (
              bytes_same l a.pager.inner a1.pager.inner blocks (λ k b at.
                kept id a1 x (length before + suc k) b
                  (get_elem?-behind before (e.first ∷ blocks) (suc k) ∙ at)))
          ∙ sym (append-nil (bytes l a1.pager.inner blocks));
      cached = zeros_eq size (size - 0) (omega arith);
      same_first = refl;
      same_entry = refl;
      same_header = x.same_header;
      same_header_id = (x.grows id).same_header_id;
      kept = λ k b at. kept id a1 x k b (get_elem?-append before _ k b at);
    }

    -- Inside of a block, the cache is the last one.
    inside :
        (e.entry.size % size) ≢ 0
        → Room l before d e a (e.entry.size % size) (size - e.entry.size % size) (e, a)
          × (length e.cache ≡ size)
    inside ne = elim is.holds [
      | inl (none, empty) ↦
          absurd (ne (ap (λ n. n % size) (is.sized ∙ ap length empty) ∙ zero-mod size))
      | inr h ↦
          let long : length d ≡ length h.whole * size + length h.part = omega (
            arith,
            ap length h.same_data,
            length-append (bytes l a.pager.inner h.whole) h.part,
            length-bytes l a.pager.inner h.whole,
          ) in
          let rest : e.entry.size % size ≡ length h.part % size =
            ap (λ n. n % size) (is.sized ∙ long)
            ∙ mul-add-mod_self_right (length h.whole) size (length h.part) in
          let short : length h.part < size = elim (dec_lt (length h.part) size) [
            | yes lt ↦ lt
            | no ge ↦
                let whole : length h.part ≡ size = omega (arith, h.fits) in
                absurd (ne (rest ∙ ap (λ n. n % size) whole ∙ mod_self size))
          ] in
          let pos : e.entry.size % size ≡ length h.part = rest ∙ mod-eq_of_lt short in
          (
            record {
              whole = h.whole;
              part = h.part;
              archive = subst (λ v. IsArchive l (before ++ e.first ∷ v) a) h.same_blocks is.archive;
              same_size = refl;
              same_userdata = refl;
              same_pos = pos;
              room = omega (arith, pos, short);
              left = refl;
              same_data = h.same_data;
              cached = h.cached;
              same_first = refl;
              same_entry = refl;
              same_header = refl;
              same_header_id = refl;
              kept = λ k b at. refl;
            },
            ap length h.cached ∙ length-filled size h.part h.fits,
          )
    ]

    -- The container fails, or the archive is full.
    abbrev pub Stops : Error BlockId p.Failure → Type 0
    Stops f = IsFailure f ⊎ ((f ≡ full) × (capacity a.pager.inner % 2 ^ 64 ≤ a.tree.nblocks))

    aquiring :
        Ensures
          (λ id q. (q.0 ≡ e) × Extended l is.archive id q.1)
          (λ f _. Stops f)
          (on_archive (on_tree Tree.aquire) (e, a))
    aquiring =
        zoomed (λ a. (e, a)) (λ f. f)
          (mono (aquire-Extended l is.archive) (λ id a1 x. (refl, x)) (λ f a1 w. w))

    make_room-Room :
        Ensures
          (λ n q. Room l before d e a (e.entry.size % size) n q)
          (λ f _. Stops f)
          (make_room size (e.entry.size % size) (e, a))
    unfolding make_room
    make_room-Room = elim (Bool-cases (e.entry.size % size == 0)) [
      | inl z ↦ rw z (
          bind aquiring
            (λ id (e1, a1) (same, x).
              rw same (done (aquired ((==_iff (e.entry.size % size) 0).0 z) id a1 x)))
            (λ f q w. w))
      | inr ne ↦
          let (room, long) = inside (λ z.
            let yes : (e.entry.size % size == 0) ≡ true = (==_iff (e.entry.size % size) 0).1 z in
            absurd cc) in
          rw (ne, (==_iff (length e.cache) size).1 long) (done room)
    ]

    -- `write` of some bytes, for an entry at the end of an archive, writes at least one of them
    -- behind its data, into its last block or a new one: the size of the entry grows by them,
    -- entry and header are in their blocks, and the blocks before the entry keep their bytes. It
    -- does not panic, and fails only if the container does, or with `Full`, in which case the
    -- number of blocks has reached 12 + n + n * n + n * n * n modulo 2 ^ 64, for nodes of n ids.
    -- Data and buffer together have less than 2 ^ 64 bytes. The entry is at the end of an archive:
    -- the blocks behind its first one are the last of the list and hold its data with zeros behind
    -- them, its size is the length of the data, and if it has data, its cache is the last block.
    -- An archive here: its tree gives the blocks of the list the indices from 0 on, each block of
    -- the tree is allocated and at one place only, every cache agrees with its block, the number
    -- of blocks is right and fits a `u64`, the header has the magic and numbers that fit, the
    -- header block is allocated, has room for header and tree and is no block of the tree, and the
    -- buffer of the pager is one block.
    pub write-Appended :
        (buf : List ℕ)
        → 0 < length buf
        → length d + length buf < 2 ^ 64
        → Ensures (λ n q. Appended l before d e a buf n q) (λ f _. Stops f) (write buf (e, a))
    unfolding write
    write-Appended buf some_buf small =
        bind make_room-Room
          (λ available (e1, a1) room.
            mono
              (fill_room-Appended l before d e a (e.entry.size % size) available buf e1 a1 room
                some_buf is.sized small)
              (λ n q w. w) (λ f q i. inl i))
          (λ f q w. w)
