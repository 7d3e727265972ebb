-- ===== src/Entry/Mut/Appending.antt =====
-- `write` goes on behind the data of the entry, in a new block if it has to (entry/mut.rs).
use native.Mathlib.Nat.{mod-eq_of_lt}
use nuts_archive.Prelude.{
  ℕ, suc, ◌+◌, ◌-◌, ◌%◌, ◌^◌, ◌≤◌, ◌<◌, ◌≡◌, ◌≢◌, refl, sym, ap, ◌∙◌, inr, true, some, List, [],
  ◌∷◌, ◌++◌, append_assoc, length, length-append, length-take, get_elem?, get_elem?-append,
  get_elem?-lt, arith, take, min,
}
use nuts_archive.Outcome.Ensures.{Ensures, done}
use nuts_archive.Error.{IsFailure}
use nuts_archive.Pager.{Pager}
use nuts_archive.Pager.Blocks.{
  filled, contents, splice-filled, length-filled, padded-full, write-padded,
}
use nuts_archive.Platform.{Platform}
use nuts_archive.Platform.Laws.{Laws, UnchangedBut, padded, splice}
use nuts_archive.State.{Archive}
use nuts_archive.State.HeaderBlock.{header_bytes, flush_header-contents}
use nuts_archive.State.Growing.{
  IsArchive, listed, written-IsArchive, header-IsContent, archive_tree,
}
use nuts_archive.Tree.Forest.{pointers}
use nuts_archive.Tree.Forest.Grow.{IsContent}
use nuts_archive.Entry.Inner
use nuts_archive.Entry.Inner.{Inner}
use nuts_archive.Entry.Mut.{EntryMut, fill_room}
use nuts_archive.Entry.Mut.Writing.{flush-padded, after_pager}
use nuts_archive.Entry.Mut.Blocks.{
  bytes, bytes_same, extent, at_first, at_whole, at_last, differ, IsAppending,
}

module _ ⦃p : Platform⦄ (l : Laws p) where
  open p use {BlockId, Container, Time, block_size}

  module _ (before : List BlockId) (d : List ℕ) (e0 : EntryMut) (a0 : Archive) where
    -- The cache holds the bytes of the last block, which has room behind them.
    pub record Room (pos available : ℕ) (q : EntryMut × Archive) : Type 0 where
      pub whole : List BlockId
      pub part : List ℕ
      pub archive : IsArchive l (extent l before whole q.0.first q.0.last) q.1
      pub same_size : block_size q.1.pager.inner ≡ block_size a0.pager.inner
      pub same_userdata : p.userdata q.1.pager.inner ≡ p.userdata a0.pager.inner
      pub same_pos : pos ≡ length part
      pub room : pos < block_size a0.pager.inner
      pub left : available ≡ block_size a0.pager.inner - pos
      pub same_data : d ≡ bytes l q.1.pager.inner whole ++ part
      pub cached : q.0.cache ≡ filled (block_size a0.pager.inner) part
      pub same_first : q.0.first ≡ e0.first
      pub same_entry : q.0.entry ≡ e0.entry
      pub same_header : q.1.header ≡ a0.header
      pub same_header_id : q.1.header_id ≡ a0.header_id
      pub kept :
          (k : ℕ) (b : BlockId)
          → get_elem? before k ≡ some b
          → contents l q.1.pager.inner b ≡ contents l a0.pager.inner b

    -- After `n` bytes of `buf` are written behind the data.
    pub record Appended (buf : List ℕ) (n : ℕ) (q : EntryMut × Archive) : Type 0 where
      pub blocks : List BlockId
      pub some_bytes : 0 < n
      pub at_most : n ≤ length buf
      pub after : IsAppending l before blocks (d ++ take n buf) q
      pub same_first : q.0.first ≡ e0.first
      pub same_entry : q.0.entry ≡ record (e0.entry) { size = length (d ++ take n buf) }
      pub entry_block :
          contents l q.1.pager.inner e0.first
          ≡ padded (block_size a0.pager.inner) (Inner.to_bytes q.0.entry)
      pub header_block :
          contents l q.1.pager.inner a0.header_id
          ≡ filled (block_size a0.pager.inner) (header_bytes a0.header q.1.tree)
      pub same_header : q.1.header ≡ a0.header
      pub same_header_id : q.1.header_id ≡ a0.header_id
      pub same_size : block_size q.1.pager.inner ≡ block_size a0.pager.inner
      pub same_userdata : p.userdata q.1.pager.inner ≡ p.userdata a0.pager.inner
      pub kept :
          (k : ℕ) (b : BlockId)
          → get_elem? before k ≡ some b
          → contents l q.1.pager.inner b ≡ contents l a0.pager.inner b

    module _ (pos available : ℕ) (buf : List ℕ) (e : EntryMut) (a : Archive)
        (r : Room pos available (e, a)) (some_buf : 0 < length buf)
        (sized : e0.entry.size ≡ length d) (small : length d + length buf < 2 ^ 64) where
      abbrev n : ℕ
      n = min (length buf) available

      abbrev size : ℕ
      size = block_size a0.pager.inner

      -- What the last block holds now, and the entry.
      abbrev part' : List ℕ
      part' = r.part ++ take n buf

      abbrev entry' : Inner Time
      entry' = record (e.entry) { size = (e.entry.size + n) % 2 ^ 64 }

      abbrev e' : EntryMut
      e' = record e { entry = entry'; cache = splice e.cache pos (take n buf) }

      fits : length part' ≤ size
      fits =
          omega (
            arith,
            length-append r.part (take n buf),
            length-take n buf,
            r.left,
            r.room,
            r.same_pos,
          )

      new_cache : splice e.cache pos (take n buf) ≡ filled size part'
      new_cache = rw (r.cached, r.same_pos) (splice-filled size r.part (take n buf))

      longer : length (d ++ take n buf) ≡ length d + n
      longer = omega (arith, length-append d (take n buf), length-take n buf)

      new_size : (e.entry.size + n) % 2 ^ 64 ≡ length (d ++ take n buf)
      new_size =
          let same : e.entry.size ≡ length d =
            ap (λ (i : Inner Time). i.size) r.same_entry ∙ sized in
          mod-eq_of_lt (omega (arith, same, small)) ∙ omega (arith, same, longer)

      abbrev all : List BlockId
      all = extent l before r.whole e.first e.last

      last-ne-first : e.last ≢ e.first
      last-ne-first =
          differ l r.archive (length before + suc (length r.whole)) (length before) e.last e.first
            (at_last l before r.whole e.first e.last) (at_first l before r.whole e.first e.last)
            (λ z. absurd (omega (arith, z)))

      -- The three blocks are written, and the archive is one with the same blocks.
      wrote :
          (q1 q2 q3 : Pager Container)
          → IsArchive l all (record a { pager = q3 })
          → contents l q1.inner e.last ≡ padded (block_size a.pager.inner) e'.cache
          → UnchangedBut l.blocks e.last a.pager.inner q1.inner
          → contents l q2.inner e.first ≡ padded (block_size q1.inner) (Inner.to_bytes entry')
          → UnchangedBut l.blocks e.first q1.inner q2.inner
          → contents l q3.inner a.header_id
            ≡ filled (block_size q2.inner) (header_bytes a.header a.tree)
          → UnchangedBut l.blocks a.header_id q2.inner q3.inner
          → Appended buf n (e', record a { pager = q3 })
      wrote q1 q2 q3 is same1 u1 same2 u2 same3 u3 = record {
        blocks = r.whole ++ e.last ∷ [];
        some_bytes = omega (arith, some_buf, r.left, r.room);
        at_most = omega arith;
        after = record {
          archive = is;
          sized = new_size;
          holds = inr (record {
            whole = r.whole;
            part = part';
            same_blocks = refl;
            same_data =
                ap (λ x. x ++ take n buf) r.same_data
                ∙ append_assoc (bytes l a.pager.inner r.whole) r.part (take n buf)
                ∙ ap (λ x. x ++ part') (sym whole_kept);
            some_part = omega (
              arith,
              some_buf,
              r.left,
              r.room,
              length-append r.part (take n buf),
              length-take n buf,
            );
            fits = omega (arith, fits, all_size);
            content = last_content ∙ new_cache ∙ ap (λ k. filled k part') (sym all_size);
            cached = new_cache ∙ ap (λ k. filled k part') (sym all_size);
          });
        };
        same_first = r.same_first;
        same_entry = rw (new_size, r.same_entry) refl;
        entry_block =
            ap (contents l q3.inner) (sym r.same_first)
            ∙ u3.same_contents e.first first_info.2
            ∙ same2
            ∙ ap (λ k. padded k (Inner.to_bytes entry')) (u1.same_size ∙ r.same_size);
        header_block =
            ap (contents l q3.inner) (sym r.same_header_id)
            ∙ same3
            ∙ rw (r.same_header, u2.same_size, u1.same_size, r.same_size) refl;
        same_header = r.same_header;
        same_header_id = r.same_header_id;
        same_size = all_size;
        same_userdata = u3.same_userdata ∙ u2.same_userdata ∙ u1.same_userdata ∙ r.same_userdata;
        kept = λ k b at.
            kept_at k b (get_elem?-append before _ k b at)
              (omega (arith, get_elem?-lt before k b at))
              (omega (arith, get_elem?-lt before k b at))
            ∙ r.kept k b at;
      }
        where
          all_size : block_size q3.inner ≡ size
          all_size = u3.same_size ∙ u2.same_size ∙ u1.same_size ∙ r.same_size

          first_info :
              (l.blocks.live a.pager.inner e.first ≡ true)
              × IsContent l a.pager.inner (pointers a.tree) e.first
              × (e.first ≢ a.header_id)
          first_info =
              listed l r.archive (length before) e.first (at_first l before r.whole e.first e.last)

          kept_at :
              (k : ℕ) (b : BlockId)
              → get_elem? all k ≡ some b
              → k ≢ length before
              → k ≢ length before + suc (length r.whole)
              → contents l q3.inner b ≡ contents l a.pager.inner b
          kept_at k b at not_first not_last =
              u3.same_contents b (listed l r.archive k b at).2
              ∙ u2.same_contents b (
                  differ l r.archive k (length before) b e.first at
                    (at_first l before r.whole e.first e.last) not_first)
              ∙ u1.same_contents b (
                  differ l r.archive k (length before + suc (length r.whole)) b e.last at
                    (at_last l before r.whole e.first e.last) not_last)

          whole_kept : bytes l q3.inner r.whole ≡ bytes l a.pager.inner r.whole
          whole_kept = bytes_same l a.pager.inner q3.inner r.whole (λ k b at.
              kept_at (length before + suc k) b (at_whole l before r.whole e.first e.last k b at)
                (omega arith) (omega (arith, get_elem?-lt r.whole k b at)))

          last_content : contents l q3.inner e.last ≡ e'.cache
          last_content =
              u3.same_contents e.last
                (listed l r.archive _ e.last (at_last l before r.whole e.first e.last)).2
              ∙ u2.same_contents e.last last-ne-first
              ∙ same1
              ∙ padded-full (block_size a.pager.inner) e'.cache
                  (ap length new_cache ∙ length-filled size part' fits ∙ sym r.same_size)

      pub fill_room-Appended :
          Ensures
            (λ n' q. Appended buf n' q)
            (λ f _. IsFailure f)
            (fill_room pos buf available (e, a))
      unfolding fill_room
      fill_room-Appended =
          let last_info = listed l r.archive _ e.last (at_last l before r.whole e.first e.last) in
          let first_info =
            listed l r.archive (length before) e.first (at_first l before r.whole e.first e.last) in
          after_pager l (record e { cache = splice e.cache pos (take n buf) }) a _
            (write-padded l e.last e'.cache a.pager r.archive.ready.is_pager)
            (λ _ q1 (same1, _, pager1, u1).
              let is1 = written-IsArchive l r.archive e.last q1 last_info.1 pager1 u1 in
              let first1 =
                listed l is1 (length before) e.first (at_first l before r.whole e.first e.last) in
              after_pager l e' (record a { pager = q1 }) _ (flush-padded l entry' e.first q1 pager1)
                (λ _ q2 (same2, pager2, u2).
                  let is2 = written-IsArchive l is1 e.first q2 first1.1 pager2 u2 in
                  after_pager l e' (record a { pager = q2 }) _
                    (flush_header-contents l a.header_id a.header a.tree q2 pager2 is2.is_header
                      (archive_tree l is2) is2.header_fits)
                    (λ _ q3 (same3, pager3, u3). done (
                      wrote q1 q2 q3
                        (written-IsArchive l is2 a.header_id q3 (header-IsContent l is2) pager3 u3)
                        same1 u1 same2 u2 same3 u3))
                    (λ g q3 (i, _, _). i))
                (λ g q2 i. i))
            (λ g q1 (i, _, _). i)
