-- ===== src/Entry/Mut/Writing.antt =====
-- `write` inside of a block (entry/mut.rs).
use native.Mathlib.Nat.{mod-lt, mod-eq_of_lt}
use nuts_archive.Prelude.{
  ℕ, ◌+◌, ◌-◌, ◌%◌, ◌^◌, ◌≤◌, ◌<◌, ◌≡◌, ◌≢◌, refl, ap, ◌∙◌, inl, inr, false, List, arith, length,
  take, drop, min, ◌==◌, ==_iff, Bool-cases, length-append, length-take, length-drop, ◌++◌,
}
use nuts_archive.Outcome.{Outcome, and_then, lift_outcome}
use nuts_archive.Outcome.Ensures.{Ensures, done, failed, bind}
use nuts_archive.Error.{Error, IsFailure}
use nuts_archive.Header
use nuts_archive.Header.Codec.{IsHeader}
use nuts_archive.Pager.{Pager}
use nuts_archive.Pager.Blocks.{filled, IsPager, contents, padded-full, write-padded}
use nuts_archive.Platform.{Platform}
use nuts_archive.Platform.Laws.{Laws, UnchangedBut, padded, splice}
use nuts_archive.Tree
use nuts_archive.Tree.Codec.{IsTree}
use nuts_archive.State.{Archive}
use nuts_archive.State.HeaderBlock.{header_bytes, flush_header-contents}
use nuts_archive.Entry.Inner
use nuts_archive.Entry.Inner.{Inner}
use nuts_archive.Entry.Mut.{EntryMut, OnEntry, write, make_room, fill_room}

length-splice :
    (size : ℕ) (buf d : List ℕ) (pos : ℕ)
    → length buf ≡ size
    → pos + length d ≤ size
    → length (splice buf pos d) ≡ size
length-splice size buf d pos e h = omega (
  arith,
  length-append (take pos buf) (d ++ drop (pos + length d) buf),
  length-append d (drop (pos + length d) buf),
  length-take pos buf,
  length-drop (pos + length d) buf,
)

module _ ⦃p : Platform⦄ where
  open p use {block_size}

  -- An entry that is being written, inside of a block, and an archive with a block for its header.
  pub record IsWriting (e : EntryMut) (a : Archive) : Type 0 where
    pub is_pager : IsPager a.pager
    pub is_header : IsHeader a.header
    pub is_tree : IsTree a.tree
    pub header_fits : Header.size + Tree.size ≤ block_size a.pager.inner
    pub inside : e.entry.size % block_size a.pager.inner ≢ 0
    pub cached : length e.cache ≡ block_size a.pager.inner
    pub last_not_first : e.last ≢ e.first
    pub last_not_header : e.last ≢ a.header_id
    pub first_not_header : e.first ≢ a.header_id

module _ ⦃p : Platform⦄ (l : Laws p) where
  open p use {BlockId, Container, Failure, Time, block_size}

  -- A step on the pager, and what follows it.
  module _ {A B : Type 0} {P : A → Pager Container → Type 0}
      {Q : Error BlockId Failure → Pager Container → Type 0} {P' : B → EntryMut × Archive → Type 0}
      {Q' : Error BlockId Failure → EntryMut × Archive → Type 0} (e : EntryMut) (a : Archive)
      (f : A → OnEntry B) where
    pub after_pager :
        {r : Outcome (Error BlockId Failure) A × Pager Container}
        → Ensures P Q r
        → ((x : A) (q : Pager Container) → P x q → Ensures P' Q' (f x (e, record a { pager = q })))
        → ((g : Error BlockId Failure) (q : Pager Container)
            → Q g q
            → Q' g (e, record a { pager = q }))
        → Ensures P' Q' (
            and_then
              (lift_outcome (λ g. g) (lift_outcome (λ g. g) r.0), (e, record a { pager = r.1 }))
              f)
    after_pager (done h) next fail = next _ _ h
    after_pager (failed h) next fail = failed (fail _ _ h)

  pub flush-padded :
      (e : Inner Time) (id : BlockId) (s : Pager Container)
      → IsPager s
      → Ensures
          (λ _ s'.
            (contents l s'.inner id ≡ padded (block_size s.inner) (Inner.to_bytes e))
            × IsPager s'
            × UnchangedBut l.blocks id s.inner s'.inner)
          (λ f _. IsFailure f)
          (Inner.flush e id s)
  unfolding Inner.flush
  flush-padded e id s is =
      bind (write-padded l id (Inner.to_bytes e) s is)
        (λ _ s' (same, _, is', u). done (same, is', u)) (λ f s' (i, _, _). i)

  -- After `n` bytes of `buf` are written: what the entry and the blocks hold.
  pub record Wrote (e : EntryMut) (a : Archive) (buf : List ℕ) (n : ℕ) (e' : EntryMut)
      (c' : Container) : Type 0 where
    pub written :
        n ≡ min (length buf) (block_size a.pager.inner - e.entry.size % block_size a.pager.inner)
    pub grown : e'.entry ≡ record (e.entry) { size = e.entry.size + n }
    pub cached : e'.cache ≡ splice e.cache (e.entry.size % block_size a.pager.inner) (take n buf)
    pub content : contents l c' e.last ≡ e'.cache
    pub entry_block :
        contents l c' e.first ≡ padded (block_size a.pager.inner) (Inner.to_bytes e'.entry)
    pub header_block :
        contents l c' a.header_id ≡ filled (block_size a.pager.inner) (header_bytes a.header a.tree)
    pub others :
        (j : BlockId)
        → j ≢ e.last
        → j ≢ e.first
        → j ≢ a.header_id
        → contents l c' j ≡ contents l a.pager.inner j

  -- Inside of a block `write` does not panic, and writes as much of the buffer as the block has
  -- room for: the bytes go behind the content in the last block, the size grows by them, the entry
  -- and the header are stored in their blocks, and no other block changes. It fails only if the
  -- container does. Size and buffer together stay below 2 ^ 64; the last block, the first block
  -- and the header block are different; the cache of the entry and the buffer of the pager are one
  -- block each; the header has the magic and numbers that fit, the tree 12 direct ids and a
  -- counter that fits, and a block has room for both.
  pub write-Wrote :
      (e : EntryMut) (a : Archive) (buf : List ℕ)
      → IsWriting e a
      → e.entry.size + length buf < 2 ^ 64
      → Ensures (λ n r. Wrote e a buf n r.0 r.1.pager.inner) (λ f _. IsFailure f) (write buf (e, a))
  unfolding write make_room fill_room Header.size
  write-Wrote e a buf w small =
      let size = block_size a.pager.inner in
      let pos = e.entry.size % size in
      let n = min (length buf) (size - pos) in
      let inside : (pos == 0) ≡ false = elim (Bool-cases (pos == 0)) [
        | inl z ↦ absurd (w.inside ((==_iff pos 0).0 z))
        | inr z ↦ z
      ] in
      let lt : pos < size = mod-lt e.entry.size (omega (arith, w.header_fits)) in
      let cache = splice e.cache pos (take n buf) in
      let whole : length cache ≡ size =
        length-splice size e.cache (take n buf) pos w.cached (omega (arith, length-take n buf)) in
      let size_fits : (e.entry.size + n) % 2 ^ 64 ≡ e.entry.size + n = mod-eq_of_lt (omega arith) in
      let entry' : Inner Time = record (e.entry) { size = (e.entry.size + n) % 2 ^ 64 } in
      rw (inside, make_room, (==_iff (length e.cache) size).1 w.cached)
        (after_pager (record e { cache = cache }) a _
          (write-padded l e.last cache a.pager w.is_pager)
          (λ _ q1 (same1, _, is1, u1).
            after_pager (record e { entry = entry'; cache = cache }) (record a { pager = q1 }) _
              (flush-padded entry' e.first q1 is1)
              (λ _ q2 (same2, is2, u2).
                after_pager (record e { entry = entry'; cache = cache }) (record a { pager = q2 }) _
                  (flush_header-contents l a.header_id a.header a.tree q2 is2 w.is_header w.is_tree
                    (omega (arith, w.header_fits, u1.same_size, u2.same_size)))
                  (λ _ q3 (same3, is3, u3). done (record {
                    written = refl;
                    grown = rw size_fits;
                    cached = refl;
                    content =
                        u3.same_contents e.last w.last_not_header
                        ∙ u2.same_contents e.last w.last_not_first
                        ∙ same1
                        ∙ padded-full size cache whole;
                    entry_block =
                        u3.same_contents e.first w.first_not_header
                        ∙ same2
                        ∙ ap (λ n. padded n (Inner.to_bytes entry')) u1.same_size;
                    header_block =
                        same3
                        ∙ ap (λ n. filled n (header_bytes a.header a.tree))
                            (u2.same_size ∙ u1.same_size);
                    others = λ j x y z.
                        u3.same_contents j z ∙ u2.same_contents j y ∙ u1.same_contents j x;
                  }))
                  (λ g q3 (i, _, _). i))
              (λ g q2 i. i))
          (λ g q1 (i, _, _). i))
