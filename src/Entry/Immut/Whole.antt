-- ===== src/Entry/Immut/Whole.antt =====
-- Reading the whole content of an entry (entry/immut.rs).

use native.Mathlib.Nat.{suc-mul}
use native.Mathlib.Decide.{dec_lt}
use nuts_archive.Prelude.{
  ℕ, suc, ◌+◌, ◌-◌, ◌*◌, ◌≤◌, ◌<◌, ◌≡◌, refl, sym, ap, ◌∙◌, some, List, [], ◌++◌, append_assoc,
  length, take, drop, min, replicate, get_elem?, length-append, length-take, length-drop,
  length-replicate, take-append-drop, ==_iff, subst, arith,
}
use nuts_archive.Outcome.{and_then}
use nuts_archive.Outcome.Ensures.{Ensures, done, bind, mono, zoomed}
use nuts_archive.Error.{IsFailure}
use nuts_archive.Pager
use nuts_archive.Pager.{Pager}
use nuts_archive.Pager.Blocks.{IsPager, contents, read-take}
use nuts_archive.Platform.{Platform}
use nuts_archive.Platform.Laws.{Laws, Unchanged}
use nuts_archive.Tree
use nuts_archive.Tree.{Tree}
use nuts_archive.Tree.Forest.Ready.{IsReady}
use nuts_archive.Tree.Forest.Look.{IsAfter, IsAfter-Unchanged}
use nuts_archive.Entry.Inner.{Inner}
use nuts_archive.Entry.Mut.Blocks.{bytes}
use nuts_archive.Entry.Immut.{InnerEntry, on_tree, fetch, drain}
use nuts_archive.Entry.Immut.Pieces.{piece, take-min-drop}

module _ ⦃p : Platform⦄ (l : Laws p) where
  open p use {BlockId, Container, Time, Failure, block_size}

  -- The ids of an archive, and the content of an entry in the blocks behind its first one.
  pub record HasContent (ids : List BlockId) (t : Tree BlockId) (s : Pager Container)
      (inner : Inner Time) (idx : ℕ) (d : List ℕ) : Type 0 where
    pub ready : IsReady l ids (t, s)
    pub count : t.nblocks ≡ length ids
    pub some_size : 0 < block_size s.inner
    pub blocks : List BlockId
    pub pad : List ℕ
    pub listed :
        (k : ℕ) (b : BlockId) → get_elem? blocks k ≡ some b → get_elem? ids (idx + k + 1) ≡ some b
    pub stored : bytes l s.inner blocks ≡ d ++ pad
    pub sized : inner.size ≡ length d

  module _ (ids : List BlockId) (t : Tree BlockId) (s : Pager Container) (inner : Inner Time)
      (idx : ℕ) (d : List ℕ) (h : HasContent ids t s inner idx d) where
    abbrev pub size : ℕ
    size = block_size s.inner

    -- The entry with some bytes in its cache, and the number of blocks that were read.
    abbrev pub entry : List ℕ → ℕ → InnerEntry Time
    entry rcache ridx = record { inner = inner; idx = idx; rcache = rcache; ridx = ridx }

    -- What is left to be read.
    pub record Left (rest : List ℕ) (r : InnerEntry Time × Tree BlockId × Pager Container)
        : Type 0 where
      pub rcache : List ℕ
      pub ridx : ℕ
      pub same : r.0 ≡ entry rcache ridx
      pub rest_eq : rest ≡ rcache ++ drop (ridx * size) d
      pub after : IsAfter l ids t s (r.1, r.2)

    -- Some bytes were read, and the others are left.
    pub record Got (rest : List ℕ) (wanted : ℕ) (got : List ℕ)
        (r : InnerEntry Time × Tree BlockId × Pager Container) : Type 0 where
      pub others : List ℕ
      pub split : rest ≡ got ++ others
      pub left : Left others r
      pub at_most : length got ≤ wanted
      pub at_least : 0 < wanted → 0 < length rest → 0 < length got

    -- The cache is given out.
    pub drained :
        (wanted : ℕ) (rcache : List ℕ) (ridx : ℕ) (t1 : Tree BlockId) (s1 : Pager Container)
        → IsAfter l ids t s (t1, s1)
        → (length rcache ≡ 0 → drop (ridx * size) d ≡ [])
        → Ensures
            (λ got r. Got (rcache ++ drop (ridx * size) d) wanted got r)
            (λ f _. IsFailure f)
            (drain wanted (entry rcache ridx, t1, s1))
    unfolding drain
    drained wanted rcache ridx t1 s1 after end =
        let n = min (length rcache) wanted in
        done (record {
          others = drop n rcache ++ drop (ridx * size) d;
          split =
              ap (λ v. v ++ drop (ridx * size) d) (sym (take-append-drop n rcache))
              ∙ append_assoc (take n rcache) (drop n rcache) (drop (ridx * size) d);
          left = record {
            rcache = drop n rcache;
            ridx = ridx;
            same = refl;
            rest_eq = refl;
            after = after;
          };
          at_most = omega (arith, length-take n rcache);
          at_least = λ some_wanted some_rest. elim (dec_lt 0 (length rcache)) [
            | yes some_cache ↦ omega (arith, length-take n rcache, some_wanted, some_cache)
            | no empty ↦
                let none_left : length rcache ≡ 0 = omega arith in
                absurd (
                  omega (
                    arith,
                    some_rest,
                    length-append rcache (drop (ridx * size) d),
                    none_left,
                    ap length (end none_left),
                  ))
          ];
        })

    -- The block `ridx` of the content.
    module _ (ridx : ℕ) (id : BlockId) (at : get_elem? h.blocks ridx ≡ some id)
        (inside : ridx * size < length d) (t1 : Tree BlockId) (s1 : Pager Container)
        (after : IsAfter l ids t s (t1, s1)) where
      abbrev n : ℕ
      n = min (inner.size - ridx * size) size

      the_bytes :
          take n (contents l s1.inner id)
          ≡ take (min (length d - ridx * size) size) (drop (ridx * size) d)
      the_bytes =
          ap (take n) (after.1.unchanged.same_contents id)
          ∙ ap (λ m. take (min (m - ridx * size) size) (contents l s.inner id)) h.sized
          ∙ piece l s.inner h.blocks d h.pad ridx id h.stored at (omega (arith, inside))

      reading :
          (e : InnerEntry Time)
          → Ensures
              (λ v r.
                (v ≡ take n (contents l s1.inner id))
                × (r.0 ≡ e)
                × (r.1 ≡ t1)
                × IsPager r.2
                × Unchanged l.blocks s1.inner r.2.inner)
              (λ f _. IsFailure f)
              (on_tree (Tree.on_pager (Pager.read id n)) (e, t1, s1))
      reading e =
          zoomed (λ (q : Tree BlockId × Pager Container). (e, q.0, q.1)) (λ f. f)
            (zoomed (λ q. (t1, q)) (λ f. f)
              (mono (read-take l id n s1)
                (λ v s2 (same, buf, u).
                  (same, refl, refl, ap length buf ∙ after.0.is_pager ∙ sym u.same_size, u))
                (λ f s2 (i, _, _). i)))

      fetched :
          Ensures
            (λ _ r.
              (r.0
                ≡ entry
                    (take (min (length d - ridx * size) size) (drop (ridx * size) d))
                    (ridx + 1))
              × IsAfter l ids t s (r.1, r.2))
            (λ f _. IsFailure f)
            (fetch id (entry (replicate n 0) ridx, t1, s1))
      unfolding fetch
      fetched =
          let zero_byte : ℕ = 0 in
          let long : length (replicate n zero_byte) ≡ n = length-replicate n zero_byte in
          rw long (
            bind (reading (entry (replicate n 0) ridx))
              (λ v (e2, t2, s2) (same, kept, kept_tree, pager, u).
                let full : length v ≡ n = omega (
                  arith,
                  ap length same,
                  length-take n (contents l s1.inner id),
                  l.length_contents s1.inner id,
                  after.1.unchanged.same_size,
                ) in
                rw ((==_iff (length v) n).1 full) (
                  done (
                    rw (kept, same, the_bytes),
                    rw kept_tree (IsAfter-Unchanged l ids t s t1 s1 s2 after pager u),
                  )))
              (λ f r i. i))

      next_offset : (ridx + 1) * size ≡ ridx * size + size
      next_offset =
          let one : (ridx + 1) ≡ suc ridx = omega arith in
          ap (λ k. k * size) one ∙ suc-mul ridx size

      pub fetched-Got :
          (wanted : ℕ)
          → Ensures
              (λ got r. Got (drop (ridx * size) d) wanted got r)
              (λ f _. IsFailure f)
              (and_then (fetch id (entry (replicate n 0) ridx, t1, s1)) (λ _. drain wanted))
      fetched-Got wanted =
          let part = take (min (length d - ridx * size) size) (drop (ridx * size) d) in
          let joined : part ++ drop ((ridx + 1) * size) d ≡ drop (ridx * size) d =
            ap (λ k. part ++ drop k d) next_offset ∙ take-min-drop size (ridx * size) d in
          bind fetched
            (λ _ (e2, t2, s2) (same, after2). rw same (
              subst
                (λ v.
                  Ensures (λ got r. Got v wanted got r) (λ f _. IsFailure f)
                    (drain wanted (entry part (ridx + 1), t2, s2)))
                joined
                (drained wanted part (ridx + 1) t2 s2 after2 (λ none. absurd (
                  omega (
                    arith,
                    none,
                    inside,
                    h.some_size,
                    length-take (min (length d - ridx * size) size) (drop (ridx * size) d),
                    length-drop (ridx * size) d,
                  ))))))
            (λ f r i. i)
