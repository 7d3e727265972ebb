-- ===== src/Entry/Immut/Rounds.antt =====
-- One round of reading the content of an entry (entry/immut.rs).
use native.Mathlib.Nat.{suc-mul, mul-le-mul_right}
use native.Mathlib.Decide.{dec_lt}
use nuts_archive.Prelude.{
  ℕ, suc, ◌+◌, ◌-◌, ◌*◌, ◌≤◌, ◌<◌, ◌≡◌, refl, ap, ◌∙◌, none, some, Option, List, [], ◌∷◌, ◌++◌,
  length, drop, min, replicate, get_elem?, get_elem?-some, length-append, lt→leb, le→leb, arith,
}
use nuts_archive.Outcome.{pure, ◌>>◌}
use nuts_archive.Outcome.Ensures.{Ensures, done, bind, mono, zoomed}
use nuts_archive.Error.{IsFailure}
use nuts_archive.Pager.{Pager}
use nuts_archive.Platform.{Platform}
use nuts_archive.Platform.Laws.{Laws}
use nuts_archive.Tree
use nuts_archive.Tree.{Tree}
use nuts_archive.Tree.Forest.Look.{IsAfter, Reread-trans}
use nuts_archive.Tree.Forest.Listed.{lookup-Listed}
use nuts_archive.Entry.Inner.{Inner}
use nuts_archive.Entry.Mut.Blocks.{length-bytes}
use nuts_archive.Entry.Immut.{InnerEntry, OnEntry, on_tree, content_blocks, read, fetch, drain}
use nuts_archive.Entry.Immut.Content.{content_blocks-le}
use nuts_archive.Entry.Immut.Pieces.{drop_all}
use nuts_archive.Entry.Immut.Whole.{HasContent, Got, drained, fetched-Got}

module _ ⦃p : Platform⦄ (l : Laws p) where
  open p use {BlockId, Container, Time, block_size}

  module _ (ids : List BlockId) (t : Tree BlockId) (s : Pager Container) (inner : Inner Time)
      (idx : ℕ) (d : List ℕ) (h : HasContent l ids t s inner idx d) where
    abbrev size : ℕ
    size = block_size s.inner

    abbrev entry : List ℕ → ℕ → InnerEntry Time
    entry rcache ridx = record { inner = inner; idx = idx; rcache = rcache; ridx = ridx }

    after_lookup :
        (ridx wanted : ℕ) (id : BlockId) (o : Option BlockId)
        (r : InnerEntry Time × Tree BlockId × Pager Container)
        → get_elem? h.blocks ridx ≡ some id
        → ridx * size < length d
        → o ≡ some id
        → r.0 ≡ entry (replicate (min (inner.size - ridx * size) size) 0) ridx
        → IsAfter l ids t s (r.1, r.2)
        → Ensures
            (λ got r'. Got l ids t s inner idx d h (drop (ridx * size) d) wanted got r')
            (λ f _. IsFailure f)
            ((elim o as (λ _. OnEntry (List ℕ)) [
              | none ↦ pure []
              | some id ↦ fetch id >> drain wanted
            ])
              r)
    after_lookup ridx wanted id none r at inside e same after = absurd cc
    after_lookup ridx wanted id (some id2) (e1, t1, s1) at inside e same after =
        let is_id : id2 ≡ id = cc in
        rw (same, is_id) (fetched-Got l ids t s inner idx d h ridx id at inside t1 s1 after wanted)

    looking_up :
        (e : InnerEntry Time) (k : ℕ) (t1 : Tree BlockId) (s1 : Pager Container)
        → IsAfter l ids t s (t1, s1)
        → Ensures
            (λ o r. (o ≡ get_elem? ids k) × (r.0 ≡ e) × IsAfter l ids t s (r.1, r.2))
            (λ f _. IsFailure f)
            (on_tree (Tree.lookup k) (e, t1, s1))
    looking_up e k t1 s1 (ready, w) =
        zoomed (λ (q : Tree BlockId × Pager Container). (e, q.0, q.1)) (λ f. f)
          (mono (lookup-Listed l ids t1 s1 k ready (w.same_nblocks ∙ h.count))
            (λ o q (found, ready', w'). (found, refl, (ready', Reread-trans l w w'))) (λ f q i. i))

    -- Whether there is one more block.
    more :
        (ridx : ℕ)
        → ridx < content_blocks size (entry [] ridx)
        → (ridx * size < length d) × (ridx < length h.blocks)
    more ridx lt =
        let room = content_blocks-le size (entry [] ridx) h.some_size in
        let below : suc ridx * size ≤ content_blocks size (entry [] ridx) * size =
          mul-le-mul_right size lt in
        let inside : ridx * size < length d =
          omega (arith, room.1, below, suc-mul ridx size, h.sized) in
        let all : length d ≤ length h.blocks * size =
          omega
            (arith, ap length h.stored, length-append d h.pad, length-bytes l s.inner h.blocks) in
        (
          inside,
          elim (dec_lt ridx (length h.blocks)) [
            | yes here ↦ here
            | no ge ↦
                let over : length h.blocks * size ≤ ridx * size =
                  mul-le-mul_right size (omega arith) in
                absurd (omega (arith, over, inside, all))
          ],
        )

    pub read_at :
        (wanted : ℕ) (rcache : List ℕ) (ridx : ℕ) (t1 : Tree BlockId) (s1 : Pager Container)
        → IsAfter l ids t s (t1, s1)
        → Ensures
            (λ got r. Got l ids t s inner idx d h (rcache ++ drop (ridx * size) d) wanted got r)
            (λ f _. IsFailure f)
            (read wanted (entry rcache ridx, t1, s1))
    unfolding read
    read_at wanted (x ∷ rcache) ridx t1 s1 after =
        drained l ids t s inner idx d h wanted (x ∷ rcache) ridx t1 s1 after
          (λ z. absurd (omega (arith, z)))
    read_at wanted [] ridx t1 s1 after =
        let cb = content_blocks size (entry [] ridx) in
        rw after.1.unchanged.same_size (elim (dec_lt ridx cb) [
          | no ge ↦
              let room = content_blocks-le size (entry [] ridx) h.some_size in
              let over : cb * size ≤ ridx * size = mul-le-mul_right size (omega arith) in
              let none_left : drop (ridx * size) d ≡ [] =
                drop_all (ridx * size) d (omega (arith, over, room.0, h.sized)) in
              rw (le→leb cb ridx (omega arith)) (
                done (record {
                  others = drop (ridx * size) d;
                  split = refl;
                  left = record {
                    rcache = [];
                    ridx = ridx;
                    same = refl;
                    rest_eq = refl;
                    after = after;
                  };
                  at_most = omega arith;
                  at_least = λ _ some_rest. absurd (omega (arith, some_rest, ap length none_left));
                }))
          | yes lt ↦
              let (inside, here) = more ridx lt in
              let (id, at) = get_elem?-some h.blocks ridx here in
              rw (lt→leb cb ridx lt) (
                bind
                  (looking_up (entry (replicate (min (inner.size - ridx * size) size) 0) ridx)
                    (idx + ridx + 1) t1 s1 after)
                  (λ o r (found, same, after2).
                    after_lookup ridx wanted id o r at inside (found ∙ h.listed ridx id at) same
                      after2)
                  (λ f r i. i))
        ])
