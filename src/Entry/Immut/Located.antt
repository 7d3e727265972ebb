-- ===== src/Entry/Immut/Located.antt =====
-- What there is at an index of the archive: an entry, or nothing (entry/immut.rs).

use nuts_archive.Prelude.{
  ℕ, ◌-◌, ◌≡◌, refl, ap, ◌∙◌, none, some, List, [], length, get_elem?, get_elem?-none, zeros, arith,
}
use nuts_archive.Outcome.Ensures.{Ensures, done, bind, mono, zoomed}
use nuts_archive.Error.{IsFailure}
use nuts_archive.Pager.Blocks.{IsPager, filled, contents}
use nuts_archive.Pager.{Pager}
use nuts_archive.Platform.{Platform}
use nuts_archive.Platform.Laws.{Laws, Unchanged}
use nuts_archive.State.{Archive}
use nuts_archive.State.Growing.{IsArchive}
use nuts_archive.Tree.{Tree}
use nuts_archive.Tree.Forest.Listed.{lookup-Listed}
use nuts_archive.Entry.Inner
use nuts_archive.Entry.Inner.{Inner, from_bytes}
use nuts_archive.Entry.Inner.Codec.{IsInner, reread_inner, from_bytes-to_bytes-reread}
use nuts_archive.Entry.Inner.Stored.{load-contents}
use nuts_archive.Entry.Immut.{InnerEntry, entry_at, load}
use nuts_archive.Tree.Forest.Look.{IsAfter, IsAfter-Unchanged}

module _ ⦃p : Platform⦄ (l : Laws p) where
  open p use {BlockId, Container, Time, block_size}

  module _ (later : Time) (ids : List BlockId) (a : Archive) (is : IsArchive l ids a) (k : ℕ) where
    pub entry_at-none :
        k ≡ length ids
        → Ensures (λ o _. o ≡ none) (λ f _. IsFailure f) (entry_at later k (a.tree, a.pager))
    unfolding entry_at
    entry_at-none behind =
        bind (lookup-Listed l ids a.tree a.pager k is.ready is.count)
          (λ o q (found, _, _).
            rw (found ∙ get_elem?-none ids k (omega (arith, behind))) (done refl))
          (λ f q i. i)

    -- The entry `x` at the index `k`, as it is read.
    abbrev pub read_at : Inner Time → InnerEntry Time
    read_at x = record { inner = reread_inner later x; idx = k; rcache = []; ridx = 0 }

    -- `load` of a block with an entry.
    loaded :
        (id : BlockId) (x : Inner Time) (t : Tree BlockId) (s : Pager Container)
        → IsPager s
        → contents l s.inner id ≡ filled (block_size a.pager.inner) (Inner.to_bytes x)
        → IsInner x
        → Ensures
            (λ r q.
              (r ≡ read_at x) × (q.0 ≡ t) × IsPager q.1 × Unchanged l.blocks s.inner q.1.inner)
            (λ f _. IsFailure f)
            (load later k id (t, s))
    unfolding load
    loaded id x t s pager block ix =
        let rest = zeros (block_size a.pager.inner - length (Inner.to_bytes x)) in
        bind
          {P = λ e' q.
            (e' ≡ reread_inner later x)
            × (q.0 ≡ t)
            × IsPager q.1
            × Unchanged l.blocks s.inner q.1.inner}
          (zoomed (λ q. (t, q)) (λ e. e)
            (mono
              (load-contents l later id (reread_inner later x) rest s pager
                (ap (from_bytes later) block ∙ from_bytes-to_bytes-reread l later x rest ix))
              (λ e' q (e, is', u). (e, refl, is', u)) (λ f q i. i)))
          (λ e' q (same, same_tree, is', u). rw same (done (refl, same_tree, is', u))) (λ f q i. i)

    pub entry_at-some :
        (id : BlockId) (x : Inner Time)
        → get_elem? ids k ≡ some id
        → contents l a.pager.inner id ≡ filled (block_size a.pager.inner) (Inner.to_bytes x)
        → IsInner x
        → Ensures
            (λ o q. (o ≡ some (read_at x)) × IsAfter l ids a.tree a.pager q)
            (λ f _. IsFailure f)
            (entry_at later k (a.tree, a.pager))
    unfolding entry_at
    entry_at-some id x at block ix =
        bind (lookup-Listed l ids a.tree a.pager k is.ready is.count)
          (λ o (t, s) (found, ready, w). rw (found ∙ at) (
            bind (loaded id x t s ready.is_pager (w.unchanged.same_contents id ∙ block) ix)
              (λ r (t2, s2) (same, same_tree, is', u).
                rw (same, same_tree)
                  (done (refl, IsAfter-Unchanged l ids a.tree a.pager t s s2 (ready, w) is' u)))
              (λ f q i. i)))
          (λ f q i. i)
