-- ===== src/Tree/Forest/Direct.antt =====
-- The next block is one of the direct blocks (tree.rs).
use nuts_archive.Prelude.{
  ℕ, ◌+◌, ◌%◌, ◌^◌, ◌<◌, ◌≡◌, ◌≢◌, refl, sym, ap, ◌∙◌, inl, inr, true, some, List, [], length,
  get_elem?, set, arith, length-set, get_elem?-some, get_elem?-set_self, get_elem?-set_ne,
  Bool-cases,
}
use nuts_archive.Outcome.Ensures.{Ensures, done, bind, mono, zoomed}
use nuts_archive.Error.{IsFailure}
use nuts_archive.Pager
use nuts_archive.Pager.{Pager}
use nuts_archive.Pager.Blocks.{IsPager, aquire-Grown}
use nuts_archive.Platform.{Platform}
use nuts_archive.Platform.Laws.{Laws, Grown}
use nuts_archive.Tree.{Tree, on_pager, lookup_direct, inc_nblocks}
use nuts_archive.Tree.Cache.Added.{Taken, Grown-Taken}
use nuts_archive.Tree.Forest.{pointers, Root, direct, single, double, triple, RootAt}
use nuts_archive.Tree.Forest.Grow.{NewPlace, grow-block, no_new_place_of}
use nuts_archive.Tree.Forest.Grow.Pointer.{pointer-NewPlace}
use nuts_archive.Tree.Forest.Ready.{IsReady}
use nuts_archive.Tree.Forest.Roots.{OnlyPointer, pointer_set, at_root}
use nuts_archive.Tree.Forest.Levels.{Appended}

module _ ⦃p : Platform⦄ (l : Laws p) where
  open p use {BlockId, Container, null, is_null}

  module _ (t : Tree BlockId) (i : ℕ) (id : BlockId) (was : get_elem? t.direct i ≡ some null) where
    others :
        (r : Root) (j : BlockId)
        → r ≢ direct i
        → RootAt (pointers t) r j
        → RootAt (record (pointers t) { direct = set t.direct i id }) r j
    others (direct k) j ne at = get_elem?-set_ne t.direct i k id (λ e. ne (ap direct (sym e))) ∙ at
    others single j ne at = at
    others double j ne at = at
    others triple j ne at = at

    others_back :
        (r : Root) (j : BlockId)
        → r ≢ direct i
        → RootAt (record (pointers t) { direct = set t.direct i id }) r j
        → RootAt (pointers t) r j
    others_back (direct k) j ne at =
        sym (get_elem?-set_ne t.direct i k id (λ e. ne (ap direct (sym e)))) ∙ at
    others_back single j ne at = at
    others_back double j ne at = at
    others_back triple j ne at = at

    only_direct :
        i < length t.direct
        → OnlyPointer l
            (pointers t)
            (record (pointers t) { direct = set t.direct i id })
            (direct i)
            id
    only_direct lt = record {
      was_null = λ j at. cc;
      now = get_elem?-set_self t.direct i id lt;
      only = λ j at. let new = get_elem?-set_self t.direct i id lt in cc;
      others = others;
      others_back = others_back;
    }

  module _ (ids : List BlockId) (t : Tree BlockId) (s : Pager Container)
      (ready : IsReady l ids (t, s)) where
    pub direct_added :
        (i : ℕ) (id : BlockId) (s' : Pager Container)
        → get_elem? t.direct i ≡ some null
        → i < 12
        → i ≡ length ids
        → IsPager s'
        → Grown l.blocks id s.inner s'.inner
        → Appended l ids t s id
            (record t { direct = set t.direct i id; nblocks = (t.nblocks + 1) % 2 ^ 64 }, s')
    direct_added i id s' was lt next is grown =
        let t' : Tree BlockId = record t { direct = set t.direct i id } in
        let here : i < length t.direct = omega (arith, lt, ready.forest.direct_full) in
        let k : Taken l true s id s' = Grown-Taken l s s' id grown in
        let set_here =
          pointer_set l true t t' s s' (direct i) id (λ up. absurd (omega (arith, up)))
            (only_direct t i id was here) k in
        let g : NewPlace l s.inner (pointers t) s'.inner (pointers t') (direct i) [] id =
          pointer-NewPlace l set_here ready.forest in
        record {
          ready = record {
            forest =
                grow-block l g ready.forest set_here.same_ids
                  (length-set t.direct i id ∙ ready.forest.direct_full) refl next;
            is_pager = is;
            cached = λ level c at ne.
                let (n, (r, (way, h, deep, above))) = ready.cached level c at ne in
                (
                  rw (set_here.same_ids, k.kept c.id (ready.forest.live r way c.id h)) n,
                  (r, (way, g.forth r way c.id h, deep, above)),
                );
          };
          grew = record {
            same_size = grown.same_size;
            same_userdata = grown.same_userdata;
            still_live = grown.still_live;
            kept = λ j u c. k.kept j u;
            no_new_place = no_new_place_of l g;
          };
          counted = refl;
          fresh = grown.fresh;
          now_live = grown.now_live;
        }

    taking_block :
        Ensures
          (λ id q. (q.0 ≡ t) × IsPager q.1 × Grown l.blocks id s.inner q.1.inner)
          (λ e _. IsFailure e)
          (on_pager Pager.aquire (t, s))
    taking_block =
        zoomed (λ q. (t, q)) (λ e. e)
          (mono (aquire-Grown l s ready.is_pager) (λ id q (is, g). (refl, is, g))
            (λ e q (f, _, _). f))

    pub direct-Appended :
        (i : ℕ)
        → i < 12
        → i ≡ length ids
        → Ensures
            (λ id q'. Appended l ids t s id q')
            (λ e _. IsFailure e)
            (lookup_direct i true (t, s))
    unfolding lookup_direct inc_nblocks
    direct-Appended i lt next =
        let (old, at) = get_elem?-some t.direct i (omega (arith, lt, ready.forest.direct_full)) in
        elim (Bool-cases (is_null old)) [
          | inl isnull ↦
              rw (at, lookup_direct, isnull)
                (bind taking_block
                  (λ id (t1, s1) (same, is, grown). rw same (
                    done (
                      direct_added i id s1 (at ∙ ap some ((l.is_null_iff old).0 isnull)) lt next is
                        grown)))
                  (λ e q w. w))
          | inr full ↦
              let not_null : old ≢ null = λ z. let e = (l.is_null_iff old).1 z in absurd cc in
              absurd (
                omega (
                  arith,
                  next,
                  ready.forest.bounded (direct i) [] old
                      (at_root l s.inner (pointers t) (direct i) old at not_null) refl,
                ))
        ]
