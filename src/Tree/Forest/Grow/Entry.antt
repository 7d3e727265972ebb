-- ===== src/Tree/Forest/Grow/Entry.antt =====
-- A null entry of a node is set to a block that was not allocated before (tree/cache.rs).
use nuts_archive.Prelude.{
  ℕ, suc, ◌+◌, ◌≤◌, ◌<◌, ◌≡◌, ◌≢◌, refl, sym, ap, ◌∙◌, ◌⊎◌, inl, inr, Bool, true, false, some, List,
  [], ◌∷◌, ◌++◌, length, get_elem?, set, arith, subst, length-append, append_assoc, append-nil,
  get_elem?-lt, get_elem?-set_self, get_elem?-set_ne, get_elem?-replicate, replicate, ◌==◌, ==_iff,
  Bool-cases,
}
use nuts_archive.Pager.Blocks.{contents}
use nuts_archive.Platform.{Platform}
use nuts_archive.Platform.Laws.{Laws}
use nuts_archive.Tree.Node.{ids_per_node}
use nuts_archive.Tree.Node.Stored.{NodeAt, NodeAt-eq}
use nuts_archive.Tree.Forest.{Pointers, Root, depth, RootAt, Walk, Place, IsForest}
use nuts_archive.Tree.Forest.Walks.{Walk-not_null, Walk-snoc}
use nuts_archive.Tree.Forest.Grow.{NewPlace}

module _ ⦃p : Platform⦄ (l : Laws p) where
  open p use {BlockId, Container, null, id_eq}

  -- The entry `i` of the node in the block `top`.
  pub record EntrySet (c c' : Container) (top : BlockId) (i : ℕ) (b0 : BlockId) (above : Bool)
      : Type 0 where
    pub node : List BlockId
    pub was : NodeAt l c top node
    pub was_null : get_elem? node i ≡ some null
    pub now : NodeAt l c' top (set node i b0)
    pub not_null : b0 ≢ null
    pub unused : l.blocks.live c b0 ≡ false
    pub now_live : l.blocks.live c' b0 ≡ true
    pub still_live : (j : BlockId) → l.blocks.live c j ≡ true → l.blocks.live c' j ≡ true
    pub kept : (j : BlockId) → l.blocks.live c j ≡ true → j ≢ top → contents l c' j ≡ contents l c j
    pub same_ids : ids_per_node c' ≡ ids_per_node c
    pub null_node : above ≡ true → NodeAt l c' b0 (replicate (ids_per_node c) null)

  module _ {c c' : Container} {top0 : BlockId} {i : ℕ} {b0 : BlockId} {above : Bool}
      (s : EntrySet c c' top0 i b0 above) {t : Pointers BlockId} {ids : List BlockId}
      (f : IsForest l c t ids) {r0 : Root} {way0 : List ℕ} (h0 : Place l c t r0 way0 top0) where
    kept_node :
        (j : BlockId) (node : List BlockId)
        → l.blocks.live c j ≡ true
        → j ≢ top0
        → NodeAt l c j node
        → NodeAt l c' j node
    kept_node j node h ne at = rw (s.same_ids, s.kept j h ne) at

    node_back :
        (j : BlockId) (node : List BlockId)
        → l.blocks.live c j ≡ true
        → j ≢ top0
        → NodeAt l c' j node
        → NodeAt l c j node
    node_back j node h ne at = rw (← s.same_ids, ← s.kept j h ne) at

    still_node :
        (j : BlockId) (node : List BlockId)
        → l.blocks.live c j ≡ true
        → NodeAt l c j node
        → (node' : List BlockId) × NodeAt l c' j node'
    still_node j node h at = elim (Bool-cases (id_eq j top0)) [
      | inl hit ↦ (
        set s.node i b0,
        subst (λ x. NodeAt l c' x (set s.node i b0)) (sym ((l.id_eq_iff j top0).0 hit)) s.now,
      )
      | inr miss ↦ (
        node,
        kept_node j node h
            (λ e. let hit : id_eq j top0 ≡ true = (l.id_eq_iff j top0).1 e in absurd cc) at,
      )
    ]

    -- A way that had no null id on it is still there.
    Walk-kept :
        (r : Root) (pre suf : List ℕ) (top mid b : BlockId)
        → RootAt t r top
        → Walk l c top pre mid
        → length pre + length suf ≤ depth r
        → Walk l c mid suf b
        → Walk l c' mid suf b
    Walk-kept r pre [] top mid b at w short h = h
    Walk-kept r pre (j ∷ suf) top mid b at w short (ne, (node, n, (id, got, rest))) =
        let next : Walk l c top (pre ++ j ∷ []) id =
          Walk-snoc l c top mid id pre j node w n got (Walk-not_null l c id b suf rest) in
        let rest' : Walk l c' id suf b =
          Walk-kept r (pre ++ j ∷ []) suf top id b at next
            (omega (arith, short, length-append pre (j ∷ []))) rest in
        elim (Bool-cases (id_eq mid top0)) [
          | inr other ↦
              let apart : mid ≢ top0 =
                λ e. let hit : id_eq mid top0 ≡ true = (l.id_eq_iff mid top0).1 e in absurd cc in
              (
                ne,
                (
                  node,
                  kept_node mid node
                      (f.live r pre mid (record {
                        short = omega (arith, short);
                        top = top;
                        root_at = at;
                        walk = w;
                      }))
                      apart n,
                  (id, got, rest'),
                ),
              )
          | inl hit ↦
              let same : mid ≡ top0 = (l.id_eq_iff mid top0).0 hit in
              let same_node : node ≡ s.node =
                NodeAt-eq l c mid n (subst (λ x. NodeAt l c x s.node) (sym same) s.was) in
              let differs : i ≢ j = λ e.
                let null_there : some null ≡ some id =
                  sym s.was_null
                  ∙ ap (λ k. get_elem? s.node k) e
                  ∙ ap (λ m. get_elem? m j) (sym same_node)
                  ∙ got in
                let null_id : id ≡ null = cc in Walk-not_null l c id b suf rest null_id in
              (
                ne,
                (
                  set s.node i b0,
                  subst (λ x. NodeAt l c' x (set s.node i b0)) (sym same) s.now,
                  (
                    id,
                    get_elem?-set_ne s.node i j b0 differs
                        ∙ ap (λ m. get_elem? m j) (sym same_node)
                        ∙ got,
                    rest',
                  ),
                ),
              )
        ]

    module _ (deep : length way0 < depth r0)
        (upper : suc (length way0) < depth r0 → above ≡ true) where
      -- Below the new block there is nothing.
      nothing_below :
          (suf : List ℕ) (b : BlockId)
          → length way0 + suc (length suf) ≤ depth r0
          → Walk l c' b0 suf b
          → (suf ≡ []) × (b ≡ b0)
      nothing_below [] b short (ne, e) = (refl, sym e)
      nothing_below (j ∷ suf) b short (ne, (node, n, (id, got, rest))) =
          let nulls : node ≡ replicate (ids_per_node c) null =
            NodeAt-eq l c' b0 n (s.null_node (upper (omega arith))) in
          let null_id : id ≡ null =
            get_elem?-replicate (ids_per_node c) null j id
              (ap (λ m. get_elem? m j) (sym nulls) ∙ got) in
          absurd (Walk-not_null l c' id b suf rest null_id)

      Walk-back :
          (r : Root) (pre suf : List ℕ) (top mid b : BlockId)
          → RootAt t r top
          → Walk l c top pre mid
          → length pre + length suf ≤ depth r
          → Walk l c' mid suf b
          → Walk l c top (pre ++ suf) b ⊎ ((r ≡ r0) × (pre ++ suf ≡ way0 ++ i ∷ []) × (b ≡ b0))
      Walk-back r pre [] top mid b at w short (ne, e) = inl (
          subst (λ way. Walk l c top way b) (sym (append-nil pre))
            (subst (λ x. Walk l c top pre x) e w))
      Walk-back r pre (j ∷ suf) top mid b at w short (ne, (node, n, (id, got, rest))) =
          let here : Place l c t r pre mid = record {
            short = omega (arith, short);
            top = top;
            root_at = at;
            walk = w;
          } in
          let onward : (node : List BlockId)
              → NodeAt l c mid node
              → get_elem? node j ≡ some id
              → Walk l c top (pre ++ j ∷ suf) b
                ⊎ ((r ≡ r0) × (pre ++ j ∷ suf ≡ way0 ++ i ∷ []) × (b ≡ b0)) =
            λ node n got.
              subst (λ way. Walk l c top way b ⊎ ((r ≡ r0) × (way ≡ way0 ++ i ∷ []) × (b ≡ b0)))
                (append_assoc pre (j ∷ []) suf)
                (Walk-back r (pre ++ j ∷ []) suf top id b at
                  (Walk-snoc l c top mid id pre j node w n got (Walk-not_null l c' id b suf rest))
                  (omega (arith, short, length-append pre (j ∷ []))) rest) in
          elim (Bool-cases (id_eq mid top0)) [
            | inr other ↦
                let apart : mid ≢ top0 =
                  λ e. let hit : id_eq mid top0 ≡ true = (l.id_eq_iff mid top0).1 e in absurd cc in
                onward node (node_back mid node (f.live r pre mid here) apart n) got
            | inl hit ↦
                let same : mid ≡ top0 = (l.id_eq_iff mid top0).0 hit in
                let (same_r, same_way) =
                  f.apart r r0 pre way0 mid here
                    (subst (λ x. Place l c t r0 way0 x) (sym same) h0) in
                let same_node : node ≡ set s.node i b0 =
                  NodeAt-eq l c' mid n
                    (subst (λ x. NodeAt l c' x (set s.node i b0)) (sym same) s.now) in
                let got' : get_elem? (set s.node i b0) j ≡ some id =
                  ap (λ m. get_elem? m j) (sym same_node) ∙ got in
                elim (Bool-cases (i == j)) [
                  | inr ne' ↦
                      let differs : i ≢ j =
                        λ e. let hit' : (i == j) ≡ true = (==_iff i j).1 e in absurd cc in
                      onward s.node (subst (λ x. NodeAt l c x s.node) (sym same) s.was)
                        (sym (get_elem?-set_ne s.node i j b0 differs) ∙ got')
                  | inl e' ↦
                      let place : i ≡ j = (==_iff i j).0 e' in
                      let set_there : get_elem? (set s.node i b0) i ≡ some b0 =
                        get_elem?-set_self s.node i b0 (get_elem?-lt s.node i null s.was_null) in
                      let new_id : some b0 ≡ some id =
                        sym set_there ∙ ap (λ k. get_elem? (set s.node i b0) k) place ∙ got' in
                      let is_new : id ≡ b0 = cc in
                      let (done, last) =
                        nothing_below suf b
                          (omega (arith, short, ap length same_way, ap depth same_r))
                          (subst (λ x. Walk l c' x suf b) is_new rest) in
                      inr (
                        same_r,
                        ap (λ way. pre ++ j ∷ way) done
                            ∙ ap (λ k. pre ++ k ∷ []) (sym place)
                            ∙ ap (λ way. way ++ i ∷ []) same_way,
                        last,
                      )
                ]
          ]

      pub entry-NewPlace :
          {t' : Pointers BlockId}
          → ((r : Root) (id : BlockId) → RootAt t r id → RootAt t' r id)
          → ((r : Root) (id : BlockId) → RootAt t' r id → RootAt t r id)
          → NewPlace l c t c' t' r0 (way0 ++ i ∷ []) b0
      entry-NewPlace roots roots_back = record {
        back = λ r way b h.
            elim (Walk-back r [] way h.top h.top b (roots_back r h.top h.root_at)
              (Walk-not_null l c' h.top b way h.walk, refl) (omega (arith, h.short)) h.walk) [
                | inl w ↦ inl (record {
                  short = h.short;
                  top = h.top;
                  root_at = roots_back r h.top h.root_at;
                  walk = w;
                })
                | inr new ↦ inr new
              ];
        forth = λ r way b h. record {
          short = h.short;
          top = h.top;
          root_at = roots r h.top h.root_at;
          walk =
              Walk-kept r [] way h.top h.top b h.root_at
                (Walk-not_null l c h.top b way h.walk, refl) (omega (arith, h.short)) h.walk;
        };
        new = record {
          short = omega (arith, deep, length-append way0 (i ∷ []));
          top = h0.top;
          root_at = roots r0 h0.top h0.root_at;
          walk =
              Walk-snoc l c' h0.top top0 b0 way0 i (set s.node i b0)
                (Walk-kept r0 [] way0 h0.top h0.top top0 h0.root_at
                  (Walk-not_null l c h0.top top0 way0 h0.walk, refl) (omega (arith, h0.short))
                  h0.walk)
                s.now (get_elem?-set_self s.node i b0 (get_elem?-lt s.node i null s.was_null))
                s.not_null;
        };
        still_node = still_node;
        new_node = λ lt. (
          replicate (ids_per_node c) null,
          s.null_node (upper (omega (arith, lt, length-append way0 (i ∷ [])))),
        );
        unused = s.unused;
        now_live = s.now_live;
        still_live = s.still_live;
      }
