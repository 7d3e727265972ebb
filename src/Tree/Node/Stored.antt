-- ===== src/Tree/Node/Stored.antt =====
-- The node that a block holds, and the operations of tree/node.rs on it.
use native.Mathlib.Nat.{div-add-mod, mod-lt}
use nuts_archive.Prelude.{
  ℕ, zero, suc, ◌+◌, ◌-◌, ◌*◌, ◌≤◌, ◌<◌, ◌≡◌, refl, sym, ap, ◌∙◌, inl, inr, ◌⊎◌, List, [], ◌∷◌,
  ◌++◌, arith, length, zeros, length-append, append_assoc, append-nil, le→ltb, lt→leb,
  length-replicate,
}
use nuts_archive.Outcome.{ok, err, Outcome-cases}
use nuts_archive.Outcome.Ensures.{Ensures, done, failed, bind, mono, zoomed}
use nuts_archive.Bytes.{array_from_bytes, array_to_bytes}
use nuts_archive.Bytes.Arrays.{length-array_to_bytes, array_from_bytes-array_to_bytes}
use nuts_archive.Error.{IsFailure, BytesError}
use nuts_archive.Pager
use nuts_archive.Pager.{Pager}
use nuts_archive.Pager.Blocks.{
  filled, IsPager, contents, length-filled, put-filled, write_buf-contents, create_writer-filled,
  read_buf-contents, aquire-Grown,
}
use nuts_archive.Platform.{Platform}
use nuts_archive.Platform.Laws.{Laws, Unchanged, UnchangedBut, Grown}
use nuts_archive.Tree.Node.{
  Node, ids_per_node, new, write_ids, flush, aquire, fill_loop, fill, on_pager,
}

module _ ⦃p : Platform⦄ where
  open p use {BlockId, Container, block_id}

  abbrev pub node_bytes : Node BlockId → List ℕ
  node_bytes = array_to_bytes (λ id. block_id.to_bytes id)

module _ ⦃p : Platform⦄ (l : Laws p) where
  open p use {BlockId, Container, block_size, id_size, block_id}

  -- The block `id` holds the ids of the node.
  abbrev pub NodeAt : Container → BlockId → Node BlockId → Type 0
  NodeAt c id node =
      (rest : List ℕ) × (array_from_bytes block_id.from_bytes (ids_per_node c) (contents l c id)
        ≡ ok (node, rest))

  -- The block `id` does not hold ids.
  abbrev pub Unreadable : Container → BlockId → Type 0
  Unreadable c id =
      (x : BytesError) × (array_from_bytes block_id.from_bytes (ids_per_node c) (contents l c id)
        ≡ err x)

  -- A node of `ids_per_node` ids fits into a block, and one more id would not fit.
  ids_per_node_fits :
      (c : Container)
      → (ids_per_node c * id_size ≤ block_size c)
        × (block_size c < ids_per_node c * id_size + id_size)
  unfolding ids_per_node
  ids_per_node_fits c =
      let whole = div-add-mod (block_size c) id_size in
      let part = mod-lt (block_size c) l.id_size_pos in
      (omega (arith, whole, part), omega (arith, whole, part))

  pub ids_per_node-same :
      (c c' : Container) → block_size c' ≡ block_size c → ids_per_node c' ≡ ids_per_node c
  unfolding ids_per_node
  ids_per_node-same c c' e = rw e

  new-same : (s s' : Pager Container) → block_size s'.inner ≡ block_size s.inner → new s' ≡ new s
  unfolding new
  new-same s s' e = rw e

  pub length-new : (s : Pager Container) → length (new s) ≡ ids_per_node s.inner
  unfolding new
  length-new s = length-replicate (ids_per_node s.inner) p.null

  NodeAt-filled :
      (node : Node BlockId) (id : BlockId) (c c' : Container)
      → length node ≡ ids_per_node c
      → block_size c' ≡ block_size c
      → contents l c' id ≡ filled (block_size c) (node_bytes node)
      → NodeAt c' id node
  NodeAt-filled node id c c' whole same e = (
    zeros (block_size c - length (node_bytes node)),
    rw (ids_per_node-same c c' same, ← whole, e)
        (array_from_bytes-array_to_bytes block_id l.block_id_lem node
          (zeros (block_size c - length (node_bytes node)))),
  )

  -- Reading a block from within a method of the node.
  reading :
      (node : Node BlockId) (id : BlockId) (s : Pager Container)
      → IsPager s
      → Ensures
          (λ d q. (d ≡ contents l s.inner id) × IsPager q.1 × Unchanged l.blocks s.inner q.1.inner)
          (λ e q. IsFailure e × IsPager q.1 × Unchanged l.blocks s.inner q.1.inner)
          (on_pager (Pager.read_buf id) (node, s))
  reading node id s is = zoomed (λ q. (node, q)) (λ e. e) (read_buf-contents l id s is)

  write_ids-filled :
      (ids : Node BlockId) (c : Container) (size : ℕ) (d : List ℕ)
      → length d + length (node_bytes ids) ≤ size
      → write_ids ids (length d) (record { inner = c; buf = filled size d }) ≡ (
        ok (length (d ++ node_bytes ids)),
        record { inner = c; buf = filled size (d ++ node_bytes ids) },
      )
  unfolding write_ids array_to_bytes
  write_ids-filled [] c size d h = rw append-nil
  write_ids-filled (id ∷ ids) c size d h =
      let more = length-append (block_id.to_bytes id) (node_bytes ids) in
      rw (put-filled l c size d (block_id.to_bytes id) (omega (arith, more))) (
        write_ids-filled ids c size (d ++ block_id.to_bytes id)
          (omega (arith, more, length-append d (block_id.to_bytes id)))
        ∙ rw append_assoc)

  -- `flush` of a whole node does not panic, and stores it; it changes no other block.
  pub flush-NodeAt :
      (node : Node BlockId) (id : BlockId) (s : Pager Container)
      → IsPager s
      → length node ≡ ids_per_node s.inner
      → Ensures
          (λ _ s'. NodeAt s'.inner id node × IsPager s' × UnchangedBut l.blocks id s.inner s'.inner)
          (λ e s'. IsFailure e × IsPager s' × UnchangedBut l.blocks id s.inner s'.inner)
          (flush node id s)
  unfolding flush
  flush-NodeAt node id s is whole =
      let fits = ids_per_node_fits s.inner in
      let long : length (node_bytes node) ≡ ids_per_node s.inner * id_size =
        length-array_to_bytes block_id l.block_id_lem node ∙ ap (λ n. n * id_size) whole in
      let room : length (node_bytes node) ≤ block_size s.inner = omega (arith, long, fits.0) in
      rw
        (
          whole,
          le→ltb (block_size s.inner) (ids_per_node s.inner * id_size) fits.0,
          lt→leb (ids_per_node s.inner * id_size + id_size) (block_size s.inner) fits.1,
          create_writer-filled l s,
          is,
          write_ids-filled node s.inner (block_size s.inner) [] (omega (arith, room)),
        )
        (mono
          (write_buf-contents l id
            (record { inner = s.inner; buf = filled (block_size s.inner) (node_bytes node) })
            (length-filled (block_size s.inner) (node_bytes node) room))
          (λ _ s' (e, is', u). (NodeAt-filled node id s.inner s'.inner whole u.same_size e, is', u))
          (λ e s' q. q))

  -- `aquire` takes a fresh block and stores a node of null ids in it.
  pub aquire-NodeAt :
      (s : Pager Container)
      → IsPager s
      → Ensures
          (λ id s'.
            NodeAt s'.inner id (new s)
            × IsPager s'
            × ((c : Container) × Grown l.blocks id s.inner c × UnchangedBut l.blocks id c s'.inner))
          (λ e s'. IsFailure e × IsPager s' × (block_size s'.inner ≡ block_size s.inner))
          (aquire s)
  unfolding aquire
  aquire-NodeAt s is =
      bind (aquire-Grown l s is)
        (λ id s1 (is1, g). rw (new-same s s1 g.same_size) (
          bind
            (flush-NodeAt (new s) id s1 is1
              (length-new s ∙ sym (ids_per_node-same s.inner s1.inner g.same_size)))
            (λ _ s2 (n, is2, u). done (n, is2, (s1.inner, g, u)))
            (λ e s2 (f, is2, u). (f, is2, u.same_size ∙ g.same_size))))
        (λ e s1 (f, is1, u). (f, is1, u.same_size))

  -- The loop of `fill` reads what `array_from_bytes` does.
  fill_loop-array :
      (n : ℕ) (bytes : List ℕ) (acc : Node BlockId) (s : Pager Container)
      → Ensures
          (λ _ q.
            (node : Node BlockId) × (rest : List ℕ) × (array_from_bytes block_id.from_bytes n bytes
              ≡ ok (node, rest))
            × (q ≡ (acc ++ node, s)))
          (λ e q.
            (q.1 ≡ s) × ((x : BytesError) × (array_from_bytes block_id.from_bytes n bytes ≡ err x)))
          (fill_loop n bytes (acc, s))
  unfolding fill_loop array_from_bytes
  fill_loop-array zero bytes acc s = done ([], bytes, refl, rw append-nil)
  fill_loop-array (suc n) bytes acc s = elim (Outcome-cases (block_id.from_bytes bytes)) [
    | inl ((id, rest), e) ↦
        rw (e, fill_loop)
          (mono (fill_loop-array n rest (acc ++ id ∷ []) s)
            (λ _ q (node, rest', got, at). (id ∷ node, rest', rw got, at ∙ rw append_assoc))
            (λ e q (same, (x, got)). (same, (x, rw got))))
    | inr (inl (e, h)) ↦ rw (h, fill_loop) (failed (refl, (e, refl)))
    | inr (inr h) ↦ absurd (l.block_id_lem.no_panic bytes h)
  ]

  -- `fill` reads the node that is stored in the block, and changes no block; it fails only if the
  -- container does or the block does not hold ids.
  pub fill-NodeAt :
      (id : BlockId) (node : Node BlockId) (s : Pager Container)
      → IsPager s
      → Ensures
          (λ _ q. NodeAt s.inner id q.0 × IsPager q.1 × Unchanged l.blocks s.inner q.1.inner)
          (λ e q.
            IsPager q.1
            × Unchanged l.blocks s.inner q.1.inner
            × (IsFailure e ⊎ Unreadable s.inner id))
          (fill id (node, s))
  unfolding fill
  fill-NodeAt id node s is =
      bind (reading node id s is)
        (λ d q (e, is', u).
          mono (fill_loop-array (ids_per_node s.inner) d [] q.1)
            (λ _ q' (node', rest, got, at). rw at ((rest, rw e at got), is', u))
            (λ e' q' (same, (x, got)). rw same ((is', u, inr (x, rw e at got)))))
        (λ e q (f, is', u). (is', u, inl f))

  pub NodeAt-eq :
      (c : Container) (id : BlockId) {a b : Node BlockId} → NodeAt c id a → NodeAt c id b → a ≡ b
  NodeAt-eq c id (r, e) (r', e') = cc
