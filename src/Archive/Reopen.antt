-- ===== src/Archive/Reopen.antt =====
-- `Archive::create` and `Archive::open`.
use nuts_archive.Prelude.{
  true, ℕ, ◌+◌, ◌≤◌, ◌<◌, ◌≡◌, refl, sym, ap, ◌∙◌, ◌⊎◌, inl, inr, Bool, false, [], zeros, arith,
  is_empty, append_assoc, le→ltb, length-zeros,
}
use nuts_archive.Outcome.{ok, err, and_then}
use nuts_archive.Outcome.Ensures.{Ensures, done, bind, mono, zoomed, of_ok}
use nuts_archive.Error.{Error, IsFailure, overwrite_userdata, invalid_block_size}
use nuts_archive.Header
use nuts_archive.Header.{Header}
use nuts_archive.Header.Codec as HeaderCodec
use nuts_archive.Header.Codec.{IsHeader, IsHeader-create, reread_header}
use nuts_archive.Pager
use nuts_archive.Pager.{Pager}
use nuts_archive.Pager.Blocks.{filled, IsPager, contents, read_buf-contents}
use nuts_archive.Platform.{Platform}
use nuts_archive.Platform.Laws.{Laws, Unchanged}
use nuts_archive.Tree
use nuts_archive.Tree.{Tree}
use nuts_archive.Tree.Codec as TreeCodec
use nuts_archive.Tree.Codec.{IsTree, IsTree-new}
use nuts_archive.Userdata
use nuts_archive.Userdata.Created.{Created, create-Created, load-stored}
use nuts_archive.State.{Archive}
use nuts_archive.State.HeaderBlock.{header_bytes, flush_header-contents, flush_header_too_small}
use nuts_archive.Archive.{
  min_block_size, create_in, in_container, create, parse_header, open_in, open_archive,
}

module _ ⦃p : Platform⦄ (l : Laws p) where
  open p use {BlockId, Container, Time, block_size, userdata}

  -- The block `id` of the container holds the header and the tree, and the user data names it.
  pub record Stored (id : BlockId) (h : Header Time) (t : Tree BlockId) (c : Container)
      : Type 0 where
    pub named : userdata c ≡ Userdata.to_bytes (Userdata.new id)
    pub block : contents l c id ≡ filled (block_size c) (header_bytes h t)

  parse_header-filled :
      (now : Time) (size : ℕ) (h : Header Time) (t : Tree BlockId) (s : Pager Container)
      → IsHeader h
      → IsTree t
      → parse_header now (filled size (header_bytes h t)) s
        ≡ (ok (reread_header now h, record t { cache = [] }), s)
  unfolding parse_header
  parse_header-filled now size h t s ih it = rw (
    append_assoc,
    HeaderCodec.from_bytes-to_bytes-reread l now h _ ih,
    parse_header,
    TreeCodec.from_bytes-to_bytes-IsTree l t _ it,
  )

  -- The archive that `open` returns at the time `now`, and its container.
  pub record Opened (now : Time) (id : BlockId) (h : Header Time) (t : Tree BlockId) (c : Container)
      (a : Archive) : Type 0 where
    pub header : a.header ≡ reread_header now h
    pub header_id : a.header_id ≡ id
    pub tree : a.tree ≡ record t { cache = [] }
    pub is_pager : IsPager a.pager
    pub unchanged : Unchanged l.blocks c a.pager.inner

  open_in-Stored :
      (now : Time) (id : BlockId) (h : Header Time) (t : Tree BlockId) (s : Pager Container)
      → IsHeader h
      → IsTree t
      → IsPager s
      → Stored id h t s.inner
      → Ensures (λ a _. Opened now id h t s.inner a) (λ e _. IsFailure e) (open_in now s)
  unfolding open_in Userdata.new
  open_in-Stored now id h t s ih it is stored = rw (load-stored l id s.inner stored.named) (
      bind (read_buf-contents l id s is)
        (λ d s' (e, is', u).
          rw (e ∙ stored.block, parse_header-filled now (block_size s.inner) h t s' ih it)
            (done (record {
              header = refl;
              header_id = refl;
              tree = refl;
              is_pager = is';
              unchanged = u;
            })))
        (λ e s' q. q.0))

  IsPager-new : (c : Container) → IsPager (Pager.new c)
  unfolding Pager.new
  IsPager-new c = length-zeros (block_size c)

  pub open-Opened :
      (now : Time) (id : BlockId) (h : Header Time) (t : Tree BlockId) (c : Container)
      → IsHeader h
      → IsTree t
      → min_block_size ≤ block_size c
      → Stored id h t c
      → Ensures (λ a _. Opened now id h t c a) (λ e _. IsFailure e) (open_archive now c)
  unfolding open_archive Pager.new
  open-Opened now id h t c ih it big stored = rw (le→ltb (block_size c) min_block_size big) (
      zoomed (λ s. s.inner) (λ e. e)
        (mono (open_in-Stored now id h t (Pager.new c) ih it (IsPager-new c) stored) (λ a s q. q)
          (λ e s q. q)))

  -- `open` returns the header as it is read back, its block and the tree that are stored, the tree with
  -- no cached node; it fails only if the container does.
  pub open-Stored :
      (now : Time) (id : BlockId) (h : Header Time) (t : Tree BlockId) (c : Container)
      → IsHeader h
      → IsTree t
      → min_block_size ≤ block_size c
      → Stored id h t c
      → Ensures
          (λ a _.
            (a.header ≡ reread_header now h)
            × (a.header_id ≡ id)
            × (a.tree ≡ record t { cache = [] }))
          (λ e _. IsFailure e)
          (open_archive now c)
  open-Stored now id h t c ih it big stored =
      mono (open-Opened now id h t c ih it big stored) (λ a s o. (o.header, o.header_id, o.tree))
        (λ e s q. q)

  pub min_block_size-le : min_block_size ≤ Header.size + Tree.size
  unfolding min_block_size
  min_block_size-le = omega (arith, l.id_size_pos)

  -- Why `create` fails on a container with room for the header block.
  abbrev pub CreateError : Bool → Container → Error BlockId p.Failure → Type 0
  CreateError force c e =
      IsFailure e ⊎ ((e ≡ overwrite_userdata) × (force ≡ false) × (is_empty (userdata c) ≡ false))

  -- A new archive, and what its container holds.
  pub record IsNew (now : Time) (n : ℕ) (a : Archive) (c : Container) : Type 0 where
    pub header : a.header ≡ Header.create now
    pub tree : a.tree ≡ Tree.new
    pub same_size : block_size c ≡ n
    pub big : min_block_size ≤ block_size c
    pub stored : Stored a.header_id (Header.create now) Tree.new c
    pub is_pager : IsPager a.pager
    pub inside : a.pager.inner ≡ c
    pub live : l.blocks.live c a.header_id ≡ true

  userdata_step :
      (force : Bool) (s : Pager Container)
      → IsPager s
      → Ensures
          (λ u s'. IsPager s' × Created l u.id s.inner s'.inner)
          (λ e _. CreateError force s.inner e)
          (in_container (Userdata.create force) s)
  userdata_step force s is =
      zoomed (λ c. record s { inner = c }) (λ e. e)
        (mono (create-Created l force s.inner) (λ u c (e, made, _). (is ∙ sym made.same_size, made))
          (λ e c q. elim q [
            | inl (i, _) ↦ inl i
            | inr (f, unforced, used, _) ↦ inr (f, unforced, used)
          ]))

  create_in-IsNew :
      (now : Time) (force : Bool) (s : Pager Container)
      → IsPager s
      → Header.size + Tree.size ≤ block_size s.inner
      → Ensures
          (λ a s'. IsNew now (block_size s.inner) a s'.inner)
          (λ e _. CreateError force s.inner e)
          (create_in now force s)
  unfolding create_in
  create_in-IsNew now force s is room =
      bind (userdata_step force s is)
        (λ u s1 (is1, made).
          bind
            (flush_header-contents l u.id (Header.create now) Tree.new s1 is1 (IsHeader-create now)
              IsTree-new (omega (arith, made.same_size)))
            (λ _ s2 (block, is2, same). done (record {
              header = refl;
              tree = refl;
              same_size = same.same_size ∙ made.same_size;
              big = omega (arith, same.same_size, made.same_size, min_block_size-le);
              stored = record {
                named = same.same_userdata ∙ made.stored;
                block =
                    block
                    ∙ ap (λ n. filled n (header_bytes (Header.create now) Tree.new))
                        (sym same.same_size);
              };
              is_pager = is2;
              inside = refl;
              live = same.same_live u.id ∙ made.now_live;
            }))
            (λ e s2 q. inl q.0))
        (λ e s1 q. q)

  pub create-IsNew :
      (now : Time) (force : Bool) (c : Container)
      → Header.size + Tree.size ≤ block_size c
      → Ensures
          (λ a c'. IsNew now (block_size c) a c')
          (λ e _. CreateError force c e)
          (create now force c)
  unfolding create Pager.new
  create-IsNew now force c room =
      rw (le→ltb (block_size c) min_block_size (omega (arith, min_block_size-le))) (
        zoomed (λ s. s.inner) (λ e. e)
          (mono (create_in-IsNew now force (Pager.new c) (IsPager-new c) room) (λ a s q. q)
            (λ e s q. q)))

  -- `create` on a container whose block has room for the header and the tree makes an archive with
  -- a new header and an empty tree, and `open` of the container that it leaves gives the same
  -- header block and tree, and the same header with each of its times as it is read back from its
  -- milliseconds. `create` fails only if the container does, or on user data that are there
  -- without `force`; then `open` fails only if the container does.
  pub open-create :
      (now later : Time) (force : Bool) (c : Container)
      → Header.size + Tree.size ≤ block_size c
      → Ensures
          (λ a c'.
            (a.header ≡ Header.create now)
            × (a.tree ≡ Tree.new)
            × Ensures
                (λ b _.
                  (b.header ≡ reread_header later a.header)
                  × (b.header_id ≡ a.header_id)
                  × (b.tree ≡ a.tree))
                (λ e _. IsFailure e)
                (open_archive later c'))
          (λ e _. CreateError force c e)
          (create now force c)
  unfolding Tree.new
  open-create now later force c room =
      mono (create-IsNew now force c room)
        (λ a c' new. (
          new.header,
          new.tree,
          rw (new.header, new.tree)
              (open-Stored later a.header_id (Header.create now) Tree.new c' (IsHeader-create now)
                IsTree-new new.big new.stored),
        ))
        (λ e c' q. q)

  -- On a block that passes the test of `min_block_size` and has no room for header and tree, if
  -- `Userdata::create` succeeds, `create` fails with `InvalidBlockSize`, but the container keeps
  -- the block and the user data that `Userdata::create` made.
  pub create_too_small :
      (now : Time) (force : Bool) (c c' : Container) (u : Userdata.Userdata BlockId)
      → min_block_size ≤ block_size c
      → block_size c < Header.size + Tree.size
      → Userdata.create force c ≡ (ok u, c')
      → create now force c ≡ (err invalid_block_size, c')
  unfolding create create_in Pager.new
  create_too_small now force c c' u big small made =
      let same : block_size c' ≡ block_size c =
        (of_ok (create-Created l force c) made).1.same_size in
      let s : Pager Container = record { inner = c'; buf = zeros (block_size c) } in
      let is : IsPager s = length-zeros (block_size c) ∙ sym same in
      let fails =
        flush_header_too_small l u.id (Header.create now) Tree.new s is (IsHeader-create now)
          IsTree-new (omega arith) in
      rw (le→ltb (block_size c) min_block_size big, made, and_then, fails.0, fails.1)
