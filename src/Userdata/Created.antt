-- ===== src/Userdata/Created.antt =====
-- What `Userdata::create` and `Userdata::load` leave behind and return.
use nuts_archive.Prelude.{
  ◌≡◌, ◌≢◌, refl, ◌∙◌, ◌⊎◌, inl, inr, Bool, true, false, not, ◌&&◌, is_empty, Bool-cases, arith,
}
use nuts_archive.Outcome.{ok, err}
use nuts_archive.Outcome.Ensures.{Ensures, done, failed, bind, mono, zoomed}
use nuts_archive.Error.{IsFailure, container, overwrite_userdata}
use nuts_archive.Platform.{Platform}
use nuts_archive.Platform.Laws.{Laws, UserdataSet, Grown}
use nuts_archive.Userdata.{Userdata, fallible, new, to_bytes, create, load}
use nuts_archive.Userdata.Codec.{from_bytes-to_bytes_end, is_empty-to_bytes}

not_both : (f e : Bool) → not f && not e ≡ true → (f ≡ false) × (e ≡ false)
not_both f e h = ground arith

not_refused : (f e : Bool) → not f && not e ≡ false → (f ≡ true) ⊎ (e ≡ true)
not_refused f e h = ground arith

module _ ⦃p : Platform⦄ (l : Laws p) where
  open p use {BlockId, Container, block_size, userdata}

  -- The user data of `c'` names the block `id`, which was not allocated in `c`.
  pub record Created (id : BlockId) (c c' : Container) : Type 0 where
    pub same_size : block_size c' ≡ block_size c
    pub stored : userdata c' ≡ to_bytes (new id)
    pub not_null : id ≢ p.null
    pub fresh : l.blocks.live c id ≡ false
    pub now_live : l.blocks.live c' id ≡ true

  -- Without `force`, user data that is there already is refused and kept.
  pub create_refuses :
      (c : Container) → is_empty (userdata c) ≡ false → create false c ≡ (err overwrite_userdata, c)
  unfolding create
  create_refuses c h = rw h

  aquire-Grown :
      (c : Container)
      → Ensures (λ id c'. Grown l.blocks id c c') (λ e _. IsFailure e) (fallible p.aquire_block c)
  aquire-Grown c = zoomed (λ c. c) container (mono (l.aquire_lem c) (λ id c' g. g) (λ _ c' u. tt))

  update-UserdataSet :
      (u : Userdata BlockId) (c : Container)
      → Ensures
          (λ _ c'. UserdataSet l.blocks (to_bytes u) c c')
          (λ e _. IsFailure e)
          (fallible (p.update_userdata (to_bytes u)) c)
  update-UserdataSet u c =
      zoomed (λ c. c) container
        (mono (l.update_userdata_lem (to_bytes u) c) (λ _ c' g. g) (λ _ c' u. tt))

  Created-after :
      (id : BlockId) {c c1 c2 : Container}
      → Grown l.blocks id c c1
      → UserdataSet l.blocks (to_bytes (new id)) c1 c2
      → Created id c c2
  Created-after id g u = record {
    same_size = u.same_size ∙ g.same_size;
    stored = u.new_userdata;
    not_null = g.not_null;
    fresh = g.fresh;
    now_live = u.same_live id ∙ g.now_live;
  }

  -- There are no user data yet, or they may be overwritten.
  abbrev pub IsAllowed : Bool → Container → Type 0
  IsAllowed force c = (force ≡ true) ⊎ (is_empty (userdata c) ≡ true)

  -- If there are no user data, or with `force`, `Userdata::create` takes a fresh block and names
  -- it in the user data, and fails only if the container does. Else it fails with
  -- `OverwriteUserdata`, and the container stays as it is.
  pub create-Created :
      (force : Bool) (c : Container)
      → Ensures
          (λ u c'. (u ≡ new u.id) × Created u.id c c' × IsAllowed force c)
          (λ e c'.
            (IsFailure e × IsAllowed force c)
            ⊎ ((e ≡ overwrite_userdata)
                × (force ≡ false)
                × (is_empty (userdata c) ≡ false)
                × (c' ≡ c)))
          (create force c)
  unfolding create new
  create-Created force c = elim (Bool-cases (not force && not (is_empty (userdata c)))) [
    | inl refuse ↦
        let (unforced, used) = not_both force (is_empty (userdata c)) refuse in
        rw refuse (failed (inr (refl, unforced, used, refl)))
    | inr go ↦
        let allowed = not_refused force (is_empty (userdata c)) go in
        rw go (
          bind (aquire-Grown c)
            (λ id c1 g.
              bind (update-UserdataSet (new id) c1)
                (λ _ c2 u. done (refl, Created-after id g u, allowed)) (λ e c2 f. inl (f, allowed)))
            (λ e c1 f. inl (f, allowed)))
  ]

  -- User data that an archive has written is read back.
  pub load-stored :
      (id : BlockId) (c : Container) → userdata c ≡ to_bytes (new id) → load c ≡ (ok (new id), c)
  unfolding load
  load-stored id c h = rw (h, is_empty-to_bytes l id, from_bytes-to_bytes_end l id)
