-- ===== src/Tree/Cache.antt =====
-- tree/cache.rs: a node together with the id of the block that it was read from.
pub mod Added
pub mod Coherent
use nuts_archive.Prelude.{ℕ, Bool, true, false, none, some, get_elem?, set, if◌then◌else◌}
use nuts_archive.Outcome.{Exec, pure, abort, zoom, gets, modify, ◌>>=◌, ◌>>◌}
use nuts_archive.Error.{Error}
use nuts_archive.Pager
use nuts_archive.Pager.{Pager, Paged}
use nuts_archive.Platform.{Platform}
use nuts_archive.Tree.Node
use nuts_archive.Tree.Node.{Node, OnNode}

pub record Cache (I : Type 0) : Type 0 where
  pub id : I
  pub node : Node I

module _ ⦃p : Platform⦄ where
  open p use {BlockId, Container, Failure, null, is_null, id_eq}

  -- A method of the cache: the cache, and the pager that it borrows.
  abbrev pub OnCache : Type 0 → Type 0
  OnCache A = Exec (Cache BlockId × Pager Container) (Error BlockId Failure) A

  abbrev pub on_pager : {A : Type 0} → Paged A → OnCache A
  on_pager m = zoom (λ s. s.1) (λ s q. (s.0, q)) (λ e. e) m

  abbrev pub on_node : {A : Type 0} → OnNode A → OnCache A
  on_node m = zoom (λ (c, q). (c.node, q)) (λ (c, _) (n, q). (record c { node = n }, q)) (λ e. e) m

  unfoldable pub new : Pager Container → Cache BlockId
  unfolding Node.new
  new s = record { id = null; node = Node.new s }

  unfoldable pub refresh : BlockId → OnCache Bool
  refresh id = do
    old ← gets (λ s. s.0.id)
    if id_eq old id
        then pure false
        else do modify (λ (c, q). (record c { id = id }, q)); on_node (Node.fill id); pure true

  -- `self.node[idx] = id`
  abbrev pub store : ℕ → BlockId → OnCache (Unit {0})
  store idx id = modify (λ (c, q). (record c { node = set c.node idx id }, q))

  -- The entry at `idx` is aquired and stored unless it has been already.
  unfoldable pub aquire : ℕ → Bool → OnCache Bool
  aquire idx leaf (c, s) = elim (get_elem? c.node idx) [
    | none ↦ abort (c, s)
    | some old ↦
        let take_block : OnCache Bool = do
          id ← on_pager (if leaf then Pager.aquire else Node.aquire)
          store idx id
          c' ← gets (λ s. s.0)
          on_pager (Node.flush c'.node c'.id)
          pure true
        in if is_null old then take_block (c, s) else (pure false (c, s))
  ]
