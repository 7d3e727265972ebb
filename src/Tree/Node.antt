-- ===== src/Tree/Node.antt =====
-- tree/node.rs, and `ids_per_node` of tree.rs: the block ids that an indirect block holds.
pub mod Stored
use nuts_archive.Prelude.{
  ℕ, zero, suc, ◌+◌, ◌*◌, ◌/◌, List, [], ◌∷◌, ◌++◌, length, ltb, leb, replicate, if◌then◌else◌,
}
use nuts_archive.Outcome.{ok, err, panic, Exec, pure, abort, zoom, gets, modify, ◌>>=◌, ◌>>◌}
use nuts_archive.Error.{Error, from_bytes_error}
use nuts_archive.Pager
use nuts_archive.Pager.{Pager, Paged}
use nuts_archive.Platform.{Platform}

abbrev pub Node : Type 0 → Type 0
Node I = List I

module _ ⦃p : Platform⦄ where
  open p use {BlockId, Container, Failure, null, id_size, block_size, block_id}

  unfoldable pub ids_per_node : Container → ℕ
  ids_per_node c = block_size c / id_size

  unfoldable pub new : Pager Container → Node BlockId
  unfolding ids_per_node
  new s = replicate (ids_per_node s.inner) null

  -- The loop `for id in self.0.iter() { writer.write(id)?; }`
  unfoldable pub write_ids : Node BlockId → ℕ → Paged ℕ
  write_ids [] pos = pure pos
  write_ids (id ∷ ids) pos = do pos' ← Pager.put (block_id.to_bytes id) pos; write_ids ids pos'

  unfoldable pub flush : Node BlockId → BlockId → Paged (Unit {0})
  flush node id = do
    size ← gets (λ s. block_size s.inner)
    let expected_size = length node * id_size
    if ltb size expected_size
        then abort
        else if leb (expected_size + id_size) size
        then abort
        else do pos ← Pager.create_writer; write_ids node pos; Pager.write_buf id

  unfoldable pub aquire : Paged BlockId
  unfolding new flush
  aquire = do id ← Pager.aquire; node ← gets new; flush node id; pure id

  -- A method of the node: the node, and the pager that it borrows.
  abbrev pub OnNode : Type 0 → Type 0
  OnNode A = Exec (Node BlockId × Pager Container) (Error BlockId Failure) A

  abbrev pub on_pager : {A : Type 0} → Paged A → OnNode A
  on_pager m = zoom (λ s. s.1) (λ s q. (s.0, q)) (λ e. e) m

  -- The loop `for _ in 0..ipn { self.0.push(reader.read::<B::Id>()?); }`
  unfoldable pub fill_loop : ℕ → List ℕ → OnNode (Unit {0})
  fill_loop zero bytes s = pure tt s
  fill_loop (suc n) bytes (node, s) = elim (block_id.from_bytes bytes) [
    | ok (id, rest) ↦ fill_loop n rest (node ++ id ∷ [], s)
    | err e ↦ (err (from_bytes_error e), (node, s))
    | panic ↦ (panic, (node, s))
  ]

  unfoldable pub fill : BlockId → OnNode (Unit {0})
  unfolding ids_per_node fill_loop
  fill id = do
    ipn ← gets (λ s. ids_per_node s.1.inner)
    bytes ← on_pager (Pager.read_buf id)
    modify (λ s. ([], s.1))
    fill_loop ipn bytes
