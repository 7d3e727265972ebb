-- ===== src/State.antt =====
-- lib.rs: the fields of `Archive`, and `flush_header`, which writes them into the header block.
pub mod HeaderBlock
pub mod Growing
use nuts_archive.Outcome.{Exec, zoom, ◌>>=◌, ◌>>◌}
use nuts_archive.Error.{Error}
use nuts_archive.Header
use nuts_archive.Header.{Header}
use nuts_archive.Pager
use nuts_archive.Pager.{Pager, Paged}
use nuts_archive.Platform.{Platform}
use nuts_archive.Tree
use nuts_archive.Tree.{Tree, OnTree}

pub record Archive ⦃p : Platform⦄ : Type 0 where
  pub pager : Pager p.Container
  pub header_id : p.BlockId
  pub header : Header p.Time
  pub tree : Tree p.BlockId

module _ ⦃p : Platform⦄ where
  open p use {BlockId, Container, Failure, Time}

  -- What borrows the pager, the header and the tree of the archive.
  abbrev pub OnArchive : Type 0 → Type 0
  OnArchive A = Exec Archive (Error BlockId Failure) A

  abbrev pub on_pager : {A : Type 0} → Paged A → OnArchive A
  on_pager m = zoom (λ a. a.pager) (λ a q. record a { pager = q }) (λ e. e) m

  abbrev pub on_tree : {A : Type 0} → OnTree A → OnArchive A
  on_tree m =
      zoom (λ a. (a.tree, a.pager)) (λ a (t, q). record a { tree = t; pager = q }) (λ e. e) m

  unfoldable pub flush_header : BlockId → Header Time → Tree BlockId → Paged (Unit {0})
  flush_header id header tree = do
    start ← Pager.create_writer
    middle ← Pager.put (Header.to_bytes header) start
    Pager.put (Tree.to_bytes tree) middle
    Pager.write_buf id
