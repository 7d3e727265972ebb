-- ===== src/Tree/Forest.antt =====
-- The tree seen as a forest of blocks: each block has a place, a root and a way of entries down
-- from it (tree.rs).
pub mod Walks
pub mod Nodes
pub mod Grow
pub mod Ready
pub mod Roots
pub mod Ensured
pub mod Adding
pub mod Levels
pub mod Leaf
pub mod Direct
pub mod Aquire
pub mod Look
pub mod Lookup
pub mod Listed
pub mod Start
pub mod Contents
use nuts_archive.Prelude.{
  ℕ, suc, ◌+◌, ◌*◌, ◌≤◌, ◌<◌, ◌≡◌, ◌≢◌, true, some, List, [], ◌∷◌, length, get_elem?,
}
use nuts_archive.Platform.{Platform}
use nuts_archive.Platform.Laws.{Laws}
use nuts_archive.Tree.{Tree}
use nuts_archive.Tree.Node.{ids_per_node}
use nuts_archive.Tree.Node.Stored.{NodeAt}

-- The ids that the tree itself holds.
pub record Pointers (I : Type 0) : Type 0 where
  pub direct : List I
  pub indirect : I
  pub d_indirect : I
  pub t_indirect : I

abbrev pub pointers : {I : Type 0} → Tree I → Pointers I
pointers t = record {
  direct = t.direct;
  indirect = t.indirect;
  d_indirect = t.d_indirect;
  t_indirect = t.t_indirect;
}

-- Where a way begins: at a direct id, or at the node below one of the pointers.
pub data Root : Type 0 where
  direct : ℕ → Root
  single double triple : Root

-- The number of nodes above a block of the archive.
abbrev pub depth : Root → ℕ
depth (direct i) = 0
depth single = 1
depth double = 2
depth triple = 3

-- The index of the block at the end of a way, for `n` ids per node.
abbrev pub index : ℕ → Root → List ℕ → ℕ
index n (direct i) way = i
index n single [] = 0
index n single (i ∷ way) = 12 + i
index n double [] = 0
index n double (i ∷ []) = 0
index n double (i ∷ j ∷ way) = 12 + n + (i * n + j)
index n triple [] = 0
index n triple (i ∷ []) = 0
index n triple (i ∷ j ∷ []) = 0
index n triple (i ∷ j ∷ k ∷ way) = 12 + n + n * n + ((i * n + j) * n + k)

module _ {I : Type 0} where
  abbrev pub RootAt : Pointers I → Root → I → Type 0
  RootAt t (direct i) id = get_elem? t.direct i ≡ some id
  RootAt t single id = t.indirect ≡ id
  RootAt t double id = t.d_indirect ≡ id
  RootAt t triple id = t.t_indirect ≡ id

module _ ⦃p : Platform⦄ where
  open p use {Container}

  -- The number of the blocks that a tree can address.
  abbrev pub capacity : Container → ℕ
  capacity c = let n = ids_per_node c in 12 + n + n * n + n * n * n

module _ ⦃p : Platform⦄ (l : Laws p) where
  open p use {BlockId, Container, null, block_size}

  -- The entries of the way lead from the block `top` to the block `b`, with no null id among them.
  abbrev pub Walk : Container → BlockId → List ℕ → BlockId → Type 0
  Walk c top [] b = (top ≢ null) × (top ≡ b)
  Walk c top (i ∷ way) b =
      (top ≢ null)
      × ((node : List BlockId) × NodeAt l c top node
          × ((id : BlockId) × (get_elem? node i ≡ some id) × Walk c id way b))

  -- The block `b` is at a place of the tree: a node, or at the full depth a block of the archive.
  pub record Place (c : Container) (t : Pointers BlockId) (r : Root) (way : List ℕ) (b : BlockId)
      : Type 0 where
    pub short : length way ≤ depth r
    pub top : BlockId
    pub root_at : RootAt t r top
    pub walk : Walk c top way b

  -- The tree gives the blocks `ids` of the archive the indices from 0 on. Each of its blocks is
  -- allocated and has one place only.
  pub record IsForest (c : Container) (t : Pointers BlockId) (ids : List BlockId) : Type 0 where
    pub direct_full : length t.direct ≡ 12
    pub some_ids : 0 < ids_per_node c
    pub apart :
        (r r' : Root) (way way' : List ℕ) (b : BlockId)
        → Place c t r way b
        → Place c t r' way' b
        → (r ≡ r') × (way ≡ way')
    pub live :
        (r : Root) (way : List ℕ) (b : BlockId) → Place c t r way b → l.blocks.live c b ≡ true
    pub nodes :
        (r : Root) (way : List ℕ) (b : BlockId)
        → Place c t r way b
        → length way < depth r
        → (node : List BlockId) × NodeAt l c b node
    pub bounded :
        (r : Root) (way : List ℕ) (b : BlockId)
        → Place c t r way b
        → length way ≡ depth r
        → index (ids_per_node c) r way < length ids
    pub placed :
        (k : ℕ) (b : BlockId)
        → get_elem? ids k ≡ some b
        → (r : Root) × ((way : List ℕ) × Place c t r way b
            × (length way ≡ depth r)
            × (index (ids_per_node c) r way ≡ k))
