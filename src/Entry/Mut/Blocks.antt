-- ===== src/Entry/Mut/Blocks.antt =====
-- The blocks of the entry that is written, at the end of the archive (entry/mut.rs).
use native.Mathlib.Nat.{suc-mul}
use nuts_archive.Prelude.{
  ℕ, suc, ◌+◌, ◌*◌, ◌≤◌, ◌<◌, ◌≡◌, ◌≢◌, refl, sym, ap, ◌∙◌, ◌⊎◌, some, List, [], ◌∷◌, ◌++◌,
  append_assoc, append-nil, length, length-append, get_elem?, get_elem?-append, get_elem?-behind,
  get_elem?-last, arith,
}
use nuts_archive.Pager.Blocks.{filled, contents}
use nuts_archive.Platform.{Platform}
use nuts_archive.Platform.Laws.{Laws}
use nuts_archive.State.{Archive}
use nuts_archive.State.Growing.{IsArchive, listed_once}
use nuts_archive.Entry.Mut.{EntryMut}

module _ ⦃p : Platform⦄ (l : Laws p) where
  open p use {BlockId, Container, block_size}

  -- The bytes of some blocks.
  abbrev pub bytes : Container → List BlockId → List ℕ
  bytes c [] = []
  bytes c (b ∷ bs) = contents l c b ++ bytes c bs

  pub length-bytes :
      (c : Container) (bs : List BlockId) → length (bytes c bs) ≡ length bs * block_size c
  length-bytes c [] = omega arith
  length-bytes c (b ∷ bs) = omega (
    arith,
    length-append (contents l c b) (bytes c bs),
    l.length_contents c b,
    length-bytes c bs,
    suc-mul (length bs) (block_size c),
  )

  pub bytes-append :
      (c : Container) (bs : List BlockId) (b : BlockId)
      → bytes c (bs ++ b ∷ []) ≡ bytes c bs ++ contents l c b
  bytes-append c [] b = append-nil (contents l c b)
  bytes-append c (x ∷ bs) b =
      ap (λ r. contents l c x ++ r) (bytes-append c bs b)
      ∙ sym (append_assoc (contents l c x) (bytes c bs) (contents l c b))

  pub bytes_same :
      (c c' : Container) (bs : List BlockId)
      → ((k : ℕ) (b : BlockId) → get_elem? bs k ≡ some b → contents l c' b ≡ contents l c b)
      → bytes c' bs ≡ bytes c bs
  bytes_same c c' [] same = refl
  bytes_same c c' (b ∷ bs) same =
      rw (same 0 b refl, bytes_same c c' bs (λ k x at. same (suc k) x at))

  -- Where the blocks of the entry are in the list.
  module _ (before whole : List BlockId) (first last : BlockId) where
    abbrev pub extent : List BlockId
    extent = before ++ first ∷ (whole ++ last ∷ [])

    pub at_first : get_elem? extent (length before) ≡ some first
    at_first =
        ap (λ n. get_elem? extent n) (omega arith)
        ∙ get_elem?-behind before (first ∷ (whole ++ last ∷ [])) 0

    pub at_whole :
        (k : ℕ) (b : BlockId)
        → get_elem? whole k ≡ some b
        → get_elem? extent (length before + suc k) ≡ some b
    at_whole k b at =
        get_elem?-behind before (first ∷ (whole ++ last ∷ [])) (suc k)
        ∙ get_elem?-append whole (last ∷ []) k b at

    pub at_last : get_elem? extent (length before + suc (length whole)) ≡ some last
    at_last =
        get_elem?-behind before (first ∷ (whole ++ last ∷ [])) (suc (length whole))
        ∙ get_elem?-last whole last

  pub differ :
      {ids : List BlockId} {a : Archive} (is : IsArchive l ids a) (k k' : ℕ) (b b' : BlockId)
      → get_elem? ids k ≡ some b
      → get_elem? ids k' ≡ some b'
      → k ≢ k'
      → b ≢ b'
  differ is k k' b b' at at' ne e = ne (listed_once l is k k' b at (at' ∙ ap some (sym e)))

  -- What is in the last block that the entry writes to, behind whole blocks.
  pub record InBlock (c : Container) (e : EntryMut) (blocks : List BlockId) (d : List ℕ)
      : Type 0 where
    pub whole : List BlockId
    pub part : List ℕ
    pub same_blocks : blocks ≡ whole ++ e.last ∷ []
    pub same_data : d ≡ bytes c whole ++ part
    pub some_part : 0 < length part
    pub fits : length part ≤ block_size c
    pub content : contents l c e.last ≡ filled (block_size c) part
    pub cached : e.cache ≡ filled (block_size c) part

  -- The blocks hold the data, and zeros behind it; the cache of the entry is the last block.
  abbrev pub Holds : Container → EntryMut → List BlockId → List ℕ → Type 0
  Holds c e blocks d = ((blocks ≡ []) × (d ≡ [])) ⊎ InBlock c e blocks d

  -- An entry at the end of the archive, with its data.
  pub record IsAppending (before blocks : List BlockId) (d : List ℕ) (q : EntryMut × Archive)
      : Type 0 where
    pub archive : IsArchive l (before ++ q.0.first ∷ blocks) q.1
    pub sized : q.0.entry.size ≡ length d
    pub holds : Holds q.1.pager.inner q.0 blocks d
