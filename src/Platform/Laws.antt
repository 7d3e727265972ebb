-- ===== src/Platform/Laws.antt =====
-- What the program relies on of nuts_container, nuts_bytes and chrono. The theorems that need it
-- take a value of `Laws` as a hypothesis.
use nuts_archive.Prelude.{
  ℕ, ◌+◌, ◌-◌, ◌^◌, ◌≤◌, ◌<◌, ◌≡◌, refl, ◌≢◌, ◌↔◌, Bool, true, false, List, ◌++◌, length, take,
  drop, replicate,
}
use nuts_archive.Outcome.{ok, err, panic}
use nuts_archive.Outcome.Ensures.{Ensures}
use nuts_archive.Error.{eof, no_space}
use nuts_archive.Platform.{Platform, Codec}

-- A codec reads back what it wrote, whatever follows, a proper prefix ends too early, and reading
-- does not panic.
pub record Decodes {A : Type 0} (c : Codec A) (Valid : A → Type 0) (size : A → ℕ) : Type 0 where
  pub length_bytes : (a : A) → Valid a → length (c.to_bytes a) ≡ size a
  pub round_trip :
      (a : A) (rest : List ℕ) → Valid a → c.from_bytes (c.to_bytes a ++ rest) ≡ ok (a, rest)
  pub too_short :
      (a : A) (n : ℕ) → Valid a → n < size a → c.from_bytes (take n (c.to_bytes a)) ≡ err eof
  pub no_panic : (bytes : List ℕ) → c.from_bytes bytes ≢ panic

-- The decrypted bytes of each block of a container, and which blocks are allocated.
pub record Blocks (p : Platform) : Type 0 where
  pub contents : p.Container → p.BlockId → List ℕ
  pub live : p.Container → p.BlockId → Bool

pub record Unchanged {p : Platform} (b : Blocks p) (c c' : p.Container) : Type 0 where
  pub same_size : p.block_size c' ≡ p.block_size c
  pub same_userdata : p.userdata c' ≡ p.userdata c
  pub same_contents : (j : p.BlockId) → b.contents c' j ≡ b.contents c j
  pub same_live : (j : p.BlockId) → b.live c' j ≡ b.live c j

-- At most the bytes of `id` differ.
pub record UnchangedBut {p : Platform} (b : Blocks p) (id : p.BlockId) (c c' : p.Container)
    : Type 0 where
  pub same_size : p.block_size c' ≡ p.block_size c
  pub same_userdata : p.userdata c' ≡ p.userdata c
  pub same_contents : (j : p.BlockId) → j ≢ id → b.contents c' j ≡ b.contents c j
  pub same_live : (j : p.BlockId) → b.live c' j ≡ b.live c j

-- One more block is allocated; the allocated ones keep their bytes.
pub record Grown {p : Platform} (b : Blocks p) (id : p.BlockId) (c c' : p.Container) : Type 0 where
  pub same_size : p.block_size c' ≡ p.block_size c
  pub same_userdata : p.userdata c' ≡ p.userdata c
  pub fresh : b.live c id ≡ false
  pub not_null : id ≢ p.null
  pub now_live : b.live c' id ≡ true
  pub still_live : (j : p.BlockId) → b.live c j ≡ true → b.live c' j ≡ true
  pub same_contents : (j : p.BlockId) → b.live c j ≡ true → b.contents c' j ≡ b.contents c j

-- The blocks are the same, and the user data is `d`.
pub record UserdataSet {p : Platform} (b : Blocks p) (d : List ℕ) (c c' : p.Container)
    : Type 0 where
  pub same_size : p.block_size c' ≡ p.block_size c
  pub new_userdata : p.userdata c' ≡ d
  pub same_contents : (j : p.BlockId) → b.contents c' j ≡ b.contents c j
  pub same_live : (j : p.BlockId) → b.live c' j ≡ b.live c j

-- A block of `size` bytes that begins with `d`: cut off, or filled up with zeros.
abbrev pub padded : ℕ → List ℕ → List ℕ
padded size d = take size d ++ replicate (size - length d) 0

-- The bytes `d` over those of `buf` from `pos` on.
abbrev pub splice : List ℕ → ℕ → List ℕ → List ℕ
splice buf pos d = take pos buf ++ (d ++ drop (pos + length d) buf)

abbrev pub Any : {A : Type 0} → A → Type 0
Any _ = Unit {0}

pub record Laws (p : Platform) : Type 0 where
  pub blocks : Blocks p
  pub id_eq_iff : (a b : p.BlockId) → (p.id_eq a b ≡ true) ↔ (a ≡ b)
  pub is_null_iff : (a : p.BlockId) → (p.is_null a ≡ true) ↔ (a ≡ p.null)
  pub id_size_pos : 0 < p.id_size
  pub length_contents :
      (c : p.Container) (id : p.BlockId) → length (blocks.contents c id) ≡ p.block_size c
  pub read_lem :
      (id : p.BlockId) (n : ℕ) (c : p.Container)
      → Ensures
          (λ d c'. (d ≡ take n (blocks.contents c id)) × Unchanged blocks c c')
          (λ _ c'. Unchanged blocks c c')
          (p.read_block id n c)
  pub write_lem :
      (id : p.BlockId) (d : List ℕ) (c : p.Container)
      → Ensures
          (λ _ c'.
            (blocks.contents c' id ≡ padded (p.block_size c) d) × UnchangedBut blocks id c c')
          (λ _ c'. UnchangedBut blocks id c c')
          (p.write_block id d c)
  pub aquire_lem :
      (c : p.Container)
      → Ensures (λ id c'. Grown blocks id c c') (λ _ c'. Unchanged blocks c c') (p.aquire_block c)
  pub update_userdata_lem :
      (d : List ℕ) (c : p.Container)
      → Ensures
          (λ _ c'. UserdataSet blocks d c c')
          (λ _ c'. Unchanged blocks c c')
          (p.update_userdata d c)
  pub u16_lem : Decodes p.u16 (λ n. n < 2 ^ 16) (λ _. 2)
  pub u64_lem : Decodes p.u64 (λ n. n < 2 ^ 64) (λ _. 8)
  pub i64_lem : Decodes p.i64 (λ n. n < 2 ^ 64) (λ _. 8)
  pub magic12_lem : Decodes p.magic12 (λ m. length m ≡ 12) (λ _. 12)
  pub text_lem : Decodes p.text (λ s. length s < 2 ^ 64) (λ s. 8 + length s)
  pub block_id_lem : Decodes p.block_id Any (λ _. p.id_size)
  pub put_slice_fits :
      (buf : List ℕ) (pos : ℕ) (d : List ℕ)
      → pos + length d ≤ length buf
      → p.put_slice buf pos d ≡ ok (splice buf pos d)
  pub put_slice_full :
      (buf : List ℕ) (pos : ℕ) (d : List ℕ)
      → length buf < pos + length d
      → p.put_slice buf pos d ≡ err no_space
  pub length_partial_put :
      (buf : List ℕ) (pos : ℕ) (d : List ℕ) → length (p.partial_put buf pos d) ≡ length buf
  pub timestamp_millis-lt : (t : p.Time) → p.timestamp_millis t < 2 ^ 64

pub Unchanged-refl : {p : Platform} {b : Blocks p} (c : p.Container) → Unchanged b c c
Unchanged-refl c = record {
  same_size = refl;
  same_userdata = refl;
  same_contents = λ j. refl;
  same_live = λ j. refl;
}
