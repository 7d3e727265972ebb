-- ===== src/Platform/Memory.antt =====
-- A platform in memory, at which the theorems are applied. Up to 255 blocks are numbered from 1 on;
-- a block id takes one byte, and a time stamp is a number of milliseconds below 2 ^ 64.
pub mod Codec
use mathlib.Core.HLevel.{Σ_prop_path}
use mathlib.Core.Logic.{dite, ite, dif_pos}
use native.Mathlib.Bridge.{le_prop}
use native.Mathlib.Decide.{dec_lt}
use nuts_archive.Prelude.{
  ℕ, ◌+◌, ◌-◌, ◌*◌, ◌^◌, ◌≤◌, ◌<◌, ◌≡◌, ◌≢◌, ◌↔◌, refl, sym, ap, ◌∙◌, List, [], ◌∷◌, ◌++◌, Bool,
  true, false, ◌&&◌, Option, none, some, arith, length, take, drop, leb, ltb, ◌==◌, if◌then◌else◌,
  replicate, ==_iff, length-append, length-take, length-replicate, le→leb, lt→leb, Bool-cases, inl,
  inr, zero, suc,
}
use nuts_archive.Outcome.{Outcome, ok, err, panic, Exec}
use nuts_archive.Outcome.Ensures.{Ensures, done, failed}
use nuts_archive.Bytes.{Parser}
use nuts_archive.Error.{BytesError, eof, no_space, other}
use nuts_archive.Platform as P
use nuts_archive.Platform.Laws.{
  Decodes, Blocks, Unchanged, UnchangedBut, Grown, padded, splice, Any, Laws, Unchanged-refl,
}
use Codec.{number, number-Decodes, magic12, magic12-Decodes, text, text-Decodes}

abbrev pub BlockId : Type 0
BlockId = (n : ℕ) × (n < 256)

abbrev pub Time : Type 0
Time = (n : ℕ) × (n < 2 ^ 64)

pub record Container : Type 0 where
  pub size : ℕ
  pub userdata : List ℕ
  pub count : ℕ
  pub bytes : ℕ → List ℕ

pub data Failure : Type 0 where
  exhausted : Failure

abbrev pub null : BlockId
null = (0, omega arith)

unfoldable pub contents : Container → BlockId → List ℕ
contents c id = padded c.size (c.bytes id.0)

unfoldable pub live : Container → BlockId → Bool
live c id = ltb 0 id.0 && leb id.0 c.count

unfoldable pub aquire_block : Exec Container Failure BlockId
unfolding dec_lt
aquire_block c =
    dite (dec_lt (c.count + 1) 256) (λ h. (ok (c.count + 1, h), record c { count = c.count + 1 }))
      (λ _. (err exhausted, c))

unfoldable pub read_block : BlockId → ℕ → Exec Container Failure (List ℕ)
unfolding contents
read_block id n c = (ok (take n (contents c id)), c)

unfoldable pub write_block : BlockId → List ℕ → Exec Container Failure ℕ
write_block id d c =
    (ok (length (take c.size d)), record c { bytes = λ n. if n == id.0 then d else c.bytes n })

unfoldable pub id_from_bytes : Parser BlockId
unfolding dec_lt
id_from_bytes [] = err eof
id_from_bytes (b ∷ rest) = dite (dec_lt b 256) (λ h. ok ((b, h), rest)) (λ _. err other)

unfoldable pub put_slice : List ℕ → ℕ → List ℕ → Outcome BytesError (List ℕ)
put_slice buf pos d =
    if leb (pos + length d) (length buf) then ok (splice buf pos d) else err no_space

unfoldable pub to_time : ℕ → Option Time
unfolding dec_lt
to_time n = dite (dec_lt n (2 ^ 64)) (λ h. some (n, h)) (λ _. none)

instance abbrev pub memory : P.Platform
memory = record {
  BlockId = BlockId;
  Container = Container;
  Failure = Failure;
  null = null;
  is_null = λ id. id.0 == 0;
  id_eq = λ a b. a.0 == b.0;
  id_size = 1;
  block_size = λ c. c.size;
  userdata = λ c. c.userdata;
  aquire_block = aquire_block;
  read_block = read_block;
  write_block = write_block;
  update_userdata = λ d c. (ok tt, record c { userdata = d });
  u16 = number 2;
  u64 = number 8;
  i64 = number 8;
  magic12 = magic12;
  text = text;
  block_id = record { to_bytes = λ id. id.0 ∷ []; from_bytes = id_from_bytes };
  put_slice = put_slice;
  partial_put = λ buf pos d. buf;
  Time = Time;
  timestamp_millis = λ t. t.0;
  timestamp_millis_opt = to_time;
  from_utf8_lossy = λ d. d;
}

eq_of_fst : (a b : BlockId) → a.0 ≡ b.0 → a ≡ b
eq_of_fst a b e = Σ_prop_path (λ n. le_prop) e

blocks : Blocks memory
unfolding contents live
blocks = record { contents = contents; live = live }

length-padded : (n : ℕ) (d : List ℕ) → length (padded n d) ≡ n
length-padded n d = omega (
  arith,
  length-append (take n d) (replicate (n - length d) 0),
  length-take n d,
  length-replicate (n - length d) (let z : ℕ = 0 in z),
)

write_UnchangedBut :
    (id : BlockId) (d : List ℕ) (c : Container)
    → UnchangedBut blocks id c (record c { bytes = λ n. if n == id.0 then d else c.bytes n })
unfolding blocks
write_UnchangedBut id d c = record {
  same_size = refl;
  same_userdata = refl;
  same_contents = λ j ne. ap (padded c.size) (rw (miss j ne));
  same_live = λ j. refl;
}
  where
    miss : (j : BlockId) → j ≢ id → (j.0 == id.0) ≡ false
    miss j ne = elim (Bool-cases (j.0 == id.0)) [
      | inl e ↦ absurd (ne (eq_of_fst j id ((==_iff j.0 id.0).0 e)))
      | inr e ↦ e
    ]

write_Ensures :
    (id : BlockId) (d : List ℕ) (c : Container)
    → Ensures
        (λ _ c'. (contents c' id ≡ padded c.size d) × UnchangedBut blocks id c c')
        (λ _ c'. UnchangedBut blocks id c c')
        (write_block id d c)
unfolding write_block contents
write_Ensures id d c =
    done (ap (padded c.size) (rw ((==_iff id.0 id.0).1 refl)), write_UnchangedBut id d c)

aquire_Grown :
    (c : Container) (h : c.count + 1 < 256)
    → Grown blocks (c.count + 1, h) c (record c { count = c.count + 1 })
unfolding blocks
aquire_Grown c h = record {
  same_size = refl;
  same_userdata = refl;
  fresh = ground arith;
  not_null = λ e. absurd (omega (arith, ap (λ (i : BlockId). i.0) e));
  now_live = ground arith;
  still_live = λ j l. ground arith;
  same_contents = λ j l. refl;
}

aquire_Ensures :
    (c : Container)
    → Ensures (λ id c'. Grown blocks id c c') (λ _ c'. Unchanged blocks c c') (aquire_block c)
unfolding aquire_block
aquire_Ensures c =
    elim (dec_lt (c.count + 1) 256)
      as (λ d.
        Ensures (λ id c'. Grown blocks id c c') (λ _ c'. Unchanged blocks c c')
          (dite d (λ h. (ok (c.count + 1, h), record c { count = c.count + 1 }))
            (λ _. (err exhausted, c)))) [
              | yes h ↦ done (aquire_Grown c h)
              | no h ↦ failed (Unchanged-refl c)
            ]

id_Decodes : Decodes memory.block_id Any (λ _. 1)
unfolding id_from_bytes
id_Decodes = record {
  length_bytes = λ id _. refl;
  round_trip = λ id rest _. dif_pos (dec_lt id.0 256) le_prop id.1 _ _;
  too_short = λ id n _ lt. short id n lt;
  no_panic = total;
}
  where
    total : (bytes : List ℕ) → id_from_bytes bytes ≢ panic
    total [] = λ e. cc
    total (b ∷ rest) = λ e. ground arith

    short : (id : BlockId) (n : ℕ) → n < 1 → id_from_bytes (take n (id.0 ∷ [])) ≡ err eof
    short id zero lt = refl
    short id (suc n) lt = absurd (omega arith)

-- Every time stamp of the platform is a whole number of milliseconds.
pub to_time-eq : (t : Time) → to_time t.0 ≡ some t
unfolding to_time
to_time-eq t = dif_pos (dec_lt t.0 (2 ^ 64)) le_prop t.1 _ _

pub memory_laws : Laws memory
unfolding blocks read_block put_slice contents live
memory_laws = record {
  blocks = blocks;
  id_eq_iff = λ a b. (
    λ e. eq_of_fst a b ((==_iff a.0 b.0).0 e),
    λ e. (==_iff a.0 b.0).1 (ap (λ (i : BlockId). i.0) e),
  );
  is_null_iff = λ a. (
    λ e. eq_of_fst a null ((==_iff a.0 0).0 e),
    λ e. (==_iff a.0 0).1 (ap (λ (i : BlockId). i.0) e),
  );
  id_size_pos = omega arith;
  length_contents = λ c id. length-padded c.size (c.bytes id.0);
  read_lem = λ id n c. done (refl, Unchanged-refl c);
  write_lem = write_Ensures;
  aquire_lem = aquire_Ensures;
  update_userdata_lem = λ d c. done (record {
    same_size = refl;
    new_userdata = refl;
    same_contents = λ j. refl;
    same_live = λ j. refl;
  });
  u16_lem = number-Decodes 2;
  u64_lem = number-Decodes 8;
  i64_lem = number-Decodes 8;
  magic12_lem = magic12-Decodes;
  text_lem = text-Decodes;
  block_id_lem = id_Decodes;
  put_slice_fits = λ buf pos d h. rw (le→leb (pos + length d) (length buf) h);
  put_slice_full = λ buf pos d h. rw (lt→leb (pos + length d) (length buf) h);
  length_partial_put = λ buf pos d. refl;
  timestamp_millis-lt = λ t. t.1;
}

-- What the laws are about.
pub memory_contents :
    (c : Container) (id : BlockId) → memory_laws.blocks.contents c id ≡ padded c.size (c.bytes id.0)
unfolding memory_laws blocks contents
memory_contents c id = refl

pub memory_live :
    (c : Container) (id : BlockId) → memory_laws.blocks.live c id ≡ (ltb 0 id.0 && leb id.0 c.count)
unfolding memory_laws blocks live
memory_live c id = refl

pub memory_Grown :
    (c : Container) (h : c.count + 1 < 256)
    → Grown memory_laws.blocks (c.count + 1, h) c (record c { count = c.count + 1 })
unfolding memory_laws
memory_Grown c h = aquire_Grown c h
