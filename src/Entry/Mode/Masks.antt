-- ===== src/Entry/Mode/Masks.antt =====
-- The bits that the masks of entry/mode.rs select, and that `update_mask` sets and clears.
use Prim.Native.Nat.{bit_and}
use native.Mathlib.Nat.{pow-suc}
use nuts_archive.Prelude.{
  ℕ, zero, suc, ◌+◌, ◌-◌, ◌*◌, ◌/◌, ◌%◌, ◌^◌, ◌≤◌, ◌<◌, ◌≡◌, refl, Bool, true, false, ◌&&◌, arith,
  ltb, ◌==◌, if◌then◌else◌,
}
use nuts_archive.Prelude.Bits.{bit, bit-le-one, bit-bit_and, bit-bit_or, bit_and_step}
use nuts_archive.Entry.Mode.{mask_type, update_mask}

bit_and-zero : (n a : ℕ) → a ≤ n → bit_and a 0 ≡ 0
bit_and-zero n zero h = refl
bit_and-zero zero (suc a) h = absurd (omega arith)
bit_and-zero (suc n) (suc a) h =
    omega (arith, bit_and_step (suc a) 0, bit_and-zero n (suc a / 2) (omega arith))

-- A mask of one bit.
bit_and-pow : (k m : ℕ) → bit_and m (2 ^ k) ≡ bit m k * 2 ^ k
unfolding bit
bit_and-pow zero m = omega (arith, bit_and_step m 1, bit_and-zero (m / 2) (m / 2) (omega arith))
bit_and-pow (suc k) m =
    let half : 2 ^ k * 2 / 2 ≡ 2 ^ k = omega arith in
    let rest : bit_and (m / 2) (2 ^ k * 2 / 2) ≡ bit (m / 2) k * 2 ^ k =
      rw half (bit_and-pow k (m / 2)) in
    rw (pow-suc 2 k) (omega (arith, bit_and_step m (2 ^ k * 2), rest))

even_mask : (m c : ℕ) → bit_and m (2 * c) ≡ bit_and (m / 2) c * 2
even_mask m c =
    let half : 2 * c / 2 ≡ c = omega arith in
    let rest : bit_and (m / 2) (2 * c / 2) ≡ bit_and (m / 2) c = rw half in
    omega (arith, bit_and_step m (2 * c), rest)

odd_mask : (m c : ℕ) → bit_and m (2 * c + 1) ≡ bit_and (m / 2) c * 2 + m % 2
odd_mask m c =
    let half : (2 * c + 1) / 2 ≡ c = omega arith in
    let rest : bit_and (m / 2) ((2 * c + 1) / 2) ≡ bit_and (m / 2) c = rw half in
    omega (arith, bit_and_step m (2 * c + 1), rest)

low_two : (m : ℕ) → bit_and m 3 ≡ m % 2 + m / 2 % 2 * 2
low_two m =
    omega
      (arith, odd_mask m 1, odd_mask (m / 2) 0, bit_and-zero (m / 2 / 2) (m / 2 / 2) (omega arith))

-- The two bits of the type.
type_bits : (m : ℕ) → bit_and m 0x600 ≡ bit m 9 * 512 + bit m 10 * 1024
unfolding bit
type_bits m = omega (
  arith,
  even_mask m 768,
  even_mask (m / 2) 384,
  even_mask (m / 2 / 2) 192,
  even_mask (m / 2 / 2 / 2) 96,
  even_mask (m / 2 / 2 / 2 / 2) 48,
  even_mask (m / 2 / 2 / 2 / 2 / 2) 24,
  even_mask (m / 2 / 2 / 2 / 2 / 2 / 2) 12,
  even_mask (m / 2 / 2 / 2 / 2 / 2 / 2 / 2) 6,
  even_mask (m / 2 / 2 / 2 / 2 / 2 / 2 / 2 / 2) 3,
  low_two (m / 2 / 2 / 2 / 2 / 2 / 2 / 2 / 2 / 2),
)

pow_pos : (k : ℕ) → 0 < 2 ^ k
pow_pos zero = omega arith
pow_pos (suc k) = rw (pow-suc 2 k) (omega (arith, pow_pos k))

all_below : ℕ → (ℕ → Bool) → Bool
all_below zero f = true
all_below (suc n) f = f n && all_below n f

all_below_sound : (n : ℕ) (f : ℕ → Bool) (x : ℕ) → all_below n f ≡ true → x < n → f x ≡ true
unfolding all_below
all_below_sound zero f x h lt = absurd (omega arith)
all_below_sound (suc n) f x h lt = ground (arith, all_below_sound n f x)

abbrev mask_test : ℕ → ℕ → Bool
mask_test k j =
    (bit (2 ^ k) j == (if j == k then 1 else 0))
    && (bit (0xffff - 2 ^ k) j == (if j == k then 0 else 1))

mask_table : all_below 11 (λ k. all_below 11 (λ j. mask_test k j)) ≡ true
unfolding all_below bit
mask_table = refl

mask_bits :
    (k j : ℕ)
    → k < 11
    → j < 11
    → (bit (2 ^ k) j ≡ (if j == k then 1 else 0))
      × (bit (0xffff - 2 ^ k) j ≡ (if j == k then 0 else 1))
mask_bits k j hk hj =
    let row = all_below_sound 11 (λ k. all_below 11 (λ j. mask_test k j)) k mask_table hk in
    let cell : mask_test k j ≡ true = all_below_sound 11 (λ j. mask_test k j) j row hj in
    ground (arith, cell)

-- Each bit after the bit `k` has been set or cleared.
update_bit :
    (b : Bool) (k j m : ℕ)
    → k < 11
    → j < 11
    → bit (update_mask b (2 ^ k) m) j ≡ (if j == k then (if b then 1 else 0) else bit m j)
unfolding update_mask
update_bit true k j m hk hj =
    ground (arith, bit-bit_or m (2 ^ k) j, mask_bits k j hk hj, bit-le-one m j)
update_bit false k j m hk hj =
    ground (arith, bit-bit_and m (0xffff - 2 ^ k) j, mask_bits k j hk hj, bit-le-one m j)

pub right_update :
    (b : Bool) (k j m : ℕ)
    → k < 11
    → j < 11
    → ltb 0 (bit_and (update_mask b (2 ^ k) m) (2 ^ j))
      ≡ (if j == k then b else ltb 0 (bit_and m (2 ^ j)))
right_update b k j m hk hj =
    rw (bit_and-pow j (update_mask b (2 ^ k) m), bit_and-pow j m, update_bit b k j m hk hj)
      (ground (arith, bit-le-one m j, pow_pos j))

pub type_update :
    (b : Bool) (k m : ℕ) → k < 9 → bit_and (update_mask b (2 ^ k) m) mask_type ≡ bit_and m mask_type
type_update b k m hk =
    rw (type_bits (update_mask b (2 ^ k) m), type_bits m)
      (ground (
        arith,
        update_bit b k 9 m (omega arith) (omega arith),
        update_bit b k 10 m (omega arith) (omega arith),
      ))
