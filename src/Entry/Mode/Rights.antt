-- ===== src/Entry/Mode/Rights.antt =====
-- What the setters of entry/mode.rs change.
use Prim.Native.Nat.{bit_and}
use nuts_archive.Prelude.{
  ℕ, ◌+◌, ◌^◌, ◌<◌, ◌≡◌, ◌≢◌, refl, ◌∙◌, Bool, true, false, arith, ltb, ◌==◌, if◌then◌else◌,
}
use nuts_archive.Entry.Mode.{
  Mode, Group, user, group, other, is_file, is_directory, is_symlink, mask_type, read_mask,
  write_mask, execute_mask, update_mask, can_read, can_write, can_execute, set_readable,
  set_writable, set_executable,
}
use nuts_archive.Entry.Mode.Masks.{right_update, type_update}

unfoldable pub same_group : Group → Group → Bool
same_group user user = true
same_group group group = true
same_group other other = true
same_group _ _ = false

-- The place of the right to read; the rights to write and to execute follow.
abbrev place : Group → ℕ
place user = 0
place group = 3
place other = 6

place-lt : (g : Group) → place g < 7
place-lt user = omega arith
place-lt group = omega arith
place-lt other = omega arith

read_mask-pow : (g : Group) → read_mask g ≡ 2 ^ (place g + 0)
unfolding read_mask
read_mask-pow user = refl
read_mask-pow group = refl
read_mask-pow other = refl

write_mask-pow : (g : Group) → write_mask g ≡ 2 ^ (place g + 1)
unfolding write_mask
write_mask-pow user = refl
write_mask-pow group = refl
write_mask-pow other = refl

execute_mask-pow : (g : Group) → execute_mask g ≡ 2 ^ (place g + 2)
unfolding execute_mask
execute_mask-pow user = refl
execute_mask-pow group = refl
execute_mask-pow other = refl

-- Different rights have different places, `a` and `b` being 0, 1 or 2.
apart : (g g' : Group) (a b : ℕ) → a < 3 → b < 3 → a ≢ b → (place g' + a == place g + b) ≡ false
apart user user a b ha hb ne = ground arith
apart user group a b ha hb ne = ground arith
apart user other a b ha hb ne = ground arith
apart group user a b ha hb ne = ground arith
apart group group a b ha hb ne = ground arith
apart group other a b ha hb ne = ground arith
apart other user a b ha hb ne = ground arith
apart other group a b ha hb ne = ground arith
apart other other a b ha hb ne = ground arith

together : (g g' : Group) (a : ℕ) → (place g' + a == place g + a) ≡ same_group g g'
unfolding same_group
together user user a = ground arith
together user group a = ground arith
together user other a = ground arith
together group user a = ground arith
together group group a = ground arith
together group other a = ground arith
together other user a = ground arith
together other group a = ground arith
together other other a = ground arith

module _ (g : Group) (b : Bool) (m : Mode) where
  -- Bit `a` of the group after the update, for `a` other than the bit `c` that is set, and for `c`.
  other_right :
      (g' : Group) (a c : ℕ)
      → a < 3
      → c < 3
      → a ≢ c
      → ltb 0 (bit_and (update_mask b (2 ^ (place g + c)) m) (2 ^ (place g' + a)))
        ≡ ltb 0 (bit_and m (2 ^ (place g' + a)))
  other_right g' a c ha hc ne =
      right_update b (place g + c) (place g' + a) m (omega (arith, place-lt g))
        (omega (arith, place-lt g'))
      ∙ rw (apart g g' a c ha hc ne)

  same_right :
      (g' : Group) (c : ℕ)
      → c < 3
      → ltb 0 (bit_and (update_mask b (2 ^ (place g + c)) m) (2 ^ (place g' + c)))
        ≡ (if same_group g g' then b else ltb 0 (bit_and m (2 ^ (place g' + c))))
  same_right g' c hc =
      right_update b (place g + c) (place g' + c) m (omega (arith, place-lt g))
        (omega (arith, place-lt g'))
      ∙ rw (together g g' c)

  same_type :
      (c : ℕ)
      → c < 3
      → bit_and (update_mask b (2 ^ (place g + c)) m) mask_type ≡ bit_and m mask_type
  same_type c hc = type_update b (place g + c) m (omega (arith, place-lt g))

  -- `set_readable` gives or takes the right of reading for its group, and keeps this right of the other
  -- groups, the other rights of every group and the type of the entry.
  pub set_readable_lem :
      ((g' : Group)
        → (can_read (set_readable g b m) g' ≡ (if same_group g g' then b else can_read m g'))
          × (can_write (set_readable g b m) g' ≡ can_write m g')
          × (can_execute (set_readable g b m) g' ≡ can_execute m g'))
      × (is_file (set_readable g b m) ≡ is_file m)
      × (is_directory (set_readable g b m) ≡ is_directory m)
      × (is_symlink (set_readable g b m) ≡ is_symlink m)
  unfolding set_readable can_read can_write can_execute is_file is_directory is_symlink
  set_readable_lem = (
    λ g'. (
      rw (read_mask-pow g, read_mask-pow g') (same_right g' 0 (omega arith)),
      rw (read_mask-pow g, write_mask-pow g')
          (other_right g' 1 0 (omega arith) (omega arith) (omega arith)),
      rw (read_mask-pow g, execute_mask-pow g')
          (other_right g' 2 0 (omega arith) (omega arith) (omega arith)),
    ),
    rw (read_mask-pow g, same_type 0 (omega arith)),
    rw (read_mask-pow g, same_type 0 (omega arith)),
    rw (read_mask-pow g, same_type 0 (omega arith)),
  )

  -- `set_writable` gives or takes the right of writing for its group, and keeps this right of the other
  -- groups, the other rights of every group and the type of the entry.
  pub set_writable_lem :
      ((g' : Group)
        → (can_read (set_writable g b m) g' ≡ can_read m g')
          × (can_write (set_writable g b m) g' ≡ (if same_group g g' then b else can_write m g'))
          × (can_execute (set_writable g b m) g' ≡ can_execute m g'))
      × (is_file (set_writable g b m) ≡ is_file m)
      × (is_directory (set_writable g b m) ≡ is_directory m)
      × (is_symlink (set_writable g b m) ≡ is_symlink m)
  unfolding set_writable can_read can_write can_execute is_file is_directory is_symlink
  set_writable_lem = (
    λ g'. (
      rw (write_mask-pow g, read_mask-pow g')
          (other_right g' 0 1 (omega arith) (omega arith) (omega arith)),
      rw (write_mask-pow g, write_mask-pow g') (same_right g' 1 (omega arith)),
      rw (write_mask-pow g, execute_mask-pow g')
          (other_right g' 2 1 (omega arith) (omega arith) (omega arith)),
    ),
    rw (write_mask-pow g, same_type 1 (omega arith)),
    rw (write_mask-pow g, same_type 1 (omega arith)),
    rw (write_mask-pow g, same_type 1 (omega arith)),
  )

  -- `set_executable` gives or takes the right of executing for its group, and keeps this right of the other
  -- groups, the other rights of every group and the type of the entry.
  pub set_executable_lem :
      ((g' : Group)
        → (can_read (set_executable g b m) g' ≡ can_read m g')
          × (can_write (set_executable g b m) g' ≡ can_write m g')
          × (can_execute (set_executable g b m) g'
              ≡ (if same_group g g' then b else can_execute m g')))
      × (is_file (set_executable g b m) ≡ is_file m)
      × (is_directory (set_executable g b m) ≡ is_directory m)
      × (is_symlink (set_executable g b m) ≡ is_symlink m)
  unfolding set_executable can_read can_write can_execute is_file is_directory is_symlink
  set_executable_lem = (
    λ g'. (
      rw (execute_mask-pow g, read_mask-pow g')
          (other_right g' 0 2 (omega arith) (omega arith) (omega arith)),
      rw (execute_mask-pow g, write_mask-pow g')
          (other_right g' 1 2 (omega arith) (omega arith) (omega arith)),
      rw (execute_mask-pow g, execute_mask-pow g') (same_right g' 2 (omega arith)),
    ),
    rw (execute_mask-pow g, same_type 2 (omega arith)),
    rw (execute_mask-pow g, same_type 2 (omega arith)),
    rw (execute_mask-pow g, same_type 2 (omega arith)),
  )
