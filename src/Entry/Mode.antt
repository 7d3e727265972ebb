-- ===== src/Entry/Mode.antt =====
-- entry/mode.rs: the type and the access rights of an entry as bits of a `u16`.
pub mod Masks
pub mod Rights
use Prim.Native.Nat.{bit_and, bit_or}
use nuts_archive.Prelude.{ℕ, ◌-◌, Bool, ltb, ◌==◌, if◌then◌else◌}

abbrev pub Mode : Type 0
Mode = ℕ

abbrev pub mask_type : ℕ
mask_type = 0x0600

abbrev pub type_file : ℕ
type_file = 0x0000

abbrev pub type_dir : ℕ
type_dir = 0x0200

abbrev pub type_symlink : ℕ
type_symlink = 0x0400

-- `DEFAULT_ACCESS_RIGHTS`: all but writing by the group and by others.
abbrev pub default_access_rights : ℕ
default_access_rights =
    bit_or (bit_or (bit_or (bit_or (bit_or (bit_or 0x0001 0x0002) 0x0004) 0x0008) 0x0020) 0x0040)
      0x0100

pub data Group : Type 0 where
  user group other : Group

unfoldable pub file : Mode
file = bit_or type_file default_access_rights

unfoldable pub directory : Mode
directory = bit_or type_dir default_access_rights

unfoldable pub symlink : Mode
symlink = bit_or type_symlink default_access_rights

unfoldable pub is_file : Mode → Bool
is_file m = bit_and m mask_type == type_file

unfoldable pub is_directory : Mode → Bool
is_directory m = bit_and m mask_type == type_dir

unfoldable pub is_symlink : Mode → Bool
is_symlink m = bit_and m mask_type == type_symlink

unfoldable pub read_mask : Group → ℕ
read_mask user = 0x0001
read_mask group = 0x0008
read_mask other = 0x0040

unfoldable pub write_mask : Group → ℕ
write_mask user = 0x0002
write_mask group = 0x0010
write_mask other = 0x0080

unfoldable pub execute_mask : Group → ℕ
execute_mask user = 0x0004
execute_mask group = 0x0020
execute_mask other = 0x0100

-- `!mask` of a `u16` is `2 ^ 16 - 1 - mask`.
unfoldable pub update_mask : Bool → ℕ → Mode → Mode
update_mask enable mask m = if enable then bit_or m mask else bit_and m (0xffff - mask)

unfoldable pub can_read : Mode → Group → Bool
unfolding read_mask
can_read m g = ltb 0 (bit_and m (read_mask g))

unfoldable pub can_write : Mode → Group → Bool
unfolding write_mask
can_write m g = ltb 0 (bit_and m (write_mask g))

unfoldable pub can_execute : Mode → Group → Bool
unfolding execute_mask
can_execute m g = ltb 0 (bit_and m (execute_mask g))

unfoldable pub set_readable : Group → Bool → Mode → Mode
unfolding read_mask update_mask
set_readable g readable m = update_mask readable (read_mask g) m

unfoldable pub set_writable : Group → Bool → Mode → Mode
unfolding write_mask update_mask
set_writable g writable m = update_mask writable (write_mask g) m

unfoldable pub set_executable : Group → Bool → Mode → Mode
unfolding execute_mask update_mask
set_executable g executable m = update_mask executable (execute_mask g) m
