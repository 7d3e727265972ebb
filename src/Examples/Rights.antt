-- ===== src/Examples/Rights.antt =====
-- The theorems of the access rights at concrete values.
use nuts_archive.Prelude.{◌≡◌, true, false, if◌then◌else◌}
use nuts_archive.Error.{}
use nuts_archive.Platform.Memory.{memory}
use nuts_archive.Header.Codec.{}
use nuts_archive.Entry.Mode
use nuts_archive.Entry.Mode.Rights.{
  same_group, set_readable_lem, set_writable_lem, set_executable_lem,
}

-- The group loses the right of reading, which the others keep.
set_readable_lem_example :
    ((g : Mode.Group)
      → (Mode.can_read (Mode.set_readable Mode.group false Mode.file) g
          ≡ (if same_group Mode.group g then false else Mode.can_read Mode.file g))
        × (Mode.can_write (Mode.set_readable Mode.group false Mode.file) g
            ≡ Mode.can_write Mode.file g)
        × (Mode.can_execute (Mode.set_readable Mode.group false Mode.file) g
            ≡ Mode.can_execute Mode.file g))
    × (Mode.is_file (Mode.set_readable Mode.group false Mode.file) ≡ Mode.is_file Mode.file)
    × (Mode.is_directory (Mode.set_readable Mode.group false Mode.file)
        ≡ Mode.is_directory Mode.file)
    × (Mode.is_symlink (Mode.set_readable Mode.group false Mode.file) ≡ Mode.is_symlink Mode.file)
set_readable_lem_example = set_readable_lem Mode.group false Mode.file

set_writable_lem_example :
    ((g : Mode.Group)
      → (Mode.can_read (Mode.set_writable Mode.other true Mode.symlink) g
          ≡ Mode.can_read Mode.symlink g)
        × (Mode.can_write (Mode.set_writable Mode.other true Mode.symlink) g
            ≡ (if same_group Mode.other g then true else Mode.can_write Mode.symlink g))
        × (Mode.can_execute (Mode.set_writable Mode.other true Mode.symlink) g
            ≡ Mode.can_execute Mode.symlink g))
    × (Mode.is_file (Mode.set_writable Mode.other true Mode.symlink) ≡ Mode.is_file Mode.symlink)
    × (Mode.is_directory (Mode.set_writable Mode.other true Mode.symlink)
        ≡ Mode.is_directory Mode.symlink)
    × (Mode.is_symlink (Mode.set_writable Mode.other true Mode.symlink)
        ≡ Mode.is_symlink Mode.symlink)
set_writable_lem_example = set_writable_lem Mode.other true Mode.symlink

set_executable_lem_example :
    ((g : Mode.Group)
      → (Mode.can_read (Mode.set_executable Mode.user false Mode.directory) g
          ≡ Mode.can_read Mode.directory g)
        × (Mode.can_write (Mode.set_executable Mode.user false Mode.directory) g
            ≡ Mode.can_write Mode.directory g)
        × (Mode.can_execute (Mode.set_executable Mode.user false Mode.directory) g
            ≡ (if same_group Mode.user g then false else Mode.can_execute Mode.directory g)))
    × (Mode.is_file (Mode.set_executable Mode.user false Mode.directory)
        ≡ Mode.is_file Mode.directory)
    × (Mode.is_directory (Mode.set_executable Mode.user false Mode.directory)
        ≡ Mode.is_directory Mode.directory)
    × (Mode.is_symlink (Mode.set_executable Mode.user false Mode.directory)
        ≡ Mode.is_symlink Mode.directory)
set_executable_lem_example = set_executable_lem Mode.user false Mode.directory
