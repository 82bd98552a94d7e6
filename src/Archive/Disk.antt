-- ===== src/Archive/Disk.antt =====
-- The file system as src/engineering_memory/archive/local.py sees it: the archive's root, the
-- directory of the version in it, and the files there.
use hermes_memory.Base.{
  Bool, true, false, ◌||◌, none, some, [], Str, Str-discrete, if◌then◌else◌, ok, err, Dict, lookup,
}
use hermes_memory.Archive.{
  Attempt, Bytes, Raised, boundary_error, os_error, archive_rejected, archive_unavailable,
  redirected_directory, root_not_directory, version_not_directory,
}

-- A file can be read, or is a symbolic link or junction, or reading it raises an OSError.
pub data File : Type 0 where
  contents : Bytes → File
  redirect unreadable : File

pub data Place (A : Type 0) : Type 0 where
  absent not_directory : Place A
  directory : A → Place A

pub record Disk : Type 0 where
  pub root_redirected : Bool
  pub version_redirected : Bool
  pub root : Place Unit
  pub version : Place (Dict Str File)

-- Which calls of the operating system raise an OSError during one operation.
pub record Faults : Type 0 where
  pub at_check : Bool
  pub at_parents : Bool
  pub at_root : Bool
  pub at_root_sync : Bool
  pub at_version : Bool
  pub at_version_sync : Bool
  pub at_create : Bool
  pub at_write : Bool
  pub at_replace : Bool
  pub at_replace_sync : Bool
  pub at_unlink : Bool

abbrev pub files : Disk → Dict Str File
files d = elim d.version [ directory fs ↦ fs | absent ↦ [] | not_directory ↦ [] ]

abbrev pub with_files : Disk → Dict Str File → Disk
with_files d fs = record d { version = directory fs }

-- `_redirected` of a file.
unfoldable pub is_redirected : Disk → Str → Bool
is_redirected d name = elim (lookup Str-discrete name (files d)) [
  | some redirect ↦ true
  | some (contents b) ↦ false
  | some unreadable ↦ false
  | none ↦ false
]

-- `_check_directory`
unfoldable pub check_directory : Faults → Disk → Attempt Unit
check_directory f d =
    if f.at_check
    then err os_error
    else if d.root_redirected || d.version_redirected
    then err (boundary_error (archive_rejected redirected_directory none))
    else elim d.root [
      | not_directory ↦ err (boundary_error (archive_unavailable root_not_directory none))
      | absent ↦ version_place d.version
      | directory _ ↦ version_place d.version
    ]
  where
    version_place : Place (Dict Str File) → Attempt Unit
    version_place absent = ok tt
    version_place not_directory =
        err (boundary_error (archive_unavailable version_not_directory none))
    version_place (directory _) = ok tt

-- `_mkdir` of the root and of the directories above it, then the `fsync` of its parent.
unfoldable pub make_root : Faults → Disk → Attempt Unit × Disk
make_root f d = elim d.root [
  | directory _ ↦ (ok tt, d)
  | not_directory ↦ (err os_error, d)
  | absent ↦
      if f.at_parents || f.at_root
      then (err os_error, d)
      else (if f.at_root_sync then err os_error else ok tt, record d { root = directory tt })
]

make_version : Faults → Attempt Unit × Disk → Attempt Unit × Disk
make_version f (err e, d) = (err e, d)
make_version f (ok _, d) =
    if f.at_version
    then (err os_error, d)
    else (if f.at_version_sync then err os_error else ok tt, with_files d [])

-- `_mkdir(self._directory)`
unfoldable pub make_directory : Faults → Disk → Attempt Unit × Disk
unfolding make_root make_version
make_directory f d = elim d.version [
  | directory _ ↦ (ok tt, d)
  | not_directory ↦ (err os_error, d)
  | absent ↦ make_version f (make_root f d)
]

-- `path.read_bytes()`
unfoldable pub read_bytes : Disk → Str → Attempt Bytes
read_bytes d name = elim (lookup Str-discrete name (files d)) [
  | some (contents b) ↦ ok b
  | some redirect ↦ err os_error
  | some unreadable ↦ err os_error
  | none ↦ err Raised.file_not_found
]
