-- ===== src/Storage/Tests.antt =====
-- Listings, errors and files of a storage back-end.
use libunftp.Prelude.{Bytes, ◌≡◌, ◌≢◌, refl, true, false, none, some, [], ◌∷◌, ◌++◌, text, length}
use libunftp.Prelude.Result.{err, ok}
use libunftp.Std.FilePath.{is_absolute}
use libunftp.Std.Decimal.{print_uint}
use libunftp.Std.Utf8.{from_utf8, from_utf8_lossy}
use libunftp.Storage.{
  other, from_io, enospc, IoError, show_permissions, Fileinfo, show_fileinfo, Shown, list_vec,
}
use libunftp.Storage.Filesystem.{Dir, done, strip_prefixes, strip_root, get, put, list}
use libunftp.Storage.Metadata.{file, Inner}
use libunftp.Storage.Filesystem.Paths.{strip_prefixes-relative}
use libunftp.Storage.Filesystem.Resuming.{Works, Spares, put-resumed}

abbrev entry : Bytes → Fileinfo
entry name = record {
  basename = some name;
  file_name = some name;
  is_dir = false;
  is_symlink = false;
  readlink = none;
  permissions = 0b110100100;
  links = 1;
  uid = 0;
  gid = 0;
  len = 3;
  modified = none;
}

show_permissions_644 : show_permissions 0b110100100 ≡ text "rw-r--r--"
unfolding show_permissions text
show_permissions_644 = refl

show_fileinfo-entry :
    show_fileinfo (entry (text "a"))
    ≡ some (text "-rw-r--r--            1            0            0              3 --- -- --:-- a")
unfolding show_fileinfo show_permissions text print_uint
show_fileinfo-entry = refl

-- An entry whose path has no components: its text is left out of LIST, but STAT panics.
list_vec_rootless : list_vec (record (entry (text "a")) { basename = none } ∷ []) ≡ Shown.panicked
unfolding list_vec show_fileinfo
list_vec_rootless = refl

abbrev full : IoError
full = record { kind = other; raw_os_error = some enospc }

strip_prefixes-relative_example :
    (is_absolute (strip_prefixes (text "//./")) ≡ false)
    × ((is_absolute (strip_root (text "//./")) ≡ false)
        × (is_absolute (text "//./") ≡ true → strip_prefixes (text "//./") ≢ []))
strip_prefixes-relative_example = strip_prefixes-relative (text "//./")

strip_prefixes_twice : strip_prefixes (text "//a/b/") ≡ text "a/b"
unfolding strip_prefixes is_absolute text
strip_prefixes_twice = refl

abbrev plain : Inner
plain = record {
  kind = file;
  permissions = 0b110100100;
  links = 1;
  uid = 0;
  gid = 0;
  len = 3;
  modified = none;
}

abbrev os : Dir
os = record {
  file_of = λ p. p;
  refuses = λ p. none;
  refuses_write = λ p. none;
  set_len_fails = λ p len. none;
  seek_fails = λ p pos. none;
  copy_fails = λ p bytes. none;
  symlink_metadata = λ p. ok plain;
  read_link_contents = λ p. none;
  rename = λ p q. ok done;
  remove_file = λ p. ok done;
  remove_dir = λ p. ok done;
  create_dir = λ p. ok done;
  read_dir = λ p. ok (text "a") ∷ [];
}

os-Works : Works os (text "/a")
os-Works = record {
  reads = refl;
  writes = refl;
  resizes = λ len. refl;
  seeks = λ pos. refl;
  copies = λ bytes. refl;
}

put-resumed_example :
    let first = (put os [] (text "/a") 0 (text "abc")).0 in
    let last = (put os first (text "/a") (length (text "abc")) (text "de")).0 in
    ((put os [] (text "/a") 0 (text "abc")).1 ≡ ok (length (text "abc")))
    × (((put os first (text "/a") (length (text "abc")) (text "de")).1 ≡ ok (length (text "de")))
        × ((get os last (text "/a") 0 ≡ ok (text "abc" ++ text "de"))
            × ((get os last (text "/a") (length (text "abc")) ≡ ok (text "de"))
                × Spares os [] (text "/a") last)))
put-resumed_example = put-resumed os [] (text "/a") (text "abc") (text "de") os-Works

-- A copy that breaks off after one byte leaves the file with that byte.
put_broken :
    put
      (record os { copy_fails = λ p bytes. some (1, record { kind = other; raw_os_error = none }) })
      []
      (text "/a")
      0
      (text "abc")
    ≡ ((text "a", text "a") ∷ [], err (from_io (record { kind = other; raw_os_error = none })))
unfolding put libunftp.Std.HashMap.insert libunftp.Std.HashMap.get libunftp.Std.FilePath.is_absolute
    strip_prefixes text
put_broken = refl

list-root : list os (text "/") ≡ ok (entry (text "a") ∷ [])
unfolding list strip_prefixes from_utf8 from_utf8_lossy text
list-root = refl
