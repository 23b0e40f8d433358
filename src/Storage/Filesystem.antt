-- ===== src/Storage/Filesystem.antt =====
-- crates/unftp-sbe-fs/src/lib.rs: the back-end that keeps its files under one directory. The files are
-- a map whose keys stand for files, since several paths can lead to one; what the crate `cap_std` and
-- the system answer besides, such as the file of a path or that it cannot be opened, comes from the
-- environment. File contents are those of `std::fs::File`.
pub mod Paths
pub mod Resuming
use libunftp.Prelude.{
  ℕ, zero, suc, ◌+◌, ◌-◌, Bytes, Bool, true, false, ◌&&◌, ◌||◌, Option, none, some, List, [], ◌∷◌,
  ◌++◌, length, take, drop, ltb, ◌==◌, if◌then◌else◌, bytes_eq, text, is_empty,
}
use mathlib.Core.List.{reverse}
use libunftp.Prelude.Result.{Result, ok, err, ◌>>=◌}
use libunftp.Std.HashMap
use libunftp.Std.FilePath.{FilePath, is_absolute, join}
use libunftp.Storage.Metadata.{FileKind, file, dir, Inner, Meta, is_symlink, entry_of}
use libunftp.Server.Options.{feature_restart, feature_sitemd5}
use libunftp.Server.Messages.{ErrorKind, permanent_file_not_available}
use libunftp.Storage.{IoErrorKind, not_found, other, IoError, Error, from_io, Fileinfo}

-- `Path::strip_prefix` of the root: without the separators and the components `.` on both sides.
ends_component : Bytes → Bool
ends_component [] = true
ends_component (b ∷ bs) = b == b'/'

trim_left : Bytes → Bytes
unfolding ends_component
trim_left [] = []
trim_left (b ∷ bs) =
    let rest = trim_left bs in
    if b == b'/' || (b == b'.' && ends_component bs) then rest else b ∷ bs

trim_right : Bytes → Bytes
unfolding trim_left
trim_right bytes = reverse (trim_left (reverse bytes))

unfoldable pub strip_root : FilePath → FilePath
unfolding trim_left trim_right
strip_root path = if is_absolute path then trim_right (trim_left path) else path

-- The root itself is the path `.`.
unfoldable pub strip_prefixes : FilePath → FilePath
unfolding strip_root
strip_prefixes path =
    if is_absolute path && is_empty (strip_root path) then b'.' ∷ [] else strip_root path

-- `File::set_len`, which fills up with zeros, and what is written from a position on.
zeros : ℕ → Bytes
zeros zero = []
zeros (suc n) = 0 ∷ zeros n

set_len : ℕ → Bytes → Bytes
unfolding zeros
set_len n bytes = take n bytes ++ zeros (n - length bytes)

write_at : ℕ → Bytes → Bytes → Bytes
write_at pos bytes before = take pos before ++ (bytes ++ drop (pos + length bytes) before)

-- A file that was not there is created empty.
pub contents : Option Bytes → Bytes
contents none = []
contents (some bytes) = bytes

-- A file is known by its own path without links, or any other name that no other file has.
abbrev pub Files : Type 0
Files = List (Bytes × Bytes)

-- What an operation without a result of its own gives.
pub data Done : Type 0 where
  done : Done

-- What the operating system answers: the file that a path leads to, the errors of its opening for
-- reading and for writing, of `set_len`, of `seek`, and of the copy of an upload, which breaks off
-- after some of the bytes.
pub record Dir : Type 0 where
  pub file_of : FilePath → Bytes
  pub refuses : FilePath → Option IoError
  pub refuses_write : FilePath → Option IoError
  pub set_len_fails : FilePath → (len : ℕ) → Option IoError
  pub seek_fails : FilePath → (pos : ℕ) → Option IoError
  pub copy_fails : FilePath → Bytes → Option (ℕ × IoError)
  pub symlink_metadata : FilePath → Result IoError Inner
  pub read_link_contents : FilePath → Option FilePath
  pub rename : FilePath → FilePath → Result IoErrorKind Done
  pub remove_file : FilePath → Result IoError Done
  pub remove_dir : FilePath → Result IoError Done
  pub create_dir : FilePath → Result IoError Done
  pub read_dir : FilePath → List (Result IoError Bytes)

abbrev pub supported_features : ℕ
supported_features = feature_restart + feature_sitemd5

abbrev pub io_result {ℓ} : {A : Type ℓ} → Result IoError A → Result Error A
io_result (ok a) = ok a
io_result (err e) = err (from_io e)

module _ (os : Dir) where
  opened : Option Bytes → Result Error Bytes
  opened none = err (from_io (record { kind = not_found; raw_os_error = none }))
  opened (some bytes) = ok bytes

  allowed {ℓ} : {A : Type ℓ} → Option IoError → Result Error A → Result Error A
  allowed none result = result
  allowed (some e) result = err (from_io e)

  -- A seek only for a position that is not the start.
  sought : FilePath → (start_pos : ℕ) → Bytes → Result Error Bytes
  unfolding allowed
  sought p start_pos bytes =
      if ltb 0 start_pos
      then allowed (os.seek_fails p start_pos) (ok (drop start_pos bytes))
      else ok bytes

  unfoldable pub get : Files → FilePath → (start_pos : ℕ) → Result Error Bytes
  unfolding allowed opened sought
  get files path start_pos =
      let p = strip_prefixes path in
      allowed (os.refuses p)
        (opened (HashMap.get bytes_eq (os.file_of p) files) >>= λ bytes. sought p start_pos bytes)

  -- A node is what a path leads to, a file.
  store : (node content : Bytes) → Files → Files
  store node content files = HashMap.insert bytes_eq node content files

  copied :
      (node content : Bytes)
      → (start_pos : ℕ) → Bytes
      → Option (ℕ × IoError)
      → Files
      → Files × Result Error ℕ
  unfolding store write_at
  copied node content start_pos bytes none files =
      (store node (write_at start_pos bytes content) files, ok (length bytes))
  copied node content start_pos bytes (some (n, e)) files =
      (store node (write_at start_pos (take n bytes) content) files, err (from_io e))

  write_from :
      FilePath
      → (node content : Bytes) → (start_pos : ℕ) → Bytes
      → Option IoError
      → Files
      → Files × Result Error ℕ
  unfolding store copied
  write_from p node content start_pos bytes none files =
      copied node content start_pos bytes (os.copy_fails p bytes) files
  write_from p node content start_pos bytes (some e) files =
      (store node content files, err (from_io e))

  resized :
      FilePath
      → (node content : Bytes) → (start_pos : ℕ) → Bytes
      → Option IoError
      → Files
      → Files × Result Error ℕ
  unfolding store write_from set_len
  resized p node content start_pos bytes none files =
      write_from p node (set_len start_pos content) start_pos bytes (os.seek_fails p start_pos)
        files
  resized p node content start_pos bytes (some e) files =
      (store node content files, err (from_io e))

  created :
      FilePath
      → (node : Bytes) → (start_pos : ℕ) → Bytes
      → Option IoError
      → Files
      → Files × Result Error ℕ
  unfolding resized contents
  created p node start_pos bytes none files =
      resized p node (contents (HashMap.get bytes_eq node files)) start_pos bytes
        (os.set_len_fails p start_pos) files
  created p node start_pos bytes (some e) files = (files, err (from_io e))

  -- The files afterwards, those of an error too, and the number of bytes that were copied.
  unfoldable pub put : Files → FilePath → (start_pos : ℕ) → Bytes → Files × Result Error ℕ
  unfolding created
  put files path start_pos bytes =
      let p = strip_prefixes path in
      created p (os.file_of p) start_pos bytes (os.refuses_write p) files

  unfoldable pub del : FilePath → Result Error Done
  del path = io_result (os.remove_file (strip_prefixes path))

  unfoldable pub rmd : FilePath → Result Error Done
  rmd path = io_result (os.remove_dir (strip_prefixes path))

  unfoldable pub mkd : FilePath → Result Error Done
  mkd path = io_result (os.create_dir (strip_prefixes path))

  -- The target of a symbolic link, if it can be read.
  meta_of : FilePath → Inner → Meta
  unfolding is_symlink
  meta_of path inner = record {
    inner = inner;
    target = if is_symlink inner.kind then os.read_link_contents path else none;
  }

  gone : Option IoErrorKind → Error
  gone io = record { kind = permanent_file_not_available; io = io }

  found : FilePath → Result IoError Inner → Result Error Meta
  unfolding meta_of gone
  found path (err e) = err (gone none)
  found path (ok inner) = ok (meta_of path inner)

  unfoldable pub metadata : FilePath → Result Error Meta
  unfolding found
  metadata path = found (strip_prefixes path) (os.symlink_metadata (strip_prefixes path))

  listed : FilePath → Result IoError Bytes → Result IoError Fileinfo
  unfolding meta_of entry_of
  listed path dirent = do
    name ← dirent
    inner ← os.symlink_metadata (join path name)
    ok (entry_of name (meta_of (join path name) inner))

  -- The first entry that cannot be listed ends the listing.
  collect : FilePath → List (Result IoError Bytes) → Result IoError (List Fileinfo)
  unfolding listed
  collect path [] = ok []
  collect path (dirent ∷ dirents) = do
    f ← listed path dirent
    fs ← collect path dirents
    ok (f ∷ fs)

  unfoldable pub list : FilePath → Result Error (List Fileinfo)
  unfolding collect
  list path = io_result (collect (strip_prefixes path) (os.read_dir (strip_prefixes path)))

  unfoldable pub cwd : FilePath → Result Error Done
  unfolding list
  cwd path = list path >>= λ entries. ok done

  renamed : Result IoErrorKind Done → Result Error Done
  unfolding gone
  renamed (ok d) = ok done
  renamed (err e) = err (gone (some e))

  -- Only files and directories are renamed; the root is the empty path here.
  rename_kind : FilePath → FilePath → FileKind → Result Error Done
  unfolding renamed gone
  rename_kind from to file = renamed (os.rename from to)
  rename_kind from to dir = renamed (os.rename from to)
  rename_kind from to _ = err (gone none)

  rename_found : FilePath → FilePath → Result IoError Inner → Result Error Done
  unfolding rename_kind gone
  rename_found from to (err e) = err (gone (some e.kind))
  rename_found from to (ok inner) = rename_kind from to inner.kind

  unfoldable pub rename : FilePath → FilePath → Result Error Done
  unfolding rename_found strip_root
  rename from to =
      rename_found (strip_root from) (strip_root to) (os.symlink_metadata (strip_root from))
