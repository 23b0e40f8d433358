-- ===== src/Storage/Metadata.antt =====
-- crates/unftp-sbe-fs/src/lib.rs: what the operating system tells of a file, and what a listing takes
-- of it on Unix.
use libunftp.Prelude.{ℕ, Bytes, Bool, true, false, Option, none, some}
use libunftp.Std.FilePath.{FilePath}
use libunftp.Std.Utf8.{from_utf8, from_utf8_lossy}
use libunftp.Storage.{Fileinfo}

pub data FileKind : Type 0 where
  file dir symlink special : FileKind

-- `cap_std::fs::Metadata`.
pub record Inner : Type 0 where
  pub kind : FileKind
  pub permissions : ℕ
  pub links : ℕ
  pub uid : ℕ
  pub gid : ℕ
  pub len : ℕ
  pub modified : Option Bytes

pub record Meta : Type 0 where
  pub inner : Inner
  pub target : Option FilePath

unfoldable pub is_dir : FileKind → Bool
is_dir dir = true
is_dir _ = false

unfoldable pub is_symlink : FileKind → Bool
is_symlink symlink = true
is_symlink _ = false

readlink : Option FilePath → Option Bytes
readlink none = none
readlink (some target) = some (from_utf8_lossy target)

-- An entry of a directory, whose path is its name.
unfoldable pub entry_of : (name : Bytes) → Meta → Fileinfo
unfolding is_dir is_symlink readlink
entry_of name meta = record {
  basename = some (from_utf8_lossy name);
  file_name = from_utf8 name;
  is_dir = is_dir meta.inner.kind;
  is_symlink = is_symlink meta.inner.kind;
  readlink = readlink meta.target;
  permissions = meta.inner.permissions;
  links = meta.inner.links;
  uid = meta.inner.uid;
  gid = meta.inner.gid;
  len = meta.inner.len;
  modified = meta.inner.modified;
}
