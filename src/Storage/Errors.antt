-- ===== src/Storage/Errors.antt =====
-- The reply to an I/O error of a storage back-end.
use mathlib.Core.Bool.{true≢false}
use libunftp.Prelude.{ℕ, ◌/◌, ◌≡◌, refl, if◌then◌else◌, Bool, true, false, ◌||◌, Option, none, some}
use libunftp.Reply.{code_and_msg, code_number}
use libunftp.Server.Session.{Session}
use libunftp.Server.Messages.{ErrorKind, storage_error}
use libunftp.Server.Handled.{Outcome, done}
use libunftp.Server.Internal.{storage_reply, handle_internal_msg}
use libunftp.Storage.{
  IoErrorKind, not_found, already_exists, permission_denied, broken_pipe, connection_reset,
  connection_aborted, other, Errno, enotempty, enotdir, eisdir, efbig, espipe, enametoolong, eloop,
  enospc, erofs, other_errno, IoError, connection_kind, raw_kind, error_kind, from_io,
}

-- The errors that a client need not try again.
abbrev pub is_permanent_kind : IoErrorKind → Bool
is_permanent_kind not_found = true
is_permanent_kind already_exists = true
is_permanent_kind permission_denied = true
is_permanent_kind _ = false

abbrev pub is_permanent_errno : Option Errno → Bool
is_permanent_errno none = false
is_permanent_errno (some enospc) = false
is_permanent_errno (some other_errno) = false
is_permanent_errno (some _) = true

abbrev pub is_permanent : IoError → Bool
is_permanent e = is_permanent_kind e.kind || is_permanent_errno e.raw_os_error

-- The first digit of a reply's code.
abbrev pub reply_class : Outcome → ℕ
reply_class (done (code_and_msg code msg)) = code_number code / 100
reply_class _ = 0

module _ {User : Type 0} (s : Session User) where
  abbrev class_of : ErrorKind → ℕ
  class_of kind = reply_class (storage_reply kind s).outcome

  connection_kind-class :
      (kind : IoErrorKind) → is_permanent_kind kind ≡ false → class_of (connection_kind kind) ≡ 4
  unfolding connection_kind storage_reply code_number
  connection_kind-class not_found h = absurd (true≢false h)
  connection_kind-class already_exists h = absurd (true≢false h)
  connection_kind-class permission_denied h = absurd (true≢false h)
  connection_kind-class broken_pipe h = refl
  connection_kind-class connection_reset h = refl
  connection_kind-class connection_aborted h = refl
  connection_kind-class other h = refl

  raw_kind-class :
      (kind : IoErrorKind) (raw : Option Errno)
      → is_permanent_kind kind ≡ false
      → class_of (raw_kind kind raw) ≡ (if is_permanent_errno raw then 5 else 4)
  unfolding raw_kind storage_reply code_number
  raw_kind-class kind none h = connection_kind-class kind h
  raw_kind-class kind (some other_errno) h = connection_kind-class kind h
  raw_kind-class kind (some enotempty) h = refl
  raw_kind-class kind (some enotdir) h = refl
  raw_kind-class kind (some eisdir) h = refl
  raw_kind-class kind (some efbig) h = refl
  raw_kind-class kind (some espipe) h = refl
  raw_kind-class kind (some enametoolong) h = refl
  raw_kind-class kind (some eloop) h = refl
  raw_kind-class kind (some enospc) h = refl
  raw_kind-class kind (some erofs) h = refl

  error_kind-class :
      (kind : IoErrorKind) (raw : Option Errno)
      → class_of (error_kind kind raw)
        ≡ (if is_permanent_kind kind || is_permanent_errno raw then 5 else 4)
  unfolding error_kind storage_reply code_number
  error_kind-class not_found raw = refl
  error_kind-class already_exists raw = refl
  error_kind-class permission_denied raw = refl
  error_kind-class broken_pipe raw = raw_kind-class broken_pipe raw refl
  error_kind-class connection_reset raw = raw_kind-class connection_reset raw refl
  error_kind-class connection_aborted raw = raw_kind-class connection_aborted raw refl
  error_kind-class other raw = raw_kind-class other raw refl

  -- An I/O error of a storage back-end is answered with a code of the permanent class, 5yz, where
  -- nothing is at the path or something is there already, where access is denied, and for a directory
  -- that is not empty, a path of the wrong type, a file that is too large or cannot be positioned, a
  -- name that is too long, too many links and a read-only file system. Any other one, a full disk
  -- included, is answered with one of the transient class, 4yz.
  pub from_io-class :
      (e : IoError)
      → reply_class (handle_internal_msg (storage_error (from_io e).kind) s).outcome
        ≡ (if is_permanent e then 5 else 4)
  unfolding handle_internal_msg from_io
  from_io-class e = error_kind-class e.kind e.raw_os_error
