-- ===== src/Storage.antt =====
-- src/storage/storage_backend.rs and src/storage/error.rs: the errors of a storage back-end, and how
-- its entries are listed. The texts of times come from elsewhere, and are parameters.
pub mod Errors
pub mod Listing
pub mod Filesystem
pub mod Metadata
pub mod CloudStorage
pub mod Tests
use Prim.Native.Nat.{bit_and}
use libunftp.Prelude.{
  ℕ, zero, suc, ◌-◌, Bytes, Bool, true, false, Option, none, some, List, [], ◌∷◌, ◌++◌, text,
  length, ltb, if◌then◌else◌,
}
use libunftp.Prelude.Result.{Result, ok, err, ◌>>=◌}
use libunftp.LineParser.Eol.{cr, lf}
use libunftp.Std.Decimal.{print_uint}
use libunftp.Server.Messages.{
  ErrorKind, permanent_file_not_available, permanent_directory_not_available,
  permanent_directory_not_empty, permission_refused, insufficient_storage_space_error,
  connection_closed, local_error,
}

-- `std::io::ErrorKind`, as far as it is told apart.
pub data IoErrorKind : Type 0 where
  not_found already_exists permission_denied : IoErrorKind
  broken_pipe connection_reset connection_aborted other : IoErrorKind

-- The numbers of the operating system, as Linux has them.
pub data Errno : Type 0 where
  enotempty enotdir eisdir efbig espipe enametoolong eloop enospc erofs other_errno : Errno

pub record IoError : Type 0 where
  pub kind : IoErrorKind
  pub raw_os_error : Option Errno

-- `storage::Error`: its kind, and the I/O error behind it.
pub record Error : Type 0 where
  pub kind : ErrorKind
  pub io : Option IoErrorKind

connection_kind : IoErrorKind → ErrorKind
connection_kind connection_reset = connection_closed
connection_kind broken_pipe = connection_closed
connection_kind connection_aborted = connection_closed
connection_kind _ = local_error

raw_kind : IoErrorKind → Option Errno → ErrorKind
unfolding connection_kind
raw_kind kind (some enotempty) = permanent_directory_not_empty
raw_kind kind (some enotdir) = permanent_directory_not_available
raw_kind kind (some eisdir) = permanent_file_not_available
raw_kind kind (some efbig) = permanent_file_not_available
raw_kind kind (some espipe) = permanent_file_not_available
raw_kind kind (some enametoolong) = permanent_file_not_available
raw_kind kind (some eloop) = permanent_file_not_available
raw_kind kind (some enospc) = insufficient_storage_space_error
raw_kind kind (some erofs) = permission_refused
raw_kind kind _ = connection_kind kind

error_kind : IoErrorKind → Option Errno → ErrorKind
unfolding raw_kind
error_kind not_found raw = permanent_file_not_available
error_kind already_exists raw = permanent_file_not_available
error_kind permission_denied raw = permission_refused
error_kind kind raw = raw_kind kind raw

-- `Error::from` of an I/O error.
unfoldable pub from_io : IoError → Error
unfolding error_kind
from_io e = record { kind = error_kind e.kind e.raw_os_error; io = some e.kind }

-- `Permissions`, whose masks are those of the source.
bit_char : ℕ → ℕ → ℕ → ℕ → ℕ
bit_char mode class perm c = if ltb 0 (bit_and (bit_and mode class) perm) then c else b'-'

class_chars : ℕ → ℕ → Bytes
unfolding bit_char
class_chars mode class =
    bit_char mode class 0b100100100 b'r'
    ∷ bit_char mode class 0b010010010 b'w'
    ∷ bit_char mode class 0b001001001 b'x'
    ∷ []

unfoldable pub show_permissions : ℕ → Bytes
unfolding class_chars
show_permissions mode =
    class_chars mode 0b111000000 ++ (class_chars mode 0b000111000 ++ class_chars mode 0b000000111)

-- What a listing shows of an entry: the last component of its path, if it has one, and its file name.
-- The time of the last change is that of the text, if it is known.
pub record Fileinfo : Type 0 where
  pub basename : Option Bytes
  pub file_name : Option Bytes
  pub is_dir : Bool
  pub is_symlink : Bool
  pub readlink : Option Bytes
  pub permissions : ℕ
  pub links : ℕ
  pub uid : ℕ
  pub gid : ℕ
  pub len : ℕ
  pub modified : Option Bytes

blanks : ℕ → Bytes
blanks zero = []
blanks (suc n) = b' ' ∷ blanks n

-- `{:>w}`: at least of the width, filled up on the left.
unfoldable pub right_aligned : ℕ → Bytes → Bytes
unfolding blanks
right_aligned width bytes = blanks (width - length bytes) ++ bytes

link_target : Bool → Option Bytes → Bytes
link_target true (some target) = text " -> " ++ target
link_target _ _ = []

file_type : Fileinfo → ℕ
file_type f = if f.is_dir then b'd' else if f.is_symlink then b'l' else b'-'

modified_text : Option Bytes → Bytes
modified_text none = text "--- -- --:--"
modified_text (some t) = t

line_of : Fileinfo → Option Bytes → Option Bytes
unfolding link_target file_type modified_text show_permissions right_aligned
line_of f none = none
line_of f (some path) = some (
    file_type f
    ∷ (show_permissions f.permissions
        ++ (b' '
            ∷ (right_aligned 12 (print_uint f.links)
                ++ (b' '
                    ∷ (right_aligned 12 (print_uint f.uid)
                        ++ (b' '
                            ∷ (right_aligned 12 (print_uint f.gid)
                                ++ (b' '
                                    ∷ (right_aligned 14 (print_uint f.len)
                                        ++ (b' '
                                            ∷ (right_aligned 12 (modified_text f.modified)
                                                ++ (b' '
                                                    ∷ (path
                                                        ++ link_target f.is_symlink
                                                            f.readlink))))))))))))))

-- `Fileinfo::fmt`, which fails for a path without components.
unfoldable pub show_fileinfo : Fileinfo → Option Bytes
unfolding line_of
show_fileinfo f = line_of f f.basename

-- A line that cannot be written leaves the text as it is.
written : Option Bytes → Bytes
written none = []
written (some line) = line ++ (cr ∷ lf ∷ [])

list_lines : List Fileinfo → Bytes
unfolding written
list_lines [] = []
list_lines (f ∷ fs) = written (show_fileinfo f) ++ list_lines fs

-- `list_fmt`, of what `list` answers.
unfoldable pub list_fmt : Result Error (List Fileinfo) → Result Error Bytes
unfolding list_lines
list_fmt list = list >>= λ fs. ok (list_lines fs)

unfoldable pub name_of : Option Bytes → Bytes
name_of none = []
name_of (some name) = name

unfoldable pub nlst_lines : List Fileinfo → Bytes
unfolding name_of
nlst_lines [] = []
nlst_lines (f ∷ fs) = name_of f.file_name ++ (cr ∷ (lf ∷ nlst_lines fs))

-- `nlst`: whatever the error of `list` is, it is another I/O error.
nlst_result : Result Error (List Fileinfo) → Result IoErrorKind Bytes
nlst_result (ok fs) = ok (nlst_lines fs)
nlst_result (err e) = err other

unfoldable pub nlst : Result Error (List Fileinfo) → Result IoErrorKind Bytes
unfolding nlst_result
nlst list = nlst_result list

-- `list_vec`: `to_string` panics where the entry cannot be shown.
pub data Shown : Type 0 where
  shown : List Bytes → Shown
  panicked : Shown

and_shown : Option Bytes → Shown → Shown
and_shown (some line) (shown lines) = shown (line ∷ lines)
and_shown _ _ = panicked

unfoldable pub list_vec : List Fileinfo → Shown
unfolding and_shown
list_vec [] = shown []
list_vec (f ∷ fs) = and_shown (show_fileinfo f) (list_vec fs)
