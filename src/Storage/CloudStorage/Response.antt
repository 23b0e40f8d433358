-- ===== src/Storage/CloudStorage/Response.antt =====
-- crates/unftp-sbe-gcs/src/response_body.rs and object_metadata.rs: what Google Cloud Storage answers,
-- and what a listing makes of it. Times are numbers; the clock and base64 are parameters.
pub mod Once
pub mod Empty
use libunftp.Prelude.{
  ℕ, ◌+◌, ◌-◌, ◌/◌, ◌%◌, Bytes, Bool, true, false, not, ◌||◌, Option, none, some, List, [], ◌∷◌,
  ◌++◌, bytes_eq, ltb, if◌then◌else◌,
}
use libunftp.Prelude.Result.{Result, ok, err}
use libunftp.Std.FilePath.{FilePath, ends_with_separator}
use libunftp.Server.Messages.{local_error}
use libunftp.Storage.{Error}

pub record Item : Type 0 where
  pub name : Bytes
  pub updated : ℕ
  pub size : ℕ
  pub md5_hash : Bytes

pub record ResponseBody : Type 0 where
  pub items : Option (List Item)
  pub prefixes : Option (List Bytes)
  pub next_page_token : Option Bytes

pub record ObjectMetadata : Type 0 where
  pub last_updated : ℕ
  pub is_file : Bool
  pub size : ℕ

-- `Fileinfo<PathBuf, ObjectMetadata>`.
pub record ObjectInfo : Type 0 where
  pub path : FilePath
  pub metadata : ObjectMetadata

abbrev pub to_metadata : Item → ObjectMetadata
unfolding ends_with_separator
to_metadata item = record {
  last_updated = item.updated;
  is_file = not (ends_with_separator item.name);
  size = item.size;
}

abbrev pub to_file_info : Item → ObjectInfo
to_file_info item = record { path = item.name; metadata = to_metadata item }

-- `Vec::contains`, and `any` item of a name.
unfoldable pub contains : List Bytes → Bytes → Bool
contains [] name = false
contains (p ∷ ps) name = bytes_eq p name || contains ps name

unfoldable pub any_named : Bytes → List Item → Bool
any_named name [] = false
any_named name (item ∷ items) = bytes_eq item.name name || any_named name items

-- Of the directories among the items only those that are prefixes, too.
pub filtered : List Bytes → List Item → List ObjectInfo
unfolding contains
filtered ps [] = []
filtered ps (item ∷ items) =
    let rest = filtered ps items in
    if not (ends_with_separator item.name) || contains ps item.name
    then to_file_info item ∷ rest
    else rest

files : List Item → List ObjectInfo
files [] = []
files (item ∷ items) =
    let rest = files items in
    if not (ends_with_separator item.name) then to_file_info item ∷ rest else rest

items_of : Option (List Item) → Option (List Bytes) → List ObjectInfo
unfolding filtered files
items_of (some items) (some ps) = filtered ps items
items_of (some items) none = files items
items_of none prefixes = []

has_object : Option (List Item) → Bytes → Bool
unfolding any_named
has_object none prefix = false
has_object (some items) prefix = any_named prefix items

abbrev pub directory : (now : ℕ) → Bytes → ObjectInfo
directory now prefix = record {
  path = prefix;
  metadata = record { last_updated = now; is_file = false; size = 0 };
}

without_object : (now : ℕ) → Option (List Item) → List Bytes → List ObjectInfo
unfolding has_object
without_object now items [] = []
without_object now items (prefix ∷ ps) =
    let rest = without_object now items ps in
    if not (has_object items prefix) then directory now prefix ∷ rest else rest

prefixes_without_object : (now : ℕ) → Option (List Item) → Option (List Bytes) → List ObjectInfo
unfolding without_object
prefixes_without_object now items none = []
prefixes_without_object now items (some ps) = without_object now items ps

-- `ResponseBody::list`: the directories without an object of their own, and then the items.
unfoldable pub list : (now : ℕ) → ResponseBody → List ObjectInfo
unfolding items_of prefixes_without_object
list now r = prefixes_without_object now r.items r.prefixes ++ items_of r.items r.prefixes

abbrev is_some {ℓ} : {A : Type ℓ} → Option A → Bool
is_some none = false
is_some (some a) = true

unfoldable pub dir_exists : ResponseBody → Bool
dir_exists r = is_some r.items || is_some r.prefixes

-- One item, which is a directory.
only_directory : List Item → Bool
unfolding ends_with_separator
only_directory (item ∷ []) = ends_with_separator item.name
only_directory _ = false

empty_of : (token : Option Bytes) → Option (List Bytes) → Option (List Item) → Bool
unfolding only_directory
empty_of (some token) prefixes items = false
empty_of none (some ps) items = false
empty_of none none (some items) = only_directory items
empty_of none none none = false

unfoldable pub dir_empty : ResponseBody → Bool
unfolding empty_of
dir_empty r = empty_of r.next_page_token r.prefixes r.items

hex_digit : ℕ → ℕ
hex_digit n = if ltb n 10 then b'0' + n else b'a' + n - 10

hex : Bytes → Bytes
unfolding hex_digit
hex [] = []
hex (b ∷ bytes) = hex_digit (b / 16) ∷ hex_digit (b % 16) ∷ hex bytes

decoded : Option Bytes → Result Error Bytes
unfolding hex
decoded none = err (record { kind = local_error; io = none })
decoded (some md5) = ok (hex md5)

unfoldable pub to_md5 : (base64 : Bytes → Option Bytes) → Item → Result Error Bytes
unfolding decoded
to_md5 base64 item = decoded (base64 item.md5_hash)
