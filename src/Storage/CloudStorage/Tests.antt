-- ===== src/Storage/CloudStorage/Tests.antt =====
-- A bucket with the directories `a/`, which has an object, and `b/`, which has none, and two files.
use mathlib.Core.Path.{subst}
use libunftp.Prelude.{
  Bytes, ◌≡◌, refl, true, false, Option, none, some, List, [], ◌∷◌, text, bytes_eq, All, map, sym,
  ap, ◌∙◌, eq_of_bytes_eq, bytes_eq_refl, ◌==◌, ◌||◌, if◌then◌else◌, arith,
}
use libunftp.Prelude.Result.{Result, ok, err, ok-injective}
use libunftp.Std.FilePath.{join, is_absolute, ends_with_separator}
use libunftp.Std.Utf8.{is_utf8}
use libunftp.Auth.{starts_with}
use libunftp.Server.Messages.{permission_refused}
use libunftp.Storage.{Error}
use libunftp.Storage.CloudStorage.Response.{
  Item, ResponseBody, ObjectInfo, contains, any_named, dir_exists, dir_empty,
}
use libunftp.Storage.CloudStorage.Response.Once.{count, paths, IsPage}
use libunftp.Storage.CloudStorage.Requests.{Request}
use libunftp.Storage.CloudStorage.Client
use libunftp.Storage.CloudStorage.Client.{
  Cloud, GcsClient, Answer, answered, of_kind, path_str, ensure, object_uri, new,
}
use libunftp.Storage.CloudStorage.Tokens.{Issuer, workload_identity, token}
use libunftp.Storage.CloudStorage.{list_pages, rmd}
use libunftp.Storage.CloudStorage.Pages.{
  Pages, last, more, entries, children, list_pages-pages, list_pages-children,
}
use libunftp.Storage.CloudStorage.Removing.{Lists, RemovesEmpty, rmd-RemovesEmpty}

abbrev object : Bytes → Item
object name = record { name = name; updated = 7; size = 3; md5_hash = [] }

abbrev first_page : ResponseBody
first_page = record {
  items = some (object (text "a/") ∷ object (text "f") ∷ []);
  prefixes = some (text "a/" ∷ []);
  next_page_token = some (text "2");
}

abbrev second_page : ResponseBody
second_page = record {
  items = some (object (text "g") ∷ []);
  prefixes = some (text "b/" ∷ []);
  next_page_token = none;
}

abbrev ask : Option Bytes → Result Error ResponseBody
ask none = ok first_page
ask (some token) = ok second_page

abbrev two_pages : List ResponseBody
two_pages = first_page ∷ second_page ∷ []

asked : Pages ask none two_pages
asked = more first_page (text "2") refl refl (last second_page refl refl)

are_pages : All IsPage two_pages
unfolding text bytes_eq contains ends_with_separator
are_pages = (
  record { items_once = refl; prefixes_once = refl; prefixes_end = refl },
  (record { items_once = refl; prefixes_once = refl; prefixes_end = refl }, tt),
)

list_pages-pages_example : list_pages 9 ask 2 ≡ some (ok (entries 9 two_pages))
list_pages-pages_example = list_pages-pages 9 ask 2 asked (omega arith)

list_pages-children_example :
    (dirlist : List ObjectInfo) × ((list_pages 9 ask 2 ≡ some (ok dirlist))
      × ((name : Bytes) → count name (paths dirlist) ≡ children name two_pages))
list_pages-children_example = list_pages-children 9 ask 2 asked are_pages (omega arith)

abbrev gcs : GcsClient
gcs = record { base_url = text "http://gcs"; bucket_name = text "x"; root = [] }

-- Only the slash is encoded, and each answer is that of an empty directory.
abbrev encode : Bytes → Bytes
encode [] = []
encode (b ∷ bytes) = if b == b'/' then b'%' ∷ b'2' ∷ b'F' ∷ encode bytes else b ∷ encode bytes

abbrev empty_dir : ResponseBody
empty_dir = record {
  items = some (object (text "e/") ∷ []);
  prefixes = none;
  next_page_token = none;
}

abbrev cloud : Cloud
cloud = record {
  percent_encode = encode;
  is_uri = λ uri. true;
  token = ok (text "t");
  send = λ token request. answered 200 (some []);
  item_of_json = λ body. none;
  response_of_json = λ body. some empty_dir;
}

abbrev bucket : List Bytes
bucket = text "e/" ∷ text "f" ∷ []

named : path_str cloud gcs (text "/e") ensure ≡ ok (cloud.percent_encode (text "e/"))
unfolding path_str text is_utf8 join is_absolute starts_with
named = refl

answer : (Client.dir_empty cloud gcs (text "/e")).result ≡ ok empty_dir
unfolding Client.dir_empty text is_utf8 join is_absolute starts_with
answer = refl

other_file : (name : Bytes) → bytes_eq (text "f") name ≡ true → starts_with (text "e/") name ≡ false
unfolding text starts_with
other_file name e = ap (starts_with (text "e/")) (sym (eq_of_bytes_eq (text "f") name e))

empty_dir-Lists : Lists bucket (text "e/") empty_dir
unfolding contains any_named
empty_dir-Lists = record {
  complete = λ name last inside below. ground (arith, other_file name);
  delimited = λ name shown dir.
      subst (λ n. (bytes_eq n (text "e/") || false) ≡ true)
        (eq_of_bytes_eq (text "e/") name (ground arith))
        (ground (arith, bytes_eq_refl (text "e/")));
}

rmd-RemovesEmpty_example :
    All
      (RemovesEmpty bucket (text "e/") (object_uri cloud gcs (cloud.percent_encode (text "e/"))))
      (rmd cloud gcs (text "/e")).requests
rmd-RemovesEmpty_example = rmd-RemovesEmpty cloud gcs bucket (text "/e") (text "e/") named (λ r e.
    subst (Lists bucket (text "e/")) (ok-injective empty_dir r (sym answer ∙ e)) empty_dir-Lists)

-- The removal itself is sent.
removed :
    map (λ (r : Request). r.uri) (rmd cloud gcs (text "/e")).requests
    ≡ text
        "http://gcs/storage/v1/b/x/o?prettyPrint=false&fields=prefixes,items(id,name,size,updated),nextPageToken&delimiter=/&includeTrailingDelimiter=true&maxResults=2&prefix=e%2F"
      ∷ text "http://gcs/storage/v1/b/x/o/e%2F"
      ∷ []
unfolding rmd Client.dir_empty Client.rmd dir_exists dir_empty text is_utf8 join is_absolute
    starts_with ends_with_separator
removed = refl

abbrev issuer : Issuer
issuer = record {
  is_key = λ key. true;
  access_token = λ key. err (of_kind permission_refused);
  metadata_server = λ uri. some (some (text "new"));
  response_of_json =
      λ body. some (record { token_type = text "Bearer"; access_token = body; expires_in = 60 });
}

-- A token that ended four seconds ago is still given out.
token-late :
    (token issuer
      (workload_identity none)
      104
      (some (record { value = text "old"; expires_at = some 100 }))).0
    ≡ ok (text "old")
unfolding token
token-late = refl

token_fetched :
    token issuer (workload_identity none) 104 none
    ≡ (ok (text "new"), some (record { value = text "new"; expires_at = some 164 }))
unfolding token text
token_fetched = refl
