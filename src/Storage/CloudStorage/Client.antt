-- ===== src/Storage/CloudStorage/Client.antt =====
-- crates/unftp-sbe-gcs/src/gcs_client.rs: the requests. The crates for percent encoding, URIs and JSON,
-- the service, and the token of a request are parameters; what a body holds is a list of bytes.
pub mod Removal
use mathlib.Core.List.{reverse}
use libunftp.Prelude.{
  ℕ, Bytes, Bool, true, false, not, ◌&&◌, Option, none, some, List, [], ◌∷◌, ◌++◌, text, leb, ltb,
  ◌==◌, if◌then◌else◌, is_empty,
}
use libunftp.Prelude.Result.{Result, ok, err}
use libunftp.Std.FilePath.{FilePath, join}
use libunftp.Std.Decimal.{print_uint}
use libunftp.Std.Utf8.{is_utf8}
use libunftp.Auth.{starts_with}
use libunftp.Server.Messages.{
  ErrorKind, permanent_file_not_available, transient_file_not_available, permission_refused,
  local_error, file_name_not_allowed_error,
}
use libunftp.Storage.{Error}
use libunftp.Storage.Filesystem.{strip_root, Done, done}
use libunftp.Storage.CloudStorage.Response.{Item, ResponseBody}
use libunftp.Storage.CloudStorage.Requests.{get, post, delete, Request, Calls, ◌>>=◌, lift}

pub record GcsClient : Type 0 where
  pub base_url : Bytes
  pub bucket_name : Bytes
  pub root : FilePath

-- A request that cannot be built, one that no server takes, or the answer, whose body may break off.
pub data Answer : Type 0 where
  malformed unreachable : Answer
  answered : (status : ℕ) (body : Option Bytes) → Answer

pub record Cloud : Type 0 where
  pub percent_encode : Bytes → Bytes
  pub is_uri : Bytes → Bool
  pub token : Result Error Bytes
  pub send : (token : Bytes) → Request → Answer
  pub item_of_json : Bytes → Option Item
  pub response_of_json : Bytes → Option ResponseBody

pub data TrailingSlash : Type 0 where
  trim ensure as_is : TrailingSlash

abbrev pub of_kind : ErrorKind → Error
of_kind kind = record { kind = kind; io = none }

-- `GcsClient::new`.
unfoldable pub new : (base_url bucket_name : Bytes) (root : FilePath) → GcsClient
unfolding strip_root
new base_url bucket_name root = record {
  base_url = base_url;
  bucket_name = bucket_name;
  root = strip_root root;
}

-- A relative path without a parent has no component.
unfoldable pub path_is_root : FilePath → Bool
unfolding strip_root
path_is_root path = is_empty (strip_root path)

abbrev pub slash_urlencoded : Bytes
unfolding text
slash_urlencoded = text "%2F"

-- `str::trim_end_matches`, over the reversed text.
trim_slashes : Bytes → Bytes
trim_slashes (a ∷ b ∷ c ∷ rest) =
    let more = trim_slashes rest in
    if a == b'F' && (b == b'2' && c == b'%') then more else a ∷ b ∷ c ∷ rest
trim_slashes bytes = bytes

ends_with : Bytes → Bytes → Bool
unfolding starts_with
ends_with bytes suffix = starts_with (reverse suffix) (reverse bytes)

pub with_trailing : TrailingSlash → Bytes → Bytes
unfolding trim_slashes ends_with
with_trailing trim path = reverse (trim_slashes (reverse path))
with_trailing ensure path =
    if not (ends_with path slash_urlencoded) then path ++ slash_urlencoded else path
with_trailing as_is path = path

is_success : ℕ → Bool
is_success status = leb 200 status && ltb status 300

pub status_kind : ℕ → ErrorKind
status_kind status =
    if status == 404
    then permanent_file_not_available
    else if status == 401
    then permission_refused
    else if status == 403
    then permission_refused
    else if status == 429
    then transient_file_not_available
    else local_error

octet_stream : Bytes × Bytes
octet_stream = (text "content-type", text "application/octet-stream")

or_unavailable : {A : Type 0} → Option A → Result Error A
or_unavailable none = err (of_kind permanent_file_not_available)
or_unavailable (some a) = ok a

module _ (cloud : Cloud) (self : GcsClient) where
  unfoldable pub real_path : FilePath → FilePath
  unfolding strip_root
  real_path path = join self.root (strip_root path)

  pub encode_path : FilePath → TrailingSlash → Result Error Bytes
  unfolding with_trailing
  encode_path path slash =
      if is_utf8 path
      then ok (with_trailing slash (cloud.percent_encode path))
      else err (of_kind permanent_file_not_available)

  unfoldable pub path_str : FilePath → TrailingSlash → Result Error Bytes
  unfolding real_path encode_path
  path_str path slash = encode_path (real_path path) slash

  -- The URI of the object with an encoded name.
  abbrev pub object_uri : (name : Bytes) → Bytes
  object_uri name =
      self.base_url ++ (text "/storage/v1/b/" ++ (self.bucket_name ++ (text "/o/" ++ name)))

  make_uri : Bytes → Result Error Bytes
  make_uri uri = if cloud.is_uri uri then ok uri else err (of_kind file_name_not_allowed_error)

  of_answer : Answer → Result Error (Option Bytes)
  unfolding is_success status_kind
  of_answer malformed = err (of_kind permanent_file_not_available)
  of_answer unreachable = err (of_kind transient_file_not_available)
  of_answer (answered status body) =
      if not (is_success status) then err (of_kind (status_kind status)) else ok body

  -- A request is sent only with a token. One that cannot be built is listed, too.
  requested : Request → Bytes → Calls (Option Bytes)
  unfolding of_answer
  requested request token = record {
    requests = request ∷ [];
    result = of_answer (cloud.send token request);
  }

  pub http_raw : Request → Calls (Option Bytes)
  unfolding requested
  http_raw request = lift cloud.token >>= λ token. requested request token

  http_get_raw : (uri : Bytes) (headers : List (Bytes × Bytes)) → Calls (Option Bytes)
  unfolding http_raw
  http_get_raw uri headers =
      http_raw (record { method = get; uri = uri; body = []; headers = headers })

  http_post_raw : (uri body : Bytes) (headers : List (Bytes × Bytes)) → Calls (Option Bytes)
  unfolding http_raw
  http_post_raw uri body headers =
      http_raw (record { method = post; uri = uri; body = body; headers = headers })

  http_delete_raw : (uri : Bytes) → Calls (Option Bytes)
  unfolding http_raw
  http_delete_raw uri = http_raw (record { method = delete; uri = uri; body = []; headers = [] })

  deserialize : {A : Type 0} → (Bytes → Option A) → Option Bytes → Calls A
  unfolding or_unavailable
  deserialize of_json body = do
    bytes ← lift (or_unavailable body)
    lift (or_unavailable (of_json bytes))

  http_get : {A : Type 0} → (Bytes → Option A) → (uri : Bytes) → Calls A
  unfolding http_get_raw deserialize
  http_get of_json uri = http_get_raw uri [] >>= λ body. deserialize of_json body

  -- The URI of an object.
  object : FilePath → TrailingSlash → (query : Bytes) → Calls Bytes
  unfolding path_str make_uri
  object path slash query = do
    name ← lift (path_str path slash)
    lift (make_uri (object_uri (name ++ query)))

  upload_uri : FilePath → TrailingSlash → Calls Bytes
  unfolding path_str make_uri
  upload_uri path slash = do
    name ← lift (path_str path slash)
    lift (
        make_uri (
          self.base_url
          ++ (text "/upload/storage/v1/b/"
              ++ (self.bucket_name ++ (text "/o?uploadType=media&name=" ++ name)))))

  unfoldable pub item : FilePath → Calls Item
  unfolding object http_get
  item path = object path as_is [] >>= λ uri. http_get cloud.item_of_json uri

  -- The query of a listing: its fields, a page token or limit, and the prefix.
  query_uri : (fields page prefix : Bytes) → Calls Bytes
  unfolding make_uri
  query_uri fields page prefix = lift (
      make_uri (
        self.base_url
        ++ (text "/storage/v1/b/"
            ++ (self.bucket_name
                ++ (text "/o?prettyPrint=false&fields="
                    ++ (fields
                        ++ (text "&delimiter=/&includeTrailingDelimiter=true"
                            ++ (page ++ prefix))))))))

  page_token : Option Bytes → Bytes
  page_token none = []
  page_token (some token) = text "&pageToken=" ++ token

  prefix_param : (is_root : Bool) (prefix : Result Error Bytes) → Calls Bytes
  prefix_param true prefix = lift (ok [])
  prefix_param false prefix = lift prefix >>= λ p. lift (ok (text "&prefix=" ++ p))

  unfoldable pub list : FilePath → Option Bytes → Calls ResponseBody
  unfolding real_path encode_path path_is_root query_uri page_token prefix_param http_get
  list path token = do
    prefix ← prefix_param (path_is_root (real_path path)) (encode_path (real_path path) ensure)
    uri ←
        query_uri (text "kind,prefixes,items(id,name,size,updated),nextPageToken")
          (page_token token) prefix
    http_get cloud.response_of_json uri

  -- What is read is the body of the answer.
  unfoldable pub get_from : FilePath → (start_pos : ℕ) → Calls (Option Bytes)
  unfolding object http_get_raw
  get_from path start_pos = do
    uri ← object path as_is (text "?alt=media")
    http_get_raw uri ((text "range", text "bytes=" ++ (print_uint start_pos ++ text "-")) ∷ [])

  unfoldable pub upload : FilePath → Bytes → Calls Item
  unfolding upload_uri http_post_raw deserialize octet_stream
  upload path src = do
    uri ← upload_uri path trim
    body ← http_post_raw uri src (octet_stream ∷ [])
    deserialize cloud.item_of_json body

  unfoldable pub delete_object : FilePath → Calls Done
  unfolding object http_delete_raw
  delete_object path = do uri ← object path trim []; answer ← http_delete_raw uri; lift (ok done)

  unfoldable pub mkd : FilePath → Calls Done
  unfolding upload_uri http_post_raw octet_stream
  mkd path = do
    uri ← upload_uri path ensure
    answer ← http_post_raw uri [] (octet_stream ∷ (text "content-length", text "0") ∷ [])
    lift (ok done)

  unfoldable pub rmd : FilePath → Calls Done
  unfolding object http_delete_raw
  rmd path = do uri ← object path ensure []; answer ← http_delete_raw uri; lift (ok done)

  unfoldable pub dir_empty : FilePath → Calls ResponseBody
  unfolding path_is_root path_str prefix_param query_uri http_get
  dir_empty path = do
    prefix ← prefix_param (path_is_root path) (path_str path ensure)
    uri ←
        query_uri (text "prefixes,items(id,name,size,updated),nextPageToken") (text "&maxResults=2")
          prefix
    http_get cloud.response_of_json uri
