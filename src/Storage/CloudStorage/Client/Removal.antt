-- ===== src/Storage/CloudStorage/Client/Removal.antt =====
-- Which requests of crates/unftp-sbe-gcs/src/gcs_client.rs remove an object.
use mathlib.Core.List.{append-nil}
use mathlib.Core.Path.{subst}
use libunftp.Storage.Filesystem.{done}
use mathlib.Core.Bool.{true≢false}
use libunftp.Prelude.{
  Bytes, ◌≡◌, ◌≢◌, sym, ap, ◌∙◌, Bool, true, false, Option, none, some, [], ◌++◌, All, arith, text,
}
use libunftp.Prelude.Result.{Result, ok, err}
use libunftp.Std.FilePath.{FilePath}
use libunftp.Storage.{Error}
use libunftp.Storage.CloudStorage.Requests.{
  Method, get, delete, Request, Calls, ◌>>=◌, lift, bind-requests,
}
use libunftp.Storage.CloudStorage.Client.{
  Cloud, GcsClient, ensure, path_is_root, path_str, object_uri, make_uri, object, http_raw,
  http_delete_raw, http_get_raw, http_get, deserialize, prefix_param, query_uri, rmd, dir_empty,
}

-- A request that removes nothing, or nothing but what is at a URI.
abbrev pub IsQuiet : Request → Type 0
IsQuiet r = r.method ≢ delete

abbrev pub RemovesOnly : (uri : Bytes) → Request → Type 0
RemovesOnly uri r = r.method ≡ delete → r.uri ≡ uri

abbrev is_get : Method → Bool
is_get get = true
is_get _ = false

get-ne-delete : get ≢ delete
get-ne-delete e = true≢false (ap is_get e)

module _ (cloud : Cloud) (self : GcsClient) where
  raw-requests :
      (P : Request → Type 0) (request : Request)
      → P request
      → All P (http_raw cloud self request).requests
  unfolding http_raw
  raw-requests P request h = bind-requests P (lift cloud.token) _ tt (λ token e. (h, tt))

  deserialize-requests :
      {A : Type 0} (P : Request → Type 0) (of_json : Bytes → Option A) (body : Option Bytes)
      → All P (deserialize cloud self of_json body).requests
  unfolding deserialize
  deserialize-requests P of_json none = tt
  deserialize-requests P of_json (some bytes) = tt

  get-requests :
      {A : Type 0} (of_json : Bytes → Option A) (uri : Bytes)
      → All IsQuiet (http_get cloud self of_json uri).requests
  unfolding http_get http_get_raw
  get-requests of_json uri =
      bind-requests IsQuiet (http_get_raw cloud self uri []) _
        (raw-requests IsQuiet _ get-ne-delete) (λ body e. deserialize-requests IsQuiet of_json body)

  prefix_param-requests :
      (P : Request → Type 0) (is_root : Bool) (prefix : Result Error Bytes)
      → All P (prefix_param cloud self is_root prefix).requests
  unfolding prefix_param
  prefix_param-requests P true prefix = tt
  prefix_param-requests P false (ok p) = tt
  prefix_param-requests P false (err e) = tt

  make_uri-ok : (text uri : Bytes) → make_uri cloud self text ≡ ok uri → uri ≡ text
  unfolding make_uri
  make_uri-ok text uri e = ground arith

  -- To look whether a directory is empty removes nothing.
  pub dir_empty-requests : (path : FilePath) → All IsQuiet (dir_empty cloud self path).requests
  unfolding dir_empty
  dir_empty-requests path =
      let asked = λ (prefix : Bytes).
        query_uri cloud self (text "prefixes,items(id,name,size,updated),nextPageToken")
          (text "&maxResults=2") prefix in
      let body = λ (uri : Bytes). http_get cloud self cloud.response_of_json uri in
      bind-requests IsQuiet
        (prefix_param cloud self (path_is_root path) (path_str cloud self path ensure))
        (λ prefix. asked prefix >>= body)
        (prefix_param-requests IsQuiet (path_is_root path) (path_str cloud self path ensure))
        (λ prefix e.
          bind-requests IsQuiet (asked prefix) body tt
            (λ uri q. get-requests cloud.response_of_json uri))

  module _ (name : Bytes) (path : FilePath)
      (named : path_str cloud self path ensure ≡ ok name) where
    object-named :
        object cloud self path ensure []
        ≡ lift (make_uri cloud self (object_uri cloud self (name ++ [])))
    unfolding object
    object-named =
        ap (λ r. lift r >>= λ n. lift (make_uri cloud self (object_uri cloud self (n ++ [])))) named

    uri-named :
        (uri : Bytes)
        → (object cloud self path ensure []).result ≡ ok uri
        → uri ≡ object_uri cloud self name
    uri-named uri e =
        make_uri-ok (object_uri cloud self (name ++ [])) uri
          (sym (ap (λ m. m.result) object-named) ∙ e)
        ∙ ap (object_uri cloud self) (append-nil name)

    -- Only the object of the name is removed.
    pub rmd-requests : All (RemovesOnly (object_uri cloud self name)) (rmd cloud self path).requests
    unfolding rmd http_delete_raw
    rmd-requests =
        let P = RemovesOnly (object_uri cloud self name) in
        bind-requests P (object cloud self path ensure [])
          (λ uri. http_delete_raw cloud self uri >>= λ answer. lift (ok done))
          (subst (λ (m : Calls Bytes). All P m.requests) (sym object-named) tt)
          (λ uri e.
            bind-requests P (http_delete_raw cloud self uri) (λ answer. lift (ok done))
              (raw-requests P _ (λ d. uri-named uri e)) (λ answer q. tt))
