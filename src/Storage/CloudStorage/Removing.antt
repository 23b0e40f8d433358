-- ===== src/Storage/CloudStorage/Removing.antt =====
-- RMD on Google Cloud Storage: no object is lost below a directory that is removed.
use libunftp.Prelude.{
  Bytes, ◌≡◌, refl, sym, ap, ◌∙◌, Bool, true, false, ◌||◌, Option, none, some, List, [], ◌∷◌, All,
  All-map, bytes_eq, bytes_eq_refl, eq_of_bytes_eq, Bool-cases, inl, inr,
}
use libunftp.Prelude.Result.{ok}
use libunftp.Std.FilePath.{FilePath, ends_with_separator}
use libunftp.Auth.{starts_with}
use libunftp.Storage.CloudStorage.Response.{
  Item, ResponseBody, contains, any_named, dir_exists, dir_empty,
}
use libunftp.Storage.CloudStorage.Response.Once.{or_empty}
use libunftp.Storage.CloudStorage.Response.Empty.{dir_empty-Alone}
use libunftp.Storage.CloudStorage.Requests.{delete, Request, bind-requests}
use libunftp.Storage.CloudStorage.Client
use libunftp.Storage.CloudStorage.Client.{Cloud, GcsClient, ensure, path_str, object_uri}
use libunftp.Storage.CloudStorage.Client.Removal.{dir_empty-requests, rmd-requests}
use libunftp.Storage.CloudStorage.{rmd, rmd_checked}

-- Some prefix covers the name.
abbrev pub covered : List Bytes → Bytes → Bool
covered [] name = false
covered (p ∷ ps) name = starts_with p name || covered ps name

-- What the service documents of a page without a successor, for a prefix of a bucket: each object
-- below the prefix is an item or lies below one of the prefixes, and an item that ends with the
-- delimiter is the prefix itself or among the prefixes.
pub record Lists (bucket : List Bytes) (prefix : Bytes) (r : ResponseBody) : Type 0 where
  pub complete :
      (name : Bytes)
      → r.next_page_token ≡ none
      → contains bucket name ≡ true
      → starts_with prefix name ≡ true
      → (any_named name (or_empty r.items) || covered (or_empty r.prefixes) name) ≡ true
  pub delimited :
      (name : Bytes)
      → any_named name (or_empty r.items) ≡ true
      → ends_with_separator name ≡ true
      → (bytes_eq name prefix || contains (or_empty r.prefixes) name) ≡ true

-- Nothing lies below the prefix but the object of the directory itself.
abbrev pub OnlyObject : (bucket : List Bytes) → (prefix : Bytes) → Type 0
OnlyObject bucket prefix =
    (name : Bytes) → contains bucket name ≡ true → starts_with prefix name ≡ true → name ≡ prefix

or_left : (a : Bool) → (a || false) ≡ true → a ≡ true
or_left true h = refl
or_left false h = h

dir_empty-OnlyObject :
    (bucket : List Bytes) (prefix : Bytes) (r : ResponseBody)
    → Lists bucket prefix r
    → dir_empty r ≡ true
    → OnlyObject bucket prefix
unfolding any_named contains
dir_empty-OnlyObject bucket prefix r lists empty name inside below =
    let (item, (items, (prefixes, (token, dir)))) = dir_empty-Alone r empty in
    let shown = λ (is : Option (List Item)) (ps : Option (List Bytes)).
      any_named name (or_empty is) || covered (or_empty ps) name in
    let named =
      sym (ap (λ is. shown is r.prefixes) items ∙ ap (shown (some (item ∷ []))) prefixes)
      ∙ lists.complete name token inside below in
    let own =
      λ (ps : Option (List Bytes)). bytes_eq item.name prefix || contains (or_empty ps) item.name in
    let itself =
      sym (ap own prefixes)
      ∙ lists.delimited item.name
          (ap (λ is. any_named item.name (or_empty is)) items
            ∙ ap (λ b. b || false) (bytes_eq_refl item.name))
          dir in
    sym (eq_of_bytes_eq item.name name (or_left _ (or_left _ named)))
    ∙ eq_of_bytes_eq item.name prefix (or_left _ itself)

-- What RMD may remove: the object of the directory, where the bucket has nothing else below it.
abbrev pub RemovesEmpty : (bucket : List Bytes) → (prefix uri : Bytes) → Request → Type 0
RemovesEmpty bucket prefix uri r = r.method ≡ delete → (r.uri ≡ uri) × OnlyObject bucket prefix

module _ (cloud : Cloud) (gcs : GcsClient) (bucket : List Bytes) (path : FilePath) (prefix : Bytes)
    (named : path_str cloud gcs path ensure ≡ ok (cloud.percent_encode prefix)) where
  abbrev P : Request → Type 0
  P = RemovesEmpty bucket prefix (object_uri cloud gcs (cloud.percent_encode prefix))

  checked-RemovesEmpty :
      (r : ResponseBody) → Lists bucket prefix r → All P (rmd_checked cloud gcs path r).requests
  unfolding rmd_checked
  checked-RemovesEmpty r lists = elim (Bool-cases (dir_exists r)) [
    | inr gone ↦ rw gone tt
    | inl there ↦ elim (Bool-cases (dir_empty r)) [
      | inr full ↦ rw (there, full) tt
      | inl empty ↦
          rw (there, empty)
            (All-map (λ request h d. (h d, dir_empty-OnlyObject bucket prefix r lists empty)) _
              (rmd-requests cloud gcs (cloud.percent_encode prefix) path named))
    ]
  ]

  -- Where the service lists the bucket below a directory as it documents, RMD of the directory sends
  -- no request that removes an object, but for the one to remove the object of the directory itself,
  -- and this only if the bucket has no other object below the directory.
  pub rmd-RemovesEmpty :
      ((r : ResponseBody) → (Client.dir_empty cloud gcs path).result ≡ ok r → Lists bucket prefix r)
      → All P (rmd cloud gcs path).requests
  unfolding rmd
  rmd-RemovesEmpty documented =
      bind-requests P (Client.dir_empty cloud gcs path) (λ r. rmd_checked cloud gcs path r)
        (All-map (λ request quiet d. absurd (quiet d)) _ (dir_empty-requests cloud gcs path))
        (λ r e. checked-RemovesEmpty r (documented r e))
