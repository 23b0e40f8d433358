-- ===== src/Storage/CloudStorage.antt =====
-- crates/unftp-sbe-gcs/src: the back-end that keeps files in a bucket of Google Cloud Storage. This
-- file has lib.rs, what the back-end makes of the requests of its client.
pub mod Response
pub mod Requests
pub mod Client
pub mod Tokens
pub mod Pages
pub mod Removing
pub mod Tests
use libunftp.Prelude.{
  ℕ, zero, suc, Bytes, Bool, true, false, not, Option, none, some, List, [], ◌∷◌, ◌++◌,
  if◌then◌else◌,
}
use libunftp.Prelude.Result.{Result, ok, err}
use libunftp.Std.FilePath.{FilePath}
use libunftp.Server.Options.{feature_sitemd5}
use libunftp.Server.Messages.{
  permanent_directory_not_available, permanent_directory_not_empty, command_not_implemented,
}
use libunftp.Storage.{Error}
use libunftp.Storage.Filesystem.{Done, done}
use libunftp.Storage.CloudStorage.Response.{
  Item, ResponseBody, ObjectMetadata, ObjectInfo, to_metadata, to_md5, dir_exists, dir_empty,
}
use libunftp.Storage.CloudStorage.Response
use libunftp.Storage.CloudStorage.Requests.{Calls, ◌>>=◌, lift}
use libunftp.Storage.CloudStorage.Client
use libunftp.Storage.CloudStorage.Client.{Cloud, GcsClient, of_kind, path_is_root}

abbrev pub supported_features : ℕ
supported_features = feature_sitemd5

-- An error ends the listing.
and_then :
    Result Error ResponseBody
    → (ResponseBody → Option (Result Error (List ObjectInfo)))
    → Option (Result Error (List ObjectInfo))
and_then (err e) next = some (err e)
and_then (ok resp) next = next resp

-- The loop of `list` over the page tokens, where `ask` gives a page; `none` is a lack of fuel.
module _ (now : ℕ) (ask : Option Bytes → Result Error ResponseBody) where
  pub list_from :
      (fuel : ℕ) (next_token : Option Bytes)
      → List ObjectInfo
      → Option (Result Error (List ObjectInfo))
  unfolding and_then Response.list
  list_from fuel none dirlist = some (ok dirlist)
  list_from zero (some token) dirlist = none
  list_from (suc fuel) (some token) dirlist =
      and_then (ask (some token))
        λ resp. list_from fuel resp.next_page_token (dirlist ++ Response.list now resp)

  unfoldable pub list_pages : (fuel : ℕ) → Option (Result Error (List ObjectInfo))
  unfolding list_from
  list_pages fuel =
      and_then (ask none) λ resp. list_from fuel resp.next_page_token (Response.list now resp)

module _ (cloud : Cloud) (gcs : GcsClient) where
  unfoldable pub metadata : FilePath → Calls ObjectMetadata
  unfolding Client.item
  metadata path = Client.item cloud gcs path >>= λ item. lift (ok (to_metadata item))

  unfoldable pub md5 : (base64 : Bytes → Option Bytes) → FilePath → Calls Bytes
  unfolding Client.item
  md5 base64 path = Client.item cloud gcs path >>= λ item. lift (to_md5 base64 item)

  unfoldable pub list : (now fuel : ℕ) → FilePath → Option (Result Error (List ObjectInfo))
  unfolding Client.list
  list now fuel path = list_pages now (λ token. (Client.list cloud gcs path token).result) fuel

  unfoldable pub get : FilePath → (start_pos : ℕ) → Calls (Option Bytes)
  unfolding Client.get_from
  get path start_pos = Client.get_from cloud gcs path start_pos

  -- The position is not looked at.
  unfoldable pub put : FilePath → Bytes → (start_pos : ℕ) → Calls ℕ
  unfolding Client.upload
  put path bytes start_pos =
      Client.upload cloud gcs path bytes >>= λ item. lift (ok (to_metadata item).size)

  unfoldable pub del : FilePath → Calls Done
  unfolding Client.delete_object
  del path = Client.delete_object cloud gcs path

  unfoldable pub mkd : FilePath → Calls Done
  unfolding Client.mkd
  mkd path = Client.mkd cloud gcs path

  unfoldable pub rename : (from to : FilePath) → Calls Done
  rename from to = lift (err (of_kind command_not_implemented))

  -- A directory is removed only if it is there and empty.
  pub rmd_checked : FilePath → ResponseBody → Calls Done
  rmd_checked path resp =
      if not (dir_exists resp)
      then lift (err (of_kind permanent_directory_not_available))
      else if not (dir_empty resp)
      then lift (err (of_kind permanent_directory_not_empty))
      else Client.rmd cloud gcs path

  unfoldable pub rmd : FilePath → Calls Done
  unfolding rmd_checked
  rmd path = Client.dir_empty cloud gcs path >>= λ resp. rmd_checked path resp

  cwd_checked : ResponseBody → Calls Done
  cwd_checked resp =
      if not (dir_exists resp)
      then lift (err (of_kind permanent_directory_not_available))
      else lift (ok done)

  unfoldable pub cwd : FilePath → Calls Done
  unfolding path_is_root cwd_checked
  cwd path =
      if path_is_root path
      then lift (ok done)
      else Client.dir_empty cloud gcs path >>= λ resp. cwd_checked resp
