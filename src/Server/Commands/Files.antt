-- ===== src/Server/Commands/Files.antt =====
-- src/server/controlchan/commands/{cwd,cdup,pwd,mkd,rmd,dele,rnfr,rnto,size,mdtm,md5,stat}.rs
-- `unwrap` of the user panics where nobody is logged in; in a task only the task ends.
pub mod Renaming
use libunftp.Prelude.{
  Bytes, Bool, not, ◌||◌, Option, none, some, List, [], ◌∷◌, ◌++◌, text, bytes_eq, if◌then◌else◌,
}
use libunftp.Std.Utf8.{from_utf8, from_utf8_lossy}
use libunftp.Std.Decimal.{print_uint}
use libunftp.Std.FilePath.{FilePath, join, pop}
use libunftp.ControlError.{utf8_error}
use libunftp.Reply
use libunftp.Reply.{
  code_and_msg, multi_line, dir_created, file_action_okay, file_action_pending,
  transient_file_error, system_status, command_not_implemented, not_logged_in,
}
use libunftp.Server.Options.{SiteMd5, feature_sitemd5}
use libunftp.Server.Session.{Session}
use libunftp.Server.Messages.{ErrorKind, cwd_success, rm_dir_success, rename_success, storage_error}
use libunftp.Server.Handled.{
  Config, Env, make_dir, delete, file_size, modified, checksum, list_status, Handled, reply, answer,
  spawning, sending, fail, panic,
}
use libunftp.Server.Commands.Settings.{supports}

abbrev show_bool : Bool → Bytes
show_bool b = if b then text "true" else text "false"

module _ {User : Type 0} (env : Env User) (config : Config) where
  cwd_result : FilePath → Session User → Option ErrorKind → Handled User
  cwd_result target s (some e) = sending Reply.none (storage_error e ∷ []) s
  cwd_result target s none =
      sending Reply.none (cwd_success ∷ []) (record s { cwd = join s.cwd target })

  cwd_as : FilePath → Session User → Option User → Handled User
  cwd_as target s none = panic s
  cwd_as target s (some u) = cwd_result target s (env.cwd u target)

  -- The working directory is pushed with the path that was joined to it.
  unfoldable pub cwd : Bytes → Session User → Handled User
  unfolding cwd_as cwd_result
  cwd path s = cwd_as (join s.cwd path) s s.user

  unfoldable pub cdup : Session User → Handled User
  cdup s = reply file_action_okay "OK" (record s { cwd = pop s.cwd })

  unfoldable pub pwd : Session User → Handled User
  pwd s = answer (code_and_msg dir_created (b'"' ∷ from_utf8_lossy s.cwd ++ b'"' ∷ [])) s

  unfoldable pub mkd : Bytes → Session User → Handled User
  mkd path s = spawning Reply.none (make_dir s.user (join s.cwd path) ∷ []) s

  rmd_as : FilePath → Session User → Option User → Handled User
  rmd_as target s none = panic s
  rmd_as target s (some u) = elim (env.rmd u target) [
    | some e ↦ sending Reply.none (storage_error e ∷ []) s
    | none ↦ sending Reply.none (rm_dir_success (from_utf8_lossy target) ∷ []) s
  ]

  unfoldable pub rmd : Bytes → Session User → Handled User
  unfolding rmd_as
  rmd path s = rmd_as (join s.cwd path) s s.user

  unfoldable pub dele : Bytes → Session User → Handled User
  dele path s = spawning Reply.none (delete s.user (join s.cwd path) ∷ []) s

  unfoldable pub rnfr : Bytes → Session User → Handled User
  rnfr path s =
      reply file_action_pending "Tell me, what would you like the new name to be?"
        (record s { rename_from = some (join s.cwd path) })

  rnto_as : FilePath → FilePath → Session User → Option User → Handled User
  rnto_as from to s none = panic s
  rnto_as from to s (some u) = elim (env.rename u from to) [
    | none ↦ sending Reply.none (rename_success (from_utf8_lossy from) (from_utf8_lossy to) ∷ []) s
    | some e ↦ sending Reply.none (storage_error e ∷ []) s
  ]

  rnto_from : Bytes → Session User → Option FilePath → Handled User
  rnto_from path s none =
      reply transient_file_error "Please tell me what file you want to rename first" s
  rnto_from path s (some from) =
      rnto_as from (join s.cwd path) (record s { rename_from = none }) s.user

  unfoldable pub rnto : Bytes → Session User → Handled User
  unfolding rnto_from rnto_as
  rnto path s = rnto_from path s s.rename_from

  unfoldable pub size : Bytes → Session User → Handled User
  size path s = spawning Reply.none (file_size s.user (join s.cwd path) ∷ []) s

  unfoldable pub mdtm : Bytes → Session User → Handled User
  mdtm path s = spawning Reply.none (modified s.user (join s.cwd path) ∷ []) s

  is_public : Bytes → Bool
  is_public name = bytes_eq name (text "anonymous") || bytes_eq name (text "ftp")

  md5_supported : Bytes → Session User → Handled User
  md5_supported path s =
      if not (supports config.storage_features feature_sitemd5)
      then reply command_not_implemented "Not supported by the selected storage back-end." s
      else spawning Reply.none (checksum s.user (join s.cwd path) ∷ []) s

  md5_in : Bytes → Session User → SiteMd5 → Option Bytes → Handled User
  md5_in path s SiteMd5.all name = md5_supported path s
  md5_in path s SiteMd5.accounts (some name) =
      if is_public name
      then reply command_not_implemented "Command is not available." s
      else md5_supported path s
  md5_in path s SiteMd5.accounts none =
      reply not_logged_in "Please open a new connection to re-authenticate" s
  md5_in path s SiteMd5.none name = reply command_not_implemented "Command is not available." s

  unfoldable pub md5 : Bytes → Session User → Handled User
  unfolding md5_in md5_supported is_public
  md5 path s = md5_in path s config.sitemd5 s.username

  status_lines : Session User → Bytes → List Bytes
  status_lines s name =
      text "server status:"
      ∷ (text "powered by libunftp: " ++ env.version)
      ∷ (text "sbe: " ++ env.storage_name)
      ∷ (text "authenticator: " ++ env.authenticator_name)
      ∷ (text "user: " ++ name)
      ∷ (text "client addr: " ++ env.show_source s.source_ip)
      ∷ (text "ftps configured: " ++ show_bool config.tls_configured)
      ∷ (text "cmd channel in tls mode: " ++ show_bool s.cmd_tls)
      ∷ (text "data channel in tls mode: " ++ show_bool s.data_tls)
      ∷ (text "cwd: " ++ from_utf8_lossy s.cwd)
      ∷ (text "rename from path: " ++ env.debug_path s.rename_from)
      ∷ (text "offset for REST: " ++ print_uint s.start_pos)
      ∷ []

  stat_server : Session User → Option Bytes → Handled User
  stat_server s none = panic s
  stat_server s (some name) = answer (multi_line system_status (status_lines s name)) s

  -- The path is listed as it is given, not below the working directory.
  stat_path : Session User → Option Bytes → Handled User
  stat_path s none = fail utf8_error s
  stat_path s (some path) = spawning Reply.none (list_status s.user path ∷ []) s

  stat_in : Session User → Option Bytes → Handled User
  stat_in s none = stat_server s s.username
  stat_in s (some path) = stat_path s (from_utf8 path)

  unfoldable pub stat : Option Bytes → Session User → Handled User
  unfolding stat_in stat_server stat_path status_lines
  stat path s = stat_in s path
