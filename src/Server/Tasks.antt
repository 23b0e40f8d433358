-- ===== src/Server/Tasks.antt =====
-- The tasks that the handlers of src/server/controlchan/commands/ spawn, and the message with which
-- each ends.
use libunftp.Prelude.{ℕ, Bytes, Option, none, some, List, [], ◌∷◌, ◌++◌, text, if◌then◌else◌}
use libunftp.Prelude.Result.{ok, err}
use libunftp.Std.Decimal.{print_uint}
use libunftp.Std.Utf8.{from_utf8_lossy}
use libunftp.Reply.{code_and_msg, multi_line, file_status, command_okay}
use libunftp.FailedLogins.{FailedLoginsPolicy, LockState, Cache, failed, success}
use libunftp.Server.Session.{Session}
use libunftp.Server.Messages
use libunftp.Server.Messages.{
  ErrorKind, ControlChanMsg, Event, command, internal_msg, exit_control_loop,
  secure_control_channel, auth_success, auth_failed, storage_error, mk_dir_success,
  del_file_success, command_channel_reply,
}
use libunftp.Server.Handled.{
  Credentials, Env, AuthResult, authenticated, bad_user, refused, Enter, entered, Task, send,
  make_dir, delete, file_size, modified, checksum, list_status,
}

-- A task of PASS, and the message with which it ends.
pub record LoggedIn (User : Type 0) : Type 0 where
  pub session : Session User
  pub cache : Cache
  pub msg : ControlChanMsg

file_status_reply : Bytes → ControlChanMsg
file_status_reply line = command_channel_reply (code_and_msg file_status line)

unfoldable pub sends : {User : Type 0} → Option ControlChanMsg → List (Task User)
sends none = []
sends (some msg) = send msg ∷ []

module _ {User : Type 0} where
  unfoldable pub log_in_entered : Bytes → User → Session User → Cache → Enter → LoggedIn User
  log_in_entered name u s cache entered = record {
    session = record s { user = some u };
    cache = cache;
    msg = auth_success name;
  }
  log_in_entered name u s cache _ = record { session = s; cache = cache; msg = auth_failed }

  unfoldable pub log_in_unlocked :
      Env User → Bytes → User → Session User → Cache × Option LockState → LoggedIn User
  log_in_unlocked env name u s (cache, some locked) = record {
    session = s;
    cache = cache;
    msg = auth_failed;
  }
  log_in_unlocked env name u s (cache, none) =
      if env.account_enabled u
      then log_in_entered name u s cache (env.enter u)
      else record { session = s; cache = cache; msg = auth_failed }

  -- Without a policy there is no cache, and nothing is locked.
  unfoldable pub succeeded :
      Env User → Option FailedLoginsPolicy → ℕ → Bytes → Cache → Cache × Option LockState
  succeeded env none addr name cache = (cache, none)
  succeeded env (some policy) addr name cache = success policy env.now addr name cache

  unfoldable pub refused_in : Env User → Option FailedLoginsPolicy → ℕ → Bytes → Cache → Cache
  refused_in env none addr name cache = cache
  refused_in env (some policy) addr name cache = (failed policy env.now addr name cache).0

  unfoldable pub log_in_result :
      Env User
      → Option FailedLoginsPolicy
      → Bytes
      → ℕ
      → Session User
      → Cache
      → AuthResult User
      → LoggedIn User
  log_in_result env policy name addr s cache (authenticated u) =
      log_in_unlocked env name u s (succeeded env policy addr name cache)
  log_in_result env policy name addr s cache bad_user = record {
    session = s;
    cache = cache;
    msg = auth_failed;
  }
  log_in_result env policy name addr s cache refused = record {
    session = s;
    cache = refused_in env policy addr name cache;
    msg = auth_failed;
  }

  unfoldable pub run_log_in :
      Env User
      → Option FailedLoginsPolicy
      → Bytes
      → Credentials
      → Session User
      → Cache
      → LoggedIn User
  unfolding log_in_entered log_in_unlocked succeeded refused_in log_in_result
  run_log_in env policy name creds s cache =
      log_in_result env policy name creds.source_ip s cache (env.authenticate name creds)

  -- The messages of the other tasks. Where nobody is logged in the task panics and sends none.
  unfoldable pub task_message : Env User → Task User → Option ControlChanMsg
  unfolding file_status_reply
  task_message env (make_dir (some u) p) =
      some (elim (env.mkd u p) [
        | none ↦ mk_dir_success (from_utf8_lossy p)
        | some e ↦ storage_error e
      ])
  task_message env (delete (some u) p) = some (elim (env.del u p) [
    | none ↦ del_file_success (from_utf8_lossy p)
    | some e ↦ storage_error e
  ])
  task_message env (file_size (some u) p) = some (elim (env.file_len u p) [
    | ok n ↦ file_status_reply (print_uint n)
    | err e ↦ storage_error e
  ])
  task_message env (modified (some u) p) =
      some (elim (env.modified_at u p) [ ok t ↦ file_status_reply t | err e ↦ storage_error e ])
  task_message env (checksum (some u) p) = some (elim (env.md5 u p) [
    | ok sum ↦ file_status_reply (sum ++ text "    " ++ from_utf8_lossy p)
    | err e ↦ storage_error e
  ])
  task_message env (list_status (some u) p) = some (elim (env.list_vec u p) [
    | some lines ↦ command_channel_reply (multi_line command_okay lines)
    | none ↦ storage_error Messages.local_error
  ])
  task_message env _ = none
