-- ===== src/Server/Messages.antt =====
-- src/server/chancomms.rs, src/server/controlchan/event.rs and src/storage/error.rs: what the tasks of
-- a connection tell one another.
use libunftp.Prelude.{ℕ, Bytes, Option, some}
use libunftp.Command.{Command}
use libunftp.Reply.{Reply}

pub data ErrorKind : Type 0 where
  transient_file_not_available permanent_file_not_available : ErrorKind
  permanent_directory_not_available permanent_directory_not_empty : ErrorKind
  permission_refused connection_closed local_error page_type_unknown : ErrorKind
  insufficient_storage_space_error exceeded_storage_allocation_error : ErrorKind
  file_name_not_allowed_error command_not_implemented : ErrorKind

pub data DataChanCmd : Type 0 where
  retr : (path : Bytes) → DataChanCmd
  stor : (path : Bytes) → DataChanCmd
  list : (options path : Option Bytes) → DataChanCmd
  nlst : (path : Option Bytes) → DataChanCmd

-- `DataChanCmd::path`.
unfoldable pub path : DataChanCmd → Option Bytes
path (retr p) = some p
path (stor p) = some p
path (list options p) = p
path (nlst p) = p

pub data ControlChanMsg : Type 0 where
  permission_denied not_found : ControlChanMsg
  sent_data : (path : Bytes) (bytes : ℕ) → ControlChanMsg
  written_data : (path : Bytes) (bytes : ℕ) → ControlChanMsg
  connection_reset data_connection_closed_after_stor write_failed : ControlChanMsg
  directory_successfully_listed directory_list_failure cwd_success : ControlChanMsg
  del_file_success : (path : Bytes) → ControlChanMsg
  rm_dir_success : (path : Bytes) → ControlChanMsg
  rename_success : (old_path new_path : Bytes) → ControlChanMsg
  del_fail exit_control_loop : ControlChanMsg
  mk_dir_success : (path : Bytes) → ControlChanMsg
  mkdir_fail : ControlChanMsg
  auth_success : (username : Bytes) → ControlChanMsg
  auth_failed secure_control_channel plaintext_control_channel : ControlChanMsg
  storage_error : ErrorKind → ControlChanMsg
  command_channel_reply : Reply → ControlChanMsg

pub data Event : Type 0 where
  command : Command → Event
  internal_msg : ControlChanMsg → Event
