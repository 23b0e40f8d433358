-- ===== src/Server/Internal.antt =====
-- `handle_internal_msg` of src/server/controlchan/control_loop.rs.
use libunftp.Prelude.{true, false}
use libunftp.Reply
use libunftp.Reply.{
  ReplyCode, code_and_msg, file_error, closing_data_connection, transient_file_error,
  connection_closed, file_action_okay, dir_created, user_logged_in, not_logged_in,
  exceeded_storage_allocation, bad_file_name, out_of_space,
}
use libunftp.Server.Session.{Session, new, wait_cmd}
use libunftp.Server.Messages.{
  ErrorKind, transient_file_not_available, permanent_file_not_available,
  permanent_directory_not_available, permanent_directory_not_empty, permission_refused, local_error,
  page_type_unknown, insufficient_storage_space_error, exceeded_storage_allocation_error,
  file_name_not_allowed_error, command_not_implemented,
}
use libunftp.Server.Messages.{
  ControlChanMsg, permission_denied, not_found, sent_data, written_data, connection_reset,
  data_connection_closed_after_stor, write_failed, directory_successfully_listed,
  directory_list_failure, cwd_success, del_file_success, rm_dir_success, rename_success, del_fail,
  exit_control_loop, mk_dir_success, mkdir_fail, auth_success, auth_failed, secure_control_channel,
  plaintext_control_channel, storage_error, command_channel_reply,
}
use libunftp.Server.Messages
use libunftp.Server.Handled.{Handled, reply, answer}

module _ {User : Type 0} where
  unfoldable pub storage_reply : ErrorKind → Session User → Handled User
  storage_reply exceeded_storage_allocation_error =
      reply exceeded_storage_allocation "Exceeded storage allocation"
  storage_reply file_name_not_allowed_error = reply bad_file_name "File name not allowed"
  storage_reply insufficient_storage_space_error = reply out_of_space "Insufficient storage space"
  storage_reply local_error = reply Reply.local_error "Local error"
  storage_reply page_type_unknown = reply Reply.page_type_unknown "Page type unknown"
  storage_reply transient_file_not_available = reply transient_file_error "File not found"
  storage_reply permanent_file_not_available = reply file_error "File not found"
  storage_reply permanent_directory_not_available = reply file_error "Directory not found"
  storage_reply permanent_directory_not_empty = reply file_error "Directory not empty"
  storage_reply permission_refused = reply file_error "Permission denied"
  storage_reply command_not_implemented =
      reply Reply.command_not_implemented "Command not implemented"
  storage_reply Messages.connection_closed = reply connection_closed "Connection closed"

  unfoldable pub handle_internal_msg : ControlChanMsg → Session User → Handled User
  handle_internal_msg not_found s = reply file_error "File not found" s
  handle_internal_msg permission_denied s = reply file_error "Permision denied" s
  handle_internal_msg (sent_data path bytes) s =
      reply closing_data_connection "Successfully sent" (record s { start_pos = 0 })
  handle_internal_msg write_failed s = reply transient_file_error "Failed to write file" s
  handle_internal_msg connection_reset s =
      reply connection_closed "Datachannel unexpectedly closed" s
  handle_internal_msg (written_data path bytes) s =
      reply closing_data_connection "File successfully written" (record s { start_pos = 0 })
  handle_internal_msg data_connection_closed_after_stor s =
      reply file_action_okay "unFTP holds your data for you" s
  handle_internal_msg directory_successfully_listed s =
      reply closing_data_connection "Listed the directory" s
  handle_internal_msg directory_list_failure s =
      reply closing_data_connection "Failed to list the directory" s
  handle_internal_msg cwd_success s =
      reply file_action_okay "Successfully changed working directory" s
  handle_internal_msg (del_file_success path) s = reply file_action_okay "Successfully removed" s
  handle_internal_msg (rm_dir_success path) s = reply file_action_okay "Successfully removed" s
  handle_internal_msg del_fail s = reply transient_file_error "Failed to delete the file" s
  handle_internal_msg exit_control_loop s = answer Reply.none s
  handle_internal_msg secure_control_channel s = answer Reply.none (record s { cmd_tls = true })
  handle_internal_msg plaintext_control_channel s = answer Reply.none (record s { cmd_tls = false })
  handle_internal_msg (mk_dir_success path) s = answer (code_and_msg dir_created path) s
  handle_internal_msg mkdir_fail s = reply file_error "Failed to create directory" s
  handle_internal_msg (rename_success old_path new_path) s = reply file_action_okay "Renamed" s
  handle_internal_msg (auth_success username) s =
      reply user_logged_in "User logged in, proceed" (record s { state = wait_cmd })
  handle_internal_msg auth_failed s =
      reply not_logged_in "Authentication failed" (record s { state = new })
  handle_internal_msg (storage_error kind) s = storage_reply kind s
  handle_internal_msg (command_channel_reply r) s = answer r s
