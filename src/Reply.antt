-- ===== src/Reply.antt =====
-- src/server/controlchan/reply.rs: replies to the client and their codes.
use libunftp.Prelude.{ℕ, String, Bytes, List, text}

pub data ReplyCode : Type 0 where
  no_reply group_preliminary_reply group_positive_completion restart_marker in_nminutes : ReplyCode
  connection_already_open file_status_okay command_okay command_okay_not_implemented : ReplyCode
  system_status directory_status file_status help_message system_type service_ready : ReplyCode
  closing_control_connection data_connection_open closing_data_connection : ReplyCode
  entering_passive_mode entering_extended_passive_mode user_logged_in : ReplyCode
  user_logged_in_via_cert auth_okay_no_data_needed file_action_okay dir_created : ReplyCode
  need_password need_account file_action_pending service_not_available : ReplyCode
  cant_open_data_connection connection_closed transient_file_error local_error out_of_space :
      ReplyCode
  command_syntax_error parameter_syntax_error command_not_implemented bad_command_sequence :
      ReplyCode
  command_not_implemented_for_parameter not_logged_in need_account_to_store ftps_required :
      ReplyCode
  file_error page_type_unknown exceeded_storage_allocation bad_file_name resp533 : ReplyCode

-- `code as u32`.
unfoldable pub code_number : ReplyCode → ℕ
code_number no_reply = 0
code_number group_preliminary_reply = 1
code_number group_positive_completion = 2
code_number restart_marker = 110
code_number in_nminutes = 120
code_number connection_already_open = 125
code_number file_status_okay = 150
code_number command_okay = 200
code_number command_okay_not_implemented = 202
code_number system_status = 211
code_number directory_status = 212
code_number file_status = 213
code_number help_message = 214
code_number system_type = 215
code_number service_ready = 220
code_number closing_control_connection = 221
code_number data_connection_open = 225
code_number closing_data_connection = 226
code_number entering_passive_mode = 227
code_number entering_extended_passive_mode = 229
code_number user_logged_in = 230
code_number user_logged_in_via_cert = 232
code_number auth_okay_no_data_needed = 234
code_number file_action_okay = 250
code_number dir_created = 257
code_number need_password = 331
code_number need_account = 332
code_number file_action_pending = 350
code_number service_not_available = 421
code_number cant_open_data_connection = 425
code_number connection_closed = 426
code_number transient_file_error = 450
code_number local_error = 451
code_number out_of_space = 452
code_number command_syntax_error = 500
code_number parameter_syntax_error = 501
code_number command_not_implemented = 502
code_number bad_command_sequence = 503
code_number command_not_implemented_for_parameter = 504
code_number not_logged_in = 530
code_number need_account_to_store = 532
code_number ftps_required = 534
code_number file_error = 550
code_number page_type_unknown = 551
code_number exceeded_storage_allocation = 552
code_number bad_file_name = 553
code_number resp533 = 533

pub data Reply : Type 0 where
  none : Reply
  code_and_msg : (code : ReplyCode) (msg : Bytes) → Reply
  multi_line : (code : ReplyCode) (lines : List Bytes) → Reply

-- `Reply::new`; `Reply::new_with_string` and `Reply::new_multiline` are the constructors.
abbrev pub new : ReplyCode → String → Reply
new code message = code_and_msg code (text message)
