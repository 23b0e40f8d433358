-- ===== src/ControlError.antt =====
-- src/server/controlchan/error.rs: the kinds of control channel errors, and where they come from.
use libunftp.Prelude.{Bytes}
use libunftp.LineParser.Eol.{ParseErrorKind, invalid_command, invalid_utf8, invalid_eol}

pub data ControlChanErrorKind : Type 0 where
  io_error parse_error internal_server_error authentication_error : ControlChanErrorKind
  internal_msg_error utf8_error : ControlChanErrorKind
  unknown_command : (command : Bytes) → ControlChanErrorKind
  bad_command control_channel_timeout illegal_state : ControlChanErrorKind

-- `From<ParseError>`; `bad_command` is the source's `InvalidCommand`.
unfoldable pub of_parse_error : ParseErrorKind → ControlChanErrorKind
of_parse_error invalid_utf8 = utf8_error
of_parse_error invalid_command = bad_command
of_parse_error invalid_eol = bad_command
