-- ===== src/Server/Middleware.antt =====
-- The middleware in front of the handlers: src/server/controlchan/{auth,ftps,active_passive}.rs, in the
-- order in which `spawn` of src/server/controlchan/control_loop.rs stacks it. Logging, metrics and the
-- dispatch of notifications hand every event on and are left out.
pub mod Gate
pub mod Keeping
pub mod Passing
pub mod NoPanic
pub mod Upgrading
use libunftp.Prelude.{
  String, Bytes, Bool, true, false, Option, none, some, bytes_eq, text, if◌then◌else◌,
}
use libunftp.Std.Utf8.{from_utf8}
use libunftp.Command
use libunftp.Command.{Command, utf8}
use libunftp.ControlError.{utf8_error, illegal_state}
use libunftp.Reply.{not_logged_in, ftps_required, command_not_implemented}
use libunftp.Server.Options.{
  FtpsRequired, all, accounts, ActivePassiveMode, active_only, passive_only, active_and_passive,
}
use libunftp.Server.Options
use libunftp.Server.Session.{Session, SessionState, wait_cmd}
use libunftp.Server.Messages.{Event, command, internal_msg}
use libunftp.Server.Handled.{Config, Env, Handled, reply, fail}
use libunftp.Server.Commands.{handle_command}
use libunftp.Server.Internal.{handle_internal_msg}

-- `PrimaryEventHandler::handle`.
module _ {User : Type 0} (env : Env User) (config : Config) where
  unfoldable pub primary : Event → Session User → Handled User
  primary (command c) s = handle_command env config c s
  primary (internal_msg msg) s = handle_internal_msg msg s

-- A middleware hands an event to the next one, or answers in its place.
abbrev pub Next : Type 0 → Type 0
Next User = Event → Session User → Handled User

-- What may be done before logging in.
unfoldable pub is_exempt : Event → Bool
is_exempt (internal_msg msg) = true
is_exempt (command Command.help) = true
is_exempt (command (Command.user username)) = true
is_exempt (command (Command.pass password)) = true
is_exempt (command (Command.auth protocol)) = true
is_exempt (command (Command.prot param)) = true
is_exempt (command Command.pbsz) = true
is_exempt (command Command.feat) = true
is_exempt (command Command.noop) = true
is_exempt (command (Command.opts (utf8 on))) = true
is_exempt (command Command.quit) = true
is_exempt (command _) = false

unfoldable pub is_wait_cmd : SessionState → Bool
is_wait_cmd wait_cmd = true
is_wait_cmd _ = false

module _ {User : Type 0} where
  refused_control : Session User → Handled User
  refused_control s = reply ftps_required "A TLS connection is required on the control channel" s

  refused_data : Session User → Handled User
  refused_data s = reply ftps_required "A TLS connection is required on the data channel" s

  anonymous_in : Option Bytes → Handled User → Handled User → Session User → Handled User
  anonymous_in none yes_ no_ s = fail utf8_error s
  anonymous_in (some name) yes_ no_ s = if bytes_eq name (text "anonymous") then yes_ else no_

  -- `is_anonymous_user(…)?`, with what is done for an anonymous user and for another.
  unfoldable pub if_anonymous : Bytes → Handled User → Handled User → Session User → Handled User
  unfolding anonymous_in
  if_anonymous username yes_ no_ s = anonymous_in (from_utf8 username) yes_ no_ s

module _ {User : Type 0} (next : Next User) where
  unfoldable pub active_passive : ActivePassiveMode → Next User
  active_passive passive_only (command (Command.port addr)) s =
      reply command_not_implemented "Active mode not enabled." s
  active_passive active_only (command Command.pasv) s =
      reply command_not_implemented "Passive mode not enabled." s
  active_passive mode event s = next event s

  unfoldable pub auth_check : Next User
  unfolding is_exempt is_wait_cmd
  auth_check event s =
      if is_exempt event
      then next event s
      else if is_wait_cmd s.state
      then next event s
      else reply not_logged_in "Please authenticate" s

  control_all : Next User
  control_all (command Command.ccc) s =
      reply ftps_required "Cannot downgrade connection, TLS enforced." s
  control_all (command (Command.user username)) s =
      if s.cmd_tls then next (command (Command.user username)) s else refused_control s
  control_all (command (Command.pass password)) s =
      if s.cmd_tls then next (command (Command.pass password)) s else refused_control s
  control_all event s = next event s

  pass_plain : Bytes → Session User → Option Bytes → Handled User
  pass_plain password s none = fail illegal_state s
  pass_plain password s (some username) =
      if_anonymous username (next (command (Command.pass password)) s) (refused_control s) s

  control_plain : Next User
  control_plain (command (Command.user username)) s =
      if_anonymous username (next (command (Command.user username)) s) (refused_control s) s
  control_plain (command (Command.pass password)) s = pass_plain password s s.username
  control_plain event s = next event s

  unfoldable pub ftps_control : FtpsRequired → Next User
  unfolding control_all control_plain pass_plain refused_control
  ftps_control Options.FtpsRequired.none event s = next event s
  ftps_control all event s = control_all event s
  ftps_control accounts event s = if s.cmd_tls then next event s else control_plain event s

  pasv_account : Session User → Option Bytes → Handled User
  pasv_account s none = fail illegal_state s
  pasv_account s (some username) =
      let served = next (command Command.pasv) s in
      if_anonymous username served (if s.cmd_tls then served else refused_data s) s

  unfoldable pub ftps_data : FtpsRequired → Next User
  unfolding pasv_account refused_data
  ftps_data all (command Command.pasv) s =
      if s.data_tls then next (command Command.pasv) s else refused_data s
  ftps_data accounts (command Command.pasv) s = pasv_account s s.username
  ftps_data requirement event s = next event s

-- The stack of `spawn`: the enforcement for the data channel sees an event first.
module _ {User : Type 0} (env : Env User) (config : Config) where
  unfoldable pub event_chain : Event → Session User → Handled User
  event_chain =
      ftps_data
        (ftps_control (auth_check (active_passive (primary env config) config.active_passive_mode))
          config.ftps_required_control_chan)
        config.ftps_required_data_chan
