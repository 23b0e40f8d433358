-- ===== src/Server/Middleware/Passing.antt =====
-- The middleware hands an event on as it is, or answers in its place: what holds of the answers and of
-- what the handlers do with the event holds of the whole chain.
use libunftp.Prelude.{
  Bytes, Bool, true, false, Option, none, some, String, text, bytes_eq, if◌then◌else◌,
}
use libunftp.Std.Utf8.{from_utf8}
use libunftp.Command.{Command}
use libunftp.ControlError.{ControlChanErrorKind, utf8_error, illegal_state}
use libunftp.Reply.{ReplyCode}
use libunftp.Server.Options
use libunftp.Server.Options.{
  FtpsRequired, all, accounts, ActivePassiveMode, active_only, passive_only,
}
use libunftp.Server.Session.{Session}
use libunftp.Server.Messages.{Event, command}
use libunftp.Server.Handled.{Config, Env, Handled, reply, fail}
use libunftp.Server.Middleware.{
  Next, primary, active_passive, is_exempt, is_wait_cmd, auth_check, ftps_control, control_all,
  control_plain, ftps_data, if_anonymous, anonymous_in, event_chain, refused_control, refused_data,
  pasv_account, pass_plain,
}

module _ {User : Type 0} (P : Handled User → Type 0) (s : Session User)
    (replies : (code : ReplyCode) (message : String) → P (reply code message s))
    (fails : (kind : ControlChanErrorKind) → P (fail kind s)) where
  either : (b : Bool) {x y : Handled User} → P x → P y → P (if b then x else y)
  either true h k = h
  either false h k = k

  anonymous_in-passes :
      (name : Option Bytes) {x y : Handled User} → P x → P y → P (anonymous_in name x y s)
  unfolding anonymous_in
  anonymous_in-passes none h k = fails utf8_error
  anonymous_in-passes (some name) h k = either (bytes_eq name (text "anonymous")) h k

  if_anonymous-passes :
      (username : Bytes) {x y : Handled User} → P x → P y → P (if_anonymous username x y s)
  unfolding if_anonymous
  if_anonymous-passes username h k = anonymous_in-passes (from_utf8 username) h k

  refused_control-passes : P (refused_control s)
  unfolding refused_control
  refused_control-passes = replies _ _

  refused_data-passes : P (refused_data s)
  unfolding refused_data
  refused_data-passes = replies _ _

  active_passive-passes :
      (next : Next User) (mode : ActivePassiveMode) (event : Event)
      → P (next event s)
      → P (active_passive next mode event s)
  unfolding active_passive
  active_passive-passes next passive_only (command (Command.port addr)) h = replies _ _
  active_passive-passes next active_only (command Command.pasv) h = replies _ _
  active_passive-passes next mode event h = h

  auth_check-passes :
      (next : Next User) (event : Event) → P (next event s) → P (auth_check next event s)
  unfolding auth_check
  auth_check-passes next event h =
      either (is_exempt event) h (either (is_wait_cmd s.state) h (replies _ _))

  control_all-passes :
      (next : Next User) (event : Event) → P (next event s) → P (control_all next event s)
  unfolding control_all
  control_all-passes next (command Command.ccc) h = replies _ _
  control_all-passes next (command (Command.user username)) h =
      either s.cmd_tls h refused_control-passes
  control_all-passes next (command (Command.pass password)) h =
      either s.cmd_tls h refused_control-passes
  control_all-passes next event h = h

  pass_plain-passes :
      (next : Next User) (password : Bytes) (username : Option Bytes)
      → P (next (command (Command.pass password)) s)
      → P (pass_plain next password s username)
  unfolding pass_plain
  pass_plain-passes next password none h = fails illegal_state
  pass_plain-passes next password (some username) h =
      if_anonymous-passes username h refused_control-passes

  control_plain-passes :
      (next : Next User) (event : Event) → P (next event s) → P (control_plain next event s)
  unfolding control_plain
  control_plain-passes next (command (Command.user username)) h =
      if_anonymous-passes username h refused_control-passes
  control_plain-passes next (command (Command.pass password)) h =
      pass_plain-passes next password s.username h
  control_plain-passes next event h = h

  ftps_control-passes :
      (next : Next User) (required : FtpsRequired) (event : Event)
      → P (next event s)
      → P (ftps_control next required event s)
  unfolding ftps_control
  ftps_control-passes next Options.FtpsRequired.none event h = h
  ftps_control-passes next all event h = control_all-passes next event h
  ftps_control-passes next accounts event h = either s.cmd_tls h (control_plain-passes next event h)

  pasv_account-passes :
      (next : Next User) (username : Option Bytes)
      → P (next (command Command.pasv) s)
      → P (pasv_account next s username)
  unfolding pasv_account
  pasv_account-passes next none h = fails illegal_state
  pasv_account-passes next (some username) h =
      if_anonymous-passes username h (either s.cmd_tls h refused_data-passes)

  ftps_data-passes :
      (next : Next User) (required : FtpsRequired) (event : Event)
      → P (next event s)
      → P (ftps_data next required event s)
  unfolding ftps_data
  ftps_data-passes next all (command Command.pasv) h = either s.data_tls h refused_data-passes
  ftps_data-passes next accounts (command Command.pasv) h = pasv_account-passes next s.username h
  ftps_data-passes next _ event h = h

  pub event_chain-passes :
      (env : Env User) (config : Config) (event : Event)
      → P (primary env config event s)
      → P (event_chain env config event s)
  unfolding event_chain
  event_chain-passes env config event h = ftps_data-passes _ config.ftps_required_data_chan event (
      ftps_control-passes _ config.ftps_required_control_chan event
        (auth_check-passes _ event (active_passive-passes _ config.active_passive_mode event h)))
