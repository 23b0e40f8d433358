-- ===== src/Server/Middleware/Keeping.antt =====
-- The middleware and the handlers behind it keep a session sound.
use libunftp.Prelude.{
  Bytes, ◌≡◌, Bool, true, false, Option, none, some, arith, refl, text, if◌then◌else◌, bytes_eq,
  String,
}
use libunftp.Std.Utf8.{from_utf8}
use libunftp.Command.{Command}
use libunftp.ControlError.{ControlChanErrorKind, utf8_error}
use libunftp.Reply.{ReplyCode}
use libunftp.Server.Options
use libunftp.Server.Options.{
  FtpsRequired, all, accounts, ActivePassiveMode, active_only, passive_only, active_and_passive,
}
use libunftp.Server.Session.{Session}
use libunftp.Server.Messages.{Event, command, internal_msg, ControlChanMsg}
use libunftp.Server.Handled.{Config, Env, Handled, reply, fail}
use libunftp.Server.Internal.{handle_internal_msg, storage_reply}
use libunftp.Server.Middleware.{
  Next, primary, active_passive, is_exempt, is_wait_cmd, auth_check, ftps_control, control_all,
  control_plain, ftps_data, if_anonymous, anonymous_in, event_chain, refused_control, refused_data,
  pasv_account, pass_plain,
}
use libunftp.Server.Sound.{IsSound, IsGood, msg_ok, tls_ok}
use libunftp.Server.Commands.Keeping.{IsAllowed, handle_command-IsGood}

module _ {User : Type 0} (required : FtpsRequired) where
  -- What is known of an event before the middleware sees it, and behind it.
  abbrev pub IsFit : Event → Session User → Type 0
  IsFit (command c) s = Unit
  IsFit (internal_msg msg) s = msg_ok required s msg ≡ true

  abbrev pub IsAdmitted : Event → Session User → Type 0
  IsAdmitted (command c) s = IsAllowed required c s
  IsAdmitted (internal_msg msg) s = msg_ok required s msg ≡ true

  abbrev pub Keeps : Next User → Type 0
  Keeps next =
      (event : Event) (s : Session User)
      → IsSound required s
      → IsAdmitted event s
      → IsGood required s (next event s)

  handle_internal_msg-IsGood :
      (msg : ControlChanMsg) (s : Session User)
      → IsSound required s
      → msg_ok required s msg ≡ true
      → IsGood required s (handle_internal_msg msg s)
  unfolding handle_internal_msg storage_reply
  handle_internal_msg-IsGood msg s h k = ground arith

  IsGood-if :
      (b : Bool) {s : Session User} {x y : Handled User}
      → (b ≡ true → IsGood required s x)
      → IsGood required s y
      → IsGood required s (if b then x else y)
  IsGood-if true h k = h refl
  IsGood-if false h k = k

  reply-IsGood :
      (code : ReplyCode) (message : String) (s : Session User)
      → IsSound required s
      → IsGood required s (reply code message s)
  reply-IsGood code message s h = ground arith

  fail-IsGood :
      (kind : ControlChanErrorKind) (s : Session User)
      → IsSound required s
      → IsGood required s (fail kind s)
  fail-IsGood kind s h = ground arith

  refused_control-IsGood :
      (s : Session User) → IsSound required s → IsGood required s (refused_control s)
  unfolding refused_control
  refused_control-IsGood s h = reply-IsGood _ _ s h

  refused_data-IsGood : (s : Session User) → IsSound required s → IsGood required s (refused_data s)
  unfolding refused_data
  refused_data-IsGood s h = reply-IsGood _ _ s h

  anonymous_in-IsGood :
      (name : Option Bytes) (s : Session User) {x y : Handled User}
      → IsSound required s
      → IsGood required s x
      → IsGood required s y
      → IsGood required s (anonymous_in name x y s)
  unfolding anonymous_in
  anonymous_in-IsGood none s r h k = fail-IsGood utf8_error s r
  anonymous_in-IsGood (some name) s r h k = IsGood-if (bytes_eq name (text "anonymous")) (λ e. h) k

  if_anonymous-IsGood :
      (username : Bytes) (s : Session User) {x y : Handled User}
      → IsSound required s
      → IsGood required s x
      → IsGood required s y
      → IsGood required s (if_anonymous username x y s)
  unfolding if_anonymous
  if_anonymous-IsGood username s r h k = anonymous_in-IsGood (from_utf8 username) s r h k

module _ {User : Type 0} (env : Env User) (config : Config) (required : FtpsRequired) where
  primary-IsGood : Keeps required (primary env config)
  unfolding primary
  primary-IsGood (command c) s h k = handle_command-IsGood env config required c s h k
  primary-IsGood (internal_msg msg) s h k = handle_internal_msg-IsGood required msg s h k

module _ {User : Type 0} (required : FtpsRequired) (next : Next User)
    (keeps : Keeps required next) where
  active_passive-IsGood : (mode : ActivePassiveMode) → Keeps required (active_passive next mode)
  unfolding active_passive
  active_passive-IsGood passive_only (command (Command.port addr)) s h k =
      reply-IsGood required _ _ s h
  active_passive-IsGood active_only (command Command.pasv) s h k = reply-IsGood required _ _ s h
  active_passive-IsGood mode event s h k = keeps event s h k

  auth_check-IsGood : Keeps required (auth_check next)
  unfolding auth_check
  auth_check-IsGood event s h k =
      IsGood-if required (is_exempt event) (λ e. keeps event s h k)
        (IsGood-if required (is_wait_cmd s.state) (λ e. keeps event s h k)
          (reply-IsGood required _ _ s h))

  control_all-IsGood :
      required ≡ all
      → (event : Event) (s : Session User) → IsSound required s
      → IsFit required event s
      → IsGood required s (control_all next event s)
  unfolding control_all
  control_all-IsGood e (internal_msg msg) s h k = keeps (internal_msg msg) s h k
  control_all-IsGood e (command (Command.user username)) s h k =
      IsGood-if required s.cmd_tls (λ tls. keeps (command (Command.user username)) s h (rw e tls))
        (refused_control-IsGood required s h)
  control_all-IsGood e (command (Command.pass password)) s h k =
      IsGood-if required s.cmd_tls (λ tls. keeps (command (Command.pass password)) s h (rw e tls))
        (refused_control-IsGood required s h)
  control_all-IsGood e (command Command.ccc) s h k = reply-IsGood required _ _ s h
  control_all-IsGood e (command c) s h k = keeps (command c) s h k

  module _ (free : (b : Bool) → tls_ok required b ≡ true) where
    admitted :
        (event : Event) (s : Session User) → IsFit required event s → IsAdmitted required event s
    admitted (internal_msg msg) s k = k
    admitted (command (Command.user username)) s k = free s.cmd_tls
    admitted (command (Command.pass password)) s k = free s.cmd_tls
    admitted (command c) s k = k

    pass_plain-IsGood :
        (password : Bytes) (s : Session User) (username : Option Bytes)
        → IsSound required s
        → IsGood required s (pass_plain next password s username)
    unfolding pass_plain
    pass_plain-IsGood password s none h = fail-IsGood required _ s h
    pass_plain-IsGood password s (some username) h =
        if_anonymous-IsGood required username s h
          (keeps (command (Command.pass password)) s h (free s.cmd_tls))
          (refused_control-IsGood required s h)

    control_plain-IsGood :
        (event : Event) (s : Session User)
        → IsSound required s
        → IsFit required event s
        → IsGood required s (control_plain next event s)
    unfolding control_plain
    control_plain-IsGood (internal_msg msg) s h k = keeps (internal_msg msg) s h k
    control_plain-IsGood (command (Command.user username)) s h k =
        if_anonymous-IsGood required username s h
          (keeps (command (Command.user username)) s h (free s.cmd_tls))
          (refused_control-IsGood required s h)
    control_plain-IsGood (command (Command.pass password)) s h k =
        pass_plain-IsGood password s s.username h
    control_plain-IsGood (command c) s h k = keeps (command c) s h k

module _ {User : Type 0} where
  ftps_control-IsGood :
      (required : FtpsRequired) (next : Next User)
      → Keeps required next
      → (event : Event) (s : Session User) → IsSound required s
      → IsFit required event s
      → IsGood required s (ftps_control next required event s)
  unfolding ftps_control
  ftps_control-IsGood Options.FtpsRequired.none next keeps event s h k =
      keeps event s h (admitted _ next keeps (λ b. refl) event s k)
  ftps_control-IsGood all next keeps event s h k =
      control_all-IsGood all next keeps refl event s h k
  ftps_control-IsGood accounts next keeps event s h k =
      IsGood-if accounts s.cmd_tls
        (λ tls. keeps event s h (admitted _ next keeps (λ b. refl) event s k))
        (control_plain-IsGood _ next keeps (λ b. refl) event s h k)

module _ {User : Type 0} (required : FtpsRequired) (next : Next User)
    (keeps : (event : Event) (s : Session User)
      → IsSound required s
      → IsFit required event s
      → IsGood required s (next event s)) where
  pasv_account-IsGood :
      (username : Option Bytes) (s : Session User)
      → IsSound required s
      → IsGood required s (pasv_account next s username)
  unfolding pasv_account
  pasv_account-IsGood none s h = fail-IsGood required _ s h
  pasv_account-IsGood (some username) s h =
      if_anonymous-IsGood required username s h (keeps (command Command.pasv) s h tt) (
        IsGood-if required s.cmd_tls (λ tls. keeps (command Command.pasv) s h tt)
          (refused_data-IsGood required s h))

  ftps_data-IsGood :
      (requirement : FtpsRequired) (event : Event) (s : Session User)
      → IsSound required s
      → IsFit required event s
      → IsGood required s (ftps_data next requirement event s)
  unfolding ftps_data
  ftps_data-IsGood all (command Command.pasv) s h k =
      IsGood-if required s.data_tls (λ tls. keeps (command Command.pasv) s h tt)
        (refused_data-IsGood required s h)
  ftps_data-IsGood accounts (command Command.pasv) s h k = pasv_account-IsGood s.username s h
  ftps_data-IsGood _ event s h k = keeps event s h k

module _ {User : Type 0} (env : Env User) (config : Config) where
  -- Any event, if what an internal message relies on is so, leaves a sound session sound after all of
  -- the middleware and the handlers; the user, the user name and TLS are not taken back; and what is
  -- sent and spawned relies on nothing that the session does not have.
  pub event_chain-IsGood :
      (event : Event) (s : Session User)
      → IsSound config.ftps_required_control_chan s
      → IsFit config.ftps_required_control_chan event s
      → IsGood config.ftps_required_control_chan s (event_chain env config event s)
  unfolding event_chain
  event_chain-IsGood event s h k =
      ftps_data-IsGood _ _
        (ftps_control-IsGood _ _ (
          auth_check-IsGood _ _
            (active_passive-IsGood _ _ (primary-IsGood env config _) config.active_passive_mode)))
        config.ftps_required_data_chan event s h k
