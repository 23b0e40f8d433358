-- ===== src/Server/Middleware/Gate.antt =====
-- What the middleware lets through, and that it keeps a session sound.
use libunftp.Prelude.{
  String, Bytes, ◌≡◌, ◌≢◌, ◌⊎◌, inl, inr, refl, Bool, true, false, Option, none, some, text,
  if◌then◌else◌, bytes_eq,
}
use libunftp.Std.Utf8.{from_utf8}
use libunftp.Command.{Command, utf8}
use libunftp.ControlError.{ControlChanErrorKind, utf8_error, illegal_state}
use libunftp.Reply.{not_logged_in, ftps_required, ReplyCode}
use libunftp.Server.Options.{
  FtpsRequired, all, accounts, ActivePassiveMode, active_only, passive_only, active_and_passive,
}
use libunftp.Server.Options
use libunftp.Server.Session.{Session, SessionState, new, wait_pass, wait_cmd}
use libunftp.Server.Messages.{Event, command}
use libunftp.Server.Handled.{Config, Env, Handled, reply, fail}
use libunftp.Server.Middleware.{
  Next, is_exempt, is_wait_cmd, auth_check, ftps_control, control_plain, ftps_data, if_anonymous,
  anonymous_in, event_chain, refused_control, refused_data, pasv_account,
}

-- The event was not handled: nothing is changed, sent or spawned, and the client is refused for want
-- of a login or of TLS, or the connection is closed.
pub data IsRefused {User : Type 0} (s : Session User) (h : Handled User) : Type 0 where
  replied :
      (code : ReplyCode) (message : String)
      → (code ≡ not_logged_in) ⊎ (code ≡ ftps_required)
      → h ≡ reply code message s
      → IsRefused s h
  broken : (kind : ControlChanErrorKind) → h ≡ fail kind s → IsRefused s h

is_wait_cmd-false : (state : SessionState) → state ≢ wait_cmd → is_wait_cmd state ≡ false
unfolding is_wait_cmd
is_wait_cmd-false new h = refl
is_wait_cmd-false wait_pass h = refl
is_wait_cmd-false wait_cmd h = absurd (h refl)

module _ {User : Type 0} where
  IsRefused-if :
      (b : Bool) {s : Session User} {x y : Handled User}
      → IsRefused s x
      → IsRefused s y
      → IsRefused s (if b then x else y)
  IsRefused-if true h k = h
  IsRefused-if false h k = k

  refused_control-IsRefused : (s : Session User) → IsRefused s (refused_control s)
  unfolding refused_control
  refused_control-IsRefused s =
      replied ftps_required "A TLS connection is required on the control channel" (inr refl) refl

  refused_data-IsRefused : (s : Session User) → IsRefused s (refused_data s)
  unfolding refused_data
  refused_data-IsRefused s =
      replied ftps_required "A TLS connection is required on the data channel" (inr refl) refl

  anonymous_in-IsRefused :
      (name : Option Bytes) (s : Session User) {x y : Handled User}
      → IsRefused s x
      → IsRefused s y
      → IsRefused s (anonymous_in name x y s)
  unfolding anonymous_in
  anonymous_in-IsRefused none s h k = broken utf8_error refl
  anonymous_in-IsRefused (some name) s h k = IsRefused-if (bytes_eq name (text "anonymous")) h k

  if_anonymous-IsRefused :
      (username : Bytes) (s : Session User) {x y : Handled User}
      → IsRefused s x
      → IsRefused s y
      → IsRefused s (if_anonymous username x y s)
  unfolding if_anonymous
  if_anonymous-IsRefused username s h k = anonymous_in-IsRefused (from_utf8 username) s h k

module _ {User : Type 0} (next : Next User) where
  auth_check-IsRefused :
      (event : Event) (s : Session User)
      → is_exempt event ≡ false
      → s.state ≢ wait_cmd
      → IsRefused s (auth_check next event s)
  unfolding auth_check
  auth_check-IsRefused event s e h =
      replied not_logged_in "Please authenticate" (inl refl)
        (simp (auth_check, e, is_wait_cmd-false s.state h))

  control_plain-IsRefused :
      (c : Command) (s : Session User)
      → is_exempt (command c) ≡ false
      → IsRefused s (next (command c) s)
      → IsRefused s (control_plain next (command c) s)
  unfolding control_plain is_exempt
  control_plain-IsRefused (Command.user username) s e h = cc
  control_plain-IsRefused (Command.pass password) s e h = cc
  control_plain-IsRefused _ s e h = h

  ftps_control-IsRefused :
      (required : FtpsRequired) (c : Command) (s : Session User)
      → is_exempt (command c) ≡ false
      → IsRefused s (next (command c) s)
      → IsRefused s (ftps_control next required (command c) s)
  unfolding ftps_control is_exempt
  ftps_control-IsRefused Options.FtpsRequired.none c s e h = h
  ftps_control-IsRefused all (Command.user username) s e h = cc
  ftps_control-IsRefused all (Command.pass password) s e h = cc
  ftps_control-IsRefused all Command.ccc s e h =
      replied ftps_required "Cannot downgrade connection, TLS enforced." (inr refl) refl
  ftps_control-IsRefused all _ s e h = h
  ftps_control-IsRefused accounts c s e h =
      IsRefused-if s.cmd_tls h (control_plain-IsRefused c s e h)

  pasv_account-IsRefused :
      (username : Option Bytes) (s : Session User)
      → IsRefused s (next (command Command.pasv) s)
      → IsRefused s (pasv_account next s username)
  unfolding pasv_account
  pasv_account-IsRefused none s h = broken illegal_state refl
  pasv_account-IsRefused (some username) s h =
      if_anonymous-IsRefused username s h (IsRefused-if s.cmd_tls h (refused_data-IsRefused s))

  ftps_data-IsRefused :
      (required : FtpsRequired) (c : Command) (s : Session User)
      → IsRefused s (next (command c) s)
      → IsRefused s (ftps_data next required (command c) s)
  unfolding ftps_data
  ftps_data-IsRefused all Command.pasv s h = IsRefused-if s.data_tls h (refused_data-IsRefused s)
  ftps_data-IsRefused accounts Command.pasv s h = pasv_account-IsRefused s.username s h
  ftps_data-IsRefused _ _ s h = h

-- All commands but those by which a client logs in, secures its connection, asks what the server can
-- do, or leaves.
abbrev pub NeedsLogin : Command → Type 0
NeedsLogin Command.help = ⊥
NeedsLogin (Command.user username) = ⊥
NeedsLogin (Command.pass password) = ⊥
NeedsLogin (Command.auth protocol) = ⊥
NeedsLogin (Command.prot param) = ⊥
NeedsLogin Command.pbsz = ⊥
NeedsLogin Command.feat = ⊥
NeedsLogin Command.noop = ⊥
NeedsLogin (Command.opts (utf8 on)) = ⊥
NeedsLogin Command.quit = ⊥
NeedsLogin _ = Unit

is_exempt-NeedsLogin : (c : Command) → NeedsLogin c → is_exempt (command c) ≡ false
unfolding is_exempt
is_exempt-NeedsLogin Command.help h = absurd h
is_exempt-NeedsLogin (Command.user username) h = absurd h
is_exempt-NeedsLogin (Command.pass password) h = absurd h
is_exempt-NeedsLogin (Command.auth protocol) h = absurd h
is_exempt-NeedsLogin (Command.prot param) h = absurd h
is_exempt-NeedsLogin Command.pbsz h = absurd h
is_exempt-NeedsLogin Command.feat h = absurd h
is_exempt-NeedsLogin Command.noop h = absurd h
is_exempt-NeedsLogin (Command.opts (utf8 on)) h = absurd h
is_exempt-NeedsLogin Command.quit h = absurd h
is_exempt-NeedsLogin _ h = refl

module _ {User : Type 0} (env : Env User) (config : Config) where
  pub is_exempt-IsRefused :
      (c : Command) (s : Session User)
      → is_exempt (command c) ≡ false
      → s.state ≢ wait_cmd
      → IsRefused s (event_chain env config (command c) s)
  unfolding event_chain
  is_exempt-IsRefused c s e h = ftps_data-IsRefused _ config.ftps_required_data_chan c s (
      ftps_control-IsRefused _ config.ftps_required_control_chan c s e
        (auth_check-IsRefused _ (command c) s e h))

  -- Whatever the configuration, a command other than HELP, USER, PASS, AUTH, PROT, PBSZ, FEAT, NOOP,
  -- OPTS UTF8 and QUIT that comes before a login is refused: the session is as before, no message is
  -- sent and no task is spawned.
  pub event_chain-IsRefused :
      (c : Command) (s : Session User)
      → NeedsLogin c
      → s.state ≢ wait_cmd
      → IsRefused s (event_chain env config (command c) s)
  event_chain-IsRefused c s e h = is_exempt-IsRefused c s (is_exempt-NeedsLogin c e) h
