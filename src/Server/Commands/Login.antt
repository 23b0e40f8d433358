-- ===== src/Server/Commands/Login.antt =====
-- src/server/controlchan/commands/{user,pass,acct,auth,prot,pbsz,ccc,quit}.rs
use libunftp.Prelude.{Bytes, Bool, true, false, Option, none, some, List, [], ◌∷◌}
use libunftp.Std.Utf8.{from_utf8}
use libunftp.Command.{AuthParam, ssl, tls, ProtParam, clear, private_}
use libunftp.ControlError.{utf8_error}
use libunftp.Reply
use libunftp.Reply.{
  need_password, bad_command_sequence, not_logged_in, user_logged_in_via_cert,
  auth_okay_no_data_needed, command_okay, command_not_implemented,
  command_not_implemented_for_parameter, closing_control_connection,
}
use libunftp.Server.Session.{Session, SessionState, new, wait_pass, wait_cmd}
use libunftp.Server.Messages.{exit_control_loop, secure_control_channel}
use libunftp.Server.Handled.{
  Config, Credentials, Env, AuthResult, authenticated, Enter, entered, enter_failed, storage_shared,
  log_in, send, Handled, reply, spawning, sending, fail,
}

module _ {User : Type 0} (env : Env User) (config : Config) where
  abbrev credentials : Option Bytes → Session User → Credentials
  credentials password s = record {
    password = password;
    certificate_chain = s.cert_chain;
    source_ip = s.source_ip;
  }

  user_entered : Bytes → User → Session User → Enter → Handled User
  user_entered name detail s enter_failed = reply not_logged_in "Invalid credentials" s
  user_entered name detail s storage_shared = reply not_logged_in "Temporarily unavailable" s
  user_entered name detail s entered =
      reply user_logged_in_via_cert "User logged in"
        (record s { user = some detail; username = some name; state = wait_cmd })

  user_by_cert : Bytes → Session User → AuthResult User → Handled User
  user_by_cert name s (authenticated detail) = user_entered name detail s (env.enter detail)
  user_by_cert name s _ = reply not_logged_in "Invalid credentials" s

  ask_password : Bytes → Session User → Handled User
  ask_password name s =
      reply need_password "Password Required" (record s { username = some name; state = wait_pass })

  -- The `match` on the state, the client's certificates, and whether they suffice.
  user_in : Bytes → Session User → SessionState → Option (List Bytes) → Bool → Handled User
  user_in name s new (some certs) true =
      user_by_cert name s (env.authenticate name (credentials none s))
  user_in name s new (some certs) false = ask_password name s
  user_in name s new none sufficient = ask_password name s
  user_in name s _ certs sufficient =
      reply bad_command_sequence "Please create a new connection to switch user" s

  unfoldable pub user : Bytes → Session User → Handled User
  unfolding user_in user_by_cert user_entered ask_password
  user username s = elim (from_utf8 username) [
    | none ↦ fail utf8_error s
    | some name ↦ user_in name s s.state s.cert_chain (env.cert_auth_sufficient name)
  ]

  -- PASS leaves the authentication to a task.
  pass_in : Session User → Option Bytes → Option Bytes → Handled User
  pass_in s none name = fail utf8_error s
  pass_in s (some password) none =
      reply not_logged_in "Please open a new connection to re-authenticate" s
  pass_in s (some password) (some name) =
      spawning Reply.none (log_in name (credentials (some password) s) ∷ []) s

  unfoldable pub pass : Bytes → Session User → Handled User
  unfolding pass_in
  pass password s = elim s.state [
    | wait_pass ↦ pass_in s (from_utf8 password) s.username
    | new ↦ reply bad_command_sequence "Please supply a username first" s
    | wait_cmd ↦ reply not_logged_in "Please open a new connection to re-authenticate" s
  ]

  unfoldable pub acct : Session User → Handled User
  acct s = reply not_logged_in "Rejected" s

  auth_in : Session User → Bool → AuthParam → Handled User
  auth_in s true tls =
      spawning (Reply.new auth_okay_no_data_needed "Upgrading to TLS")
        (send secure_control_channel ∷ []) s
  auth_in s true ssl = reply command_not_implemented_for_parameter "Auth SSL not implemented" s
  auth_in s false protocol = reply command_not_implemented "TLS/SSL not configured" s

  unfoldable pub auth : AuthParam → Session User → Handled User
  unfolding auth_in
  auth protocol s = auth_in s config.tls_configured protocol

  prot_in : Session User → Bool → ProtParam → Handled User
  prot_in s true clear =
      reply command_okay "PROT OK. Switching data channel to plaintext"
        (record s { data_tls = false })
  prot_in s true private_ =
      reply command_okay "PROT OK. Securing data channel" (record s { data_tls = true })
  prot_in s true _ = reply command_not_implemented_for_parameter "PROT S/E not implemented" s
  prot_in s false param = reply command_not_implemented "TLS/SSL not configured" s

  unfoldable pub prot : ProtParam → Session User → Handled User
  unfolding prot_in
  prot param s = prot_in s config.tls_configured param

  unfoldable pub pbsz : Session User → Handled User
  pbsz s = reply command_okay "OK" s

  unfoldable pub ccc : Session User → Handled User
  ccc s = reply command_not_implemented "CCC not implemented" s

  -- The message is sent before the handler returns.
  unfoldable pub quit : Session User → Handled User
  quit s = sending (Reply.new closing_control_connection "Bye!") (exit_control_loop ∷ []) s
