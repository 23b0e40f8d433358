-- ===== src/Server/Tests.antt =====
-- Connections that run: a server with the user `bob`, whose password is `secret`.
pub mod Connections
pub mod Handlers
pub mod Transfers
pub mod Setup
pub mod Notify
use libunftp.Prelude.{
  ℕ, Bytes, ◌≡◌, ◌≢◌, true, false, Option, none, some, [], ◌∷◌, text, refl, bytes_eq, if◌then◌else◌,
  arith,
}
use libunftp.Prelude.Result.{ok}
use libunftp.Std.FilePath.{is_absolute}
use libunftp.Command.{Command, tls}
use libunftp.FailedLogins.{
  FailedLoginsPolicy, FailedLoginsKey, FailedLoginsEntry, user_and_ip, Cache,
}
use libunftp.FailedLogins.View.{view}
use libunftp.FailedLogins.Lockout.{after_failures}
use libunftp.Reply.{cant_open_data_connection, transient_file_error}
use libunftp.Server.Options.{FtpsRequired, all, SiteMd5, active_and_passive, from_connection, Ipv4}
use libunftp.Server.Session.{wait_pass, new}
use libunftp.Server.Messages.{
  auth_success, auth_failed, secure_control_channel, cwd_success, command,
}
use libunftp.Server.Handled.{
  listening, Config, Env, Credentials, AuthResult, authenticated, bad_user, refused, entered,
  log_in, reply, sending,
}
use libunftp.Server.Middleware.{event_chain}
use libunftp.Server.Middleware.Gate.{IsRefused, event_chain-IsRefused}
use libunftp.Server.Middleware.Keeping.{event_chain-IsGood}
use libunftp.Server.Sound.{IsSound, IsGood, is_some}
use libunftp.Server.Commands.{handle_command}
use libunftp.Server.Commands.Login
use libunftp.Server.Commands.Transfer
use libunftp.Server.Commands.Transfer.{socket_of, port_numbers, host_port}
use libunftp.Server.Commands.Transfer.DataChannel.{
  retr, stor, handle_command-once, socket_of-host_port,
}
use libunftp.Server.Loop.{
  World, stuck, Reach, here, next, take_command, run, deliver, take_message, on_command,
  on_internal_msg, run_task, connected,
}
use libunftp.Server.Tasks.{run_log_in}
use libunftp.Server.Loop.Safety.{Reach-IsSound}
use libunftp.Server.Loop.Room.{on_command-cwd-stuck}
use libunftp.Server.Loop.LogIn
use libunftp.Server.Loop.LogIn.{begun, connected-logged_in}
use libunftp.Server.Commands.Files.{rnfr, rnto}
use libunftp.Reply
use libunftp.Std.FilePath.{join}
use libunftp.Std.Utf8.{from_utf8}
use libunftp.Server.Loop.Lockout.{run_log_in-locked}

abbrev pub check_password : Option Bytes → AuthResult ℕ
check_password none = refused
check_password (some password) =
    if bytes_eq password (text "secret") then authenticated 7 else refused

abbrev pub env : Env ℕ
env = record {
  cert_auth_sufficient = λ name. false;
  authenticate =
      λ name creds. if bytes_eq name (text "bob") then check_password creds.password else bad_user;
  account_enabled = λ u. true;
  enter = λ u. entered;
  cwd = λ u p. none;
  rmd = λ u p. none;
  mkd = λ u p. none;
  del = λ u p. none;
  rename = λ u p q. none;
  binder = none;
  rounds = λ i. record { entropy = true; random = 6; socket = true; bind = λ port. true };
  listen = λ port. listening port;
  proxy_loop = true;
  connect = λ host port. true;
  file_len = λ u p. ok 3;
  modified_at = λ u p. ok (text "20260101000000");
  md5 = λ u p. ok (text "900150983cd24fb0d6963f7d28e17f72");
  list_vec = λ u p. some [];
  accept_tls = some none;
  now = 10;
  lookup_host = λ name. none;
  channel = 1;
  abort_channel = 2;
  uuid = text "f81d4fae";
  version = text "0.20";
  storage_name = text "fs";
  authenticator_name = text "json";
  show_source = λ n. text "127.0.0.1";
  debug_path = λ p. text "None";
}

abbrev pub config : FtpsRequired → Config
config required = record {
  tls_configured = true;
  passive_host = from_connection;
  passive_ports = record { start = 50000; end = 50004 };
  local_addr = some (record { a = 127; b = 0; c = 0; d = 1 });
  storage_features = 3;
  proxy_mode = false;
  sitemd5 = SiteMd5.all;
  ftps_required_control_chan = required;
  ftps_required_data_chan = FtpsRequired.none;
  active_passive_mode = active_and_passive;
}

abbrev pub plain : Config
plain = config FtpsRequired.none

abbrev pub bob : Command
bob = Command.user (text "bob")

abbrev pub secret : Command
secret = Command.pass (text "secret")

abbrev pub bob_creds : Credentials
bob_creds = record { password = some (text "secret"); certificate_chain = none; source_ip = 9 }

-- The connection, while `bob` logs in.
abbrev pub accepted : World ℕ
accepted = connected plain 9 []

abbrev pub named : World ℕ
named = on_command env plain bob accepted

abbrev pub asked : World ℕ
asked = on_command env plain secret named

abbrev pub authenticated_ : World ℕ
authenticated_ = run_task env none [] (log_in (text "bob") bob_creds) [] asked

abbrev pub delivered : World ℕ
delivered = record authenticated_ { queue = auth_success (text "bob") ∷ []; tasks = [] }

abbrev pub logged_in : World ℕ
logged_in = on_internal_msg env plain (auth_success (text "bob")) (record delivered { queue = [] })

-- Opens all that a connection goes through.
pub serving : Unit {0}
unfolding on_command on_internal_msg run_task run_log_in event_chain
    libunftp.Server.Middleware.ftps_data libunftp.Server.Middleware.ftps_control
    libunftp.Server.Middleware.auth_check libunftp.Server.Middleware.active_passive
    libunftp.Server.Middleware.primary handle_command Login.user Login.pass Login.auth bytes_eq text
    libunftp.Std.Utf8.from_utf8 libunftp.Server.Internal.handle_internal_msg
serving = tt

named_test : named.session.state ≡ wait_pass
unfolding serving
named_test = refl

asked_test : asked.tasks ≡ log_in (text "bob") bob_creds ∷ []
unfolding serving
asked_test = refl

logged_in_test : logged_in.session.user ≡ some 7
unfolding serving
logged_in_test = refl

pub accepted-Reach : Reach plain none accepted named
accepted-Reach = next here (take_command env bob accepted refl)

pub logged_in-Reach : Reach plain none accepted logged_in
unfolding serving
logged_in-Reach =
    next
      (next
        (next (next accepted-Reach (take_command env secret named refl))
          (run env [] (log_in (text "bob") bob_creds) [] asked refl))
        (deliver (auth_success (text "bob")) [] [] authenticated_ refl refl))
      (take_message env (auth_success (text "bob")) [] delivered refl refl)

pub logged_in-IsSound : IsSound FtpsRequired.none logged_in.session
logged_in-IsSound = Reach-IsSound plain none 9 [] logged_in logged_in-Reach
