-- ===== src/Server/Handled.antt =====
-- What a handler of src/server/controlchan/handler.rs is given, and what it does: its result, the
-- session it leaves, the messages that it sends to the control loop itself, and the tasks it spawns.
use libunftp.Prelude.{ℕ, String, Bytes, Bool, Option, List, []}
use libunftp.Prelude.Result.{Result}
use libunftp.Std.FilePath.{FilePath}
use libunftp.ControlError.{ControlChanErrorKind}
use libunftp.Reply.{Reply, ReplyCode, new}
use libunftp.Server.Options.{FtpsRequired, SiteMd5, ActivePassiveMode, PassiveHost, PortRange, Ipv4}
use libunftp.Server.Commands.Transfer.PortRange.{Round}
use libunftp.Server.Session.{Session}
use libunftp.Server.Messages.{ErrorKind, DataChanCmd, ControlChanMsg}

-- `CommandContext` and the settings of the middleware, as far as the handlers read them. A local
-- address of IP version 6 is `none`.
pub record Config : Type 0 where
  pub tls_configured : Bool
  pub passive_host : PassiveHost
  pub passive_ports : PortRange
  pub local_addr : Option Ipv4
  pub storage_features : ℕ
  pub proxy_mode : Bool
  pub sitemd5 : SiteMd5
  pub ftps_required_control_chan : FtpsRequired
  pub ftps_required_data_chan : FtpsRequired
  pub active_passive_mode : ActivePassiveMode

pub record Credentials : Type 0 where
  pub password : Option Bytes
  pub certificate_chain : Option (List Bytes)
  pub source_ip : ℕ

-- `AuthenticationError` as PASS tells its cases apart.
pub data AuthResult (User : Type 0) : Type 0 where
  authenticated : User → AuthResult User
  bad_user refused : AuthResult User

-- `Arc::get_mut(&mut session.storage).map(|s| s.enter(&user))`.
pub data Enter : Type 0 where
  entered enter_failed storage_shared : Enter

-- A socket that was bound listens, with the port that it tells; or `listen` fails, or `local_addr`.
pub data Listening : Type 0 where
  listening : ℕ → Listening
  no_listener no_local_addr : Listening

-- What the world outside answers while one handler or one task runs: the authenticator, the user
-- detail, the storage back-end, the resolver, a binder of the session, if it has one, the sockets, and
-- whether the loop of the proxy mode still takes messages.
pub record Env (User : Type 0) : Type 0 where
  pub cert_auth_sufficient : Bytes → Bool
  pub authenticate : Bytes → Credentials → AuthResult User
  pub account_enabled : User → Bool
  pub enter : User → Enter
  pub cwd : User → FilePath → Option ErrorKind
  pub rmd : User → FilePath → Option ErrorKind
  pub mkd : User → FilePath → Option ErrorKind
  pub del : User → FilePath → Option ErrorKind
  pub rename : User → FilePath → FilePath → Option ErrorKind
  pub binder : Option (PortRange → Option ℕ)
  pub rounds : ℕ → Round
  pub listen : (port : ℕ) → Listening
  pub proxy_loop : Bool
  pub connect : Ipv4 → ℕ → Bool
  pub file_len : User → FilePath → Result ErrorKind ℕ
  pub modified_at : User → FilePath → Result ErrorKind Bytes
  pub md5 : User → FilePath → Result ErrorKind Bytes
  pub list_vec : User → Bytes → Option (List Bytes)
  pub accept_tls : Option (Option (List Bytes))
  pub now : ℕ
  pub lookup_host : Bytes → Option Ipv4
  pub channel : ℕ
  pub abort_channel : ℕ
  pub uuid : Bytes
  pub version : Bytes
  pub storage_name : Bytes
  pub authenticator_name : Bytes
  pub show_source : ℕ → Bytes
  pub debug_path : Option FilePath → Bytes

pub data Task (User : Type 0) : Type 0 where
  log_in : (username : Bytes) (creds : Credentials) → Task User
  send : ControlChanMsg → Task User
  send_data_cmd : (channel : ℕ) → DataChanCmd → Task User
  send_abort : (channel : ℕ) → Task User
  make_dir : Option User → FilePath → Task User
  delete : Option User → FilePath → Task User
  file_size : Option User → FilePath → Task User
  modified : Option User → FilePath → Task User
  checksum : Option User → FilePath → Task User
  list_status : Option User → Bytes → Task User
  accept_data : Task User
  process_data : Task User

pub data Outcome : Type 0 where
  done : Reply → Outcome
  failed : ControlChanErrorKind → Outcome
  panicked : Outcome

pub record Handled (User : Type 0) : Type 0 where
  pub outcome : Outcome
  pub session : Session User
  pub sent : List (ControlChanMsg)
  pub tasks : List (Task User)

module _ {User : Type 0} where
  -- `Ok(Reply::new(code, message))`, with the session as it is.
  abbrev pub reply : ReplyCode → String → Session User → Handled User
  reply code message s = record {
    outcome = done (new code message);
    session = s;
    sent = [];
    tasks = [];
  }

  abbrev pub answer : Reply → Session User → Handled User
  answer r s = record { outcome = done r; session = s; sent = []; tasks = [] }

  -- `Ok(Reply::none())` with one task spawned, or with one message sent.
  abbrev pub spawning : Reply → List (Task User) → Session User → Handled User
  spawning r ts s = record { outcome = done r; session = s; sent = []; tasks = ts }

  abbrev pub sending : Reply → List ControlChanMsg → Session User → Handled User
  sending r ms s = record { outcome = done r; session = s; sent = ms; tasks = [] }

  abbrev pub fail : ControlChanErrorKind → Session User → Handled User
  fail kind s = record { outcome = failed kind; session = s; sent = []; tasks = [] }

  abbrev pub panic : Session User → Handled User
  panic s = record { outcome = panicked; session = s; sent = []; tasks = [] }
