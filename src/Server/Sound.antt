-- ===== src/Server/Sound.antt =====
-- The invariant of a session, and what every handler leaves of it.
use libunftp.Prelude.{◌≡◌, Bool, true, false, ◌&&◌, Option, none, some, All}
use libunftp.Std.FilePath.{is_absolute}
use libunftp.Server.Options.{FtpsRequired, all}
use libunftp.Server.Session.{Session, SessionState, new, wait_pass, wait_cmd}
use libunftp.Server.Messages.{ControlChanMsg, auth_success, plaintext_control_channel}
use libunftp.Server.Handled.{Task, log_in, send, Handled}

abbrev pub is_some : {A : Type 0} → Option A → Bool
is_some none = false
is_some (some a) = true

-- Who has logged in is known: a password is awaited for a name, and commands from a user with a name.
abbrev pub ready : SessionState → Bool → Bool → Bool
ready new has_user has_name = true
ready wait_pass has_user has_name = has_name
ready wait_cmd has_user has_name = has_user && has_name

abbrev pub tls_ok : FtpsRequired → Bool → Bool
tls_ok all tls = tls
tls_ok _ tls = true

-- Where all users must use TLS, nobody begins to log in without it.
abbrev pub secure : FtpsRequired → SessionState → Bool → Bool
secure required new tls = true
secure required _ tls = tls_ok required tls

abbrev pub imp : Bool → Bool → Bool
imp true b = b
imp false b = true

-- What is never taken back.
pub record Grows {User : Type 0} (s s' : Session User) : Type 0 where
  pub user : imp (is_some s.user) (is_some s'.user) ≡ true
  pub username : imp (is_some s.username) (is_some s'.username) ≡ true
  pub tls : imp s.cmd_tls s'.cmd_tls ≡ true

module _ {User : Type 0} (required : FtpsRequired) where
  pub record IsSound (s : Session User) : Type 0 where
    pub rooted : is_absolute s.cwd ≡ true
    pub known : ready s.state (is_some s.user) (is_some s.username) ≡ true
    pub secured : secure required s.state s.cmd_tls ≡ true

  -- What a message or a task on its way relies on.
  abbrev pub msg_ok : Session User → ControlChanMsg → Bool
  msg_ok s (auth_success name) = is_some s.user && (is_some s.username && tls_ok required s.cmd_tls)
  msg_ok s plaintext_control_channel = false
  msg_ok s _ = true

  abbrev pub task_ok : Session User → Task User → Bool
  task_ok s (log_in name creds) = is_some s.username && tls_ok required s.cmd_tls
  task_ok s (send msg) = msg_ok s msg
  task_ok s _ = true

  pub record IsGood (s : Session User) (h : Handled User) : Type 0 where
    pub sound : IsSound h.session
    pub grows : Grows s h.session
    pub sent : All (λ m. msg_ok h.session m ≡ true) h.sent
    pub tasks : All (λ t. task_ok h.session t ≡ true) h.tasks
