-- ===== src/Server/Session.antt =====
-- src/server/session.rs: the state of one connection. A channel of the data connection is a number;
-- the storage, the logs and the metrics are left out, and the proxy's addresses are in Proxy.
use libunftp.Prelude.{ℕ, Bytes, Bool, false, Option, none, List, [], ◌∷◌}
use libunftp.Std.FilePath.{FilePath}

pub data SessionState : Type 0 where
  new wait_pass wait_cmd : SessionState

pub record Session (User : Type 0) : Type 0 where
  pub user : Option User
  pub username : Option Bytes
  pub data_cmd_tx : Option ℕ
  pub data_cmd_rx : Option ℕ
  pub data_abort_tx : Option ℕ
  pub data_abort_rx : Option ℕ
  pub source_ip : ℕ
  pub cwd : FilePath
  pub rename_from : Option FilePath
  pub state : SessionState
  pub ftps_config : Bool
  pub cmd_tls : Bool
  pub data_tls : Bool
  pub start_pos : ℕ
  pub data_busy : Bool
  pub cert_chain : Option (List Bytes)

-- `Session::new` and `ftps`.
abbrev pub start : {User : Type 0} → ℕ → Bool → Session User
start source_ip ftps_config = record {
  user = none;
  username = none;
  data_cmd_tx = none;
  data_cmd_rx = none;
  data_abort_tx = none;
  data_abort_rx = none;
  source_ip = source_ip;
  cwd = b'/' ∷ [];
  rename_from = none;
  state = new;
  ftps_config = ftps_config;
  cmd_tls = false;
  data_tls = false;
  start_pos = 0;
  data_busy = false;
  cert_chain = none;
}
