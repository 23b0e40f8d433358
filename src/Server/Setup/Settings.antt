-- ===== src/Server/Setup/Settings.antt =====
-- The settings of src/server/ftpserver.rs, ftpserver/options.rs, ftpserver/chosen.rs and
-- controlchan/control_loop.rs. Authenticators, back-ends, binders and the listeners for notifications
-- are of types that the caller gives; loggers are left out.
use libunftp.Prelude.{ℕ, Bytes, Bool, true, false, Option, List}
use libunftp.FailedLogins.{FailedLoginsPolicy, user_and_ip}
use libunftp.Server.Options.{FtpsRequired, all, SiteMd5, ActivePassiveMode, PassiveHost, PortRange}
use libunftp.Server.Setup.Tls.{FtpsClientAuth, off, require, ServerConfig}

pub data FtpsConfig : Type 0 where
  disabled : FtpsConfig
  building : (certs_file key_file : Bytes) → FtpsConfig
  on : (tls_config : ServerConfig) → FtpsConfig

pub data ProxyMode : Type 0 where
  disabled : ProxyMode
  on : (external_control_port : ℕ) → ProxyMode

-- What the caller gives to a server.
pub record Given : Type 1 where
  pub Storage : Type 0
  pub Authenticator : Type 0
  pub DataListener : Type 0
  pub PresenceListener : Type 0
  pub Indicator : Type 0
  pub Binder : Type 0

-- `From<bool>` of `FtpsRequired` and of `FtpsClientAuth`.
unfoldable pub ftps_required_of : Bool → FtpsRequired
ftps_required_of true = all
ftps_required_of false = FtpsRequired.none

client_auth_of : Bool → FtpsClientAuth
client_auth_of true = require
client_auth_of false = off

abbrev pub default_passive_ports : PortRange
default_passive_ports = record { start = 49152; end = 65535 }

abbrev pub default_idle_session_timeout_secs : ℕ
default_idle_session_timeout_secs = 600

-- `FailedLoginsPolicy::default`, in nanoseconds, and the seconds of `Shutdown::default`.
default_failed_logins_policy : FailedLoginsPolicy
default_failed_logins_policy = record {
  max_attempts = 3;
  expires_after = 120000000000;
  block_by = user_and_ip;
}

default_grace_period : ℕ
default_grace_period = 10

-- V1_2 | RESUMPTION_SESS_ID | RESUMPTION_TICKETS
abbrev pub default_tls_flags : ℕ
default_tls_flags = 25

-- A `shutdown` that never comes is `none`.
pub record ServerBuilder (given : Given) : Type 0 where
  pub storage : given.Storage
  pub greeting : Bytes
  pub authenticator : given.Authenticator
  pub data_listener : given.DataListener
  pub presence_listener : given.PresenceListener
  pub passive_ports : PortRange
  pub passive_host : PassiveHost
  pub collect_metrics : Bool
  pub ftps_mode : FtpsConfig
  pub ftps_required_control_chan : FtpsRequired
  pub ftps_required_data_chan : FtpsRequired
  pub ftps_tls_flags : ℕ
  pub ftps_client_auth : FtpsClientAuth
  pub ftps_trust_store : Bytes
  pub idle_session_timeout : ℕ
  pub proxy_protocol_mode : ProxyMode
  pub site_md5 : SiteMd5
  pub shutdown : Option given.Indicator
  pub failed_logins_policy : Option FailedLoginsPolicy
  pub active_passive_mode : ActivePassiveMode
  pub connection_helper : Option Bytes
  pub connection_helper_args : List Bytes
  pub binder : Option given.Binder

pub record Server (given : Given) : Type 0 where
  pub storage : given.Storage
  pub greeting : Bytes
  pub authenticator : given.Authenticator
  pub data_listener : given.DataListener
  pub presence_listener : given.PresenceListener
  pub passive_ports : PortRange
  pub passive_host : PassiveHost
  pub collect_metrics : Bool
  pub ftps_mode : FtpsConfig
  pub ftps_required_control_chan : FtpsRequired
  pub ftps_required_data_chan : FtpsRequired
  pub idle_session_timeout : ℕ
  pub proxy_protocol_mode : ProxyMode
  pub site_md5 : SiteMd5
  pub shutdown : Option given.Indicator
  pub failed_logins_policy : Option FailedLoginsPolicy
  pub active_passive_mode : ActivePassiveMode
  pub connection_helper : Option Bytes
  pub connection_helper_args : List Bytes
  pub binder : Option given.Binder

pub record OptionsHolder (given : Given) : Type 0 where
  pub authenticator : given.Authenticator
  pub storage : given.Storage
  pub ftps_config : FtpsConfig
  pub collect_metrics : Bool
  pub greeting : Bytes
  pub idle_session_timeout : ℕ
  pub passive_ports : PortRange
  pub passive_host : PassiveHost
  pub ftps_required_control_chan : FtpsRequired
  pub ftps_required_data_chan : FtpsRequired
  pub site_md5 : SiteMd5
  pub data_listener : given.DataListener
  pub presence_listener : given.PresenceListener
  pub active_passive_mode : ActivePassiveMode
  pub binder : Option given.Binder

pub record LoopConfig (given : Given) : Type 0 where
  pub authenticator : given.Authenticator
  pub storage : given.Storage
  pub ftps_config : FtpsConfig
  pub collect_metrics : Bool
  pub greeting : Bytes
  pub idle_session_timeout : ℕ
  pub passive_ports : PortRange
  pub passive_host : PassiveHost
  pub ftps_required_control_chan : FtpsRequired
  pub ftps_required_data_chan : FtpsRequired
  pub site_md5 : SiteMd5
  pub data_listener : given.DataListener
  pub presence_listener : given.PresenceListener
  pub active_passive_mode : ActivePassiveMode
  pub binder : Option given.Binder
