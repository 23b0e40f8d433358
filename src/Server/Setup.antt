-- ===== src/Server/Setup.antt =====
-- src/server/ftpserver.rs, ftpserver/chosen.rs and the start of controlchan/control_loop.rs: what a
-- server makes of its settings for its listener and for the control loop of each connection, and how
-- it ends.
pub mod Tls
pub mod Settings
pub mod Builder
pub mod Secured
use libunftp.Prelude.{
  ℕ, Bytes, Bool, true, false, Option, none, some, List, [], text, if◌then◌else◌,
}
use libunftp.Prelude.Result.{Result, ok, err, ◌>>=◌}
use libunftp.FailedLogins.{Cache}
use libunftp.Server.Options.{Ipv4}
use libunftp.Server.Handled.{Config}
use libunftp.Server.Setup.Settings.{Given, FtpsConfig, on, Server, OptionsHolder, LoopConfig}

-- `matches!(ftps_config, FtpsConfig::On { .. })`.
is_on : FtpsConfig → Bool
is_on (on tls_config) = true
is_on _ = false

module _ {given : Given} where
  -- `From<&Server>` of the options of a listener, and `From<&OptionsHolder>` of those of a loop.
  unfoldable pub options_of : Server given → OptionsHolder given
  options_of server = record {
    authenticator = server.authenticator;
    storage = server.storage;
    ftps_config = server.ftps_mode;
    collect_metrics = server.collect_metrics;
    greeting = server.greeting;
    idle_session_timeout = server.idle_session_timeout;
    passive_ports = server.passive_ports;
    passive_host = server.passive_host;
    ftps_required_control_chan = server.ftps_required_control_chan;
    ftps_required_data_chan = server.ftps_required_data_chan;
    site_md5 = server.site_md5;
    data_listener = server.data_listener;
    presence_listener = server.presence_listener;
    active_passive_mode = server.active_passive_mode;
    binder = server.binder;
  }

  unfoldable pub loop_config : OptionsHolder given → LoopConfig given
  loop_config server = record {
    authenticator = server.authenticator;
    storage = server.storage;
    ftps_config = server.ftps_config;
    collect_metrics = server.collect_metrics;
    greeting = server.greeting;
    idle_session_timeout = server.idle_session_timeout;
    passive_ports = server.passive_ports;
    passive_host = server.passive_host;
    ftps_required_control_chan = server.ftps_required_control_chan;
    ftps_required_data_chan = server.ftps_required_data_chan;
    site_md5 = server.site_md5;
    data_listener = server.data_listener;
    presence_listener = server.presence_listener;
    active_passive_mode = server.active_passive_mode;
    binder = server.binder;
  }

  -- What the loop hands to its middleware and its handlers. The local address, the features of the
  -- back-end and the channel to the proxy loop come with the connection.
  unfoldable pub config_of :
      LoopConfig given
      → (local_addr : Option Ipv4) → (storage_features : ℕ) → (proxy_mode : Bool) → Config
  unfolding is_on
  config_of config local_addr storage_features proxy_mode = record {
    tls_configured = is_on config.ftps_config;
    passive_host = config.passive_host;
    local_addr = local_addr;
    storage_features = storage_features;
    proxy_mode = proxy_mode;
    sitemd5 = config.site_md5;
    ftps_required_control_chan = config.ftps_required_control_chan;
    ftps_required_data_chan = config.ftps_required_data_chan;
    active_passive_mode = config.active_passive_mode;
    passive_ports = config.passive_ports;
  }

  -- The cache of failed logins that all connections of a server share, which starts empty.
  failed_logins_of : Server given → Option Cache
  failed_logins_of server = elim server.failed_logins_policy [ none ↦ none | some policy ↦ some [] ]

-- How `Server::listen` ends: by its listener, by the sweeper, or by a shutdown, whose wait for the
-- connections ends in time or not.
pub data Selected (Error : Type 0) : Type 0 where
  listened : Result Error (Unit {0}) → Selected Error
  swept : Selected Error
  shut_down : (lingered : Bool) → Selected Error

module _ {Error : Type 0} (grace_period_expired : Error) where
  shutdown_linger : (lingered : Bool) → Result Error (Unit {0})
  shutdown_linger true = ok tt
  shutdown_linger false = err grace_period_expired

  listen : Selected Error → Result Error (Unit {0})
  unfolding shutdown_linger
  listen (listened result) = result
  listen swept = ok tt
  listen (shut_down lingered) = shutdown_linger lingered
