-- ===== src/Server/Setup/Builder.antt =====
-- The builder of a server, in src/server/ftpserver.rs. What `Into` makes of an argument is given.
use libunftp.Prelude.{ℕ, Bytes, true, false, none, some, List, [], text}
use libunftp.Prelude.Result.{Result, ok, ◌>>=◌}
use libunftp.FailedLogins.{FailedLoginsPolicy}
use libunftp.Server.Options.{
  FtpsRequired, SiteMd5, ActivePassiveMode, passive_only, PassiveHost, from_connection, PortRange,
}
use libunftp.Server.Setup.Tls.{ConfigError, FtpsClientAuth, off, Rustls, new_config}
use libunftp.Server.Setup.Settings.{
  FtpsConfig, building, ProxyMode, Given, default_passive_ports, default_idle_session_timeout_secs,
  default_tls_flags, ServerBuilder, Server,
}

module _ {given : Given} where
  -- Without TLS, without a policy on failed logins, and with the defaults of options.rs.
  unfoldable pub with_authenticator :
      given.DataListener
      → given.PresenceListener
      → (sbe_generator : given.Storage) → given.Authenticator
      → ServerBuilder given
  unfolding text
  with_authenticator nop_data nop_presence sbe_generator authenticator = record {
    storage = sbe_generator;
    greeting = text "Welcome to the libunftp FTP server";
    authenticator = authenticator;
    data_listener = nop_data;
    presence_listener = nop_presence;
    passive_ports = default_passive_ports;
    passive_host = from_connection;
    collect_metrics = false;
    ftps_mode = FtpsConfig.disabled;
    ftps_required_control_chan = FtpsRequired.none;
    ftps_required_data_chan = FtpsRequired.none;
    ftps_tls_flags = default_tls_flags;
    ftps_client_auth = off;
    ftps_trust_store = text "./trusted.pem";
    idle_session_timeout = default_idle_session_timeout_secs;
    proxy_protocol_mode = ProxyMode.disabled;
    site_md5 = SiteMd5.accounts;
    shutdown = none;
    failed_logins_policy = none;
    active_passive_mode = passive_only;
    connection_helper = none;
    connection_helper_args = [];
    binder = none;
  }

  abbrev pub authenticator : (a : given.Authenticator) → ServerBuilder given → ServerBuilder given
  authenticator a self = record self { authenticator = a }

  abbrev pub active_passive_mode :
      (mode : ActivePassiveMode) → ServerBuilder given → ServerBuilder given
  active_passive_mode mode self = record self { active_passive_mode = mode }

  abbrev pub ftps : (certs_file key_file : Bytes) → ServerBuilder given → ServerBuilder given
  ftps certs_file key_file self = record self { ftps_mode = building certs_file key_file }

  abbrev pub ftps_client_auth : (auth : FtpsClientAuth) → ServerBuilder given → ServerBuilder given
  ftps_client_auth auth self = record self { ftps_client_auth = auth }

  abbrev pub ftps_required :
      (for_control_chan for_data_chan : FtpsRequired) → ServerBuilder given → ServerBuilder given
  ftps_required for_control_chan for_data_chan self = record self {
    ftps_required_control_chan = for_control_chan;
    ftps_required_data_chan = for_data_chan;
  }

  abbrev pub ftps_trust_store : (trust : Bytes) → ServerBuilder given → ServerBuilder given
  ftps_trust_store trust self = record self { ftps_trust_store = trust }

  abbrev pub ftps_tls_flags : (flags : ℕ) → ServerBuilder given → ServerBuilder given
  ftps_tls_flags flags self = record self { ftps_tls_flags = flags }

  abbrev pub greeting : (message : Bytes) → ServerBuilder given → ServerBuilder given
  greeting message self = record self { greeting = message }

  abbrev pub idle_session_timeout : (secs : ℕ) → ServerBuilder given → ServerBuilder given
  idle_session_timeout secs self = record self { idle_session_timeout = secs }

  abbrev pub metrics : ServerBuilder given → ServerBuilder given
  metrics self = record self { collect_metrics = true }

  abbrev pub notify_data :
      (listener : given.DataListener) → ServerBuilder given → ServerBuilder given
  notify_data listener self = record self { data_listener = listener }

  abbrev pub notify_presence :
      (listener : given.PresenceListener) → ServerBuilder given → ServerBuilder given
  notify_presence listener self = record self { presence_listener = listener }

  abbrev pub passive_host : (host_option : PassiveHost) → ServerBuilder given → ServerBuilder given
  passive_host host_option self = record self { passive_host = host_option }

  abbrev pub binder : (b : given.Binder) → ServerBuilder given → ServerBuilder given
  binder b self = record self { binder = some b }

  abbrev pub passive_ports : (range : PortRange) → ServerBuilder given → ServerBuilder given
  passive_ports range self = record self { passive_ports = range }

  abbrev pub proxy_protocol_mode :
      (external_control_port : ℕ) → ServerBuilder given → ServerBuilder given
  proxy_protocol_mode external_control_port self = record self {
    proxy_protocol_mode = ProxyMode.on external_control_port;
  }

  abbrev pub shutdown_indicator :
      (indicator : given.Indicator) → ServerBuilder given → ServerBuilder given
  shutdown_indicator indicator self = record self { shutdown = some indicator }

  abbrev pub sitemd5 : (sitemd5_option : SiteMd5) → ServerBuilder given → ServerBuilder given
  sitemd5 sitemd5_option self = record self { site_md5 = sitemd5_option }

  abbrev pub connection_helper :
      (path : Bytes) (args : List Bytes) → ServerBuilder given → ServerBuilder given
  connection_helper path args self = record self {
    connection_helper = some path;
    connection_helper_args = args;
  }

  abbrev pub failed_logins_policy :
      (policy : FailedLoginsPolicy) → ServerBuilder given → ServerBuilder given
  failed_logins_policy policy self = record self { failed_logins_policy = some policy }

  unfoldable pub ftps_mode_of :
      Rustls → ServerBuilder given → FtpsConfig → Result ConfigError FtpsConfig
  ftps_mode_of rustls self FtpsConfig.disabled = ok FtpsConfig.disabled
  ftps_mode_of rustls self (building certs_file key_file) =
      new_config rustls certs_file key_file self.ftps_tls_flags self.ftps_client_auth
        self.ftps_trust_store
      >>= λ tls_config. ok (FtpsConfig.on tls_config)
  ftps_mode_of rustls self (FtpsConfig.on tls_config) = ok (FtpsConfig.on tls_config)

  unfoldable pub built : ServerBuilder given → FtpsConfig → Server given
  built self ftps_mode = record {
    storage = self.storage;
    greeting = self.greeting;
    authenticator = self.authenticator;
    data_listener = self.data_listener;
    presence_listener = self.presence_listener;
    passive_ports = self.passive_ports;
    passive_host = self.passive_host;
    collect_metrics = self.collect_metrics;
    ftps_mode = ftps_mode;
    ftps_required_control_chan = self.ftps_required_control_chan;
    ftps_required_data_chan = self.ftps_required_data_chan;
    idle_session_timeout = self.idle_session_timeout;
    proxy_protocol_mode = self.proxy_protocol_mode;
    site_md5 = self.site_md5;
    shutdown = self.shutdown;
    failed_logins_policy = self.failed_logins_policy;
    active_passive_mode = self.active_passive_mode;
    connection_helper = self.connection_helper;
    connection_helper_args = self.connection_helper_args;
    binder = self.binder;
  }

  unfoldable pub build : Rustls → ServerBuilder given → Result ConfigError (Server given)
  unfolding ftps_mode_of built
  build rustls self =
      ftps_mode_of rustls self self.ftps_mode >>= λ ftps_mode. ok (built self ftps_mode)
