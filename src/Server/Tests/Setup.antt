-- ===== src/Server/Tests/Setup.antt =====
-- A server that is built with a certificate and TLS for all users, and its connection to `bob`; and a
-- shutdown that waits for one of two connections.
use libunftp.Prelude.{◌⊎◌, ℕ, ◌≡◌, true, false, none, some, [], ◌∷◌, refl, All, ◌==◌}
use libunftp.Prelude.Result.{ok}
use libunftp.Command.{Command, tls}
use libunftp.Server.Options.{FtpsRequired, all}
use libunftp.Server.Session.{new, wait_pass}
use libunftp.Server.Messages.{secure_control_channel}
use libunftp.Server.Handled.{Config}
use libunftp.Server.Loop.{
  World, Reach, here, next, take_command, deliver, take_message, on_command, on_internal_msg,
  connected,
}
use libunftp.Server.Setup.Tls.{Rustls, pkcs8, key, tls12, no_client_auth, ServerConfig, new_config}
use libunftp.Server.Setup.Settings.{Given, FtpsConfig, ServerBuilder, Server}
use libunftp.Server.Setup.Builder.{
  with_authenticator, ftps, ftps_required, build, built, ftps_mode_of,
}
use libunftp.Server.Setup.Secured.{config, asks, build-tls, build-no_login}
use libunftp.Server.Shutdown
use libunftp.Server.Shutdown.{
  Ends, Listener, subscribe, take_shutdown, take_complete, listen, linger,
}
use libunftp.Server.Shutdown.Ending.{Hears, Reach-Hears, dropped, linger-dropped}
use libunftp.Server.Tests.{env, bob, serving}

abbrev given : Given
given = record {
  Storage = Unit {0};
  Authenticator = Unit {0};
  DataListener = Unit {0};
  PresenceListener = Unit {0};
  Indicator = Unit {0};
  Binder = Unit {0};
}

-- Each file holds a certificate and a key.
abbrev rustls : Rustls
rustls = record {
  read_file = λ name. some name;
  pem_certs = λ file. some file ∷ [];
  pem_items = λ file. some (key (pkcs8 file)) ∷ [];
  is_trust_anchor = λ cert. true;
  is_verifier = λ store. true;
  has_suites = λ versions. true;
  is_pair = λ certs privkey. true;
  ticketer = true;
}

abbrev builder : ServerBuilder given
builder = ftps (b'c' ∷ []) (b'k' ∷ []) (with_authenticator tt tt tt tt)

abbrev tls_config : ServerConfig
tls_config = record {
  versions = tls12 ∷ [];
  client_cert_verifier = no_client_auth;
  certs = (b'c' ∷ []) ∷ [];
  privkey = pkcs8 (b'k' ∷ []);
  session_cache = true;
  tickets = true;
}

abbrev server : Server given
unfolding built
server = built (ftps_required all FtpsRequired.none builder) (FtpsConfig.on tls_config)

-- Opens the building of the server, and what it makes of its settings.
pub setting_up : Unit {0}
unfolding serving with_authenticator build ftps_mode_of built new_config
    libunftp.Server.Setup.config_of libunftp.Server.Setup.loop_config
    libunftp.Server.Setup.options_of
setting_up = tt

abbrev tls_only : Config
tls_only = config none 3 false server

-- The connection, while `bob` asks for TLS and gives his name.
abbrev insecure : World ℕ
insecure = connected tls_only 9 []

abbrev offered : World ℕ
offered = on_command env tls_only (Command.auth tls) insecure

abbrev waiting : World ℕ
waiting = record offered { queue = secure_control_channel ∷ []; tasks = [] }

abbrev secured : World ℕ
secured = on_internal_msg env tls_only secure_control_channel (record waiting { queue = [] })

abbrev secured_named : World ℕ
secured_named = on_command env tls_only bob secured

secured-Reach : Reach tls_only none insecure secured_named
unfolding setting_up
secured-Reach =
    next
      (next
        (next (next here (take_command env (Command.auth tls) insecure refl))
          (deliver secure_control_channel [] [] offered refl refl))
        (take_message env secure_control_channel [] waiting refl refl))
      (take_command env bob secured refl)

-- The login has begun, in TLS.
secured_named_test :
    (secured_named.session.state ≡ wait_pass) × (secured_named.session.cmd_tls ≡ true)
unfolding setting_up
secured_named_test = (refl, refl)

built-server : build rustls (ftps_required all FtpsRequired.none builder) ≡ ok server
unfolding setting_up
built-server = refl

build-tls_example :
    (tls_only.tls_configured ≡ asks builder.ftps_mode)
    × ((secured_named.session.state ≡ new) ⊎ (secured_named.session.cmd_tls ≡ true))
build-tls_example =
    build-tls rustls builder FtpsRequired.none server none 3 false none 9 [] secured_named
      built-server secured-Reach

-- The same server without a certificate: `bob` is refused.
abbrev bare_builder : ServerBuilder given
bare_builder = with_authenticator tt tt tt tt

abbrev bare_server : Server given
unfolding built
bare_server = built (ftps_required all FtpsRequired.none bare_builder) FtpsConfig.disabled

abbrev tls_missing : Config
tls_missing = config none 3 false bare_server

abbrev turned_away : World ℕ
turned_away = on_command env tls_missing bob (connected tls_missing 9 [])

turned_away-Reach : Reach tls_missing none (connected tls_missing 9 []) turned_away
turned_away-Reach = next here (take_command env bob (connected tls_missing 9 []) refl)

bare_builder-server :
    build rustls (ftps_required all FtpsRequired.none bare_builder) ≡ ok bare_server
unfolding setting_up
bare_builder-server = refl

build-no_login_example : turned_away.session.state ≡ new
unfolding setting_up
build-no_login_example =
    build-no_login rustls bare_builder FtpsRequired.none bare_server none 3 false none 9 []
      turned_away bare_builder-server refl turned_away-Reach

-- A connection, a shutdown, and a connection after it.
abbrev connected_once : Ends
connected_once = record Shutdown.start { listeners = subscribe Shutdown.new ∷ [] }

abbrev told : Ends
told = record connected_once { notifier = take_shutdown Shutdown.new }

abbrev closing : Ends
closing = record told { notifier = take_complete (take_shutdown Shutdown.new) }

abbrev late : Ends
late = record closing { listeners = subscribe closing.notifier ∷ closing.listeners }

told-Reach : Shutdown.Reach Shutdown.start told
told-Reach =
    Shutdown.next (Shutdown.next Shutdown.here (Shutdown.subscribes Shutdown.start))
      (Shutdown.notifies connected_once)

Reach-Hears_example :
    All (λ l. Hears told.notifier.shutdown_tx (listen told.notifier l)) told.listeners
Reach-Hears_example = Reach-Hears told told-Reach

-- The late connection has ended, and then the one that the server waits for.
abbrev ended_late : Shutdown.Reach late (record late { listeners = closing.listeners })
ended_late =
    Shutdown.next Shutdown.here
      (Shutdown.drops closing.notifier [] closing.listeners (subscribe closing.notifier))

abbrev ended_both : Shutdown.Reach late (record late { listeners = [] })
ended_both =
    Shutdown.next ended_late (Shutdown.drops closing.notifier [] [] (subscribe Shutdown.new))

linger-dropped_example :
    linger closing.notifier [] ≡ dropped ended_both == Shutdown.holders late.listeners
unfolding take_complete
linger-dropped_example = linger-dropped ended_both refl

linger_test :
    (linger closing.notifier closing.listeners ≡ false) × (linger closing.notifier [] ≡ true)
unfolding linger take_complete take_shutdown subscribe Shutdown.holders
linger_test = (refl, refl)
