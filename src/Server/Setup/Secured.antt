-- ===== src/Server/Setup/Secured.antt =====
-- From the calls of the builder to what the connections of the server do.
use mathlib.Core.Bool.{true≢false}
use libunftp.Prelude.{◌⊎◌, inl, inr, refl, ℕ, ◌≡◌, ◌≢◌, sym, ap, ◌∙◌, Bool, true, false, Option}
use libunftp.Prelude.Result.{ok, bind-ok, ok-injective}
use libunftp.FailedLogins.{FailedLoginsPolicy, Cache}
use libunftp.Server.Options.{FtpsRequired, all, Ipv4}
use libunftp.Server.Session.{SessionState, new, wait_pass, wait_cmd}
use libunftp.Server.Handled.{Config}
use libunftp.Server.Loop.{World, Reach, connected}
use libunftp.Server.Loop.Unsecured.{Reach-IsPlain}
use libunftp.Server.Loop.Safety.{Reach-tls}
use libunftp.Server.Setup.{options_of, loop_config, config_of, is_on}
use libunftp.Server.Setup.Tls.{Rustls, new_config}
use libunftp.Server.Setup.Settings.{Given, FtpsConfig, building, ServerBuilder, Server}
use libunftp.Server.Setup.Builder.{ftps_required, build, built, ftps_mode_of}

-- Whether the builder was told of a certificate.
abbrev pub asks : FtpsConfig → Bool
asks FtpsConfig.disabled = false
asks _ = true

module _ {given : Given} (rustls : Rustls) (b : ServerBuilder given) where
  mode-is_on :
      (mode made : FtpsConfig) → ftps_mode_of rustls b mode ≡ ok made → is_on made ≡ asks mode
  unfolding ftps_mode_of is_on
  mode-is_on FtpsConfig.disabled made e = sym (ap is_on (ok-injective _ _ e))
  mode-is_on (building certs key) made e =
      let (tls, (made_tls, same)) =
        bind-ok (new_config rustls certs key b.ftps_tls_flags b.ftps_client_auth b.ftps_trust_store)
          _ made e in
      sym (ap is_on (ok-injective _ _ same))
  mode-is_on (FtpsConfig.on tls) made e = sym (ap is_on (ok-injective _ _ e))

  build-made :
      (server : Server given)
      → build rustls b ≡ ok server
      → (is_on server.ftps_mode ≡ asks b.ftps_mode)
        × (server.ftps_required_control_chan ≡ b.ftps_required_control_chan)
  unfolding build built
  build-made server e =
      let (made, (mode, same)) = bind-ok (ftps_mode_of rustls b b.ftps_mode) _ server e in
      let one = ok-injective (built b made) server same in
      (
        ap (λ s. is_on s.ftps_mode) (sym one) ∙ mode-is_on b.ftps_mode made mode,
        ap (λ s. s.ftps_required_control_chan) (sym one),
      )

-- What a connection of a server is given.
abbrev pub config :
    {given : Given} (local_addr : Option Ipv4) (features : ℕ) (proxy : Bool) → Server given → Config
config local_addr features proxy server =
    config_of (loop_config (options_of server)) local_addr features proxy

new_unless : (state : SessionState) → (state ≢ new → ⊥) → state ≡ new
new_unless new h = refl
new_unless wait_pass h = absurd (h λ e. cc)
new_unless wait_cmd h = absurd (h λ e. cc)

new_or : {A : Type 0} (state : SessionState) → (state ≢ new → A) → (state ≡ new) ⊎ A
new_or new h = inl refl
new_or wait_pass h = inr (h λ e. cc)
new_or wait_cmd h = inr (h λ e. cc)

module _ {given : Given} (rustls : Rustls) (b : ServerBuilder given) where
  begun-tls :
      {User : Type 0} (data_chan : FtpsRequired) (server : Server given) (local_addr : Option Ipv4)
      (features : ℕ) (proxy : Bool) (policy : Option FailedLoginsPolicy) (source_ip : ℕ)
      (cache : Cache) (w : World User)
      → build rustls (ftps_required all data_chan b) ≡ ok server
      → Reach
          (config local_addr features proxy server)
          policy
          (connected (config local_addr features proxy server) source_ip cache)
          w
      → w.session.state ≢ new
      → w.session.cmd_tls ≡ true
  unfolding config_of loop_config options_of
  begun-tls data_chan server local_addr features proxy policy source_ip cache w e r h =
      let made = build-made rustls (ftps_required all data_chan b) server e in
      Reach-tls (config local_addr features proxy server) policy source_ip cache w made.1 r h

  -- Of a server that is built with TLS required of all users on the control channel, whatever its other
  -- settings: its connections have TLS to offer exactly if the builder was told of a certificate, and
  -- at any time of a connection, in any order of events, either no login has begun or its control
  -- channel is in TLS.
  pub build-tls :
      {User : Type 0} (data_chan : FtpsRequired) (server : Server given) (local_addr : Option Ipv4)
      (features : ℕ) (proxy : Bool) (policy : Option FailedLoginsPolicy) (source_ip : ℕ)
      (cache : Cache) (w : World User)
      → build rustls (ftps_required all data_chan b) ≡ ok server
      → Reach
          (config local_addr features proxy server)
          policy
          (connected (config local_addr features proxy server) source_ip cache)
          w
      → ((config local_addr features proxy server).tls_configured ≡ asks b.ftps_mode)
        × ((w.session.state ≡ new) ⊎ (w.session.cmd_tls ≡ true))
  unfolding config_of loop_config options_of
  build-tls data_chan server local_addr features proxy policy source_ip cache w e r = (
    (build-made rustls (ftps_required all data_chan b) server e).0,
    new_or w.session.state
        (begun-tls data_chan server local_addr features proxy policy source_ip cache w e r),
  )

  -- Of a server that is built with TLS required of all users on the control channel, and that was told
  -- of no certificate: no connection ever leaves the state before a login, in any order of events,
  -- whatever the other settings are and the authenticator and the back-end answer.
  pub build-no_login :
      {User : Type 0} (data_chan : FtpsRequired) (server : Server given) (local_addr : Option Ipv4)
      (features : ℕ) (proxy : Bool) (policy : Option FailedLoginsPolicy) (source_ip : ℕ)
      (cache : Cache) (w : World User)
      → build rustls (ftps_required all data_chan b) ≡ ok server
      → asks b.ftps_mode ≡ false
      → Reach
          (config local_addr features proxy server)
          policy
          (connected (config local_addr features proxy server) source_ip cache)
          w
      → w.session.state ≡ new
  unfolding config_of loop_config options_of
  build-no_login data_chan server local_addr features proxy policy source_ip cache w e n r =
      let made = build-made rustls (ftps_required all data_chan b) server e in
      let plain =
        (Reach-IsPlain (config local_addr features proxy server) (made.0 ∙ n) policy r
          (record { off = refl })).off in
      new_unless w.session.state λ begun. true≢false (
        sym
          (begun-tls data_chan server local_addr features proxy policy source_ip cache w e r begun)
        ∙ plain)
