-- ===== src/Server/Loop/Safety.antt =====
-- What holds of a connection at any time after it was accepted.
use mathlib.Core.Path.{subst}
use libunftp.Prelude.{ℕ, ◌≡◌, ◌≢◌, Bool, true, Option, arith, refl}
use libunftp.FailedLogins.{FailedLoginsPolicy, Cache}
use libunftp.Server.Options.{all}
use libunftp.Server.Session.{SessionState, new, wait_pass, wait_cmd}
use libunftp.Server.Handled.{Config}
use libunftp.Server.Sound.{IsSound, ready, secure, is_some}
use libunftp.Server.Loop.{World, Reach, connected}
use libunftp.Server.Loop.Invariant.{Inv}
use libunftp.Server.Loop.Steps.{Reach-Inv}
use libunftp.Std.FilePath.{is_absolute}

secure-tls :
    (state : SessionState) (tls : Bool) → state ≢ new → secure all state tls ≡ true → tls ≡ true
secure-tls new tls n h = absurd (n refl)
secure-tls wait_pass tls n h = h
secure-tls wait_cmd tls n h = h

ready-user :
    (state : SessionState) (u n : Bool)
    → state ≡ wait_cmd
    → ready state u n ≡ true
    → (u ≡ true) × (n ≡ true)
ready-user state u n e h = ground arith

module _ {User : Type 0} (config : Config) (policy : Option FailedLoginsPolicy) (source_ip : ℕ)
    (cache : Cache) where
  connected-Inv :
      Inv {User = User} config.ftps_required_control_chan (connected config source_ip cache)
  unfolding is_absolute
  connected-Inv = record {
    sound = record { rooted = refl; known = refl; secured = refl };
    queued = tt;
    spawned = tt;
  }

  -- At any time of a connection, in whatever order commands, messages, tasks and errors come, the
  -- working directory is an absolute path; while a password is awaited the user name is known, and
  -- once commands are served the user and the user name are; and where the configuration requires
  -- TLS of all users, the control channel is in TLS from the first USER that was accepted on.
  pub Reach-IsSound :
      (w : World User)
      → Reach config policy (connected config source_ip cache) w
      → IsSound config.ftps_required_control_chan w.session
  Reach-IsSound w r = (Reach-Inv config policy r connected-Inv).sound

  -- Where the configuration requires TLS of all users, a connection whose login has begun has its
  -- control channel in TLS.
  pub Reach-tls :
      (w : World User)
      → config.ftps_required_control_chan ≡ all
      → Reach config policy (connected config source_ip cache) w
      → w.session.state ≢ new
      → w.session.cmd_tls ≡ true
  Reach-tls w e r h =
      let k = Reach-IsSound w r in
      secure-tls w.session.state w.session.cmd_tls h
        (subst (λ q. secure q w.session.state w.session.cmd_tls ≡ true) e k.secured)

  -- In the state in which commands are served, the session has a user and a user name.
  pub Reach-user :
      (w : World User)
      → Reach config policy (connected config source_ip cache) w
      → w.session.state ≡ wait_cmd
      → (is_some w.session.user ≡ true) × (is_some w.session.username ≡ true)
  Reach-user w r e = ready-user w.session.state _ _ e (Reach-IsSound w r).known
