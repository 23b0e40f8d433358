-- ===== src/Server/Middleware/Upgrading.antt =====
-- What the whole chain of middleware and handlers sends can be served by the control loop, and no
-- internal message makes it panic.
use libunftp.Prelude.{◌≡◌, false, arith, refl}
use libunftp.Server.Session.{Session}
use libunftp.Server.Messages.{ControlChanMsg, Event, command, internal_msg}
use libunftp.Server.Handled.{Config, Env}
use libunftp.Server.Internal.{handle_internal_msg, storage_reply}
use libunftp.Server.Middleware.{event_chain, primary}
use libunftp.Server.Middleware.Passing.{event_chain-passes}
use libunftp.Server.Middleware.NoPanic.{is_panicked}
use libunftp.Server.Commands.Upgrading.{IsServed, handle_command-IsServed}

module _ {User : Type 0} (env : Env User) (config : Config) where
  handle_internal_msg-IsServed :
      (msg : ControlChanMsg) (s : Session User)
      → IsServed config.tls_configured (handle_internal_msg msg s)
  unfolding handle_internal_msg storage_reply
  handle_internal_msg-IsServed msg s = ground arith

  handle_internal_msg-no_panic :
      (msg : ControlChanMsg) (s : Session User)
      → is_panicked (handle_internal_msg msg s).outcome ≡ false
  unfolding handle_internal_msg storage_reply
  handle_internal_msg-no_panic msg s = ground arith

  primary-IsServed :
      (event : Event) (s : Session User)
      → IsServed config.tls_configured (primary env config event s)
  unfolding primary
  primary-IsServed (command c) s = handle_command-IsServed env config c s
  primary-IsServed (internal_msg msg) s = handle_internal_msg-IsServed msg s

  pub event_chain-IsServed :
      (event : Event) (s : Session User)
      → IsServed config.tls_configured (event_chain env config event s)
  event_chain-IsServed event s =
      event_chain-passes (IsServed config.tls_configured) s
        (λ code m. record { sent = tt; tasks = tt }) (λ k. record { sent = tt; tasks = tt }) env
        config event (primary-IsServed event s)

  pub internal-no_panic :
      (msg : ControlChanMsg) (s : Session User)
      → is_panicked (event_chain env config (internal_msg msg) s).outcome ≡ false
  unfolding primary
  internal-no_panic msg s =
      event_chain-passes (λ h. is_panicked h.outcome ≡ false) s (λ code m. refl) (λ k. refl) env
        config (internal_msg msg) (handle_internal_msg-no_panic msg s)
