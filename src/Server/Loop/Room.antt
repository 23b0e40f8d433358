-- ===== src/Server/Loop/Room.antt =====
-- Whether the control loop waits for room in the channel that only it empties.
use libunftp.Prelude.{◌∙◌, Bytes, ◌≡◌, length, some, List, [], ◌∷◌, arith, refl}
use libunftp.Command.{Command}
use libunftp.Server.Session.{Session, wait_cmd}
use libunftp.Server.Messages.{ControlChanMsg, command}
use libunftp.Server.Handled.{Config, Env, Handled}
use libunftp.Server.Options.{
  ActivePassiveMode, active_only, passive_only, active_and_passive, FtpsRequired,
}
use libunftp.Server.Loop.{World, stuck, settle, on_command}
use libunftp.Server.Middleware.{
  Next, is_exempt, event_chain, ftps_data, ftps_control, auth_check, active_passive, primary,
  is_wait_cmd,
}
use libunftp.Server.Commands.{handle_command}
use libunftp.Server.Commands.Login
use libunftp.Server.Commands.Settings
use libunftp.Server.Commands.Files
use libunftp.Server.Commands.Transfer

-- All commands but CWD, RMD, RNTO and QUIT.
abbrev pub SendsNothing : Command → Type 0
SendsNothing (Command.cwd path) = ⊥
SendsNothing (Command.rmd path) = ⊥
SendsNothing (Command.rnto path) = ⊥
SendsNothing Command.quit = ⊥
SendsNothing _ = Unit

module _ {User : Type 0} (env : Env User) (config : Config) where
  ftps_control-cwd :
      (next : Next User) (required : FtpsRequired) (path : Bytes) (s : Session User)
      → ftps_control next required (command (Command.cwd path)) s
        ≡ next (command (Command.cwd path)) s
  unfolding ftps_control
  ftps_control-cwd next FtpsRequired.none path s = refl
  ftps_control-cwd next FtpsRequired.all path s = refl
  ftps_control-cwd next FtpsRequired.accounts path s = ground arith

  ftps_data-cwd :
      (next : Next User) (required : FtpsRequired) (path : Bytes) (s : Session User)
      → ftps_data next required (command (Command.cwd path)) s ≡ next (command (Command.cwd path)) s
  unfolding ftps_data
  ftps_data-cwd next FtpsRequired.none path s = refl
  ftps_data-cwd next FtpsRequired.all path s = refl
  ftps_data-cwd next FtpsRequired.accounts path s = refl

  active_passive-cwd :
      (next : Next User) (mode : ActivePassiveMode) (path : Bytes) (s : Session User)
      → active_passive next mode (command (Command.cwd path)) s
        ≡ next (command (Command.cwd path)) s
  unfolding active_passive
  active_passive-cwd next active_only path s = refl
  active_passive-cwd next passive_only path s = refl
  active_passive-cwd next active_and_passive path s = refl

  auth_check-cwd :
      (next : Next User) (path : Bytes) (s : Session User)
      → s.state ≡ wait_cmd
      → auth_check next (command (Command.cwd path)) s ≡ next (command (Command.cwd path)) s
  unfolding auth_check is_wait_cmd is_exempt
  auth_check-cwd next path s e = simp e refl

  event_chain-cwd :
      (path : Bytes) (s : Session User)
      → s.state ≡ wait_cmd
      → event_chain env config (command (Command.cwd path)) s ≡ Files.cwd env config path s
  unfolding event_chain primary handle_command
  event_chain-cwd path s e =
      ftps_data-cwd _ config.ftps_required_data_chan path s
      ∙ ftps_control-cwd _ config.ftps_required_control_chan path s
      ∙ auth_check-cwd _ path s e
      ∙ active_passive-cwd (primary env config) config.active_passive_mode path s

  cwd-sent :
      (path : Bytes) (s : Session User) (u : User)
      → s.user ≡ some u
      → length (Files.cwd env config path s).sent ≡ 1
  unfolding Files.cwd
  cwd-sent path s u e = ground (arith, e)

  -- A CWD from a user who has logged in makes the control loop wait for ever where a message is
  -- waiting: the handler sends one more, for which there is no room.
  pub on_command-cwd-stuck :
      (path : Bytes) (w : World User) (u : User) (msg : ControlChanMsg)
      → w.session.state ≡ wait_cmd
      → w.session.user ≡ some u
      → w.queue ≡ msg ∷ []
      → (on_command env config (Command.cwd path) w).status ≡ stuck
  unfolding on_command settle
  on_command-cwd-stuck path w u msg e k q =
      simp (event_chain-cwd path w.session e, q, cwd-sent path w.session u k)
