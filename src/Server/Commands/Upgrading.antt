-- ===== src/Server/Commands/Upgrading.antt =====
-- The control loop is asked to secure its channel only where TLS is configured.
use libunftp.Prelude.{◌≡◌, Bool, true, All, arith}
use libunftp.Command.{Command}
use libunftp.Server.Session.{Session}
use libunftp.Server.Messages.{ControlChanMsg, secure_control_channel}
use libunftp.Server.Handled.{Config, Env, Task, send, Handled}
use libunftp.Server.Commands.{handle_command}
use libunftp.Server.Commands.Login
use libunftp.Server.Commands.Settings
use libunftp.Server.Commands.Files
use libunftp.Server.Commands.Transfer

abbrev pub msg_served : (tls_configured : Bool) → ControlChanMsg → Bool
msg_served tls secure_control_channel = tls
msg_served tls _ = true

abbrev pub task_served : {User : Type 0} → (tls_configured : Bool) → Task User → Bool
task_served tls (send msg) = msg_served tls msg
task_served tls _ = true

pub record IsServed {User : Type 0} (tls : Bool) (h : Handled User) : Type 0 where
  pub sent : All (λ m. msg_served tls m ≡ true) h.sent
  pub tasks : All (λ t. task_served tls t ≡ true) h.tasks

module _ {User : Type 0} (env : Env User) (config : Config) where
  pub handle_command-IsServed :
      (c : Command) (s : Session User)
      → IsServed config.tls_configured (handle_command env config c s)
  unfolding handle_command
  handle_command-IsServed (Command.user username) s = unfold Login.user in ground arith
  handle_command-IsServed (Command.pass password) s = unfold Login.pass in ground arith
  handle_command-IsServed (Command.auth protocol) s = unfold Login.auth in ground arith
  handle_command-IsServed (Command.prot param) s = unfold Login.prot in ground arith
  handle_command-IsServed Command.quit s = unfold Login.quit in ground arith
  handle_command-IsServed (Command.cwd path) s = unfold Files.cwd in ground arith
  handle_command-IsServed (Command.rmd path) s = unfold Files.rmd in ground arith
  handle_command-IsServed (Command.rnto path) s = unfold Files.rnto in ground arith
  handle_command-IsServed (Command.md5 path) s = unfold Files.md5 in ground arith
  handle_command-IsServed (Command.stat path) s = unfold Files.stat in ground arith
  handle_command-IsServed Command.pasv s = unfold Transfer.pasv in ground arith
  handle_command-IsServed (Command.port addr) s = unfold Transfer.port in ground arith
  handle_command-IsServed c s =
      unfold Login.acct Login.pbsz Login.ccc Settings.syst Settings.type_ Settings.stru
        Settings.mode Settings.help Settings.noop Settings.opts Settings.allo Settings.feat
        Settings.rest Files.pwd Files.mkd Files.dele Files.rnfr Files.size Files.mdtm Files.cdup
        Transfer.retr Transfer.stor Transfer.list Transfer.nlst Transfer.stou Transfer.abor in
      ground arith

  -- No command switches TLS on or off by itself.
  pub handle_command-cmd_tls :
      (c : Command) (s : Session User) → (handle_command env config c s).session.cmd_tls ≡ s.cmd_tls
  unfolding handle_command
  handle_command-cmd_tls (Command.user username) s = unfold Login.user in ground arith
  handle_command-cmd_tls (Command.pass password) s = unfold Login.pass in ground arith
  handle_command-cmd_tls (Command.auth protocol) s = unfold Login.auth in ground arith
  handle_command-cmd_tls (Command.prot param) s = unfold Login.prot in ground arith
  handle_command-cmd_tls Command.quit s = unfold Login.quit in ground arith
  handle_command-cmd_tls (Command.cwd path) s = unfold Files.cwd in ground arith
  handle_command-cmd_tls (Command.rmd path) s = unfold Files.rmd in ground arith
  handle_command-cmd_tls (Command.rnto path) s = unfold Files.rnto in ground arith
  handle_command-cmd_tls (Command.md5 path) s = unfold Files.md5 in ground arith
  handle_command-cmd_tls (Command.stat path) s = unfold Files.stat in ground arith
  handle_command-cmd_tls Command.pasv s = unfold Transfer.pasv in ground arith
  handle_command-cmd_tls (Command.port addr) s = unfold Transfer.port in ground arith
  handle_command-cmd_tls c s =
      unfold Login.acct Login.pbsz Login.ccc Settings.syst Settings.type_ Settings.stru
        Settings.mode Settings.help Settings.noop Settings.opts Settings.allo Settings.feat
        Settings.rest Files.pwd Files.mkd Files.dele Files.rnfr Files.size Files.mdtm Files.cdup
        Transfer.retr Transfer.stor Transfer.list Transfer.nlst Transfer.stou Transfer.abor in
      ground arith
