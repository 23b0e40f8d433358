-- ===== src/Server/Commands/Keeping.antt =====
-- Every handler keeps the session sound.
use libunftp.Prelude.{◌≡◌, true, arith}
use libunftp.Command.{Command}
use libunftp.Std.FilePath.{join}
use libunftp.Std.FilePath.Laws.{is_absolute-join, is_absolute-pop}
use libunftp.Server.Options.{FtpsRequired}
use libunftp.Server.Session.{Session}
use libunftp.Server.Handled.{Config, Env}
use libunftp.Server.Sound.{IsSound, IsGood, Grows, tls_ok}
use libunftp.Server.Commands.{handle_command}
use libunftp.Server.Commands.Login
use libunftp.Server.Commands.Settings
use libunftp.Server.Commands.Files
use libunftp.Server.Commands.Transfer

-- The middleware lets a login begin only where TLS is as it must be.
abbrev pub IsAllowed : {User : Type 0} → FtpsRequired → Command → Session User → Type 0
IsAllowed required (Command.user username) s = tls_ok required s.cmd_tls ≡ true
IsAllowed required (Command.pass password) s = tls_ok required s.cmd_tls ≡ true
IsAllowed required _ s = Unit

pub Grows-refl : {User : Type 0} (s : Session User) → Grows s s
Grows-refl s = ground arith

module _ {User : Type 0} (env : Env User) (config : Config) (required : FtpsRequired) where
  pub handle_command-IsGood :
      (c : Command) (s : Session User)
      → IsSound required s
      → IsAllowed required c s
      → IsGood required s (handle_command env config c s)
  unfolding handle_command
  handle_command-IsGood (Command.user username) s h k = unfold Login.user in ground arith
  handle_command-IsGood (Command.pass password) s h k = unfold Login.pass in ground arith
  handle_command-IsGood (Command.auth protocol) s h k = unfold Login.auth in ground arith
  handle_command-IsGood (Command.prot param) s h k = unfold Login.prot in ground arith
  handle_command-IsGood Command.quit s h k = unfold Login.quit in ground arith
  handle_command-IsGood (Command.cwd path) s h k =
      unfold Files.cwd in ground (arith, is_absolute-join s.cwd (join s.cwd path) h.rooted)
  handle_command-IsGood Command.cdup s h k =
      unfold Files.cdup in ground (arith, is_absolute-pop s.cwd h.rooted)
  handle_command-IsGood (Command.rmd path) s h k = unfold Files.rmd in ground arith
  handle_command-IsGood (Command.rnto path) s h k = unfold Files.rnto in ground arith
  handle_command-IsGood (Command.md5 path) s h k = unfold Files.md5 in ground arith
  handle_command-IsGood (Command.stat path) s h k = unfold Files.stat in ground arith
  handle_command-IsGood Command.pasv s h k = unfold Transfer.pasv in ground arith
  handle_command-IsGood (Command.port addr) s h k = unfold Transfer.port in ground arith
  handle_command-IsGood c s h k =
      unfold Login.acct Login.pbsz Login.ccc Settings.syst Settings.type_ Settings.stru
        Settings.mode Settings.help Settings.noop Settings.opts Settings.allo Settings.feat
        Settings.rest Files.pwd Files.mkd Files.dele Files.rnfr Files.size Files.mdtm Transfer.retr
        Transfer.stor Transfer.list Transfer.nlst Transfer.stou Transfer.abor in
      ground arith
