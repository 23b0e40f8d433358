-- ===== src/Server/Commands.antt =====
-- src/server/controlchan/commands/ and `handle_command` of src/server/controlchan/control_loop.rs:
-- a handler for each command, and the choice among them.
pub mod Login
pub mod Settings
pub mod Files
pub mod Transfer
pub mod Keeping
pub mod Upgrading
use libunftp.Prelude.{String}
use libunftp.Command
use libunftp.Command.{Command}
use libunftp.Reply.{command_syntax_error}
use libunftp.Server.Session.{Session}
use libunftp.Server.Handled.{Config, Env, Handled, reply}

module _ {User : Type 0} (env : Env User) (config : Config) where
  unfoldable pub handle_command : Command → Session User → Handled User
  handle_command (Command.user username) = Login.user env config username
  handle_command (Command.pass password) = Login.pass env config password
  handle_command Command.syst = Settings.syst env config
  handle_command (Command.stat path) = Files.stat env config path
  handle_command (Command.acct account) = Login.acct env config
  handle_command Command.type_ = Settings.type_ env config
  handle_command (Command.stru structure) = Settings.stru env config structure
  handle_command (Command.mode mode_param) = Settings.mode env config mode_param
  handle_command Command.help = Settings.help env config
  handle_command Command.noop = Settings.noop env config
  handle_command Command.pasv = Transfer.pasv env config
  handle_command (Command.port addr) = Transfer.port env config addr
  handle_command (Command.retr path) = Transfer.retr env config path
  handle_command (Command.stor path) = Transfer.stor env config path
  handle_command (Command.list options path) = Transfer.list env config options path
  handle_command (Command.nlst path) = Transfer.nlst env config path
  handle_command Command.feat = Settings.feat env config
  handle_command Command.pwd = Files.pwd env config
  handle_command (Command.cwd path) = Files.cwd env config path
  handle_command Command.cdup = Files.cdup env config
  handle_command (Command.opts option) = Settings.opts env config option
  handle_command (Command.dele path) = Files.dele env config path
  handle_command (Command.rmd path) = Files.rmd env config path
  handle_command Command.quit = Login.quit env config
  handle_command (Command.mkd path) = Files.mkd env config path
  handle_command Command.allo = Settings.allo env config
  handle_command Command.abor = Transfer.abor env config
  handle_command Command.stou = Transfer.stou env config
  handle_command (Command.rnfr file_path) = Files.rnfr env config file_path
  handle_command (Command.rnto file_path) = Files.rnto env config file_path
  handle_command (Command.auth protocol) = Login.auth env config protocol
  handle_command Command.pbsz = Login.pbsz env config
  handle_command Command.ccc = Login.ccc env config
  handle_command (Command.prot param) = Login.prot env config param
  handle_command (Command.size file_path) = Files.size env config file_path
  handle_command (Command.rest offset) = Settings.rest env config offset
  handle_command (Command.mdtm file_path) = Files.mdtm env config file_path
  handle_command (Command.md5 file_path) = Files.md5 env config file_path
  handle_command (Command.other command_name arguments) =
      reply command_syntax_error "Command not implemented"
