-- ===== src/Command.antt =====
-- src/server/controlchan/command.rs and the parameter types of src/server/controlchan/commands/:
-- the commands of a client, after parsing. A `String` or `PathBuf` is its bytes.
use libunftp.Prelude.{ℕ, Bytes, Bool, Option}

pub data AuthParam : Type 0 where
  ssl tls : AuthParam

pub data ModeParam : Type 0 where
  stream block compressed : ModeParam

pub data StruParam : Type 0 where
  file record_ page : StruParam

pub data ProtParam : Type 0 where
  clear safe confidential private_ : ProtParam

pub data Opt : Type 0 where
  utf8 : (on : Bool) → Opt

pub data Command : Type 0 where
  user : (username : Bytes) → Command
  pass : (password : Bytes) → Command
  acct : (account : Bytes) → Command
  syst : Command
  stat : (path : Option Bytes) → Command
  type_ : Command
  stru : (structure : StruParam) → Command
  mode : (mode_param : ModeParam) → Command
  help : Command
  noop : Command
  pasv : Command
  port : (addr : Bytes) → Command
  retr : (path : Bytes) → Command
  stor : (path : Bytes) → Command
  list : (options path : Option Bytes) → Command
  nlst : (path : Option Bytes) → Command
  feat : Command
  pwd : Command
  cwd : (path : Bytes) → Command
  cdup : Command
  opts : (option : Opt) → Command
  dele : (path : Bytes) → Command
  rmd : (path : Bytes) → Command
  quit : Command
  mkd : (path : Bytes) → Command
  allo : Command
  abor : Command
  stou : Command
  rnfr : (file_path : Bytes) → Command
  rnto : (file_path : Bytes) → Command
  auth : (protocol : AuthParam) → Command
  ccc : Command
  pbsz : Command
  prot : (param : ProtParam) → Command
  size : (file_path : Bytes) → Command
  rest : (offset : ℕ) → Command
  mdtm : (file_path : Bytes) → Command
  md5 : (file_path : Bytes) → Command
  other : (command_name arguments : Bytes) → Command
