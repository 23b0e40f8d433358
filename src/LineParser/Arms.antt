-- ===== src/LineParser/Arms.antt =====
-- The arms of `parse` in line_parser/parser.rs: each reads the bytes after the verb.
use libunftp.Prelude.{Bytes, not, Option, none, some, List, [], ◌∷◌, is_empty, ◌==◌, if◌then◌else◌}
use libunftp.Prelude.Result.{ok, err, ◌>>=◌}
use libunftp.Std.Utf8.{from_utf8_lossy}
use libunftp.Std.FilePath.{split_on}
use libunftp.Command.{Command}
use libunftp.LineParser.Eol.{Parsed, invalid_command, parse_to_eol}

-- An arm that refuses parameters.
unfoldable pub bare : Command → Bytes → Parsed Command
bare c rest = do params ← parse_to_eol rest; if is_empty params then ok c else err invalid_command

-- An arm that wants a parameter, which it takes as text.
unfoldable pub with_text : (Bytes → Command) → Bytes → Parsed Command
with_text c rest = do
  params ← parse_to_eol rest
  if is_empty params then err invalid_command else ok (c (from_utf8_lossy params))

unfoldable pub parse_user : Bytes → Parsed Command
parse_user rest = do username ← parse_to_eol rest; ok (Command.user username)

unfoldable pub parse_pass : Bytes → Parsed Command
parse_pass rest = do password ← parse_to_eol rest; ok (Command.pass password)

unfoldable pub parse_acct : Bytes → Parsed Command
parse_acct rest = do account ← parse_to_eol rest; ok (Command.acct account)

unfoldable pub parse_syst : Bytes → Parsed Command
parse_syst rest = ok Command.syst

unfoldable pub parse_stat : Bytes → Parsed Command
parse_stat rest = do
  params ← parse_to_eol rest
  ok (Command.stat (if not (is_empty params) then some params else none))

unfoldable pub parse_type : Bytes → Parsed Command
parse_type rest = ok Command.type_

unfoldable pub parse_help : Bytes → Parsed Command
parse_help rest = ok Command.help

unfoldable pub parse_noop : Bytes → Parsed Command
parse_noop = bare Command.noop

unfoldable pub parse_pasv : Bytes → Parsed Command
parse_pasv = bare Command.pasv

unfoldable pub parse_port : Bytes → Parsed Command
parse_port = with_text (λ addr. Command.port addr)

unfoldable pub parse_retr : Bytes → Parsed Command
parse_retr = with_text (λ path. Command.retr path)

unfoldable pub parse_stor : Bytes → Parsed Command
parse_stor = with_text (λ path. Command.stor path)

-- The first word that does not begin with `-`; an empty line has none.
unfoldable pub first_path : List Bytes → Option Bytes
first_path [] = none
first_path ([] ∷ more) = some []
first_path ((c ∷ cs) ∷ more) =
    let rest = first_path more in if c == b'-' then rest else some (c ∷ cs)

unfoldable pub list_path : Bytes → Option Bytes
unfolding first_path split_on
list_path line =
    if is_empty line
    then none
    else elim (first_path (split_on b' ' line)) [ none ↦ none | some s ↦ some (from_utf8_lossy s) ]

unfoldable pub parse_list : Bytes → Parsed Command
unfolding list_path
parse_list rest = do line ← parse_to_eol rest; ok (Command.list none (list_path line))

unfoldable pub parse_nlst : Bytes → Parsed Command
parse_nlst rest = do
  path ← parse_to_eol rest
  ok (Command.nlst (if is_empty path then none else some (from_utf8_lossy path)))

unfoldable pub parse_feat : Bytes → Parsed Command
parse_feat = bare Command.feat

unfoldable pub parse_pwd : Bytes → Parsed Command
parse_pwd = bare Command.pwd

unfoldable pub parse_cwd : Bytes → Parsed Command
parse_cwd = with_text (λ path. Command.cwd path)

unfoldable pub parse_cdup : Bytes → Parsed Command
parse_cdup = bare Command.cdup

unfoldable pub parse_dele : Bytes → Parsed Command
parse_dele = with_text (λ path. Command.dele path)

unfoldable pub parse_rmd : Bytes → Parsed Command
parse_rmd = with_text (λ path. Command.rmd path)

unfoldable pub parse_quit : Bytes → Parsed Command
parse_quit = bare Command.quit

unfoldable pub parse_mkd : Bytes → Parsed Command
parse_mkd = with_text (λ path. Command.mkd path)

unfoldable pub parse_allo : Bytes → Parsed Command
parse_allo rest = ok Command.allo

unfoldable pub parse_abor : Bytes → Parsed Command
parse_abor = bare Command.abor

unfoldable pub parse_stou : Bytes → Parsed Command
parse_stou = bare Command.stou

unfoldable pub parse_rnfr : Bytes → Parsed Command
parse_rnfr = with_text (λ path. Command.rnfr path)

unfoldable pub parse_rnto : Bytes → Parsed Command
parse_rnto = with_text (λ path. Command.rnto path)

unfoldable pub parse_ccc : Bytes → Parsed Command
parse_ccc = bare Command.ccc

unfoldable pub parse_size : Bytes → Parsed Command
parse_size = with_text (λ path. Command.size path)

unfoldable pub parse_mdtm : Bytes → Parsed Command
parse_mdtm = with_text (λ path. Command.mdtm path)
