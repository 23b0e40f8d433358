-- ===== src/LineParser/ParamArms.antt =====
-- The arms of `parse` in line_parser/parser.rs for the verbs whose parameter is a word of its own, and
-- for a verb that is not known.
use libunftp.Prelude.{
  ℕ, ◌^◌, Bytes, Bool, not, ◌||◌, Option, none, some, [], ◌∷◌, length, is_empty, ltb, ◌==◌,
  bytes_eq, text, if◌then◌else◌,
}
use libunftp.Prelude.Result.{ok, err, ◌>>=◌}
use libunftp.Std.Utf8.{from_utf8, from_utf8_lossy, to_uppercase}
use libunftp.Std.Decimal.{parse_uint}
use libunftp.Command.{
  Command, file, record_, page, stream, block, compressed, clear, safe, confidential, private_, ssl,
  tls, utf8,
}
use libunftp.LineParser.Eol.{
  Parsed, invalid_command, parse_to_eol, split_token_params, normalize, utf8_or_err,
}
use libunftp.LineParser.Arms.{with_text}

-- The letter that is the whole parameter of STRU, MODE and PROT.
unfoldable pub stru_of : Bytes → Parsed Command
stru_of [] = err invalid_command
stru_of (c ∷ _ ∷ _) = err invalid_command
stru_of (c ∷ []) =
    if c == b'F'
    then ok (Command.stru file)
    else if c == b'R'
    then ok (Command.stru record_)
    else if c == b'P'
    then ok (Command.stru page)
    else err invalid_command

unfoldable pub parse_stru : Bytes → Parsed Command
unfolding stru_of
parse_stru rest = do params ← parse_to_eol rest; stru_of params

unfoldable pub mode_of : Bytes → Parsed Command
mode_of [] = err invalid_command
mode_of (c ∷ _ ∷ _) = err invalid_command
mode_of (c ∷ []) =
    if c == b'S'
    then ok (Command.mode stream)
    else if c == b'B'
    then ok (Command.mode block)
    else if c == b'C'
    then ok (Command.mode compressed)
    else err invalid_command

unfoldable pub parse_mode : Bytes → Parsed Command
unfolding mode_of
parse_mode rest = do params ← parse_to_eol rest; mode_of params

unfoldable pub opts_of : Bytes → Parsed Command
opts_of params =
    if is_empty params
    then err invalid_command
    else if bytes_eq params (text "UTF8 ON") || bytes_eq params (text "utf8 on")
    then ok (Command.opts (utf8 Bool.true))
    else if bytes_eq params (text "UTF8 OFF") || bytes_eq params (text "utf8 off")
    then ok (Command.opts (utf8 Bool.false))
    else err invalid_command

unfoldable pub parse_opts : Bytes → Parsed Command
unfolding opts_of
parse_opts rest = do params ← parse_to_eol rest; opts_of params

unfoldable pub auth_of : Bytes → Parsed Command
auth_of name =
    if bytes_eq name (text "TLS")
    then ok (Command.auth tls)
    else if bytes_eq name (text "SSL")
    then ok (Command.auth ssl)
    else err invalid_command

unfoldable pub parse_auth : (Bytes → Bytes) → Bytes → Parsed Command
unfolding auth_of
parse_auth upper rest = do
  params ← parse_to_eol rest
  if ltb 3 (length params)
      then err invalid_command
      else (do name ← utf8_or_err (from_utf8 params); auth_of (to_uppercase upper name))

unfoldable pub pbsz_of : Bytes → Parsed Command
pbsz_of params =
    if is_empty params
    then err invalid_command
    else if not (bytes_eq (from_utf8_lossy params) (text "0"))
    then err invalid_command
    else ok Command.pbsz

unfoldable pub parse_pbsz : Bytes → Parsed Command
unfolding pbsz_of
parse_pbsz rest = do params ← parse_to_eol rest; pbsz_of params

unfoldable pub prot_of : Bytes → Parsed Command
prot_of [] = err invalid_command
prot_of (c ∷ _ ∷ _) = err invalid_command
prot_of (c ∷ []) =
    if c == b'C'
    then ok (Command.prot clear)
    else if c == b'S'
    then ok (Command.prot safe)
    else if c == b'E'
    then ok (Command.prot confidential)
    else if c == b'P'
    then ok (Command.prot private_)
    else err invalid_command

unfoldable pub parse_prot : Bytes → Parsed Command
unfolding prot_of
parse_prot rest = do params ← parse_to_eol rest; prot_of params

unfoldable pub rest_of : Option ℕ → Parsed Command
rest_of none = err invalid_command
rest_of (some val) = ok (Command.rest val)

abbrev pub u64_limit : ℕ
u64_limit = 2 ^ 64

unfoldable pub parse_rest : Bytes → Parsed Command
unfolding rest_of
parse_rest rest = do
  params ← parse_to_eol rest
  if is_empty params
      then err invalid_command
      else rest_of (parse_uint u64_limit (from_utf8_lossy params))

unfoldable pub parse_other : Bytes → Bytes → Parsed Command
parse_other cmd_token rest = do
  params ← parse_to_eol rest
  ok (Command.other cmd_token (from_utf8_lossy params))

unfoldable pub parse_md5 : Bytes → Parsed Command
parse_md5 = with_text (λ path. Command.md5 path)

unfoldable pub site_of : Bytes → Bytes → Parsed Command
unfolding parse_md5 parse_other
site_of cmd_token rest =
    if bytes_eq cmd_token (text "MD5") then parse_md5 rest else parse_other cmd_token rest

unfoldable pub parse_site : (Bytes → Bytes) → Bytes → Parsed Command
unfolding site_of
parse_site upper rest = do
  let (token, params) = split_token_params rest
  cmd_token ← normalize upper token
  site_of cmd_token params
