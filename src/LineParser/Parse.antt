-- ===== src/LineParser/Parse.antt =====
-- `parse` of line_parser/parser.rs: the `match` on the verb is a table of its arms.
use libunftp.Prelude.{Bytes, List, [], ◌∷◌, bytes_eq, text, if◌then◌else◌}
use libunftp.Prelude.Result.{◌>>=◌}
use libunftp.Command.{Command}
use libunftp.LineParser.Eol.{Parsed, split_token_params, normalize}
use libunftp.LineParser.Arms.{
  parse_user, parse_pass, parse_acct, parse_syst, parse_stat, parse_type, parse_help, parse_noop,
  parse_pasv, parse_port, parse_retr, parse_stor, parse_list, parse_nlst, parse_feat, parse_pwd,
  parse_cwd, parse_cdup, parse_dele, parse_rmd, parse_quit, parse_mkd, parse_allo, parse_abor,
  parse_stou, parse_rnfr, parse_rnto, parse_ccc, parse_size, parse_mdtm,
}
use libunftp.LineParser.ParamArms.{
  parse_stru, parse_mode, parse_opts, parse_auth, parse_pbsz, parse_prot, parse_rest, parse_site,
  parse_other,
}

abbrev pub Arm : Type 0
Arm = Bytes → Parsed Command

unfoldable pub arms : (Bytes → Bytes) → List (Bytes × Arm)
arms upper =
    (text "USER", parse_user)
    ∷ (text "PASS", parse_pass)
    ∷ (text "ACCT", parse_acct)
    ∷ (text "SYST", parse_syst)
    ∷ (text "STAT", parse_stat)
    ∷ (text "TYPE", parse_type)
    ∷ (text "STRU", parse_stru)
    ∷ (text "MODE", parse_mode)
    ∷ (text "HELP", parse_help)
    ∷ (text "NOOP", parse_noop)
    ∷ (text "PASV", parse_pasv)
    ∷ (text "PORT", parse_port)
    ∷ (text "RETR", parse_retr)
    ∷ (text "STOR", parse_stor)
    ∷ (text "LIST", parse_list)
    ∷ (text "NLST", parse_nlst)
    ∷ (text "FEAT", parse_feat)
    ∷ (text "PWD", parse_pwd)
    ∷ (text "XPWD", parse_pwd)
    ∷ (text "CWD", parse_cwd)
    ∷ (text "XCWD", parse_cwd)
    ∷ (text "CDUP", parse_cdup)
    ∷ (text "OPTS", parse_opts)
    ∷ (text "DELE", parse_dele)
    ∷ (text "RMD", parse_rmd)
    ∷ (text "QUIT", parse_quit)
    ∷ (text "BYE", parse_quit)
    ∷ (text "MKD", parse_mkd)
    ∷ (text "XMKD", parse_mkd)
    ∷ (text "ALLO", parse_allo)
    ∷ (text "ABOR", parse_abor)
    ∷ (text "STOU", parse_stou)
    ∷ (text "RNFR", parse_rnfr)
    ∷ (text "RNTO", parse_rnto)
    ∷ (text "AUTH", parse_auth upper)
    ∷ (text "PBSZ", parse_pbsz)
    ∷ (text "PROT", parse_prot)
    ∷ (text "CCC", parse_ccc)
    ∷ (text "SIZE", parse_size)
    ∷ (text "REST", parse_rest)
    ∷ (text "MDTM", parse_mdtm)
    ∷ (text "SITE", parse_site upper)
    ∷ []

unfoldable pub choose : Bytes → List (Bytes × Arm) → Arm
choose token [] = parse_other token
choose token ((name, arm) ∷ more) = if bytes_eq token name then arm else choose token more

unfoldable pub parse : (Bytes → Bytes) → Bytes → Parsed Command
unfolding choose arms
parse upper line = do
  let (token, params) = split_token_params line
  cmd_token ← normalize upper token
  choose cmd_token (arms upper) params
