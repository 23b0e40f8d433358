-- ===== src/LineParser/Print.antt =====
-- A client's side of the control channel: the line that asks for a command, in the Telnet encoding.
-- It is the specification that the parser is held against; the server has no such function.
use libunftp.Prelude.{
  String, Bytes, ◌≡◌, ◌≢◌, ◌<◌, true, false, none, some, [], ◌∷◌, ◌++◌, All, text,
}
use libunftp.Std.Utf8.{is_utf8}
use libunftp.Std.Decimal.{print_uint}
use libunftp.Command.{
  Command, file, record_, page, stream, block, compressed, clear, safe, confidential, private_, ssl,
  tls, utf8,
}
use libunftp.LineParser.EolLaws.{crlf, HasNoLf, escape}
use libunftp.LineParser.ParamArms.{u64_limit}

abbrev pub plain : String → Bytes
plain verb = text verb ++ crlf

abbrev pub with : String → Bytes → Bytes
with verb param = text verb ++ b' ' ∷ escape param ++ crlf

unfoldable pub print : Command → Bytes
print (Command.user username) = with "USER" username
print (Command.pass password) = with "PASS" password
print (Command.acct account) = with "ACCT" account
print Command.syst = plain "SYST"
print (Command.stat none) = plain "STAT"
print (Command.stat (some path)) = with "STAT" path
print Command.type_ = plain "TYPE"
print (Command.stru file) = with "STRU" (b'F' ∷ [])
print (Command.stru record_) = with "STRU" (b'R' ∷ [])
print (Command.stru page) = with "STRU" (b'P' ∷ [])
print (Command.mode stream) = with "MODE" (b'S' ∷ [])
print (Command.mode block) = with "MODE" (b'B' ∷ [])
print (Command.mode compressed) = with "MODE" (b'C' ∷ [])
print Command.help = plain "HELP"
print Command.noop = plain "NOOP"
print Command.pasv = plain "PASV"
print (Command.port addr) = with "PORT" addr
print (Command.retr path) = with "RETR" path
print (Command.stor path) = with "STOR" path
print (Command.list options none) = plain "LIST"
print (Command.list options (some path)) = with "LIST" path
print (Command.nlst none) = plain "NLST"
print (Command.nlst (some path)) = with "NLST" path
print Command.feat = plain "FEAT"
print Command.pwd = plain "PWD"
print (Command.cwd path) = with "CWD" path
print Command.cdup = plain "CDUP"
print (Command.opts (utf8 true)) = with "OPTS" (text "UTF8 ON")
print (Command.opts (utf8 false)) = with "OPTS" (text "UTF8 OFF")
print (Command.dele path) = with "DELE" path
print (Command.rmd path) = with "RMD" path
print Command.quit = plain "QUIT"
print (Command.mkd path) = with "MKD" path
print Command.allo = plain "ALLO"
print Command.abor = plain "ABOR"
print Command.stou = plain "STOU"
print (Command.rnfr path) = with "RNFR" path
print (Command.rnto path) = with "RNTO" path
print (Command.auth tls) = with "AUTH" (text "TLS")
print (Command.auth ssl) = with "AUTH" (text "SSL")
print Command.ccc = plain "CCC"
print Command.pbsz = with "PBSZ" (b'0' ∷ [])
print (Command.prot clear) = with "PROT" (b'C' ∷ [])
print (Command.prot safe) = with "PROT" (b'S' ∷ [])
print (Command.prot confidential) = with "PROT" (b'E' ∷ [])
print (Command.prot private_) = with "PROT" (b'P' ∷ [])
print (Command.size path) = with "SIZE" path
print (Command.rest offset) = with "REST" (print_uint offset)
print (Command.mdtm path) = with "MDTM" path
print (Command.md5 path) = with "SITE MD5" path
print (Command.other name arguments) = name ++ b' ' ∷ escape arguments ++ crlf

abbrev pub IsText : Bytes → Type 0
IsText p = (p ≢ []) × HasNoLf p × (is_utf8 p ≡ true)

-- No word of the parameter of LIST is taken for an option or cut off.
abbrev pub IsWord : Bytes → Type 0
IsWord [] = ⊥
IsWord (c ∷ cs) =
    (c ≢ b'-') × All (λ b. b ≢ b' ') (c ∷ cs) × HasNoLf (c ∷ cs) × (is_utf8 (c ∷ cs) ≡ true)

-- The commands that a line can express. (`other` stands for the verbs that are not known.)
abbrev pub IsPrintable : Command → Type 0
IsPrintable (Command.user username) = HasNoLf username
IsPrintable (Command.pass password) = HasNoLf password
IsPrintable (Command.acct account) = HasNoLf account
IsPrintable (Command.stat (some path)) = (path ≢ []) × HasNoLf path
IsPrintable (Command.port addr) = IsText addr
IsPrintable (Command.retr path) = IsText path
IsPrintable (Command.stor path) = IsText path
IsPrintable (Command.list options none) = options ≡ none
IsPrintable (Command.list options (some path)) = (options ≡ none) × IsWord path
IsPrintable (Command.nlst (some path)) = IsText path
IsPrintable (Command.cwd path) = IsText path
IsPrintable (Command.dele path) = IsText path
IsPrintable (Command.rmd path) = IsText path
IsPrintable (Command.mkd path) = IsText path
IsPrintable (Command.rnfr path) = IsText path
IsPrintable (Command.rnto path) = IsText path
IsPrintable (Command.size path) = IsText path
IsPrintable (Command.rest offset) = offset < u64_limit
IsPrintable (Command.mdtm path) = IsText path
IsPrintable (Command.md5 path) = IsText path
IsPrintable (Command.other name arguments) = ⊥
IsPrintable _ = Unit
