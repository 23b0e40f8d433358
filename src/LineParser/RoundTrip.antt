-- ===== src/LineParser/RoundTrip.antt =====
-- What a client prints is parsed to the command that was meant.
use libunftp.Prelude.{
  ℕ, Bytes, ◌≡◌, ◌≢◌, refl, sym, ap, true, false, none, some, [], ◌∷◌, ◌++◌, arith, All, text,
  is_empty, bytes_eq, ◌<◌,
}
use libunftp.Prelude.Result.{ok}
use libunftp.Std.Utf8.{is_ascii, from_utf8_lossy}
use libunftp.Std.Utf8.Laws.{from_utf8_lossy_of_utf8, is_utf8_of_ascii}
use libunftp.Std.Decimal.{print_uint}
use libunftp.Std.Decimal.Laws.{
  IsDigit, print_uint-IsDigit, print_uint-ne-nil, parse_uint-print_uint,
}
use libunftp.Std.FilePath.{split_on}
use libunftp.Command.{
  Command, file, record_, page, stream, block, compressed, clear, safe, confidential, private_, ssl,
  tls, utf8,
}
use libunftp.LineParser.Eol.{lf, parse_to_eol, split_token_params, normalize}
use libunftp.LineParser.EolLaws.{crlf, HasNoLf, escape, parse_to_eol-escape}
use libunftp.LineParser.Arms.{
  bare, with_text, parse_user, parse_pass, parse_acct, parse_syst, parse_stat, parse_type,
  parse_help, parse_noop, parse_pasv, parse_port, parse_retr, parse_stor, parse_list, list_path,
  parse_nlst, parse_feat, parse_pwd, parse_cwd, parse_cdup, parse_dele, parse_rmd, parse_quit,
  parse_mkd, parse_allo, parse_abor, parse_stou, parse_rnfr, parse_rnto, parse_ccc, parse_size,
  parse_mdtm,
}
use libunftp.LineParser.ParamArms.{
  parse_stru, parse_mode, parse_opts, parse_auth, parse_pbsz, parse_prot, parse_rest, parse_site,
  u64_limit,
}
use libunftp.LineParser.Parse.{parse}
use libunftp.LineParser.Print.{print, IsText, IsWord, IsPrintable}

-- Opens the choice of the arm, and no arm.
choice : Unit {0}
unfolding parse split_token_params normalize text bytes_eq print parse_noop parse_pasv parse_port
    parse_retr parse_stor parse_feat parse_pwd parse_cwd parse_cdup parse_dele parse_rmd parse_quit
    parse_mkd parse_abor parse_stou parse_rnfr parse_rnto parse_ccc parse_size parse_mdtm
choice = tt

bare-lf : (c : Command) → bare c (lf ∷ []) ≡ ok c
unfolding bare parse_to_eol
bare-lf c = refl

is_empty-false : (p : Bytes) → p ≢ [] → is_empty p ≡ false
is_empty-false [] h = absurd (h refl)
is_empty-false (c ∷ cs) h = refl

with_text-escape :
    (c : Bytes → Command) (p : Bytes) → IsText p → with_text c (escape p ++ crlf) ≡ ok (c p)
unfolding with_text
with_text-escape c p (ne, nolf, valid) =
    rw (parse_to_eol-escape p nolf, is_empty-false p ne, from_utf8_lossy_of_utf8 p valid)

split_on-of_word : (p : Bytes) → All (λ b. b ≢ b' ') p → split_on b' ' p ≡ p ∷ []
unfolding split_on
split_on-of_word [] h = refl
split_on-of_word (c ∷ cs) h = rw (split_on-of_word cs h.1) (ground arith)

list_path_of_word : (p : Bytes) → IsWord p → list_path p ≡ some p
unfolding list_path
list_path_of_word [] h = absurd h
list_path_of_word (c ∷ cs) (nd, nosp, nolf, valid) =
    rw (split_on-of_word (c ∷ cs) nosp) (ground (arith, from_utf8_lossy_of_utf8 (c ∷ cs) valid))

HasNoLf-of_digits : (p : Bytes) → All IsDigit p → HasNoLf p
HasNoLf-of_digits [] h = tt
HasNoLf-of_digits (c ∷ cs) h = (ground arith, HasNoLf-of_digits cs h.1)

is_ascii_of_digits : (p : Bytes) → All IsDigit p → is_ascii p ≡ true
unfolding is_ascii
is_ascii_of_digits [] h = refl
is_ascii_of_digits (c ∷ cs) h = rw (is_ascii_of_digits cs h.1) (ground arith)

parse_rest-print_uint :
    (n : ℕ) → n < u64_limit → parse_rest (escape (print_uint n) ++ crlf) ≡ ok (Command.rest n)
unfolding parse_rest
parse_rest-print_uint n h =
    let d = print_uint-IsDigit n in
    rw (
      parse_to_eol-escape (print_uint n) (HasNoLf-of_digits (print_uint n) d),
      is_empty-false (print_uint n) (print_uint-ne-nil n),
      from_utf8_lossy_of_utf8 (print_uint n)
          (is_utf8_of_ascii (print_uint n) (is_ascii_of_digits (print_uint n) d)),
      parse_uint-print_uint u64_limit n h,
    )

-- Every command that a line can express (its parameters hold no line feed, are UTF-8 and not empty
-- where the command wants text, and are in range) is parsed from the line that asks for it, in the
-- Telnet encoding, whatever is done to upper-case characters outside ASCII.
pub parse-print :
    (upper : Bytes → Bytes) (c : Command) → IsPrintable c → parse upper (print c) ≡ ok c
unfolding choice
parse-print upper (Command.user username) h =
    unfold parse_user in rw (parse_to_eol-escape username h)
parse-print upper (Command.pass password) h =
    unfold parse_pass in rw (parse_to_eol-escape password h)
parse-print upper (Command.acct account) h = unfold parse_acct in rw (parse_to_eol-escape account h)
parse-print upper Command.syst h = unfold parse_syst in refl
parse-print upper (Command.stat none) h = unfold parse_stat parse_to_eol in refl
parse-print upper (Command.stat (some path)) (ne, nolf) =
    unfold parse_stat in rw (parse_to_eol-escape path nolf, is_empty-false path ne)
parse-print upper Command.type_ h = unfold parse_type in refl
parse-print upper (Command.stru file) h = unfold parse_stru escape parse_to_eol in refl
parse-print upper (Command.stru record_) h = unfold parse_stru escape parse_to_eol in refl
parse-print upper (Command.stru page) h = unfold parse_stru escape parse_to_eol in refl
parse-print upper (Command.mode stream) h = unfold parse_mode escape parse_to_eol in refl
parse-print upper (Command.mode block) h = unfold parse_mode escape parse_to_eol in refl
parse-print upper (Command.mode compressed) h = unfold parse_mode escape parse_to_eol in refl
parse-print upper Command.help h = unfold parse_help in refl
parse-print upper Command.noop h = bare-lf Command.noop
parse-print upper Command.pasv h = bare-lf Command.pasv
parse-print upper (Command.port addr) h = with_text-escape (λ a. Command.port a) addr h
parse-print upper (Command.retr path) h = with_text-escape (λ a. Command.retr a) path h
parse-print upper (Command.stor path) h = with_text-escape (λ a. Command.stor a) path h
parse-print upper (Command.list options none) h =
    unfold parse_list parse_to_eol in ap (λ o. ok (Command.list o none)) (sym h)
parse-print upper (Command.list options (some (c ∷ cs))) (e, word) =
    unfold parse_list in
    rw (parse_to_eol-escape (c ∷ cs) word.2, list_path_of_word (c ∷ cs) word, e)
parse-print upper (Command.list options (some [])) (e, word) = absurd word
parse-print upper (Command.nlst none) h = unfold parse_nlst parse_to_eol in refl
parse-print upper (Command.nlst (some path)) (ne, nolf, valid) =
    unfold parse_nlst in
    rw (parse_to_eol-escape path nolf, is_empty-false path ne, from_utf8_lossy_of_utf8 path valid)
parse-print upper Command.feat h = bare-lf Command.feat
parse-print upper Command.pwd h = bare-lf Command.pwd
parse-print upper (Command.cwd path) h = with_text-escape (λ a. Command.cwd a) path h
parse-print upper Command.cdup h = bare-lf Command.cdup
parse-print upper (Command.opts (utf8 true)) h = unfold parse_opts escape parse_to_eol in refl
parse-print upper (Command.opts (utf8 false)) h = unfold parse_opts escape parse_to_eol in refl
parse-print upper (Command.dele path) h = with_text-escape (λ a. Command.dele a) path h
parse-print upper (Command.rmd path) h = with_text-escape (λ a. Command.rmd a) path h
parse-print upper Command.quit h = bare-lf Command.quit
parse-print upper (Command.mkd path) h = with_text-escape (λ a. Command.mkd a) path h
parse-print upper Command.allo h = unfold parse_allo in refl
parse-print upper Command.abor h = bare-lf Command.abor
parse-print upper Command.stou h = bare-lf Command.stou
parse-print upper (Command.rnfr path) h = with_text-escape (λ a. Command.rnfr a) path h
parse-print upper (Command.rnto path) h = with_text-escape (λ a. Command.rnto a) path h
parse-print upper (Command.auth tls) h = unfold parse_auth escape parse_to_eol in refl
parse-print upper (Command.auth ssl) h = unfold parse_auth escape parse_to_eol in refl
parse-print upper Command.ccc h = bare-lf Command.ccc
parse-print upper Command.pbsz h = unfold parse_pbsz escape parse_to_eol from_utf8_lossy in refl
parse-print upper (Command.prot clear) h = unfold parse_prot escape parse_to_eol in refl
parse-print upper (Command.prot safe) h = unfold parse_prot escape parse_to_eol in refl
parse-print upper (Command.prot confidential) h = unfold parse_prot escape parse_to_eol in refl
parse-print upper (Command.prot private_) h = unfold parse_prot escape parse_to_eol in refl
parse-print upper (Command.size path) h = with_text-escape (λ a. Command.size a) path h
parse-print upper (Command.rest offset) h = parse_rest-print_uint offset h
parse-print upper (Command.mdtm path) h = with_text-escape (λ a. Command.mdtm a) path h
parse-print upper (Command.md5 path) h =
    unfold parse_site in with_text-escape (λ a. Command.md5 a) path h
parse-print upper (Command.other name arguments) h = absurd h
