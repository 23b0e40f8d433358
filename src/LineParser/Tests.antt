-- ===== src/LineParser/Tests.antt =====
-- Lines of line_parser/tests.rs.
use libunftp.Prelude.{Bytes, ◌≡◌, refl, [], ◌∷◌, ◌++◌, text, bytes_eq}
use libunftp.Prelude.Result.{ok, err}
use libunftp.Command
use libunftp.LineParser.Eol.{parse_to_eol, split_token_params, normalize, invalid_eol}
use libunftp.LineParser.EolLaws.{crlf}
use libunftp.LineParser.Arms.{parse_user}
use libunftp.LineParser.Parse.{parse}
use libunftp.LineParser.Print.{print}
use libunftp.LineParser.RoundTrip.{parse-print}

-- Opens all that a run of the parser goes through.
pub parser : Unit {0}
unfolding parse split_token_params normalize parse_to_eol text bytes_eq parse_user
parser = tt

abbrev same : Bytes → Bytes
same s = s

abbrev dolores : Bytes
dolores = text "Dolores"

parse_tests :
    (parse same (text "uSeR Dolores" ++ crlf) ≡ ok (Command.user dolores))
    × (parse same (text "USER Dolores" ++ 10 ∷ []) ≡ ok (Command.user dolores))
    × (parse same (text "USER Dolores" ++ 13 ∷ []) ≡ err invalid_eol)
    × (parse same (text "USER Dolores") ≡ err invalid_eol)
    × (parse same (text "USER  Dolores" ++ crlf) ≡ ok (Command.user (b' ' ∷ dolores)))
unfolding parser
parse_tests = (refl, refl, refl, refl, refl)

parse-print_example :
    parse same (print (Command.retr (b'a' ∷ b'/' ∷ b'b' ∷ [])))
    ≡ ok (Command.retr (b'a' ∷ b'/' ∷ b'b' ∷ []))
unfolding libunftp.Std.Utf8.is_utf8
parse-print_example =
    parse-print same (Command.retr (b'a' ∷ b'/' ∷ b'b' ∷ []))
      ((λ e. cc), ((λ e. cc), ((λ e. cc), ((λ e. cc), tt))), refl)
