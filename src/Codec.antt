-- ===== src/Codec.antt =====
-- src/server/controlchan/codecs.rs: lines out of the byte stream, and replies into it.
pub mod Lines
pub mod Decoding
pub mod Encoding
pub mod Tests
use libunftp.Prelude.{
  ℕ, suc, ◌+◌, Bytes, Bool, Option, none, some, List, [], ◌∷◌, ◌++◌, ◌&&◌, leb, ◌==◌, is_empty,
  length, take, drop, text, if◌then◌else◌,
}
use libunftp.Prelude.Result.{Result, ok, err}
use libunftp.Std.Decimal.{print_uint}
use libunftp.Command.{Command}
use libunftp.ControlError.{ControlChanErrorKind, of_parse_error}
use libunftp.LineParser.Eol.{Parsed, lf}
use libunftp.LineParser.EolLaws.{crlf}
use libunftp.LineParser.Parse.{parse}
use libunftp.Reply
use libunftp.Reply.{Reply, ReplyCode, code_number, code_and_msg, multi_line}

pub record FtpCodec : Type 0 where
  pub next_index : ℕ

abbrev pub new : FtpCodec
new = record { next_index = 0 }

abbrev pub one_later : Option ℕ → Option ℕ
one_later none = none
one_later (some i) = some (suc i)

-- `iter().position(…)`.
unfoldable pub position : ℕ → Bytes → Option ℕ
position b [] = none
position b (c ∷ cs) = let later = one_later (position b cs) in if c == b then some 0 else later

pub data Decoded : Type 0 where
  pending : Decoded
  command : Command → Decoded
  failed : ControlChanErrorKind → Decoded

-- `?` on the parser's result.
unfoldable pub decoded : Parsed Command → Decoded
unfolding of_parse_error
decoded (ok c) = command c
decoded (err e) = failed (of_parse_error e)

-- One call of `decode`: its result, the codec and the bytes that stay in the buffer.
pub record Progress : Type 0 where
  pub result : Decoded
  pub codec : FtpCodec
  pub buf : Bytes

unfoldable pub decode : (Bytes → Bytes) → FtpCodec → Bytes → Progress
unfolding position
decode upper codec buf = elim (position lf (drop codec.next_index buf)) [
  | some newline_offset ↦
      let newline_index = newline_offset + codec.next_index in
      record {
        result = decoded (parse upper (take (newline_index + 1) buf));
        codec = record { next_index = 0 };
        buf = drop (newline_index + 1) buf;
      }
  | none ↦ record { result = pending; codec = record { next_index = length buf }; buf = buf }
]

is_ascii_digit : ℕ → Bool
is_ascii_digit c = leb b'0' c && leb c b'9'

-- Lines that begin with a digit are indented; `chars().next().unwrap()` panics on an empty one.
unfoldable pub indent : List Bytes → Option (List Bytes)
unfolding is_ascii_digit
indent [] = some []
indent ([] ∷ more) = none
indent ((c ∷ cs) ∷ more) = elim (indent more) [
  | none ↦ none
  | some rest ↦ some ((if is_ascii_digit c then b' ' ∷ c ∷ cs else c ∷ cs) ∷ rest)
]

-- `Vec::pop`, with the empty text where there is no line.
unfoldable pub pop_line : List Bytes → List Bytes × Bytes
pop_line [] = ([], [])
pop_line (l ∷ []) = ([], l)
pop_line (l ∷ m ∷ more) = let (front, last) = pop_line (m ∷ more) in (l ∷ front, last)

unfoldable pub join_lines : List Bytes → Bytes
join_lines [] = []
join_lines (l ∷ []) = l
join_lines (l ∷ m ∷ more) = l ++ crlf ++ join_lines (m ∷ more)

unfoldable pub write_lines : Bytes → List Bytes → Bytes → Bytes
write_lines number [] last = number ++ b' ' ∷ last ++ crlf
write_lines number (l ∷ ls) last =
    number ++ b'-' ∷ join_lines (l ∷ ls) ++ crlf ++ number ++ b' ' ∷ last ++ crlf

write_indented : Bytes → Bytes → Option (List Bytes) → Option Bytes
write_indented number last none = none
write_indented number last (some rest) = some (write_lines number rest last)

-- The bytes that `encode` adds to the buffer; `none` is a panic.
unfoldable pub encode : Reply → Option Bytes
unfolding write_indented
encode Reply.none = some []
encode (code_and_msg code msg) =
    let number = print_uint (code_number code) in
    some (if is_empty msg then number ++ crlf else number ++ b' ' ∷ msg ++ crlf)
encode (multi_line code lines) =
    write_indented (print_uint (code_number code)) (pop_line lines).1 (indent (pop_line lines).0)
