-- ===== src/Codec/Tests.antt =====
-- Bytes of a connection, in chunks, and replies of several lines.
use libunftp.Prelude.{Bytes, ◌≡◌, List, [], ◌∷◌, ◌++◌, text, some, refl}
use libunftp.Std.Decimal.{print_uint}
use libunftp.Reply.{multi_line, system_status, code_number}
use libunftp.Codec.{encode}
use libunftp.Codec
use libunftp.Codec.Lines.{split_lines}
use libunftp.Codec.Decoding.{receive, parsed, concat, receive-eq-split_lines}
use libunftp.Codec.Encoding.{reply_text, encode-multi_line}

abbrev same : Bytes → Bytes
same s = s

-- `NOOP` in two chunks, with the beginning of the next line.
abbrev chunks : List Bytes
chunks = text "NO" ∷ (text "OP" ++ 13 ∷ 10 ∷ text "QU") ∷ []

receive-eq-split_lines_example :
    receive same Codec.new [] chunks ≡ parsed same (split_lines (concat chunks)).0
receive-eq-split_lines_example = receive-eq-split_lines same chunks

encode-multi_line_example :
    encode (multi_line system_status ((b'a' ∷ []) ∷ (b'1' ∷ []) ∷ (b'z' ∷ []) ∷ []))
    ≡ some (
        reply_text
          (print_uint (code_number system_status))
          ((b'a' ∷ []) ∷ (b'1' ∷ []) ∷ [])
          (b'z' ∷ []))
encode-multi_line_example =
    encode-multi_line system_status ((b'a' ∷ []) ∷ (b'1' ∷ []) ∷ []) (b'z' ∷ []) (tt, (tt, tt))

encode_lines :
    encode (multi_line system_status ((b'a' ∷ []) ∷ (b'1' ∷ []) ∷ (b'z' ∷ []) ∷ []))
    ≡ some (text "211-a" ++ (13 ∷ 10 ∷ text " 1") ++ (13 ∷ 10 ∷ text "211 z") ++ (13 ∷ 10 ∷ []))
unfolding encode text Codec.indent Codec.pop_line Codec.write_lines print_uint code_number
    Codec.join_lines
encode_lines = refl
