-- ===== src/Codec/Encoding.antt =====
-- The text of a reply of several lines, as `encode` of src/server/controlchan/codecs.rs writes it.
use mathlib.Core.List.{append_assoc}
use libunftp.Prelude.{
  ◌≡◌, Bytes, ◌&&◌, some, List, [], ◌∷◌, ◌++◌, All, refl, ap, leb, if◌then◌else◌, sym,
}
use libunftp.Std.Decimal.{print_uint}
use libunftp.Reply.{multi_line, code_number, ReplyCode}
use libunftp.Codec.{encode, indent, pop_line, join_lines, write_lines, is_ascii_digit}

abbrev pub IsFull : Bytes → Type 0
IsFull [] = ⊥
IsFull (c ∷ cs) = Unit

-- What a client is to read in place of a line: one that begins with one of the bytes 48 to 57 has a
-- space in front.
abbrev pub shown : Bytes → Bytes
shown [] = []
shown (c ∷ cs) = if leb 48 c && leb c 57 then 32 ∷ c ∷ cs else c ∷ cs

-- Each of the lines, and the end of each.
abbrev pub shown_lines : List Bytes → Bytes
shown_lines [] = []
shown_lines (l ∷ ls) = shown l ++ (13 ∷ 10 ∷ shown_lines ls)

abbrev pub last_line : (number last : Bytes) → Bytes
last_line number last = number ++ (32 ∷ (last ++ (13 ∷ 10 ∷ [])))

-- RFC 959: a reply of several lines begins with its number and a dash and ends with a line of its
-- number and a space.
abbrev pub reply_text : (number : Bytes) → (front : List Bytes) → (last : Bytes) → Bytes
reply_text number [] last = last_line number last
reply_text number (l ∷ ls) last = number ++ (45 ∷ (shown_lines (l ∷ ls) ++ last_line number last))

abbrev shown_each : List Bytes → List Bytes
shown_each [] = []
shown_each (l ∷ ls) = shown l ∷ shown_each ls

indent-shown : (lines : List Bytes) → All IsFull lines → indent lines ≡ some (shown_each lines)
unfolding indent is_ascii_digit
indent-shown [] h = refl
indent-shown ([] ∷ more) h = absurd h.0
indent-shown ((c ∷ cs) ∷ more) h = rw (indent-shown more h.1) refl

pop_line-append :
    (front : List Bytes) (last : Bytes) → pop_line (front ++ last ∷ []) ≡ (front, last)
unfolding pop_line
pop_line-append [] last = refl
pop_line-append (l ∷ []) last = refl
pop_line-append (l ∷ m ∷ more) last = simp (pop_line-append (m ∷ more) last)

join_lines-shown :
    (l : Bytes) (ls : List Bytes) (rest : Bytes)
    → join_lines (shown_each (l ∷ ls)) ++ (13 ∷ 10 ∷ rest) ≡ shown_lines (l ∷ ls) ++ rest
unfolding join_lines
join_lines-shown l [] rest = sym (append_assoc (shown l) (13 ∷ 10 ∷ []) rest)
join_lines-shown l (m ∷ ls) rest = simp (append_assoc, join_lines-shown m ls rest)

write_lines-shown :
    (number : Bytes) (front : List Bytes) (last : Bytes)
    → write_lines number (shown_each front) last ≡ reply_text number front last
unfolding write_lines
write_lines-shown number [] last = simp (append_assoc)
write_lines-shown number (l ∷ ls) last =
    simp (append_assoc, join_lines-shown l ls (last_line number last))

-- A reply of several lines, none of them but perhaps the last one empty, is encoded without a panic. Its
-- text is its number, a dash and the lines but the last, each ended by a carriage return and a line
-- feed and with a space in front if it begins with a digit, and then its number, a space, the last line
-- and the same end; with only one line, it is this last part alone.
pub encode-multi_line :
    (code : ReplyCode) (front : List Bytes) (last : Bytes)
    → All IsFull front
    → encode (multi_line code (front ++ last ∷ []))
      ≡ some (reply_text (print_uint (code_number code)) front last)
unfolding encode
encode-multi_line code front last h =
    rw (pop_line-append front last, indent-shown front h)
      (ap some (write_lines-shown (print_uint (code_number code)) front last))
