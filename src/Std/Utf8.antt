-- ===== src/Std/Utf8.antt =====
-- `std::str::from_utf8`, `String::from_utf8_lossy` and `str::to_uppercase`.
-- The case table of Unicode is a parameter: only texts with a character outside ASCII reach it.
pub mod Laws
use libunftp.Prelude.{
  ℕ, zero, suc, ◌-◌, Bytes, Bool, true, false, ◌&&◌, List, [], ◌∷◌, ◌++◌, map, Option, none, some,
  ltb, leb, ◌==◌, if◌then◌else◌,
}

-- Between two characters, or inside one: the range of the next byte, and how many follow that.
pub data Utf8State : Type 0 where
  start : Utf8State
  inside : (lo hi more : ℕ) → Utf8State

lead : ℕ → Option Utf8State
lead b =
    if ltb b 0x80
    then some start
    else if leb 0xC2 b && leb b 0xDF
    then some (inside 0x80 0xBF 0)
    else if b == 0xE0
    then some (inside 0xA0 0xBF 1)
    else if b == 0xED
    then some (inside 0x80 0x9F 1)
    else if leb 0xE1 b && leb b 0xEF
    then some (inside 0x80 0xBF 1)
    else if b == 0xF0
    then some (inside 0x90 0xBF 2)
    else if leb 0xF1 b && leb b 0xF3
    then some (inside 0x80 0xBF 2)
    else if b == 0xF4
    then some (inside 0x80 0x8F 2)
    else none

after : ℕ → Utf8State
after zero = start
after (suc more) = inside 0x80 0xBF more

advance : Utf8State → ℕ → Option Utf8State
advance start b = lead b
advance (inside lo hi more) b = if leb lo b && leb b hi then some (after more) else none

utf8_from : Utf8State → Bytes → Bool
utf8_from start [] = true
utf8_from (inside lo hi more) [] = false
utf8_from s (b ∷ bs) = elim (advance s b) [ none ↦ false | some s' ↦ utf8_from s' bs ]

unfoldable pub is_utf8 : Bytes → Bool
unfolding utf8_from advance lead after
is_utf8 bs = utf8_from start bs

unfoldable pub from_utf8 : Bytes → Option Bytes
unfolding is_utf8
from_utf8 bs = if is_utf8 bs then some bs else none

-- U+FFFD
abbrev replacement : Bytes
replacement = 0xEF ∷ 0xBF ∷ 0xBD ∷ []

-- What is written out, and the state and the unfinished character that remain.
abbrev Progress : Type 0
Progress = Bytes × Utf8State × Bytes

settle : Bytes → Utf8State → Progress
settle read start = (read, start, [])
settle read (inside lo hi more) = ([], inside lo hi more, read)

begin : ℕ → Progress
begin b = elim (lead b) [ none ↦ (replacement, start, []) | some s ↦ settle (b ∷ []) s ]

prepend : Bytes → Progress → Progress
prepend out (more, s, read) = (out ++ more, s, read)

-- A character that breaks off is replaced, and the byte that broke it is read anew.
lossy_step : Utf8State → Bytes → ℕ → Progress
lossy_step start read b = begin b
lossy_step (inside lo hi more) read b =
    if leb lo b && leb b hi
    then settle (read ++ b ∷ []) (after more)
    else prepend replacement (begin b)

lossy_from : Utf8State → Bytes → Bytes → Bytes
lossy_from start read [] = []
lossy_from (inside lo hi more) read [] = replacement
lossy_from s read (b ∷ bs) =
    let (out, s', read') = lossy_step s read b in out ++ lossy_from s' read' bs

unfoldable pub from_utf8_lossy : Bytes → Bytes
unfolding lossy_from lossy_step begin settle prepend lead after
from_utf8_lossy bs = lossy_from start [] bs

unfoldable pub is_ascii : Bytes → Bool
is_ascii [] = true
is_ascii (b ∷ bs) = ltb b 0x80 && is_ascii bs

unfoldable pub ascii_upper : ℕ → ℕ
ascii_upper b = if leb b'a' b && leb b b'z' then b - 32 else b

unfoldable pub to_uppercase : (Bytes → Bytes) → Bytes → Bytes
unfolding is_ascii ascii_upper
to_uppercase upper s = if is_ascii s then map ascii_upper s else upper s
