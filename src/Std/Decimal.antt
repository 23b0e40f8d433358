-- ===== src/Std/Decimal.antt =====
-- Decimal numerals: `str::parse` of the unsigned integers below a limit, and their `to_string`.
pub mod Laws
use mathlib.Core.Option.{Option, none, some}
use libunftp.Prelude.{
  ℕ, zero, suc, ◌+◌, ◌-◌, ◌*◌, ◌/◌, ◌%◌, Bytes, Bool, ◌&&◌, [], ◌∷◌, ◌++◌, ltb, leb, ◌==◌,
  if◌then◌else◌,
}

is_digit : ℕ → Bool
is_digit c = leb b'0' c && leb c b'9'

-- The digits after `n`; none on another character or on overflow.
digits : ℕ → ℕ → Bytes → Option ℕ
digits limit n [] = some n
digits limit n (c ∷ cs) =
    let m = n * 10 + (c - b'0') in
    let more = digits limit m cs in if is_digit c && ltb m limit then more else none

unsigned : ℕ → Bytes → Option ℕ
unsigned limit [] = none
unsigned limit (c ∷ cs) = digits limit 0 (c ∷ cs)

-- One leading `+` is accepted.
unfoldable pub parse_uint : ℕ → Bytes → Option ℕ
unfolding digits is_digit unsigned
parse_uint limit [] = none
parse_uint limit (c ∷ cs) = if c == b'+' then unsigned limit cs else unsigned limit (c ∷ cs)

-- The digits of `n` in front of `out`; more fuel than `n` is more than enough.
print_from : ℕ → ℕ → Bytes → Bytes
print_from zero n out = out
print_from (suc fuel) n out =
    let here = (b'0' + n % 10) ∷ out in
    let more = print_from fuel (n / 10) here in if ltb n 10 then here else more

unfoldable pub print_uint : ℕ → Bytes
unfolding print_from
print_uint n = print_from (suc n) n []
