-- ===== src/LineParser/Eol.antt =====
-- line_parser/error.rs, and the scanning functions of line_parser/parser.rs.
use libunftp.Prelude.{
  ℕ, Bytes, Bool, ◌&&◌, ◌||◌, Option, none, some, [], ◌∷◌, ◌++◌, ◌==◌, if◌then◌else◌,
}
use libunftp.Prelude.Result.{Result, ok, err}
use libunftp.Std.Utf8.{from_utf8, to_uppercase}

pub data ParseErrorKind : Type 0 where
  invalid_command invalid_utf8 invalid_eol : ParseErrorKind

abbrev pub Parsed : Type 0 → Type 0
Parsed A = Result ParseErrorKind A

abbrev pub cr : ℕ
cr = 13

abbrev pub lf : ℕ
lf = 10

abbrev pub nul : ℕ
nul = 0

is_token_end : ℕ → Bool
is_token_end b = b == b' ' || (b == cr || b == lf)

-- `splitn(2, …)`: up to the first space, CR or LF, and what follows it.
unfoldable pub split_token_params : Bytes → Bytes × Bytes
unfolding is_token_end
split_token_params [] = ([], [])
split_token_params (b ∷ bs) =
    let (token, params) = split_token_params bs in
    if is_token_end b then ([], bs) else (b ∷ token, params)

-- What one round of the loop of `parse_to_eol` does with the byte between two others.
pub data EolStep : Type 0 where
  push skip finish push_finish fail : EolStep

unfoldable pub eol_step : ℕ → ℕ → ℕ → EolStep
eol_step before here next =
    if here == cr && next == nul
    then push
    else if before == cr && here == nul
    then skip
    else if here == cr && next == lf
    then finish
    else if next == lf
    then push_finish
    else if here == cr
    then fail
    else push

-- The loop: `before` is the byte at `i - 1`, and the list begins with the one at `i`.
unfoldable pub eol_loop : Bytes → ℕ → Bytes → Parsed Bytes
eol_loop dest before (here ∷ next ∷ more) = elim (eol_step before here next) [
  | push ↦ eol_loop (dest ++ here ∷ []) here (next ∷ more)
  | skip ↦ eol_loop dest here (next ∷ more)
  | finish ↦ ok dest
  | push_finish ↦ ok (dest ++ here ∷ [])
  | fail ↦ err invalid_eol
]
eol_loop dest before _ = err invalid_eol

unfoldable pub eol_of_two : ℕ → ℕ → Parsed Bytes
eol_of_two a b =
    if a == cr && b == lf
    then ok []
    else if a == lf
    then ok []
    else if b == lf
    then ok (a ∷ [])
    else err invalid_eol

unfoldable pub parse_to_eol : Bytes → Parsed Bytes
unfolding eol_of_two eol_loop eol_step
parse_to_eol [] = ok []
parse_to_eol (a ∷ []) = if a == lf then ok [] else err invalid_eol
parse_to_eol (a ∷ b ∷ []) = eol_of_two a b
parse_to_eol (a ∷ b ∷ c ∷ more) = if a == lf then ok [] else eol_loop (a ∷ []) a (b ∷ c ∷ more)

-- `?` on the error of `str::from_utf8`.
unfoldable pub utf8_or_err : Option Bytes → Parsed Bytes
utf8_or_err none = err invalid_utf8
utf8_or_err (some s) = ok s

unfoldable pub normalize : (Bytes → Bytes) → Bytes → Parsed Bytes
unfolding utf8_or_err to_uppercase from_utf8
normalize upper token = elim (utf8_or_err (from_utf8 token)) [
  | ok t ↦ ok (to_uppercase upper t)
  | err e ↦ err e
]
