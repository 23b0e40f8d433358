-- ===== src/Std/Decimal/Laws.antt =====
-- A printed number is read back, and consists of digits.
use mathlib.Core.Option.{some}
use libunftp.Prelude.{
  ℕ, zero, suc, ◌+◌, ◌/◌, ◌%◌, ◌≤◌, ◌<◌, Bytes, ◌≡◌, refl, [], ◌∷◌, arith, All, Bool-cases, inl,
  inr, ltb, ◌≢◌, ◌==◌, false,
}
use libunftp.Std.Decimal.{is_digit, digits, unsigned, parse_uint, print_from, print_uint}

abbrev pub IsDigit : ℕ → Type 0
IsDigit c = (b'0' ≤ c) × (c ≤ b'9')

print_from-IsDigit :
    (fuel n : ℕ) (out : Bytes) → All IsDigit out → All IsDigit (print_from fuel n out)
unfolding print_from
print_from-IsDigit zero n out h = h
print_from-IsDigit (suc fuel) n out h =
    ground (arith, print_from-IsDigit fuel (n / 10) ((b'0' + n % 10) ∷ out))

pub print_uint-IsDigit : (n : ℕ) → All IsDigit (print_uint n)
unfolding print_uint
print_uint-IsDigit n = print_from-IsDigit (suc n) n [] tt

-- Reading the digits of `n` from 0 and going on with `out` is to go on from `n`.
digits-print_from :
    (limit fuel n : ℕ) (out : Bytes)
    → n < fuel
    → n < limit
    → digits limit 0 (print_from fuel n out) ≡ digits limit n out
unfolding print_from
digits-print_from limit zero n out h l = elim h [ ]
digits-print_from limit (suc fuel) n out h l = elim (Bool-cases (ltb n 10)) [
  | inl e ↦ rw e (unfold digits is_digit in ground arith)
  | inr e ↦
      rw
        (
          e,
          digits-print_from limit fuel (n / 10) ((b'0' + n % 10) ∷ out) (ground arith)
              (ground arith),
        )
        (unfold digits is_digit in ground arith)
]

print_from-ne-nil : (fuel n c : ℕ) (out : Bytes) → print_from fuel n (c ∷ out) ≢ []
unfolding print_from
print_from-ne-nil zero n c out = λ e. cc
print_from-ne-nil (suc fuel) n c out = elim (Bool-cases (ltb n 10)) [
  | inl e ↦ rw e (λ h. cc)
  | inr e ↦ rw e (print_from-ne-nil fuel (n / 10) (b'0' + n % 10) (c ∷ out))
]

pub print_uint-ne-nil : (n : ℕ) → print_uint n ≢ []
unfolding print_uint print_from
print_uint-ne-nil n = elim (Bool-cases (ltb n 10)) [
  | inl e ↦ rw e (λ h. cc)
  | inr e ↦ rw e (print_from-ne-nil n (n / 10) (b'0' + n % 10) [])
]

parse_uint_of_digits :
    (limit n : ℕ) (s : Bytes)
    → s ≢ []
    → All IsDigit s
    → digits limit 0 s ≡ some n
    → parse_uint limit s ≡ some n
unfolding parse_uint unsigned
parse_uint_of_digits limit n [] ne h e = absurd (ne refl)
parse_uint_of_digits limit n (c ∷ cs) ne h e = rw (plus_ne c h.0) e
  where
    plus_ne : (d : ℕ) → IsDigit d → (d == b'+') ≡ false
    plus_ne d p = ground arith

-- A number below the limit, printed, is parsed to itself.
pub parse_uint-print_uint : (limit n : ℕ) → n < limit → parse_uint limit (print_uint n) ≡ some n
unfolding digits
parse_uint-print_uint limit n h =
    parse_uint_of_digits limit n (print_uint n) (print_uint-ne-nil n) (print_uint-IsDigit n)
      (unfold print_uint in digits-print_from limit (suc n) n [] (omega arith) h)
