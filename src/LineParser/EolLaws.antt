-- ===== src/LineParser/EolLaws.antt =====
-- The end-of-line scanning of line_parser/parser.rs reads back what a Telnet client sends.
use mathlib.Core.List.{append-nil, append_assoc}
use libunftp.Prelude.{
  ℕ, Bytes, ◌≡◌, ◌≢◌, refl, sym, ap, ◌∙◌, [], ◌∷◌, ◌++◌, arith, All, Bool-cases, inl, inr, ◌==◌,
  ==_iff, if◌then◌else◌,
}
use libunftp.Prelude.Result.{ok}
use libunftp.LineParser.Eol.{cr, lf, nul, eol_step, push, eol_loop, parse_to_eol}

abbrev pub crlf : Bytes
crlf = cr ∷ lf ∷ []

abbrev pub HasNoLf : Bytes → Type 0
HasNoLf = All (λ b. b ≢ lf)

-- The Telnet encoding of a payload: a carriage return is followed by NUL.
unfoldable pub escape : Bytes → Bytes
escape [] = []
escape (c ∷ cs) = let rest = escape cs in if c == cr then cr ∷ nul ∷ rest else c ∷ rest

-- What follows a payload byte on the wire: two bytes at least, and no line feed first.
record Continues (rest : Bytes) : Type 0 where
  first : ℕ
  second : ℕ
  more : Bytes
  shape : rest ≡ first ∷ second ∷ more
  first_ne : first ≢ lf

escape-Continues : (p : Bytes) → HasNoLf p → Continues (escape p ++ crlf)
unfolding escape
escape-Continues [] h = record {
  first = cr;
  second = lf;
  more = [];
  shape = refl;
  first_ne = omega arith;
}
escape-Continues (c ∷ cs) h = elim (Bool-cases (c == cr)) [
  | inl e ↦ rw e (record {
    first = cr;
    second = nul;
    more = escape cs ++ crlf;
    shape = refl;
    first_ne = omega arith;
  })
  | inr e ↦
      let rest = escape-Continues cs h.1 in
      rw e (record {
        first = c;
        second = rest.first;
        more = rest.second ∷ rest.more;
        shape = ap (λ t. c ∷ t) rest.shape;
        first_ne = h.0;
      })
]

loop_skips :
    (dest rest : Bytes) (c : Continues rest)
    → eol_loop dest cr (nul ∷ rest) ≡ eol_loop dest nul rest
unfolding eol_loop eol_step
loop_skips dest rest c = rw (c.shape)

eol_step-eq-push :
    (before here next : ℕ) → before ≢ cr → here ≢ cr → next ≢ lf → eol_step before here next ≡ push
unfolding eol_step
eol_step-eq-push before here next hb hh hn = ground arith

loop_pushes :
    (dest rest : Bytes) (before here : ℕ) (c : Continues rest)
    → before ≢ cr
    → here ≢ cr
    → eol_loop dest before (here ∷ rest) ≡ eol_loop (dest ++ here ∷ []) here rest
unfolding eol_loop
loop_pushes dest rest before here c hb hh =
    rw (c.shape, eol_step-eq-push before here c.first hb hh c.first_ne)

loop_cr :
    (dest rest : Bytes) (before : ℕ)
    → eol_loop dest before (cr ∷ nul ∷ rest) ≡ eol_loop (dest ++ cr ∷ []) cr (nul ∷ rest)
unfolding eol_loop eol_step
loop_cr dest rest before = refl

loop_ends :
    (dest : Bytes) (before : ℕ) → before ≢ cr → eol_loop dest before (cr ∷ lf ∷ []) ≡ ok dest
unfolding eol_loop eol_step
loop_ends dest before hb = ground arith

-- From inside a line, the loop reads the rest of an escaped payload.
eol_loop-escape :
    (dest : Bytes) (before : ℕ) (p : Bytes)
    → before ≢ cr
    → HasNoLf p
    → eol_loop dest before (escape p ++ crlf) ≡ ok (dest ++ p)
unfolding escape
eol_loop-escape dest before [] hb h = loop_ends dest before hb ∙ ap ok (sym (append-nil dest))
eol_loop-escape dest before (c ∷ cs) hb h = elim (Bool-cases (c == cr)) [
  | inl e ↦ rw e (
      loop_cr dest (escape cs ++ crlf) before
      ∙ loop_skips (dest ++ cr ∷ []) (escape cs ++ crlf) (escape-Continues cs h.1)
      ∙ eol_loop-escape (dest ++ cr ∷ []) nul cs (omega arith) h.1
      ∙ ap ok (append_assoc dest (cr ∷ []) cs ∙ ap (λ t. dest ++ t ∷ cs) (sym ((==_iff c cr).0 e))))
  | inr e ↦ rw e (
      loop_pushes dest (escape cs ++ crlf) before c (escape-Continues cs h.1) hb (ground arith)
      ∙ eol_loop-escape (dest ++ c ∷ []) c cs (ground arith) h.1
      ∙ ap ok (append_assoc dest (c ∷ []) cs))
]

first_step :
    (c : ℕ) (rest : Bytes) (k : Continues rest)
    → c ≢ lf
    → parse_to_eol (c ∷ rest) ≡ eol_loop (c ∷ []) c rest
unfolding parse_to_eol
first_step c rest k h = rw (k.shape) (ground arith)

-- A payload without a line feed, with a NUL put after each carriage return of it and CR LF at the end,
-- is read as the payload.
pub parse_to_eol-escape : (p : Bytes) → HasNoLf p → parse_to_eol (escape p ++ crlf) ≡ ok p
unfolding escape
parse_to_eol-escape [] h = unfold parse_to_eol in refl
parse_to_eol-escape (c ∷ cs) h = elim (Bool-cases (c == cr)) [
  | inl e ↦
      let rest = escape-Continues cs h.1 in
      rw e (
        first_step cr (nul ∷ escape cs ++ crlf)
          (record {
            first = nul;
            second = rest.first;
            more = rest.second ∷ rest.more;
            shape = ap (λ t. nul ∷ t) rest.shape;
            first_ne = omega arith;
          })
          (omega arith)
        ∙ loop_skips (cr ∷ []) (escape cs ++ crlf) rest
        ∙ eol_loop-escape (cr ∷ []) nul cs (omega arith) h.1
        ∙ ap (λ t. ok (t ∷ cs)) (sym ((==_iff c cr).0 e)))
  | inr e ↦ rw e (
      first_step c (escape cs ++ crlf) (escape-Continues cs h.1) h.0
      ∙ eol_loop-escape (c ∷ []) c cs (ground arith) h.1)
]
