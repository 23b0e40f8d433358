-- ===== src/Codec/Lines.antt =====
-- What the decoder is held against: the lines of a text, each up to and with its line feed.
use libunftp.Prelude.{
  ℕ, Bytes, ◌≡◌, refl, false, List, [], ◌∷◌, ◌++◌, ◌==◌, if◌then◌else◌, Bool-cases, inl, inr,
}
use libunftp.LineParser.Eol.{lf}

unfoldable pub extend : ℕ → List Bytes × Bytes → List Bytes × Bytes
extend b ([], tail) = ([], b ∷ tail)
extend b (l ∷ ls, tail) = ((b ∷ l) ∷ ls, tail)

-- The complete lines, and the incomplete one at the end.
unfoldable pub split_lines : Bytes → List Bytes × Bytes
unfolding extend
split_lines [] = ([], [])
split_lines (b ∷ bs) =
    let (ls, tail) = split_lines bs in
    if b == lf then ((lf ∷ []) ∷ ls, tail) else extend b (ls, tail)

-- `both first second` are the lines of a text whose lines were `first`, with `second` those of its
-- unfinished end and what came after it.
abbrev pub both : List Bytes × Bytes → List Bytes × Bytes → List Bytes × Bytes
both first second = (first.0 ++ second.0, second.1)

extend-both :
    (c : ℕ) (b : Bytes) (first : List Bytes × Bytes)
    → (c == lf) ≡ false
    → extend c (both first (split_lines (first.1 ++ b)))
      ≡ both (extend c first) (split_lines ((extend c first).1 ++ b))
unfolding split_lines
extend-both c b ([], tail) h = rw h
extend-both c b (l ∷ ls, tail) h = refl

-- The lines of two texts in a row.
pub split_lines-append :
    (a b : Bytes)
    → split_lines (a ++ b) ≡ both (split_lines a) (split_lines ((split_lines a).1 ++ b))
unfolding split_lines
split_lines-append [] b = refl
split_lines-append (c ∷ cs) b = elim (Bool-cases (c == lf)) [
  | inl e ↦ rw (e, split_lines-append cs b)
  | inr e ↦ rw (e, split_lines-append cs b) (extend-both c b (split_lines cs) e)
]
