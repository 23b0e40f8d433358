-- ===== src/Storage/Listing.antt =====
-- The names that NLST sends can be read back from its lines.
use libunftp.Prelude.{Bytes, ◌≡◌, refl, ap, ◌∙◌, false, List, [], ◌∷◌, ◌++◌, map, All, ◌==◌}
use libunftp.LineParser.Eol.{cr, lf}
use libunftp.Codec.Lines.{split_lines, extend}
use libunftp.Storage.{Fileinfo, name_of, nlst_lines}

-- A name without a line feed.
abbrev pub IsOneLine : Bytes → Type 0
IsOneLine = All (λ b. (b == lf) ≡ false)

split_lines-line :
    (name rest : Bytes)
    → IsOneLine name
    → split_lines (name ++ (cr ∷ (lf ∷ rest)))
      ≡ ((name ++ (cr ∷ lf ∷ [])) ∷ (split_lines rest).0, (split_lines rest).1)
unfolding split_lines extend
split_lines-line [] rest h = refl
split_lines-line (b ∷ bs) rest (h, hs) = rw (h, split_lines-line bs rest hs) refl

-- What the client reads as a name: a line, with its end.
abbrev pub line_of_name : Fileinfo → Bytes
line_of_name f = name_of f.file_name ++ (cr ∷ lf ∷ [])

-- The text of NLST, of entries whose names have no line feed, splits into one line for each entry, in
-- their order: the name, a carriage return and the line feed. Nothing is left behind the last line.
pub split_lines-nlst_lines :
    (fs : List Fileinfo)
    → All (λ f. IsOneLine (name_of f.file_name)) fs
    → split_lines (nlst_lines fs) ≡ (map line_of_name fs, [])
unfolding nlst_lines split_lines
split_lines-nlst_lines [] h = refl
split_lines-nlst_lines (f ∷ fs) (h, hs) =
    split_lines-line (name_of f.file_name) (nlst_lines fs) h
    ∙ ap (λ r. ((name_of f.file_name ++ (cr ∷ lf ∷ [])) ∷ r.0, r.1)) (split_lines-nlst_lines fs hs)
