-- ===== src/Proxy/Header/Accepted.antt =====
-- A header that is read is that of the first line of the stream.
use mathlib.Core.List.{append_assoc}
use mathlib.Core.Path.{subst}
use libunftp.Prelude.{
  ℕ, suc, ◌+◌, ◌-◌, ◌≤◌, ◌<◌, Bytes, ◌≡◌, refl, sym, ap, ◌∙◌, Bool, true, Option, none, some, List,
  [], ◌∷◌, ◌++◌, length, take, drop, Option-cases, inl, inr, arith,
}
use libunftp.LineParser.Eol.{cr, lf}
use libunftp.Codec.{position}
use libunftp.Codec.Decoding.{later_by, position-append, position_left, position-lt}
use libunftp.Proxy.Header.{
  ProxyHeader, Peek, sees, fails, HeaderRead, header, capacity, stream, byte_at, parsed, complete,
  line_feed, no_line_feed, peeked, read_header,
}
use libunftp.Proxy.Header.FirstLine.{first_line, line_feed-first_line}

module _ (parse : Bytes → Option ProxyHeader) where
  -- The bytes that a header was parsed from, and those that are left.
  abbrev pub IsFirstLine : Bytes → ProxyHeader → Bytes → Type 0
  IsFirstLine bytes h unread =
      (index : ℕ) × ((position lf bytes ≡ some index)
        × ((13 ≤ index)
            × ((index < capacity)
                × ((parse (take (suc index) bytes) ≡ some h)
                    × ((byte_at (index - 1) (take (suc index) bytes) ≡ cr)
                        × (unread ≡ drop (suc index) bytes))))))

  parsed-header :
      (o : Option ProxyHeader) (unread rest : Bytes) (h : ProxyHeader)
      → parsed parse o unread ≡ header h rest
      → (o ≡ some h) × (unread ≡ rest)
  unfolding parsed
  parsed-header none unread rest h e = ground arith
  parsed-header (some g) unread rest h e = (ground arith, ground arith)

  complete-header :
      (line : Bytes) (index : ℕ) (unread : Bytes) (h : ProxyHeader) (rest : Bytes)
      → complete parse line index unread ≡ header h rest
      → (byte_at (index - 1) line ≡ cr) × ((parse line ≡ some h) × (unread ≡ rest))
  unfolding complete
  complete-header line index unread h rest e =
      ground (arith, parsed-header (parse line) unread rest h)

  first_line-header :
      (index : ℕ) (bytes : Bytes) (h : ProxyHeader) (unread : Bytes)
      → index ≤ capacity
      → position lf bytes ≡ some index
      → first_line parse index bytes ≡ header h unread
      → IsFirstLine bytes h unread
  unfolding first_line
  first_line-header index bytes h unread k at_lf e =
      let line = take (suc index) bytes in
      let rest = drop (suc index) bytes in
      let done = complete-header line index rest h unread in
      (
        index,
        (
          at_lf,
          (
            ground arith,
            (
              ground arith,
              (ground (arith, done), (ground (arith, done), sym (ground (arith, done)))),
            ),
          ),
        ),
      )

  line_feed-header :
      (got bytes later : Bytes) (read_ok : Bool) (pos : ℕ) (h : ProxyHeader) (unread : Bytes)
      → line_feed parse got bytes read_ok pos later ≡ header h unread
      → (read_ok ≡ true) × (length got + pos ≤ capacity)
  unfolding line_feed
  line_feed-header got bytes later read_ok pos h unread e = (ground arith, ground arith)

  no_line_feed-header :
      (got bytes : Bytes) (read_ok : Bool) (more : HeaderRead) (h : ProxyHeader) (unread : Bytes)
      → no_line_feed parse got bytes read_ok more ≡ header h unread
      → more ≡ header h unread
  unfolding no_line_feed
  no_line_feed-header got bytes read_ok more h unread e = ground arith

  peeks-IsFirstLine :
      (got : Bytes) (peeks : List Peek) (h : ProxyHeader) (unread : Bytes)
      → position lf got ≡ none
      → read_header parse got peeks ≡ header h unread
      → IsFirstLine (got ++ stream peeks) h unread
  unfolding read_header peeked
  peeks-IsFirstLine got [] h unread fresh e = ground arith
  peeks-IsFirstLine got (fails ∷ peeks) h unread fresh e = ground arith
  peeks-IsFirstLine got (sees bytes read_ok ∷ peeks) h unread fresh e =
      let more = read_header parse (got ++ bytes) peeks in
      elim (Option-cases (position lf bytes)) [
        | inl nothing ↦
            let e' =
              no_line_feed-header got bytes read_ok _ h unread (
                sym (ap (λ o. peeked parse got bytes read_ok o (stream peeks) more) nothing) ∙ e) in
            subst (λ b. IsFirstLine b h unread) (append_assoc got bytes (stream peeks))
              (peeks-IsFirstLine (got ++ bytes) peeks h unread
                (position-append got bytes fresh ∙ ap (later_by (length got)) nothing) e')
        | inr (pos, found) ↦
            let e' : line_feed parse got bytes read_ok pos (stream peeks) ≡ header h unread =
              sym (ap (λ o. peeked parse got bytes read_ok o (stream peeks) more) found) ∙ e in
            let (ok, fits) = line_feed-header got bytes (stream peeks) read_ok pos h unread e' in
            let at_lf : position lf (got ++ (bytes ++ stream peeks)) ≡ some (length got + pos) =
              position-append got (bytes ++ stream peeks) fresh
              ∙ ap (later_by (length got)) (position_left pos bytes (stream peeks) found)
              ∙ ground arith in
            first_line-header (length got + pos) (got ++ (bytes ++ stream peeks)) h unread fits
              at_lf
              (sym (
                  line_feed-first_line parse got bytes (stream peeks) pos
                    (position-lt pos bytes found) fits)
                ∙ sym (ap (λ b. line_feed parse got bytes b pos (stream peeks)) ok)
                ∙ e')
      ]

  -- Whenever a header is read, the first line feed of the stream is at an index from 13 on and below
  -- 108, a carriage return stands before it, the header is what is parsed from the line, and all that
  -- follows the line is left in the stream.
  pub read_header-IsFirstLine :
      (peeks : List Peek) (h : ProxyHeader) (unread : Bytes)
      → read_header parse [] peeks ≡ header h unread
      → IsFirstLine (stream peeks) h unread
  unfolding position
  read_header-IsFirstLine peeks h unread e = peeks-IsFirstLine [] peeks h unread refl e
