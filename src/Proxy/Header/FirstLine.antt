-- ===== src/Proxy/Header/FirstLine.antt =====
-- The header that is read is the first line of the stream, however the stream arrives.
use mathlib.Core.List.{append-nil, append_assoc}
use mathlib.Core.Option.{none-ne-some}
use libunftp.Prelude.{
  ℕ, zero, suc, ◌+◌, ◌-◌, ◌≤◌, ◌<◌, Bytes, ◌≡◌, refl, sym, ap, ◌∙◌, Bool, true, false, Option, none,
  some, List, [], ◌∷◌, ◌++◌, length, take, drop, length-append, take-append, drop-append,
  take_within, drop_within, ltb, ◌==◌, if◌then◌else◌, Option-cases, Bool-cases, inl, inr, arith,
  All,
}
use libunftp.LineParser.Eol.{lf}
use libunftp.Codec.{position}
use libunftp.Codec.Decoding.{later_by, position-append, position_left, position-lt}
use libunftp.Proxy.Header.{
  header_size, ProxyHeader, Peek, sees, fails, HeaderRead, failed, panicked, capacity, stream,
  complete, line_feed, no_line_feed, peeked, read_header, byte_at, parsed, header, decode_error,
  crlf_error, cr,
}

abbrev pub IsRead : Peek → Type 0
IsRead (sees bytes read_ok) = read_ok ≡ true
IsRead fails = ⊥

-- The next byte is a carriage return.
abbrev pub begins_cr : Bytes → Bool
begins_cr [] = false
begins_cr (b ∷ bytes) = b == 13

abbrev pub understood : Option ProxyHeader → (unread : Bytes) → HeaderRead
understood none unread = failed decode_error
understood (some h) unread = header h unread

-- What is to become of a stream whose first line feed is at an index.
abbrev pub finished : (Bytes → Option ProxyHeader) → (index : ℕ) → (bytes : Bytes) → HeaderRead
finished parse index bytes =
    if ltb index 13
    then failed header_size
    else if index == 108
    then panicked
    else if begins_cr (drop (index - 1) bytes)
    then understood (parse (take (suc index) bytes)) (drop (suc index) bytes)
    else failed crlf_error

module _ (parse : Bytes → Option ProxyHeader) where
  -- What a stream comes to, if its first line feed is at the index.
  unfoldable pub first_line : ℕ → Bytes → HeaderRead
  first_line index bytes =
      if ltb index 13
      then failed header_size
      else if index == capacity
      then panicked
      else complete parse (take (suc index) bytes) index (drop (suc index) bytes)

  -- In one peek.
  pub line_feed-first_line :
      (got bytes later : Bytes) (pos : ℕ)
      → pos < length bytes
      → length got + pos ≤ capacity
      → line_feed parse got bytes true pos later
        ≡ first_line (length got + pos) (got ++ (bytes ++ later))
  unfolding line_feed first_line
  line_feed-first_line got bytes later pos h k =
      rw
        (
          take-append got (bytes ++ later) (suc pos) (suc (length got + pos)) (omega arith),
          drop-append got (bytes ++ later) (suc pos) (suc (length got + pos)) (omega arith),
          take_within (suc pos) bytes later h,
          drop_within (suc pos) bytes later h,
        )
        ground arith

  later_by-ge : (k i : ℕ) (o : Option ℕ) → later_by k o ≡ some i → k ≤ i
  later_by-ge k i none e = ground arith
  later_by-ge k i (some j) e = ground arith

  position_at :
      (got bytes later : Bytes) (pos index : ℕ)
      → position lf got ≡ none
      → position lf bytes ≡ some pos
      → position lf (got ++ (bytes ++ later)) ≡ some index
      → length got + pos ≡ index
  position_at got bytes later pos index fresh found e =
      let there : some (pos + length got) ≡ some index =
        sym (
          position-append got (bytes ++ later) fresh
          ∙ ap (later_by (length got)) (position_left pos bytes later found))
        ∙ e in
      ground arith

  peeks-first_line :
      (got : Bytes) (peeks : List Peek) (index : ℕ)
      → position lf got ≡ none
      → All IsRead peeks
      → position lf (got ++ stream peeks) ≡ some index
      → index ≤ capacity
      → read_header parse got peeks ≡ first_line index (got ++ stream peeks)
  unfolding read_header peeked no_line_feed
  peeks-first_line got [] index fresh ok e k =
      absurd (none-ne-some index (sym fresh ∙ sym (ap (position lf) (append-nil got)) ∙ e))
  peeks-first_line got (fails ∷ peeks) index fresh ok e k = elim (ok.0) [ ]
  peeks-first_line got (sees bytes read_ok ∷ peeks) index fresh ok e k =
      elim (Option-cases (position lf bytes)) [
        | inl nothing ↦
            let unscanned : position lf (got ++ bytes) ≡ none =
              position-append got bytes fresh ∙ ap (later_by (length got)) nothing in
            let e' : position lf ((got ++ bytes) ++ stream peeks) ≡ some index =
              ap (position lf) (append_assoc got bytes (stream peeks)) ∙ e in
            let scanned =
              later_by-ge (length (got ++ bytes)) index _
                (sym (position-append (got ++ bytes) (stream peeks) unscanned) ∙ e') in
            rw
              (
                nothing,
                peeks-first_line (got ++ bytes) peeks index unscanned ok.1 e' k,
                append_assoc got bytes (stream peeks),
              )
              (ground (arith, scanned, length-append got bytes, ok.0))
        | inr (pos, found) ↦
            let here = position_at got bytes (stream peeks) pos index fresh found e in
            rw (found, ok.0)
              (line_feed-first_line got bytes (stream peeks) pos (position-lt pos bytes found)
                  (omega (arith, here))
                ∙ ap (λ i. first_line i (got ++ (bytes ++ stream peeks))) here)
      ]

  -- A byte of a line that stands in the whole stream.
  byte_at-take :
      (i n : ℕ) (bytes : Bytes)
      → i < n
      → (byte_at i (take n bytes) == cr) ≡ begins_cr (drop i bytes)
  unfolding byte_at
  byte_at-take i zero bytes h = ground arith
  byte_at-take zero (suc n) [] h = refl
  byte_at-take (suc i) (suc n) [] h = refl
  byte_at-take zero (suc n) (b ∷ bytes) h = refl
  byte_at-take (suc i) (suc n) (b ∷ bytes) h = byte_at-take i n bytes (omega (arith, h))

  parsed-understood :
      (h : Option ProxyHeader) (unread : Bytes) → parsed parse h unread ≡ understood h unread
  unfolding parsed
  parsed-understood none unread = refl
  parsed-understood (some h) unread = refl

  complete-finished :
      (index : ℕ) (bytes : Bytes)
      → 13 ≤ index
      → complete parse (take (suc index) bytes) index (drop (suc index) bytes) ≡ (
          if begins_cr (drop (index - 1) bytes)
          then understood (parse (take (suc index) bytes)) (drop (suc index) bytes)
          else failed crlf_error)
  unfolding complete parsed
  complete-finished index bytes h =
      rw (byte_at-take (index - 1) (suc index) bytes (omega (arith, h))) (
        ap (λ x. if begins_cr (drop (index - 1) bytes) then x else failed crlf_error)
          (parsed-understood (parse (take (suc index) bytes)) (drop (suc index) bytes)))

  -- What the protocol asks of the first line of a stream.
  first_line-finished :
      (index : ℕ) (bytes : Bytes) → first_line index bytes ≡ finished parse index bytes
  unfolding first_line
  first_line-finished index bytes = elim (Bool-cases (ltb index 13)) [
    | inl h ↦ rw h refl
    | inr h ↦ rw (h, complete-finished index bytes (ground arith)) refl
  ]

  -- Where no peek or read fails and the first line feed of the stream is at an index of at most 108,
  -- what is read does not depend on how the stream is cut into peeks. It is too short below 13, and the
  -- task panics at 108. Otherwise the line up to the line feed is parsed, with all that follows it left
  -- in the stream, if the byte before the line feed is a carriage return; if not, that is the error.
  pub read_header-first_line :
      (peeks : List Peek) (index : ℕ)
      → All IsRead peeks
      → position lf (stream peeks) ≡ some index
      → index ≤ capacity
      → read_header parse [] peeks ≡ finished parse index (stream peeks)
  unfolding position
  read_header-first_line peeks index ok e k =
      peeks-first_line [] peeks index refl ok e k ∙ first_line-finished index (stream peeks)
