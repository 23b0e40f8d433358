-- ===== src/Codec/Decoding.antt =====
-- The decoder of codecs.rs, called on a buffer that grows, yields the lines of the whole stream.
use mathlib.Core.List.{append-nil, append_assoc, map-append}
use libunftp.Prelude.{
  ℕ, zero, suc, ◌+◌, ◌≤◌, ◌<◌, Bytes, ◌≡◌, refl, sym, ap, Bool, true, false, Option, none, some,
  List, [], ◌∷◌, ◌++◌, map, arith, length, take, drop, ◌==◌, if◌then◌else◌, Bool-cases,
  Option-cases, inl, inr, length-append, ==_iff,
}
use native.Mathlib.Numerals.{add-one}
use libunftp.LineParser.Eol.{lf}
use libunftp.LineParser.Parse.{parse}
use libunftp.Codec
use libunftp.Codec.{FtpCodec, one_later, position, Decoded, pending, decoded, Progress, decode}
use libunftp.Codec.Lines.{extend, split_lines, both, split_lines-append}

-- The invariant of the codec: what it has examined is in the buffer and holds no line feed.
pub record IsScanned (codec : FtpCodec) (buf : Bytes) : Type 0 where
  pub within : codec.next_index ≤ length buf
  pub no_lf : position lf (take codec.next_index buf) ≡ none

abbrev pub later_by : ℕ → Option ℕ → Option ℕ
later_by k none = none
later_by k (some i) = some (i + k)

one_later-later_by : (k : ℕ) (o : Option ℕ) → one_later (later_by k o) ≡ later_by (suc k) o
one_later-later_by k none = refl
one_later-later_by k (some i) = ap some (omega arith)

one_later-none : (o : Option ℕ) → one_later o ≡ none → o ≡ none
one_later-none none h = refl
one_later-none (some i) h = cc

later_by-zero : (o : Option ℕ) → o ≡ later_by 0 o
later_by-zero none = refl
later_by-zero (some i) = ap some (omega arith)

-- To search from an index is to search from the start, if there is nothing before the index.
position-drop :
    (k : ℕ) (buf : Bytes)
    → position lf (take k buf) ≡ none
    → position lf buf ≡ later_by k (position lf (drop k buf))
unfolding position
position-drop zero buf h = later_by-zero (position lf buf)
position-drop (suc k) [] h = refl
position-drop (suc k) (c ∷ cs) h = elim (Bool-cases (c == lf)) [
  | inl e ↦ ground arith
  | inr e ↦
      rw (e, position-drop k cs (one_later-none (position lf (take k cs)) (ground arith)))
        (one_later-later_by k (position lf (drop k cs)))
]

-- In two texts, the search goes on where the first one has nothing,
pub position-append :
    (a b : Bytes)
    → position lf a ≡ none
    → position lf (a ++ b) ≡ later_by (length a) (position lf b)
unfolding position
position-append [] b h = later_by-zero (position lf b)
position-append (c ∷ cs) b h = elim (Bool-cases (c == lf)) [
  | inl e ↦ ground arith
  | inr e ↦
      rw (e, position-append cs b (one_later-none (position lf cs) (ground arith)))
        (one_later-later_by (length cs) (position lf b))
]

split_lines_of_none : (buf : Bytes) → position lf buf ≡ none → split_lines buf ≡ ([], buf)
unfolding position split_lines
split_lines_of_none [] h = refl
split_lines_of_none (c ∷ cs) h = elim (Bool-cases (c == lf)) [
  | inl e ↦ ground arith
  | inr e ↦ rw (e, split_lines_of_none cs (one_later-none (position lf cs) (ground arith)))
]

one_later-ne-zero : (o : Option ℕ) → one_later o ≡ some 0 → ⊥
one_later-ne-zero none h = cc
one_later-ne-zero (some i) h = ground arith

one_later-suc : (i : ℕ) (o : Option ℕ) → one_later o ≡ some (suc i) → o ≡ some i
one_later-suc i none h = cc
one_later-suc i (some j) h = ground arith

split_lines_of_some :
    (i : ℕ) (buf : Bytes)
    → position lf buf ≡ some i
    → split_lines buf ≡ both (take (suc i) buf ∷ [], []) (split_lines (drop (suc i) buf))
unfolding position split_lines
split_lines_of_some i [] h = cc
split_lines_of_some zero (c ∷ cs) h = elim (Bool-cases (c == lf)) [
  | inl e ↦
      rw e (ap (λ t. ((t ∷ []) ∷ (split_lines cs).0, (split_lines cs).1)) (sym ((==_iff c lf).0 e)))
  | inr e ↦ absurd (one_later-ne-zero (position lf cs) (ground arith))
]
split_lines_of_some (suc i) (c ∷ cs) h = elim (Bool-cases (c == lf)) [
  | inl e ↦ absurd (ground arith)
  | inr e ↦ rw (e, split_lines_of_some i cs (one_later-suc i (position lf cs) (ground arith)))
]

-- and ends where it has a line feed.
pub position_left : (i : ℕ) (a b : Bytes) → position lf a ≡ some i → position lf (a ++ b) ≡ some i
unfolding position
position_left i [] b h = cc
position_left zero (c ∷ cs) b h = elim (Bool-cases (c == lf)) [
  | inl e ↦ rw e refl
  | inr e ↦ absurd (one_later-ne-zero (position lf cs) (ground arith))
]
position_left (suc i) (c ∷ cs) b h = elim (Bool-cases (c == lf)) [
  | inl e ↦ absurd (ground arith)
  | inr e ↦ rw (e, position_left i cs b (one_later-suc i (position lf cs) (ground arith))) refl
]

pub position-lt : (i : ℕ) (buf : Bytes) → position lf buf ≡ some i → i < length buf
unfolding position
position-lt i [] h = cc
position-lt zero (c ∷ cs) h = omega arith
position-lt (suc i) (c ∷ cs) h = elim (Bool-cases (c == lf)) [
  | inl e ↦ absurd (ground arith)
  | inr e ↦ omega (arith, position-lt i cs (one_later-suc i (position lf cs) (ground arith)))
]

length-drop-lt : (i : ℕ) (buf : Bytes) → i < length buf → length (drop (suc i) buf) < length buf
length-drop-lt i [] h = elim h [ ]
length-drop-lt zero (c ∷ cs) h = omega arith
length-drop-lt (suc i) (c ∷ cs) h = omega (arith, length-drop-lt i cs (omega arith))

take-length : (buf rest : Bytes) → take (length buf) (buf ++ rest) ≡ buf
take-length [] rest = refl
take-length (c ∷ cs) rest = ap (λ t. c ∷ t) (take-length cs rest)

abbrev pub is_pending : Decoded → Bool
is_pending pending = true
is_pending _ = false

module _ (upper : Bytes → Bytes) where
  abbrev pub parsed : List Bytes → List Decoded
  parsed ls = map (λ line. decoded (parse upper line)) ls

  -- What `decode` does, with no index: it takes the first line off, or waits.
  abbrev decode_spec : Option ℕ → Bytes → Progress
  decode_spec none buf = record {
    result = pending;
    codec = record { next_index = length buf };
    buf = buf;
  }
  decode_spec (some i) buf = record {
    result = decoded (parse upper (take (suc i) buf));
    codec = Codec.new;
    buf = drop (suc i) buf;
  }

  decode_of_scanned :
      (codec : FtpCodec) (buf : Bytes)
      → IsScanned codec buf
      → decode upper codec buf ≡ decode_spec (position lf buf) buf
  unfolding decode
  decode_of_scanned codec buf v =
      let k = codec.next_index in
      rw (position-drop k buf v.no_lf) (elim (Option-cases (position lf (drop k buf))) [
        | inl e ↦ rw (e, decode)
        | inr (i, e) ↦ rw (e, decode, add-one)
      ])

  -- The codec is asked again and again until it waits for more bytes.
  pub drain : ℕ → FtpCodec → Bytes → List Decoded × FtpCodec × Bytes
  drain zero codec buf = ([], codec, buf)
  drain (suc fuel) codec buf =
      let p = decode upper codec buf in
      let rest = drain fuel p.codec p.buf in
      if is_pending p.result then ([], p.codec, p.buf) else (p.result ∷ rest.0, rest.1, rest.2)

  new-IsScanned : (buf : Bytes) → IsScanned Codec.new buf
  unfolding position
  new-IsScanned buf = record { within = omega arith; no_lf = refl }

  is_pending-decoded : (line : Bytes) → is_pending (decoded (parse upper line)) ≡ false
  unfolding decoded
  is_pending-decoded line = ground arith

  abbrev drained : List Bytes × Bytes → List Decoded × FtpCodec × Bytes
  drained (ls, tail) = (parsed ls, record { next_index = length tail }, tail)

  -- Whatever was examined before, the lines of the buffer come out, and the unfinished one stays.
  drain-eq-split_lines :
      (fuel : ℕ) (codec : FtpCodec) (buf : Bytes)
      → length buf < fuel
      → IsScanned codec buf
      → drain fuel codec buf ≡ drained (split_lines buf)
  unfolding drain
  drain-eq-split_lines zero codec buf h v = elim h [ ]
  drain-eq-split_lines (suc fuel) codec buf h v = elim (Option-cases (position lf buf)) [
    | inl e ↦ rw (decode_of_scanned codec buf v, e, split_lines_of_none buf e)
    | inr (i, e) ↦
        let later = drop (suc i) buf in
        rw (
          decode_of_scanned codec buf v,
          e,
          is_pending-decoded (take (suc i) buf),
          drain-eq-split_lines fuel Codec.new later
              (omega (arith, length-drop-lt i buf (position-lt i buf e))) (new-IsScanned later),
          split_lines_of_some i buf e,
        )
  ]

pub concat : List Bytes → Bytes
concat [] = []
concat (chunk ∷ more) = chunk ++ concat more

-- The end that is not a line holds no line feed.
position-tail : (buf : Bytes) → position lf (split_lines buf).1 ≡ none
unfolding position split_lines
position-tail [] = refl
position-tail (c ∷ cs) = elim (Bool-cases (c == lf)) [
  | inl e ↦ rw e (position-tail cs)
  | inr e ↦ rw e (extended c (split_lines cs) e (position-tail cs))
]
  where
    extended :
        (b : ℕ) (s : List Bytes × Bytes)
        → (b == lf) ≡ false
        → position lf s.1 ≡ none
        → position lf (extend b s).1 ≡ none
    extended b ([], tail) e h = rw (e, h)
    extended b (l ∷ ls, tail) e h = h

module _ (upper : Bytes → Bytes) where
  -- The bytes of the connection arrive in chunks; each is added to the buffer, which is drained.
  pub receive : FtpCodec → Bytes → List Bytes → List Decoded
  receive codec buf [] = []
  receive codec buf (chunk ∷ more) =
      let p = drain upper (suc (length (buf ++ chunk))) codec (buf ++ chunk) in
      p.0 ++ receive p.1 p.2 more

  waiting-IsScanned :
      (buf chunk : Bytes)
      → position lf buf ≡ none
      → IsScanned (record { next_index = length buf }) (buf ++ chunk)
  waiting-IsScanned buf chunk h = record {
    within = omega (arith, length-append buf chunk);
    no_lf = rw (take-length buf chunk) h;
  }

  receive_from :
      (buf : Bytes) (chunks : List Bytes)
      → position lf buf ≡ none
      → receive (record { next_index = length buf }) buf chunks
        ≡ parsed upper (split_lines (buf ++ concat chunks)).0
  unfolding receive concat
  receive_from buf [] h = rw (append-nil buf, split_lines_of_none buf h)
  receive_from buf (chunk ∷ more) h =
      let all = buf ++ chunk in
      let tail = (split_lines all).1 in
      rw (
        drain-eq-split_lines upper (suc (length all)) (record { next_index = length buf }) all
            (omega arith) (waiting-IsScanned buf chunk h),
        receive_from tail more (position-tail all),
        ← append_assoc buf chunk (concat more),
        split_lines-append all (concat more),
        map-append,
      )

  -- However the stream is cut into chunks, the decoder, which is called until it waits for more bytes
  -- after each chunk, yields what the parser makes of the complete lines of the stream, in order.
  pub receive-eq-split_lines :
      (chunks : List Bytes)
      → receive Codec.new [] chunks ≡ parsed upper (split_lines (concat chunks)).0
  receive-eq-split_lines chunks = receive_from [] chunks (unfold position in refl)
