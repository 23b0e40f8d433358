-- ===== src/Storage/Filesystem/Paths.antt =====
-- No absolute path reaches the operating system.
use mathlib.Core.List.{reverse, reverse-append, reverse-reverse}
use mathlib.Core.Bool.{false≢true}
use libunftp.Prelude.{
  Bytes, ◌≡◌, ◌≢◌, refl, sym, ap, ◌∙◌, Bool, true, false, ◌&&◌, ◌||◌, [], ◌∷◌, ◌++◌, ◌==◌,
  if◌then◌else◌, is_empty, arith, Bool-cases, inl, inr,
}
use libunftp.Std.FilePath.{FilePath, is_absolute}
use libunftp.Storage.Filesystem.{ends_component, trim_left, trim_right, strip_root, strip_prefixes}

trim_left-relative : (bytes : Bytes) → is_absolute (trim_left bytes) ≡ false
unfolding trim_left is_absolute
trim_left-relative [] = refl
trim_left-relative (b ∷ bs) = ground (arith, trim_left-relative bs)

-- What is trimmed off stands before the rest.
trim_left-suffix : (bytes : Bytes) → (front : Bytes) × (bytes ≡ front ++ trim_left bytes)
unfolding trim_left
trim_left-suffix [] = ([], refl)
trim_left-suffix (b ∷ bs) = elim (Bool-cases (b == b'/' || (b == b'.' && ends_component bs))) [
  | inl trimmed ↦
      let (front, e) = trim_left-suffix bs in (b ∷ front, rw trimmed (ap (λ x. b ∷ x) e))
  | inr kept ↦ ([], rw kept refl)
]

is_absolute-append : (a b : Bytes) → is_absolute a ≡ true → is_absolute (a ++ b) ≡ true
unfolding is_absolute
is_absolute-append [] b h = ground arith
is_absolute-append (x ∷ xs) b h = h

trim_right-relative :
    (bytes : Bytes) → is_absolute bytes ≡ false → is_absolute (trim_right bytes) ≡ false
unfolding trim_right
trim_right-relative bytes h =
    elim (Bool-cases (is_absolute (reverse (trim_left (reverse bytes))))) [
      | inr relative ↦ relative
      | inl absolute ↦
          let (front, e) = trim_left-suffix (reverse bytes) in
          let split : bytes ≡ reverse (trim_left (reverse bytes)) ++ reverse front =
            sym (reverse-reverse bytes)
            ∙ ap reverse e
            ∙ reverse-append front (trim_left (reverse bytes)) in
          let bad =
            is_absolute-append (reverse (trim_left (reverse bytes))) (reverse front) absolute in
          absurd (false≢true (sym h ∙ ap is_absolute split ∙ bad))
    ]

strip_root-relative : (path : FilePath) → is_absolute (strip_root path) ≡ false
unfolding strip_root
strip_root-relative path = elim (Bool-cases (is_absolute path)) [
  | inl absolute ↦ rw absolute (trim_right-relative (trim_left path) (trim_left-relative path))
  | inr relative ↦ rw relative relative
]

dot_relative : is_absolute (b'.' ∷ []) ≡ false
unfolding is_absolute
dot_relative = refl

not_empty :
    (absolute : Bool) (p : FilePath)
    → absolute ≡ true
    → (if absolute && is_empty p then b'.' ∷ [] else p) ≢ []
not_empty true [] h = λ e. ground arith
not_empty true (b ∷ bs) h = λ e. ground arith
not_empty false p h = absurd (false≢true h)

-- The path that the back-end hands on to the operating system for an absolute path is relative and not
-- empty; to rename, it is relative.
pub strip_prefixes-relative :
    (path : FilePath)
    → (is_absolute (strip_prefixes path) ≡ false)
      × ((is_absolute (strip_root path) ≡ false)
          × (is_absolute path ≡ true → strip_prefixes path ≢ []))
unfolding strip_prefixes
strip_prefixes-relative path = (
  ground (arith, strip_root-relative path, dot_relative),
  (strip_root-relative path, not_empty (is_absolute path) (strip_root path)),
)
