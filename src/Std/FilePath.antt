-- ===== src/Std/FilePath.antt =====
-- `std::path` on Unix, over the bytes of a path: `is_absolute`, `join`, `push` and `pop`.
pub mod Laws
use mathlib.Core.List.{reverse}
use libunftp.Prelude.{
  ℕ, Bytes, Bool, true, false, ◌&&◌, ◌||◌, List, [], ◌∷◌, ◌++◌, is_empty, bytes_eq, ◌==◌,
  if◌then◌else◌,
}

abbrev pub FilePath : Type 0
FilePath = Bytes

extend : ℕ → List Bytes → List Bytes
extend c [] = (c ∷ []) ∷ []
extend c (s ∷ ss) = (c ∷ s) ∷ ss

-- `slice::split` at every byte that is `sep`.
unfoldable pub split_on : ℕ → Bytes → List Bytes
unfolding extend
split_on sep [] = [] ∷ []
split_on sep (b ∷ bs) = let rest = split_on sep bs in if b == sep then [] ∷ rest else extend b rest

join_with : ℕ → List Bytes → Bytes
join_with sep [] = []
join_with sep (s ∷ []) = s
join_with sep (s ∷ t ∷ more) = s ++ sep ∷ join_with sep (t ∷ more)

unfoldable pub is_absolute : FilePath → Bool
is_absolute [] = false
is_absolute (b ∷ bs) = b == b'/'

unfoldable pub ends_with_separator : FilePath → Bool
ends_with_separator [] = false
ends_with_separator (b ∷ []) = b == b'/'
ends_with_separator (b ∷ c ∷ bs) = ends_with_separator (c ∷ bs)

-- `PathBuf::push` and `Path::join`: an absolute path replaces the base.
unfoldable pub join : FilePath → FilePath → FilePath
unfolding is_absolute ends_with_separator
join base path =
    if is_absolute path
    then path
    else if is_empty base || ends_with_separator base
    then base ++ path
    else base ++ b'/' ∷ path

abbrev is_dot : Bytes → Bool
is_dot s = bytes_eq s (b'.' ∷ [])

-- Segments, the last one first, from which empty ones and `.` at the end of the path are taken off;
-- a `.` that begins a relative path is a component.
trim : Bool → List Bytes → List Bytes
trim absolute [] = []
trim absolute (s ∷ []) = if is_empty s || (absolute && is_dot s) then [] else s ∷ []
trim absolute (s ∷ t ∷ more) =
    let rest = trim absolute (t ∷ more) in if is_empty s || is_dot s then rest else s ∷ t ∷ more

-- The path without its last component, or the path where it has none.
parent_of : Bool → (FilePath → FilePath) → FilePath → List Bytes → FilePath
parent_of absolute root path [] = path
parent_of absolute root path (s ∷ more) = root (join_with b'/' (reverse (trim absolute more)))

-- `PathBuf::pop`.
unfoldable pub pop : FilePath → FilePath
unfolding parent_of trim join_with
pop [] = []
pop (b ∷ bs) =
    if b == b'/'
    then parent_of true (λ p. b'/' ∷ p) (b ∷ bs) (trim true (reverse (split_on b'/' bs)))
    else parent_of false (λ p. p) (b ∷ bs) (trim false (reverse (split_on b'/' (b ∷ bs))))
