-- ===== src/Std/FilePath/Laws.antt =====
-- A path that begins at the root stays one under `join` and `pop`.
use libunftp.Prelude.{
  ℕ, All, false, ◌≡◌, refl, Bytes, true, List, [], ◌∷◌, ◌++◌, text, arith, bytes_eq, ◌==◌,
  Bool-cases, inl, inr,
}
use libunftp.Std.FilePath.{FilePath, is_absolute, join, pop, parent_of, trim, split_on, extend}
use mathlib.Core.List.{reverse}

-- A segment ends at the first separator.
pub split_on-segment :
    (sep : ℕ) (segment rest : Bytes)
    → All (λ c. (c == sep) ≡ false) segment
    → split_on sep (segment ++ sep ∷ rest) ≡ segment ∷ split_on sep rest
unfolding split_on
split_on-segment sep [] rest h = ground arith
split_on-segment sep (c ∷ cs) rest h = simp (h.0, split_on-segment sep cs rest h.1, extend)

pub split_on-last :
    (sep : ℕ) (segment : Bytes)
    → All (λ c. (c == sep) ≡ false) segment
    → split_on sep segment ≡ segment ∷ []
unfolding split_on
split_on-last sep [] h = refl
split_on-last sep (c ∷ cs) h = simp (h.0, split_on-last sep cs h.1, extend)

is_absolute-append : (p q : FilePath) → is_absolute p ≡ true → is_absolute (p ++ q) ≡ true
unfolding is_absolute
is_absolute-append [] q h = cc
is_absolute-append (b ∷ p) q h = h

pub is_absolute-join :
    (base path : FilePath) → is_absolute base ≡ true → is_absolute (join base path) ≡ true
unfolding join
is_absolute-join base path h =
    ground (arith, is_absolute-append base path h, is_absolute-append base (b'/' ∷ path) h)

parent-is_absolute :
    (path : FilePath) (segments : List Bytes)
    → is_absolute path ≡ true
    → is_absolute (parent_of true (λ p. b'/' ∷ p) path segments) ≡ true
unfolding parent_of is_absolute
parent-is_absolute path [] h = h
parent-is_absolute path (s ∷ more) h = refl

pub is_absolute-pop : (path : FilePath) → is_absolute path ≡ true → is_absolute (pop path) ≡ true
unfolding pop
is_absolute-pop [] h = h
is_absolute-pop (b ∷ bs) h = elim (Bool-cases (b == b'/')) [
  | inl e ↦ rw e (parent-is_absolute (b ∷ bs) (trim true (reverse (split_on b'/' bs))) h)
  | inr e ↦ unfold is_absolute in ground arith
]

pop_tests :
    (pop (text "/a/b") ≡ text "/a")
    × (pop (text "/a") ≡ text "/")
    × (pop (text "/") ≡ text "/")
    × (pop (text "/a//b/./") ≡ text "/a")
    × (pop (text "/a/..") ≡ text "/a")
unfolding pop text split_on bytes_eq
pop_tests = (refl, refl, refl, refl, refl)

join_tests :
    (join (text "/") (text "a") ≡ text "/a")
    × (join (text "/a") (text "b") ≡ text "/a/b")
    × (join (text "/a") (text "/b") ≡ text "/b")
unfolding join text
join_tests = (refl, refl, refl)
