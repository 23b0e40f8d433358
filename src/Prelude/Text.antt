-- ===== src/Prelude/Text.antt =====
-- Byte strings: Rust's `Bytes`, `&[u8]`, and `String` by its UTF-8 bytes.
use Prim.Native.Char.{code}
use Prim.Native.Nat.{ℕ}
use Prim.Native.String.{String}
use mathlib.Core.List.{List, [], ◌∷◌}

abbrev pub Bytes : Type 0
Bytes = List ℕ

-- The bytes of a literal of the source, all of which are ASCII.
unfoldable pub text : String → Bytes
text String.[] = []
text (String.◌∷◌ c s) = code c ∷ text s
