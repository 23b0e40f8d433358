-- ===== src/Std/HashMap.antt =====
-- Maps by a test of keys (`HashMap` and `DashMap` of Rust): association lists with one entry for a key.
use libunftp.Prelude.{◌≡◌, ◌↔◌, Bool, true, Option, none, some, List, [], ◌∷◌, if◌then◌else◌, arith}

module _ {ℓ κ} {K : Type ℓ} {V : Type κ} (eq : K → K → Bool) where
  unfoldable pub get : K → List (K × V) → Option V
  get key [] = none
  get key ((k, v) ∷ map) = let rest = get key map in if eq k key then some v else rest

  unfoldable pub remove : K → List (K × V) → List (K × V)
  remove key [] = []
  remove key ((k, v) ∷ map) = let rest = remove key map in if eq k key then rest else (k, v) ∷ rest

  unfoldable pub insert : K → V → List (K × V) → List (K × V)
  unfolding remove
  insert key v map = (key, v) ∷ remove key map

  module _ (eq_iff : (a b : K) → (eq a b ≡ true) ↔ (a ≡ b)) where
    pub get-remove :
        (k j : K) (map : List (K × V)) → get j (remove k map) ≡ (if eq k j then none else get j map)
    unfolding get remove
    get-remove k j [] = ground arith
    get-remove k j ((i, v) ∷ map) =
        ground (arith, get-remove k j map, eq_iff i k, eq_iff i j, eq_iff k j)

    pub get-insert :
        (k j : K) (v : V) (map : List (K × V))
        → get j (insert k v map) ≡ (if eq k j then some v else get j map)
    unfolding get insert
    get-insert k j v map = ground (arith, get-remove k j map)
