-- ===== src/Auth/Rest/Replacing.antt =====
-- The placeholders of crates/unftp-auth-rest/src/lib.rs.
use libunftp.Prelude.{Bytes, ◌≡◌, refl, Bool, true, false, ◌||◌, [], ◌∷◌, ap}
use mathlib.Core.Bool.{true≢false}
use libunftp.Auth.{starts_with, contains}
use libunftp.Auth.Rest.{replace_from, replace}

or-false : (a b : Bool) → a || b ≡ false → (a ≡ false) × (b ≡ false)
or-false false b e = (refl, e)
or-false true b e = absurd (true≢false e)

-- A text that does not hold what is to be replaced stays as it is.
pub replace-absent :
    (from to bytes : Bytes) → contains from bytes ≡ false → replace from to bytes ≡ bytes
unfolding replace replace_from contains
replace-absent from to [] absent = refl
replace-absent from to (b ∷ bytes) absent =
    let parts = or-false (starts_with from (b ∷ bytes)) (contains from bytes) absent in
    rw parts.0 (ap (λ rest. b ∷ rest) (replace-absent from to bytes parts.1))
