-- ===== src/Std/Utf8/Laws.antt =====
-- Valid UTF-8 is left as it is by the lossy decoding, and ASCII is valid.
use libunftp.Prelude.{
  ℕ, Bytes, ◌≡◌, refl, ap, ◌∙◌, sym, true, [], ◌∷◌, ◌++◌, none, some, arith, Option-cases, inl, inr,
  leb, ◌&&◌, Bool-cases,
}
use mathlib.Core.List.{append-nil, append_assoc}
use libunftp.Std.Utf8.{
  Utf8State, start, inside, lead, advance, utf8_from, is_utf8, from_utf8, settle, begin, lossy_step,
  lossy_from, from_utf8_lossy, is_ascii,
}

-- Between two characters nothing is left over.
abbrev Fits : Utf8State → Bytes → Type 0
Fits start read = read ≡ []
Fits (inside lo hi more) read = Unit

settle-Fits : (read : Bytes) (s : Utf8State) → Fits (settle read s).1 (settle read s).2
unfolding settle
settle-Fits read start = refl
settle-Fits read (inside lo hi more) = tt

settle_out : (read : Bytes) (s : Utf8State) → (settle read s).0 ++ (settle read s).2 ≡ read
unfolding settle
settle_out read start = append-nil read
settle_out read (inside lo hi more) = refl

settle_state : (read : Bytes) (s : Utf8State) → (settle read s).1 ≡ s
unfolding settle
settle_state read start = refl
settle_state read (inside lo hi more) = refl

step_of_advance :
    (s s' : Utf8State) (read : Bytes) (b : ℕ)
    → Fits s read
    → advance s b ≡ some s'
    → lossy_step s read b ≡ settle (read ++ b ∷ []) s'
unfolding advance lossy_step begin
step_of_advance start s' read b fits h = ground arith
step_of_advance (inside lo hi more) s' read b fits h = elim (Bool-cases (leb lo b && leb b hi)) [
  | inl e ↦ ground arith
  | inr e ↦ ground arith
]

continues :
    (s s' : Utf8State) (b : ℕ) (bs : Bytes)
    → advance s b ≡ some s'
    → utf8_from s (b ∷ bs) ≡ true
    → utf8_from s' bs ≡ true
unfolding utf8_from
continues start s' b bs e h = ground arith
continues (inside lo hi more) s' b bs e h = ground arith

stops : (s : Utf8State) (b : ℕ) (bs : Bytes) → advance s b ≡ none → utf8_from s (b ∷ bs) ≡ true → ⊥
unfolding utf8_from
stops start b bs e h = ground arith
stops (inside lo hi more) b bs e h = ground arith

-- A valid continuation is written out unchanged.
lossy_from_of_utf8 :
    (s : Utf8State) (read bs : Bytes)
    → Fits s read
    → utf8_from s bs ≡ true
    → lossy_from s read bs ≡ read ++ bs
unfolding lossy_from
lossy_from_of_utf8 start read [] fits h = rw fits
lossy_from_of_utf8 (inside lo hi more) read [] fits h = unfold utf8_from in cc h
lossy_from_of_utf8 s read (b ∷ bs) fits h = elim (Option-cases (advance s b)) [
  | inl e ↦ absurd (stops s b bs e h)
  | inr (s', e) ↦
      let read' = read ++ b ∷ [] in
      let rest =
        lossy_from_of_utf8 (settle read' s').1 (settle read' s').2 bs (settle-Fits read' s')
          (rw (settle_state read' s') (continues s s' b bs e h)) in
      rw (step_of_advance s s' read b fits e) (
        ap (λ t. (settle read' s').0 ++ t) rest
        ∙ sym (append_assoc (settle read' s').0 (settle read' s').2 bs)
        ∙ ap (λ t. t ++ bs) (settle_out read' s')
        ∙ append_assoc read (b ∷ []) bs)
]

pub from_utf8_lossy_of_utf8 : (bs : Bytes) → is_utf8 bs ≡ true → from_utf8_lossy bs ≡ bs
unfolding is_utf8 from_utf8_lossy
from_utf8_lossy_of_utf8 bs h = lossy_from_of_utf8 start [] bs refl h

utf8_from_of_ascii : (bs : Bytes) → is_ascii bs ≡ true → utf8_from start bs ≡ true
unfolding is_ascii utf8_from advance lead
utf8_from_of_ascii [] h = refl
utf8_from_of_ascii (b ∷ bs) h = ground (arith, utf8_from_of_ascii bs)

pub is_utf8_of_ascii : (bs : Bytes) → is_ascii bs ≡ true → is_utf8 bs ≡ true
unfolding is_utf8
is_utf8_of_ascii bs h = utf8_from_of_ascii bs h

pub from_utf8_of_ascii : (bs : Bytes) → is_ascii bs ≡ true → from_utf8 bs ≡ some bs
unfolding from_utf8
from_utf8_of_ascii bs h = rw (is_utf8_of_ascii bs h)
