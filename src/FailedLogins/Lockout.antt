-- ===== src/FailedLogins/Lockout.antt =====
-- A row of failed logins locks the key that the policy names, and the lock goes with time.
use libunftp.Prelude.{
  ℕ, suc, ◌+◌, ◌-◌, ◌^◌, ◌≤◌, ◌<◌, Bytes, ◌≡◌, refl, ap, ◌∙◌, ◌&&◌, Option, none, some, List, [],
  ◌∷◌, leb, ltb, if◌then◌else◌, arith, length,
}
use libunftp.FailedLogins.{
  FailedLoginsPolicy, FailedLoginsKey, FailedLoginsEntry, LockState, Cache, is_expired, is_locked,
  getkey, lock_state, failed, success, already_locked, max_failures_reached,
}
use libunftp.FailedLogins.View.{
  key_eq_refl, view, next, live, failed-lock_state, view-failed, success-lock_state,
}

-- Each attempt is made while the one before it is remembered.
abbrev pub IsRow : ℕ → ℕ → List ℕ → Type 0
IsRow span t [] = Unit
IsRow span t (t' ∷ ts) = (t' - t ≤ span) × IsRow span t' ts

abbrev pub last_of : ℕ → List ℕ → ℕ
last_of t [] = t
last_of t (t' ∷ ts) = last_of t' ts

module _ (policy : FailedLoginsPolicy) (addr : ℕ) (name : Bytes) where
  -- Failed attempts at these times, one after the other.
  pub after_failures : List ℕ → Cache → Cache
  after_failures [] map = map
  after_failures (t ∷ ts) map = after_failures ts (failed policy t addr name map).0

  pub answers : List ℕ → Cache → List (Option LockState)
  answers [] map = []
  answers (t ∷ ts) map =
      (failed policy t addr name map).1 ∷ answers ts (failed policy t addr name map).0

  -- The answer that the policy asks for to attempt number `n`.
  abbrev pub answer_to : ℕ → Option LockState
  answer_to n =
      if ltb n policy.max_attempts
      then none
      else if ltb policy.max_attempts n
      then some already_locked
      else some max_failures_reached

  -- The answers to a row, whose first attempt is number `n`.
  pub expected : ℕ → List ℕ → List (Option LockState)
  expected n [] = []
  expected n (t ∷ ts) = answer_to n ∷ expected (suc n) ts

  lock_state-answer_to : (n : ℕ) → lock_state policy n ≡ answer_to n
  unfolding lock_state
  lock_state-answer_to n = ground arith

  abbrev key : FailedLoginsKey
  key = getkey policy addr name

  live_within :
      (t t' n : ℕ)
      → t' - t ≤ policy.expires_after
      → live policy t' (some (record { attempts = n; last_attempt_at = t }))
        ≡ some (record { attempts = n; last_attempt_at = t })
  unfolding is_expired
  live_within t t' n h = ground arith

  next-attempts :
      (t t' n : ℕ)
      → suc n < 2 ^ 32
      → next policy t' (some (record { attempts = n; last_attempt_at = t }))
        ≡ record { attempts = suc n; last_attempt_at = t' }
  next-attempts t t' n h = ap (λ m. record { attempts = m; last_attempt_at = t' }) (ground arith)

  view-after :
      (t t' n : ℕ) (map : Cache) (o : Option FailedLoginsEntry)
      → view policy t key map ≡ o
      → next policy t o ≡ record { attempts = n; last_attempt_at = t }
      → t' - t ≤ policy.expires_after
      → view policy t' key (failed policy t addr name map).0
        ≡ some (record { attempts = n; last_attempt_at = t })
  view-after t t' n map o v e h =
      rw (view-failed policy t t' addr name map key, key_eq_refl key, v, e, live_within t t' n h)

  answer-first :
      (t n : ℕ) (map : Cache) (o : Option FailedLoginsEntry)
      → view policy t key map ≡ o
      → next policy t o ≡ record { attempts = n; last_attempt_at = t }
      → (failed policy t addr name map).1 ≡ answer_to n
  answer-first t n map o v e =
      rw (failed-lock_state policy t addr name map, v, e) (lock_state-answer_to n)

  answers_from :
      (t n : ℕ) (ts : List ℕ) (map : Cache) (o : Option FailedLoginsEntry)
      → view policy t key map ≡ o
      → next policy t o ≡ record { attempts = n; last_attempt_at = t }
      → IsRow policy.expires_after t ts
      → n + length ts < 2 ^ 32
      → answers (t ∷ ts) map ≡ expected n (t ∷ ts)
  unfolding answers expected
  answers_from t n [] map o v e row fits = ap (λ a. a ∷ []) (answer-first t n map o v e)
  answers_from t n (t' ∷ ts) map o v e row fits =
      ap (λ a. a ∷ answers (t' ∷ ts) (failed policy t addr name map).0) (answer-first t n map o v e)
      ∙ ap (λ a. answer_to n ∷ a)
          (answers_from t' (suc n) ts (failed policy t addr name map).0
            (some (record { attempts = n; last_attempt_at = t }))
            (view-after t t' n map o v e row.0) (next-attempts t t' n (omega arith)) row.1
            (omega arith))

  view_from :
      (t n later : ℕ) (ts : List ℕ) (map : Cache) (o : Option FailedLoginsEntry)
      → view policy t key map ≡ o
      → next policy t o ≡ record { attempts = n; last_attempt_at = t }
      → IsRow policy.expires_after t ts
      → n + length ts < 2 ^ 32
      → view policy later key (after_failures (t ∷ ts) map)
        ≡ live policy later
            (some (record { attempts = n + length ts; last_attempt_at = last_of t ts }))
  unfolding after_failures
  view_from t n later [] map o v e row fits =
      rw (view-failed policy t later addr name map key, key_eq_refl key, v, e)
        (ap (λ m. live policy later (some (record { attempts = m; last_attempt_at = t })))
          (omega arith))
  view_from t n later (t' ∷ ts) map o v e row fits =
      view_from t' (suc n) later ts (failed policy t addr name map).0
        (some (record { attempts = n; last_attempt_at = t })) (view-after t t' n map o v e row.0)
        (next-attempts t t' n (omega arith)) row.1 (omega arith)
      ∙ ap
          (λ m. live policy later (some (record { attempts = m; last_attempt_at = last_of t' ts })))
          (omega arith)

  -- From a cache that shows nothing of the key, a row of fewer than 2^32 failed attempts, each made
  -- while the one before it is remembered, is counted from 1: the answers are none up to the limit of
  -- the policy, then that it is reached, then that it was.
  pub answers-eq-expected :
      (t : ℕ) (ts : List ℕ) (map : Cache)
      → view policy t key map ≡ none
      → IsRow policy.expires_after t ts
      → 1 + length ts < 2 ^ 32
      → answers (t ∷ ts) map ≡ expected 1 (t ∷ ts)
  answers-eq-expected t ts map v row fits = answers_from t 1 ts map none v refl row fits

  -- A login with the right password after a row of fewer than 2^32 failed attempts, each made while the
  -- one before it is remembered and the first with nothing seen of the key, is refused exactly if the
  -- row reached the limit and the last attempt of it is remembered.
  pub success-after_failures :
      (t later : ℕ) (ts : List ℕ) (map : Cache)
      → view policy t key map ≡ none
      → IsRow policy.expires_after t ts
      → 1 + length ts < 2 ^ 32
      → (success policy later addr name (after_failures (t ∷ ts) map)).1 ≡ (
          if leb policy.max_attempts (1 + length ts)
            && leb (later - last_of t ts) policy.expires_after
          then some already_locked
          else none)
  success-after_failures t later ts map v row fits =
      rw
        (
          success-lock_state policy later addr name (after_failures (t ∷ ts) map),
          view_from t 1 later ts map none v refl row fits,
        )
        (unfold is_locked is_expired in ground arith)
