-- ===== src/FailedLogins/Tests.antt =====
-- A policy that blocks a user and an address after two failed logins, on concrete caches.
use libunftp.Prelude.{
  ℕ, Bytes, ◌≡◌, ◌≤◌, Bool, true, false, Option, none, some, List, [], ◌∷◌, ◌++◌, text, refl, ◌&&◌,
  arith, if◌then◌else◌, leb, ◌-◌, ◌+◌, length,
}
use libunftp.FailedLogins.{
  FailedLoginsPolicy, FailedLoginsKey, user_and_ip, Cache, key_eq, getkey, get, failed, success,
  sweep, already_locked, lock_state, is_locked, is_expired,
}
use libunftp.FailedLogins.View.{view, live, next, free, view-failed, view-success, view-sweep}
use libunftp.FailedLogins.Racing.{
  Race, begin, finish, Reach, here, later, begins, finishes, start, forgotten, locked-begun,
  forgotten-free,
}
use libunftp.FailedLogins.Lockout.{
  after_failures, answers, expected, answers-eq-expected, success-after_failures,
}

abbrev policy : FailedLoginsPolicy
policy = record { max_attempts = 2; expires_after = 60; block_by = user_and_ip }

abbrev bob : Bytes
bob = b'b' ∷ b'o' ∷ b'b' ∷ []

abbrev bob_key : FailedLoginsKey
bob_key = record { ip = some 9; username = some bob }

abbrev other_key : FailedLoginsKey
other_key = record { ip = some 8; username = some bob }

abbrev one_failure : Cache
one_failure = (bob_key, record { attempts = 1; last_attempt_at = 3 }) ∷ []

-- Opens all that a lookup goes through.
pub lookups : Unit {0}
unfolding view get getkey key_eq libunftp.Prelude.bytes_eq is_expired is_locked lock_state failed
    success
lookups = tt

answers-eq-expected_example :
    answers policy 9 bob (1 ∷ 4 ∷ 5 ∷ []) [] ≡ expected policy 9 bob 1 (1 ∷ 4 ∷ 5 ∷ [])
unfolding lookups
answers-eq-expected_example =
    answers-eq-expected policy 9 bob 1 (4 ∷ 5 ∷ []) [] refl (omega arith, (omega arith, tt))
      (omega arith)

success-after_failures_example :
    (success policy 20 9 bob (after_failures policy 9 bob (1 ∷ 4 ∷ []) [])).1
    ≡ (if leb 2 2 && leb (20 - 4) 60 then some already_locked else none)
unfolding lookups
success-after_failures_example =
    success-after_failures policy 9 bob 1 20 (4 ∷ []) [] refl (omega arith, tt) (omega arith)

view-failed_example : view policy 6 bob_key (failed policy 5 9 bob one_failure).0 ≡ (
    if key_eq (getkey policy 9 bob) bob_key
    then live policy 6 (some (next policy 5 (view policy 5 (getkey policy 9 bob) one_failure)))
    else view policy 6 bob_key one_failure)
view-failed_example = view-failed policy 5 6 9 bob one_failure bob_key

view-success_example : view policy 6 bob_key (success policy 5 9 bob one_failure).0 ≡ (
    if key_eq (getkey policy 9 bob) bob_key
      && free policy (view policy 5 (getkey policy 9 bob) one_failure)
    then none
    else view policy 6 bob_key one_failure)
view-success_example = view-success policy 5 6 9 bob one_failure bob_key

-- While the sweeper waits for the write lock, another user fails to log in.
abbrev changed : Cache
changed = (other_key, record { attempts = 1; last_attempt_at = 70 }) ∷ one_failure

view-sweep_example :
    view policy 80 bob_key (sweep policy 70 one_failure changed) ≡ view policy 80 bob_key changed
unfolding lookups
view-sweep_example =
    view-sweep policy 70 80 bob_key one_failure changed (refl, tt) refl (omega arith)

-- An entry that a failure refreshes in between is removed all the same: the failure is forgotten.
sweep-refreshed :
    (view policy 71 bob_key (failed policy 70 9 bob one_failure).0
      ≡ some (record { attempts = 1; last_attempt_at = 70 }))
    × (view policy 71 bob_key (sweep policy 70 one_failure (failed policy 70 9 bob one_failure).0)
        ≡ none)
unfolding lookups sweep libunftp.FailedLogins.insert libunftp.FailedLogins.remove
    libunftp.FailedLogins.counted libunftp.FailedLogins.expired_entries
    libunftp.FailedLogins.remove_all libunftp.FailedLogins.write_section
sweep-refreshed = (refl, refl)

-- A failure, its insertion, and one more failure.
abbrev racing : Race
racing =
    begin policy bob_key 4
      (finish policy bob_key 3 0 (begin policy bob_key 3 (start policy bob_key)))

two_failures : Reach policy bob_key (start policy bob_key) racing
unfolding lookups begin libunftp.FailedLogins.read_section
two_failures =
    later
      (later (later here (begins 3 (start policy bob_key)))
        (finishes 3 0 (begin policy bob_key 3 (start policy bob_key)) refl))
      (begins 4 (finish policy bob_key 3 0 (begin policy bob_key 3 (start policy bob_key))))

locked-begun_example : policy.max_attempts ≤ racing.begun
unfolding lookups begin finish libunftp.FailedLogins.read_section
    libunftp.FailedLogins.write_section libunftp.FailedLogins.insert libunftp.FailedLogins.remove
    libunftp.FailedLogins.counted
locked-begun_example = locked-begun policy 9 bob 20 racing two_failures refl

forgotten-free_example :
    Reach policy bob_key (start policy bob_key) (forgotten policy 9 bob 5 7)
    × (((forgotten policy 9 bob 5 7).begun ≡ 7)
        × ((success policy 7 9 bob (forgotten policy 9 bob 5 7).map).1 ≡ none))
unfolding getkey
forgotten-free_example = forgotten-free policy 9 bob 5 7 (omega arith)
