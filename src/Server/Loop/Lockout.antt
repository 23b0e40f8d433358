-- ===== src/Server/Loop/Lockout.antt =====
-- A locked key and the task of PASS.
use libunftp.Prelude.{
  ℕ, ◌+◌, ◌-◌, ◌≤◌, ◌<◌, ◌^◌, Bytes, ◌≡◌, ◌∙◌, length, Option, none, some, List, ◌∷◌, arith, refl,
}
use libunftp.FailedLogins.{FailedLoginsPolicy, Cache, LockState, already_locked, getkey, success}
use libunftp.FailedLogins.View.{view}
use libunftp.FailedLogins.Lockout.{IsRow, last_of, after_failures, success-after_failures}
use libunftp.Server.Session.{Session}
use libunftp.Server.Messages.{auth_failed}
use libunftp.Server.Handled.{Env, Credentials, authenticated}
use libunftp.Server.Tasks.{run_log_in, succeeded, log_in_unlocked, log_in_result}

module _ {User : Type 0} (env : Env User) (policy : FailedLoginsPolicy) (name : Bytes)
    (creds : Credentials) where
  locked :
      (t : ℕ) (ts : List ℕ) (map : Cache)
      → view policy t (getkey policy creds.source_ip name) map ≡ none
      → IsRow policy.expires_after t ts
      → 1 + length ts < 2 ^ 32
      → policy.max_attempts ≤ 1 + length ts
      → env.now - last_of t ts ≤ policy.expires_after
      → (success policy env.now creds.source_ip name
          (after_failures policy creds.source_ip name (t ∷ ts) map)).1
        ≡ some already_locked
  locked t ts map v row fits m l =
      success-after_failures policy creds.source_ip name t env.now ts map v row fits ∙ ground arith

  refused-locked :
      (u : User) (s : Session User) (r : Cache × Option LockState)
      → r.1 ≡ some already_locked
      → ((log_in_unlocked env name u s r).msg ≡ auth_failed)
        × ((log_in_unlocked env name u s r).session ≡ s)
  unfolding log_in_unlocked
  refused-locked u s (cache, o) e = simp e (refl, refl)

  -- After a row of failed logins, each made while the one before it is remembered, that began with
  -- nothing seen of the key and reached the limit of the policy, and while its last attempt is
  -- remembered, the task of PASS ends with `auth_failed` and leaves the session as it was, although
  -- the authenticator accepts the password.
  pub run_log_in-locked :
      (u : User) (s : Session User) (t : ℕ) (ts : List ℕ) (map : Cache)
      → env.authenticate name creds ≡ authenticated u
      → view policy t (getkey policy creds.source_ip name) map ≡ none
      → IsRow policy.expires_after t ts
      → 1 + length ts < 2 ^ 32
      → policy.max_attempts ≤ 1 + length ts
      → env.now - last_of t ts ≤ policy.expires_after
      → let r =
          run_log_in env
            (some policy)
            name
            creds
            s
            (after_failures policy creds.source_ip name (t ∷ ts) map) in
        (r.msg ≡ auth_failed) × (r.session ≡ s)
  unfolding run_log_in succeeded log_in_result
  run_log_in-locked u s t ts map a v row fits m l =
      simp a (refused-locked u s _ (locked t ts map v row fits m l))
