-- ===== src/FailedLogins.antt =====
-- src/server/failed_logins.rs: the cache of failed logins, and the policy of
-- src/server/ftpserver/options.rs. The map is an association list with one entry for each key; time
-- is a number of nanoseconds, and an elapsed time is 0 where the clock was set back.
pub mod View
pub mod Lockout
pub mod Racing
pub mod Tests
use libunftp.Prelude.{
  ℕ, suc, ◌+◌, ◌-◌, ◌%◌, ◌^◌, Bytes, Bool, true, false, ◌&&◌, Option, none, some, List, [], ◌∷◌,
  leb, ltb, ◌==◌, bytes_eq, if◌then◌else◌,
}

pub data FailedLoginsBlock : Type 0 where
  user_and_ip ip user : FailedLoginsBlock

pub record FailedLoginsPolicy : Type 0 where
  pub max_attempts : ℕ
  pub expires_after : ℕ
  pub block_by : FailedLoginsBlock

pub record FailedLoginsKey : Type 0 where
  pub ip : Option ℕ
  pub username : Option Bytes

pub record FailedLoginsEntry : Type 0 where
  pub attempts : ℕ
  pub last_attempt_at : ℕ

pub data LockState : Type 0 where
  max_failures_reached already_locked : LockState

abbrev pub Cache : Type 0
Cache = List (FailedLoginsKey × FailedLoginsEntry)

-- The derived `Eq` of the keys.
ip_eq : Option ℕ → Option ℕ → Bool
ip_eq none none = true
ip_eq (some a) (some b) = a == b
ip_eq _ _ = false

username_eq : Option Bytes → Option Bytes → Bool
username_eq none none = true
username_eq (some a) (some b) = bytes_eq a b
username_eq _ _ = false

unfoldable pub key_eq : FailedLoginsKey → FailedLoginsKey → Bool
unfolding ip_eq username_eq
key_eq a b = ip_eq a.ip b.ip && username_eq a.username b.username

-- `HashMap::get`, `remove` and `insert`.
unfoldable pub get : FailedLoginsKey → Cache → Option FailedLoginsEntry
get key [] = none
get key ((k, e) ∷ map) = if key_eq k key then some e else get key map

unfoldable pub remove : FailedLoginsKey → Cache → Cache
remove key [] = []
remove key ((k, e) ∷ map) =
    let rest = remove key map in if key_eq k key then rest else (k, e) ∷ rest

unfoldable pub insert : FailedLoginsKey → FailedLoginsEntry → Cache → Cache
unfolding remove
insert key e map = (key, e) ∷ remove key map

module _ (policy : FailedLoginsPolicy) where
  unfoldable pub is_expired : ℕ → Bool
  is_expired time_elapsed = ltb policy.expires_after time_elapsed

  unfoldable pub is_locked : ℕ → Bool
  is_locked attempts = leb policy.max_attempts attempts

  unfoldable pub getkey : ℕ → Bytes → FailedLoginsKey
  getkey addr name = elim policy.block_by [
    | user_and_ip ↦ record { ip = some addr; username = some name }
    | ip ↦ record { ip = some addr; username = none }
    | user ↦ record { ip = none; username = some name }
  ]

  -- `attempts` is a `u32`.
  abbrev pub u32 : ℕ
  u32 = 2 ^ 32

  -- The entry after one more failed attempt, which is made at `now`.
  unfoldable pub counted : ℕ → FailedLoginsEntry → FailedLoginsEntry
  unfolding is_expired
  counted now e = record {
    attempts = if is_expired (now - e.last_attempt_at) then 1 else (e.attempts + 1) % u32;
    last_attempt_at = now;
  }

  unfoldable pub lock_state : ℕ → Option LockState
  lock_state attempts =
      if attempts == policy.max_attempts
      then some max_failures_reached
      else if ltb policy.max_attempts attempts
      then some already_locked
      else none

  -- `failed` in its two critical sections. Under the read lock an entry that is there is counted up:
  read_section : ℕ → FailedLoginsKey → Cache → Option FailedLoginsEntry → Cache × Option ℕ
  read_section now key map none = (map, none)
  read_section now key map (some e) =
      (insert key (counted now e) map, some (counted now e).attempts)

  -- and otherwise a new one is inserted under the write lock, which is taken afterwards.
  unfoldable pub write_section : ℕ → FailedLoginsKey → Cache → Cache
  write_section now key map = insert key (record { attempts = 1; last_attempt_at = now }) map

  after_read : ℕ → FailedLoginsKey → Cache × Option ℕ → Cache × Option LockState
  after_read now key (map, some attempts) = (map, lock_state attempts)
  after_read now key (map, none) = (write_section now key map, lock_state 1)

  -- A call of `failed` that no other call comes between.
  unfoldable pub failed : ℕ → ℕ → Bytes → Cache → Cache × Option LockState
  unfolding read_section after_read write_section
  failed now addr name map =
      let key = getkey addr name in after_read now key (read_section now key map (get key map))

  unfoldable pub success : ℕ → ℕ → Bytes → Cache → Cache × Option LockState
  success now addr name map =
      let key = getkey addr name in
      elim (get key map) [
        | none ↦ (map, none)
        | some e ↦
            if is_expired (now - e.last_attempt_at)
            then (remove key map, none)
            else if is_locked e.attempts
            then (map, some already_locked)
            else (remove key map, none)
      ]

  -- The keys that one round of `sweeper` finds expired in the cache that it sees under the read lock,
  -- and their removal from what the cache has become when it has the write lock.
  unfoldable pub expired_entries : ℕ → Cache → List FailedLoginsKey
  expired_entries now [] = []
  expired_entries now ((k, e) ∷ map) =
      let rest = expired_entries now map in
      if is_expired (now - e.last_attempt_at) then k ∷ rest else rest

  unfoldable pub remove_all : List FailedLoginsKey → Cache → Cache
  remove_all [] map = map
  remove_all (k ∷ ks) map = remove_all ks (remove k map)

  -- The keys are found in the cache as it is under the read lock, and removed from what it has become
  -- when the write lock is taken.
  unfoldable pub sweep : ℕ → (seen map : Cache) → Cache
  unfolding expired_entries remove_all
  sweep now seen map = remove_all (expired_entries now seen) map
