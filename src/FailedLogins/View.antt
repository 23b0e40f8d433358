-- ===== src/FailedLogins/View.antt =====
-- What the cache of failed logins shows: the entries that have not expired.
use libunftp.Prelude.{
  ℕ, ◌+◌, ◌-◌, ◌%◌, ◌^◌, ◌≤◌, Bytes, ◌≡◌, ◌↔◌, refl, ap, ◌∙◌, Bool, true, false, ◌&&◌, ◌||◌, not,
  Option, none, some, List, [], ◌∷◌, ==_iff, bytes_eq_refl, eq_of_bytes_eq, if◌then◌else◌, arith,
  Bool-cases, inl, inr,
}
use libunftp.FailedLogins.{
  FailedLoginsPolicy, FailedLoginsKey, FailedLoginsEntry, LockState, Cache, ip_eq, username_eq,
  key_eq, get, remove, insert, is_expired, is_locked, getkey, counted, lock_state, read_section,
  after_read, write_section, failed, success, expired_entries, remove_all, sweep, already_locked,
}

ip_eq_refl : (a : Option ℕ) → ip_eq a a ≡ true
unfolding ip_eq
ip_eq_refl none = refl
ip_eq_refl (some a) = ground arith

eq_of_ip_eq : (a b : Option ℕ) → ip_eq a b ≡ true → a ≡ b
unfolding ip_eq
eq_of_ip_eq none none h = refl
eq_of_ip_eq none (some b) h = cc
eq_of_ip_eq (some a) none h = cc
eq_of_ip_eq (some a) (some b) h = ap some ((==_iff a b).0 h)

username_eq_refl : (a : Option Bytes) → username_eq a a ≡ true
unfolding username_eq
username_eq_refl none = refl
username_eq_refl (some a) = bytes_eq_refl a

eq_of_username_eq : (a b : Option Bytes) → username_eq a b ≡ true → a ≡ b
unfolding username_eq
eq_of_username_eq none none h = refl
eq_of_username_eq none (some b) h = cc
eq_of_username_eq (some a) none h = cc
eq_of_username_eq (some a) (some b) h = ap some (eq_of_bytes_eq a b h)

pub key_eq_refl : (k : FailedLoginsKey) → key_eq k k ≡ true
unfolding key_eq
key_eq_refl k = rw (ip_eq_refl k.ip, username_eq_refl k.username)

pub eq_of_key_eq : (a b : FailedLoginsKey) → key_eq a b ≡ true → a ≡ b
unfolding key_eq
eq_of_key_eq a b h = ground (arith, eq_of_ip_eq a.ip b.ip, eq_of_username_eq a.username b.username)

pub key_eq_iff : (a b : FailedLoginsKey) → (key_eq a b ≡ true) ↔ (a ≡ b)
key_eq_iff a b = (eq_of_key_eq a b, λ e. rw e (key_eq_refl b))

pub get-remove :
    (k j : FailedLoginsKey) (map : Cache)
    → get j (remove k map) ≡ (if key_eq k j then none else get j map)
unfolding get remove
get-remove k j [] = ground arith
get-remove k j ((i, e) ∷ map) =
    ground (arith, get-remove k j map, key_eq_iff i k, key_eq_iff i j, key_eq_iff k j)

pub get-insert :
    (k j : FailedLoginsKey) (e : FailedLoginsEntry) (map : Cache)
    → get j (insert k e map) ≡ (if key_eq k j then some e else get j map)
unfolding get insert
get-insert k j e map = ground (arith, get-remove k j map)

-- The map of the program has one entry for each key.
abbrev pub IsUnique : Cache → Type 0
IsUnique [] = Unit
IsUnique ((k, e) ∷ map) = (get k map ≡ none) × IsUnique map

remove-IsUnique : (k : FailedLoginsKey) (map : Cache) → IsUnique map → IsUnique (remove k map)
unfolding remove
remove-IsUnique k [] h = tt
remove-IsUnique k ((j, e) ∷ map) (fresh, h) = elim (Bool-cases (key_eq j k)) [
  | inl same ↦ rw same (remove-IsUnique k map h)
  | inr differ ↦ rw differ (ground (arith, get-remove k j map), remove-IsUnique k map h)
]

insert-IsUnique :
    (k : FailedLoginsKey) (e : FailedLoginsEntry) (map : Cache)
    → IsUnique map
    → IsUnique (insert k e map)
unfolding insert
insert-IsUnique k e map h = (get-remove k k map ∙ rw (key_eq_refl k), remove-IsUnique k map h)

module _ (policy : FailedLoginsPolicy) where
  abbrev pub live : ℕ → Option FailedLoginsEntry → Option FailedLoginsEntry
  live now none = none
  live now (some e) = if is_expired policy (now - e.last_attempt_at) then none else some e

  -- The entry of a key, unless it has expired.
  unfoldable pub view : ℕ → FailedLoginsKey → Cache → Option FailedLoginsEntry
  view now key map = live now (get key map)

  -- Nothing that a view shows forbids a login.
  abbrev pub free : Option FailedLoginsEntry → Bool
  free none = true
  free (some e) = not (is_locked policy e.attempts)

  -- A failed attempt, as the view has it.
  abbrev pub next : ℕ → Option FailedLoginsEntry → FailedLoginsEntry
  next now none = record { attempts = 1; last_attempt_at = now }
  next now (some e) = record { attempts = (e.attempts + 1) % 2 ^ 32; last_attempt_at = now }

  counted-next :
      (now : ℕ) (e : FailedLoginsEntry) → counted policy now e ≡ next now (live now (some e))
  unfolding counted
  counted-next now e = elim (Bool-cases (is_expired policy (now - e.last_attempt_at))) [
    | inl x ↦ rw x
    | inr x ↦ rw x
  ]

  sections-next :
      (now : ℕ) (key : FailedLoginsKey) (map : Cache) (o : Option FailedLoginsEntry)
      → after_read policy now key (read_section policy now key map o) ≡ (
        insert key (next now (live now o)) map,
        lock_state policy (next now (live now o)).attempts,
      )
  unfolding after_read read_section write_section
  sections-next now key map none = refl
  sections-next now key map (some e) = rw (counted-next now e)

  failed-next :
      (now addr : ℕ) (name : Bytes) (map : Cache)
      → failed policy now addr name map ≡ (
          let key = getkey policy addr name in
          let e = next now (view now key map) in (insert key e map, lock_state policy e.attempts))
  unfolding failed view
  failed-next now addr name map =
      let key = getkey policy addr name in sections-next now key map (get key map)

  -- What a client learns of a failed login depends on the view of its key alone.
  pub failed-lock_state :
      (now addr : ℕ) (name : Bytes) (map : Cache)
      → (failed policy now addr name map).1
        ≡ lock_state policy (next now (view now (getkey policy addr name) map)).attempts
  failed-lock_state now addr name map =
      ap (λ (r : Cache × Option LockState). r.1) (failed-next now addr name map)

  -- A failed login changes what is seen of its own key, then and later, to the entry with one attempt
  -- more, or with one where none was seen; and it changes what is seen of no other key.
  pub view-failed :
      (now later addr : ℕ) (name : Bytes) (map : Cache) (j : FailedLoginsKey)
      → view later j (failed policy now addr name map).0 ≡ (
          let key = getkey policy addr name in
          if key_eq key j
          then live later (some (next now (view now key map)))
          else view later j map)
  view-failed now later addr name map j = rw (failed-next now addr name map) (
      unfold view in
      ground (
        arith,
        get-insert (getkey policy addr name) j
            (next now (live now (get (getkey policy addr name) map))) map,
      ))

  -- A successful login is refused exactly while the view of its key is locked.
  pub success-lock_state :
      (now addr : ℕ) (name : Bytes) (map : Cache)
      → (success policy now addr name map).1 ≡ elim (view now (getkey policy addr name) map) [
        | none ↦ none
        | some e ↦ if is_locked policy e.attempts then some already_locked else none
      ]
  unfolding success view
  success-lock_state now addr name map = ground arith

  -- A login with the right password makes its own key invisible where it is not locked, and changes
  -- the view of no other key and of no locked one.
  pub view-success :
      (now later addr : ℕ) (name : Bytes) (map : Cache) (j : FailedLoginsKey)
      → view later j (success policy now addr name map).0 ≡ (
          if key_eq (getkey policy addr name) j && free (view now (getkey policy addr name) map)
          then none
          else view later j map)
  unfolding success view
  view-success now later addr name map j =
      ground
        (arith, get-remove (getkey policy addr name) j map, key_eq_iff (getkey policy addr name) j)

  abbrev listed : FailedLoginsKey → List FailedLoginsKey → Bool
  listed j [] = false
  listed j (k ∷ ks) = key_eq k j || listed j ks

  get-remove_all :
      (j : FailedLoginsKey) (ks : List FailedLoginsKey) (map : Cache)
      → get j (remove_all policy ks map) ≡ (if listed j ks then none else get j map)
  unfolding remove_all
  get-remove_all j [] map = refl
  get-remove_all j (k ∷ ks) map =
      ground (arith, get-remove_all j ks (remove k map), get-remove k j map)

  abbrev gone : ℕ → Option FailedLoginsEntry → Bool
  gone now none = false
  gone now (some e) = is_expired policy (now - e.last_attempt_at)

  listed-expired_entries :
      (now : ℕ) (j : FailedLoginsKey) (map : Cache)
      → IsUnique map
      → listed j (expired_entries policy now map) ≡ gone now (get j map)
  unfolding expired_entries get
  listed-expired_entries now j [] h = refl
  listed-expired_entries now j ((k, e) ∷ map) (fresh, h) =
      ground (arith, listed-expired_entries now j map h, key_eq_iff k j)

  -- What has expired stays expired.
  live-gone :
      (now later : ℕ) (o : Option FailedLoginsEntry)
      → now ≤ later
      → live later (if gone now o then none else o) ≡ live later o
  unfolding is_expired
  live-gone now later none h = refl
  live-gone now later (some e) h = ground arith

  -- A round of the sweeper finds the expired keys in a cache with one entry for each key, and removes
  -- them from what the cache has become when it takes the write lock. It does not change what is seen,
  -- at the time of the round or later, of any key whose entry has not changed in between.
  pub view-sweep :
      (now later : ℕ) (j : FailedLoginsKey) (seen map : Cache)
      → IsUnique seen
      → get j map ≡ get j seen
      → now ≤ later
      → view later j (sweep policy now seen map) ≡ view later j map
  unfolding sweep view
  view-sweep now later j seen map unique same h =
      rw
        (
          get-remove_all j (expired_entries policy now seen) map,
          listed-expired_entries now j seen unique,
          same,
        )
        (live-gone now later (get j seen) h)

  remove_all-IsUnique :
      (ks : List FailedLoginsKey) (map : Cache) → IsUnique map → IsUnique (remove_all policy ks map)
  unfolding remove_all
  remove_all-IsUnique [] map h = h
  remove_all-IsUnique (k ∷ ks) map h =
      remove_all-IsUnique ks (remove k map) (remove-IsUnique k map h)

  -- A failed login, a login with the right password and a round of the sweeper leave one entry for
  -- each key in a cache that has one for each.
  pub failed-success-sweep-IsUnique :
      (now addr : ℕ) (name : Bytes) (seen map : Cache)
      → IsUnique map
      → IsUnique (failed policy now addr name map).0
        × IsUnique (success policy now addr name map).0
        × IsUnique (sweep policy now seen map)
  unfolding success sweep
  failed-success-sweep-IsUnique now addr name seen map h = (
    rw (failed-next now addr name map) (insert-IsUnique _ _ map h),
    ground (arith, h, remove-IsUnique (getkey policy addr name) map h),
    remove_all-IsUnique (expired_entries policy now seen) map h,
  )
